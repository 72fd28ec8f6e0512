-- ===== src/Manager/Compose.antt =====
-- Two scans one after the other, and the scan of one event, as scans of lists of events.
use pth.Base.{
  ◌≡◌, refl, ◌∙◌, sym, ap, true, false, not, ◌||◌, List, [], ◌∷◌, ◌++◌, arith, if◌then◌else◌, Ptr,
  has, has-append, Bool-cases, inl, inr,
}
use pth.Event.{occurred}
use pth.Manager.{State}
use pth.Manager.Conds.{waits_for, Step}
use pth.Manager.Signals.{
  any_waiting, first_waiting, Scanned, any_waiting-append, any_waiting-of, first_waiting-append,
  first_waiting-has, waits_for-same, any_waiting-same, first_waiting-same,
}

module _ (c : Ptr) where
  pub Scanned-nil : (s : State) → Scanned c [] s s
  Scanned-nil s = record {
    others = λ u out. refl;
    args = λ u. refl;
    ring = refl;
    threads = refl;
    signaled = refl;
    broadcast = refl;
    handled = λ h k. ground arith;
    status = λ h k u i w. absurd (cc);
  }

  pub Step-Scanned :
      (e : Ptr) (s s1 : State) → Step c e (waits_for c s e) s s1 → Scanned c (e ∷ []) s s1
  Step-Scanned e s s1 h = record {
    others = λ u out. h.others u (ground arith);
    args = h.args;
    ring = h.ring;
    threads = h.threads;
    signaled = h.signaled;
    broadcast = h.broadcast;
    handled = λ p q. h.handled p q ∙ ground arith;
    status = λ p q u i w.
        let eq : u ≡ e = ground arith in
        let w' : waits_for c s e ≡ true = ap (waits_for c s) (sym eq) ∙ w in
        rw eq (h.status p q w' ∙ rw w' (ground arith));
  }

  module _ (xs ys : List Ptr) (s s1 s2 : State) (h : Scanned c xs s s1) (k : Scanned c ys s1 s2)
      (apart : (u : Ptr) → has u ys ≡ true → has u xs ≡ false) where
    append-handled :
        (s.cond c).signaled ≡ true
        → (s.cond c).broadcast ≡ false
        → (s2.cond c).handled ≡ ((s.cond c).handled || any_waiting c s (xs ++ ys))
    append-handled p q =
        k.handled (h.signaled ∙ p) (h.broadcast ∙ q)
        ∙ rw (h.handled p q, any_waiting-same c xs s s1 h ys apart, any_waiting-append c s xs ys)
            (ground arith)

    append-status :
        (s.cond c).signaled ≡ true
        → (s.cond c).broadcast ≡ false
        → (u : Ptr) → has u (xs ++ ys) ≡ true
        → waits_for c s u ≡ true
        → s2.events.ev_status u ≡ (
            if (s.cond c).handled || not (first_waiting c s (xs ++ ys) u)
            then s.events.ev_status u
            else occurred)
    append-status p q u i w = elim (Bool-cases (has u xs)) [
      | inl inside ↦
          let out : has u ys ≡ false = ground (arith, apart u) in
          k.others u out
          ∙ h.status p q u inside w
          ∙ rw (first_waiting-append c s xs ys u, any_waiting-of c s xs u inside w) refl
      | inr outside ↦
          let within : has u ys ≡ true = ground (arith, has-append u xs ys) in
          let w1 = waits_for-same c xs s s1 h u outside ∙ w in
          k.status (h.signaled ∙ p) (h.broadcast ∙ q) u within w1
          ∙ rw
              (
                h.handled p q,
                first_waiting-same c xs s s1 h ys u apart,
                h.others u outside,
                first_waiting-append c s xs ys u,
              )
              (elim (Bool-cases (any_waiting c s xs)) [
                | inl o ↦ rw (o, first_waiting-has c s xs u outside) (ground arith)
                | inr o ↦ rw o (ground arith)
              ])
    ]

    pub Scanned-append : Scanned c (xs ++ ys) s s2
    Scanned-append = record {
      others = λ u out.
          k.others u (ground (arith, has-append u xs ys))
          ∙ h.others u (ground (arith, has-append u xs ys));
      args = λ u. k.args u ∙ h.args u;
      ring = k.ring ∙ h.ring;
      threads = k.threads ∙ h.threads;
      signaled = k.signaled ∙ h.signaled;
      broadcast = k.broadcast ∙ h.broadcast;
      handled = append-handled;
      status = append-status;
    }
