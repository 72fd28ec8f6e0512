-- ===== src/Manager/Once.antt =====
-- The scan of all events put together from the scans of the single events.
use pth.Base.{
  ℕ, ◌≡◌, refl, ◌∙◌, sym, ap, Bool, true, false, not, ◌||◌, List, [], ◌∷◌, ◌++◌, arith, ◌==◌,
  if◌then◌else◌, Ptr, has, Distinct, Distinct-append, Bool-cases, inl, inr, subst, ne_of_has,
}
use pth.Time.{Time}
use pth.Event.{occurred}
use pth.Pqueue.Spec.{Entry}
use pth.Manager.{State, Polls}
use pth.Manager.Scan.{scan_event, scan_ring, scan_thread, scan_all, unblock}
use pth.Manager.Conds.{waits_for, scan_event-Step}
use pth.Manager.Signals.{any_waiting, first_waiting, Scanned, any_waiting-of}
use pth.Manager.Compose.{Scanned-nil, Step-Scanned, Scanned-append}

-- The events of waiting threads, in the order of the scan.
abbrev pub events_of : (Ptr → List Ptr) → List Entry → List Ptr
events_of ring [] = []
events_of ring (x ∷ xs) = ring x.0 ++ events_of ring xs

module _ (c : Ptr) (func : Ptr → Ptr → Bool) (now : Time) where
  scan_ring-Scanned :
      (t : Ptr) (es : List Ptr) (s : State) (p : Polls)
      → Distinct es
      → Scanned c es s (scan_ring func now t es (s, p)).0
  unfolding scan_ring
  scan_ring-Scanned t [] s p d = Scanned-nil c s
  scan_ring-Scanned t (e ∷ es) s p d =
      let r = scan_event func now t e (s, p) in
      Scanned-append c (e ∷ []) es s r.0 (scan_ring func now t es r).0
        (Step-Scanned c e s r.0 (scan_event-Step c func now t e s p))
        (scan_ring-Scanned t es r.0 r.1 d.1) (λ u i. ground (arith, ne_of_has e u es d.0 i))

  -- The blocked signals are of no concern.
  Scanned-start :
      (es : List Ptr) (s s1 : State) (block : ℕ → Bool)
      → Scanned c es (record s { pth_sigblock = block }) s1
      → Scanned c es s s1
  Scanned-start es s s1 block h = record {
    others = h.others;
    args = h.args;
    ring = h.ring;
    threads = h.threads;
    signaled = h.signaled;
    broadcast = h.broadcast;
    handled = λ p q. h.handled p q ∙ ap (λ b. (s.cond c).handled || b) (waiting-start es);
    status = λ p q u i w.
        h.status p q u i w
        ∙ ap (λ b. if (s.cond c).handled || not b then s.events.ev_status u else occurred)
            (first-start es u);
  }
    where
      waiting-start :
          (ys : List Ptr)
          → any_waiting c (record s { pth_sigblock = block }) ys ≡ any_waiting c s ys
      waiting-start [] = refl
      waiting-start (y ∷ ys) = ap (λ b. waits_for c s y || b) (waiting-start ys)

      first-start :
          (ys : List Ptr) (u : Ptr)
          → first_waiting c (record s { pth_sigblock = block }) ys u ≡ first_waiting c s ys u
      first-start [] u = refl
      first-start (y ∷ ys) u = ap (λ b. if waits_for c s y then y == u else b) (first-start ys u)

  scan_thread-Scanned :
      (t : Ptr) (s : State) (p : Polls)
      → Distinct (s.ring t)
      → Scanned c (s.ring t) s (scan_thread func now t (s, p)).0
  unfolding scan_thread
  scan_thread-Scanned t s p d =
      let block = unblock 31 1 (s.mctx_sigs t) s.pth_sigblock in
      Scanned-start (s.ring t) s _ block
        (scan_ring-Scanned t (s.ring t) (record s { pth_sigblock = block }) _ d)

  pub scan_all-Scanned :
      (xs : List Entry) (s : State) (p : Polls)
      → Distinct (events_of s.ring xs)
      → Scanned c (events_of s.ring xs) s (scan_all func now xs (s, p)).0
  unfolding scan_all
  scan_all-Scanned [] s p d = Scanned-nil c s
  scan_all-Scanned (x ∷ xs) s p d =
      let (d1, d2, apart) = Distinct-append (s.ring x.0) (events_of s.ring xs) d in
      let r = scan_thread func now x.0 (s, p) in
      let h = scan_thread-Scanned x.0 s p d1 in
      let k : Scanned c (events_of s.ring xs) r.0 (scan_all func now xs r).0 =
        subst (λ g. Scanned c (events_of g xs) r.0 (scan_all func now xs r).0) h.ring
          (scan_all-Scanned xs r.0 r.1 (subst (λ g. Distinct (events_of g xs)) (sym h.ring) d2)) in
      Scanned-append c (s.ring x.0) (events_of s.ring xs) s r.0 (scan_all func now xs r).0 h k
        (λ u i. elim (Bool-cases (has u (s.ring x.0))) [
          | inl q ↦ absurd (ground (arith, apart u q))
          | inr q ↦ q
        ])

  -- If no event stands twice in the rings of the threads that are scanned and a condition variable
  -- is signaled, not broadcast and not handled, then of the pending events on it only the first in
  -- the order of the scan becomes occurred, the others keep their status, and the variable is
  -- marked as handled.
  pub signal-one :
      (xs : List Entry) (s : State) (p : Polls) (u : Ptr)
      → Distinct (events_of s.ring xs)
      → (s.cond c).signaled ≡ true
      → (s.cond c).broadcast ≡ false
      → (s.cond c).handled ≡ false
      → has u (events_of s.ring xs) ≡ true
      → waits_for c s u ≡ true
      → let s1 = (scan_all func now xs (s, p)).0 in
        (s1.events.ev_status u
          ≡ (if first_waiting c s (events_of s.ring xs) u then occurred else s.events.ev_status u))
        × ((s1.cond c).handled ≡ true)
  signal-one xs s p u d sig one fresh i w =
      let h = scan_all-Scanned xs s p d in
      (
        h.status sig one u i w ∙ rw fresh (ground arith),
        h.handled sig one ∙ rw (fresh, any_waiting-of c s (events_of s.ring xs) u i w) refl,
      )
