-- ===== src/Manager/Signals.antt =====
-- Condition variables in the scan of all events: a signal reaches one waiting thread.
use pth.Base.{
  ◌≡◌, refl, ◌∙◌, sym, ap, Bool, true, false, not, ◌||◌, List, [], ◌∷◌, ◌++◌, arith, ◌==◌,
  if◌then◌else◌, Ptr, has, Bool-cases, inl, inr,
}
use pth.Event.{occurred}
use pth.Manager.{State}
use pth.Manager.Conds.{waits_for}

module _ (c : Ptr) where
  abbrev pub any_waiting : State → List Ptr → Bool
  any_waiting s [] = false
  any_waiting s (e ∷ es) = waits_for c s e || any_waiting s es

  -- The event is the first of the list that waits.
  abbrev pub first_waiting : State → List Ptr → Ptr → Bool
  first_waiting s [] u = false
  first_waiting s (e ∷ es) u = if waits_for c s e then e == u else first_waiting s es u

  pub record Scanned (es : List Ptr) (s s1 : State) : Type 0 where
    pub others : (u : Ptr) → has u es ≡ false → s1.events.ev_status u ≡ s.events.ev_status u
    pub args : (u : Ptr) → s1.events.ev_args u ≡ s.events.ev_args u
    pub ring : s1.ring ≡ s.ring
    pub threads : s1.threads ≡ s.threads
    pub signaled : (s1.cond c).signaled ≡ (s.cond c).signaled
    pub broadcast : (s1.cond c).broadcast ≡ (s.cond c).broadcast
    pub handled :
        (s.cond c).signaled ≡ true
        → (s.cond c).broadcast ≡ false
        → (s1.cond c).handled ≡ ((s.cond c).handled || any_waiting s es)
    pub status :
        (s.cond c).signaled ≡ true
        → (s.cond c).broadcast ≡ false
        → (u : Ptr) → has u es ≡ true
        → waits_for c s u ≡ true
        → s1.events.ev_status u ≡ (
            if (s.cond c).handled || not (first_waiting s es u)
            then s.events.ev_status u
            else occurred)

  pub any_waiting-append :
      (s : State) (xs ys : List Ptr)
      → any_waiting s (xs ++ ys) ≡ (any_waiting s xs || any_waiting s ys)
  any_waiting-append s [] ys = refl
  any_waiting-append s (x ∷ xs) ys = ground (arith, any_waiting-append s xs ys)

  pub any_waiting-of :
      (s : State) (xs : List Ptr) (u : Ptr)
      → has u xs ≡ true
      → waits_for c s u ≡ true
      → any_waiting s xs ≡ true
  any_waiting-of s [] u h w = absurd (cc)
  any_waiting-of s (x ∷ xs) u h w = elim (Bool-cases (u == x)) [
    | inl q ↦
        let e : u ≡ x = ground arith in
        let w' : waits_for c s x ≡ true = ap (waits_for c s) (sym e) ∙ w in rw w' refl
    | inr q ↦ ground (arith, any_waiting-of s xs u)
  ]

  pub first_waiting-append :
      (s : State) (xs ys : List Ptr) (u : Ptr)
      → first_waiting s (xs ++ ys) u
        ≡ (if any_waiting s xs then first_waiting s xs u else first_waiting s ys u)
  first_waiting-append s [] ys u = refl
  first_waiting-append s (x ∷ xs) ys u = elim (Bool-cases (waits_for c s x)) [
    | inl q ↦ rw q refl
    | inr q ↦ rw q (first_waiting-append s xs ys u)
  ]

  pub first_waiting-has :
      (s : State) (xs : List Ptr) (u : Ptr) → has u xs ≡ false → first_waiting s xs u ≡ false
  first_waiting-has s [] u h = refl
  first_waiting-has s (x ∷ xs) u h = elim (Bool-cases (waits_for c s x)) [
    | inl q ↦ rw q (ground arith)
    | inr q ↦ rw q (first_waiting-has s xs u (ground arith))
  ]

  module _ (es : List Ptr) (s s1 : State) (h : Scanned es s s1) where
    pub waits_for-same : (u : Ptr) → has u es ≡ false → waits_for c s1 u ≡ waits_for c s u
    waits_for-same u out = rw (h.others u out, h.args u) refl

    pub any_waiting-same :
        (ys : List Ptr)
        → ((u : Ptr) → has u ys ≡ true → has u es ≡ false)
        → any_waiting s1 ys ≡ any_waiting s ys
    any_waiting-same [] apart = refl
    any_waiting-same (y ∷ ys) apart =
        rw (waits_for-same y (apart y (ground arith)))
          (ap (λ b. waits_for c s y || b) (any_waiting-same ys (λ u i. apart u (ground arith))))

    pub first_waiting-same :
        (ys : List Ptr) (u : Ptr)
        → ((v : Ptr) → has v ys ≡ true → has v es ≡ false)
        → first_waiting s1 ys u ≡ first_waiting s ys u
    first_waiting-same [] u apart = refl
    first_waiting-same (y ∷ ys) u apart = rw (waits_for-same y (apart y (ground arith))) (
        ap (λ b. if waits_for c s y then y == u else b)
          (first_waiting-same ys u (λ v i. apart v (ground arith))))
