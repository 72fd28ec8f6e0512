-- ===== src/Event/Walk.antt =====
-- `pth_event_walk`: the next event of a ring, or the next that has occurred.
use pth.Base.{
  ℕ, zero, suc, ◌<◌, ◌≡◌, refl, ◌≢◌, ◌∙◌, ap, Bool, true, false, not, ◌&&◌, ◌||◌, some, List, [],
  ◌∷◌, arith, Ptr, null, has, ==_ne, ◌==◌, if◌then◌else◌, length, Bool-cases, inl, inr, has-split,
}
use pth.Cycle.{Links, Linked, Cyclic, Cyclic-next-has}
use pth.Event.{Mem, bit}
use pth.Event.Cycles.{is_occurred, walk, walk_loop, walk_step, at, endless}

abbrev pub done : Mem → Ptr → Bool
done m e = is_occurred (m.ev_status e)

abbrev pub any : (Ptr → Bool) → List Ptr → Bool
any p [] = false
any p (x ∷ xs) = p x || any p xs

-- The first event of a list that has occurred, or `b`.
abbrev pub first_done : Mem → List Ptr → Ptr → Ptr
first_done m [] b = b
first_done m (x ∷ xs) b = if done m x then x else first_done m xs b

module _ (direction : ℕ) (m : Mem) (forth : bit 1 direction ≡ true) where
  step_next : (a x : Ptr) → m.links.next a ≡ x → walk_step direction a m ≡ some x
  unfolding walk_step
  step_next a x h = rw forth (ap some h)

  walk_loop-step :
      (k : ℕ) (a x : Ptr)
      → m.links.next a ≡ x
      → walk_loop (suc k) direction a m
        ≡ (if bit 11 direction && not (done m x) then walk_loop k direction x m else at x)
  unfolding walk_loop
  walk_loop-step k a x h = rw (walk_loop, step_next a x h) (ground arith)

  module _ (until : bit 11 direction ≡ true) where
    walk_loop-hit :
        (k : ℕ) (a x : Ptr)
        → m.links.next a ≡ x
        → done m x ≡ true
        → walk_loop (suc k) direction a m ≡ at x
    walk_loop-hit k a x h o = walk_loop-step k a x h ∙ rw (until, o) refl

    walk_loop-miss :
        (k : ℕ) (a x : Ptr)
        → m.links.next a ≡ x
        → done m x ≡ false
        → walk_loop (suc k) direction a m ≡ walk_loop k direction x m
    walk_loop-miss k a x h o = walk_loop-step k a x h ∙ rw (until, o) refl

    walk_loop-Linked :
        (k : ℕ) (a : Ptr) (xs : List Ptr) (b : Ptr)
        → length xs < k
        → Linked m.links a xs b
        → (any (done m) xs || done m b) ≡ true
        → walk_loop k direction a m ≡ at (first_done m xs b)
    walk_loop-Linked zero a xs b enough h o = absurd (omega arith)
    walk_loop-Linked (suc k) a [] b enough h o = walk_loop-hit k a b h.0 o
    walk_loop-Linked (suc k) a (x ∷ xs) b enough h o = elim (Bool-cases (done m x)) [
      | inl q ↦ rw q (walk_loop-hit k a x h.0 q)
      | inr q ↦
          rw q
            (walk_loop-miss k a x h.0 q ∙ walk_loop-Linked k x xs b (omega arith) h.2 (rw q at o))
    ]

    -- No event of a ring has occurred.
    abbrev Quiet : List Ptr → Type 0
    Quiet xs = (u : Ptr) → has u xs ≡ true → (done m u ≡ false) × (has (m.links.next u) xs ≡ true)

    walk_loop-endless :
        (xs : List Ptr) (k : ℕ) (a : Ptr)
        → Quiet xs
        → has a xs ≡ true
        → walk_loop k direction a m ≡ endless
    walk_loop-endless xs zero a quiet i = unfold walk_loop in refl
    walk_loop-endless xs (suc k) a quiet i =
        let n = m.links.next a in
        let inside = (quiet a i).1 in
        walk_loop-miss k a n refl (quiet n inside).0 ∙ walk_loop-endless xs k n quiet inside

next-has :
    (l : Links) (xs : List Ptr) (u : Ptr) → Cyclic l xs → has u xs ≡ true → has (l.next u) xs ≡ true
next-has l xs u h i =
    let (ys, (zs, p)) = has-split u xs i in rw p (Cyclic-next-has l ys u zs (rw p at h))

none_done :
    (m : Mem) (xs : List Ptr) (u : Ptr)
    → any (done m) xs ≡ false
    → has u xs ≡ true
    → done m u ≡ false
none_done m [] u h i = absurd (cc)
none_done m (x ∷ xs) u h i = elim (Bool-cases (u == x)) [
  | inl q ↦ let e : u ≡ x = ground arith in ap (done m) e ∙ ground arith
  | inr q ↦ none_done m xs u (ground arith) (ground arith)
]

module _ (direction : ℕ) (e : Ptr) (xs : List Ptr) (m : Mem) where
  -- With PTH_WALK_NEXT and PTH_UNTIL_OCCURRED and more fuel than other events, pth_event_walk ends
  -- at the first event of the ring behind the given one, that one last, that has occurred; if no
  -- event of the ring has, it is still walking, whatever fuel it is given.
  pub walk-occurred :
      (fuel : ℕ)
      → bit 1 direction ≡ true
      → bit 11 direction ≡ true
      → e ≢ null
      → Cyclic m.links (e ∷ xs)
      → length xs < fuel
      → walk fuel direction e m
        ≡ (if any (done m) (e ∷ xs) then at (first_done m xs e) else endless)
  unfolding walk
  walk-occurred fuel forth until en h enough = elim (Bool-cases (any (done m) (e ∷ xs))) [
    | inl o ↦
        rw (==_ne e null en, o)
          (walk_loop-Linked direction m forth until fuel e xs e enough h (ground arith))
    | inr quiet ↦
        rw (==_ne e null en, quiet)
          (walk_loop-endless direction m forth until (e ∷ xs) fuel e
            (λ u i. (none_done m (e ∷ xs) u quiet i, next-has m.links (e ∷ xs) u h i))
            (ground arith))
  ]
