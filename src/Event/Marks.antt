-- ===== src/Event/Marks.antt =====
-- The loops of `pth_wait` over the events of a ring.
use pth.Base.{
  ℕ, zero, suc, ◌+◌, ◌<◌, ◌≡◌, refl, ◌≢◌, ◌∙◌, sym, ap, true, false, not, ◌&&◌, some, List, [], ◌∷◌,
  arith, Ptr, null, has, ==_ne, ==_self, if◌then◌else◌, length, Distinct, subst, Bool-cases, inl,
  inr,
}
use pth.Cycle.{Linked, Cyclic}
use pth.Event.{Mem, pending, set_status}
use pth.Event.Cycles.{is_pending, mark_loop, count_loop, Woken, counted, exits, after_wait, wait}

-- The events of `xs` are pending, and all else is as before.
pub record Marked (xs : List Ptr) (m m1 : Mem) : Type 0 where
  pub same_links : m1.links ≡ m.links
  pub inside : (u : Ptr) → has u xs ≡ true → m1.ev_status u ≡ pending
  pub outside : (u : Ptr) → has u xs ≡ false → m1.ev_status u ≡ m.ev_status u

module _ (ring : Ptr) where
  mark_loop-last :
      (k : ℕ) (a : Ptr) (m : Mem)
      → m.links.next a ≡ ring
      → mark_loop (suc k) ring a m ≡ some (set_status a pending m)
  unfolding mark_loop
  mark_loop-last k a m h = rw (mark_loop, h, ==_self ring) refl

  mark_loop-next :
      (k : ℕ) (a x : Ptr) (m : Mem)
      → m.links.next a ≡ x
      → x ≢ ring
      → mark_loop (suc k) ring a m ≡ mark_loop k ring x (set_status a pending m)
  unfolding mark_loop
  mark_loop-next k a x m h ne =
      rw (mark_loop, h, ==_ne x ring ne) (ap (λ n. mark_loop k ring n (set_status a pending m)) h)

  mark_loop-Marked :
      (k : ℕ) (a : Ptr) (xs : List Ptr) (m : Mem)
      → length xs < k
      → has ring xs ≡ false
      → Linked m.links a xs ring
      → (m1 : Mem) × ((mark_loop k ring a m ≡ some m1) × Marked (a ∷ xs) m m1)
  mark_loop-Marked zero a xs m enough out h = absurd (omega arith)
  mark_loop-Marked (suc k) a [] m enough out h = (
    set_status a pending m,
    (
      mark_loop-last k a m h.0,
      record { same_links = refl; inside = λ u i. ground arith; outside = λ u i. ground arith },
    ),
  )
  mark_loop-Marked (suc k) a (x ∷ xs) m enough out h =
      let (m1, (e, r)) =
        mark_loop-Marked k x xs (set_status a pending m) (omega arith) (ground arith) h.2 in
      (
        m1,
        (
          mark_loop-next k a x m h.0 (ground arith) ∙ e,
          record {
            same_links = r.same_links;
            inside = λ u i. elim (Bool-cases (has u (x ∷ xs))) [
              | inl q ↦ r.inside u q
              | inr q ↦ ground (arith, r.outside u q)
            ];
            outside = λ u i. ground (arith, r.outside u);
          },
        ),
      )

  -- The number of events that are not pending.
  abbrev pub nonpending : Mem → List Ptr → ℕ
  nonpending m [] = 0
  nonpending m (x ∷ xs) = (if not (is_pending (m.ev_status x)) then 1 else 0) + nonpending m xs

  count_loop-last :
      (k : ℕ) (a : Ptr) (n : ℕ) (m : Mem)
      → m.links.next a ≡ ring
      → count_loop (suc k) ring a n m ≡ some (if not (is_pending (m.ev_status a)) then n + 1 else n)
  unfolding count_loop
  count_loop-last k a n m h = rw (count_loop, h, ==_self ring) refl

  count_loop-next :
      (k : ℕ) (a x : Ptr) (n : ℕ) (m : Mem)
      → m.links.next a ≡ x
      → x ≢ ring
      → count_loop (suc k) ring a n m
        ≡ count_loop k ring x (if not (is_pending (m.ev_status a)) then n + 1 else n) m
  unfolding count_loop
  count_loop-next k a x n m h ne =
      rw (count_loop, h, ==_ne x ring ne)
        (ap (λ y. count_loop k ring y (if not (is_pending (m.ev_status a)) then n + 1 else n) m) h)

  count_loop-Linked :
      (k : ℕ) (a : Ptr) (xs : List Ptr) (n : ℕ) (m : Mem)
      → length xs < k
      → has ring xs ≡ false
      → Linked m.links a xs ring
      → count_loop k ring a n m ≡ some (n + nonpending m (a ∷ xs))
  count_loop-Linked zero a xs n m enough out h = absurd (omega arith)
  count_loop-Linked (suc k) a [] n m enough out h = count_loop-last k a n m h.0 ∙ ground arith
  count_loop-Linked (suc k) a (x ∷ xs) n m enough out h =
      count_loop-next k a x n m h.0 (ground arith)
      ∙ count_loop-Linked k x xs (if not (is_pending (m.ev_status a)) then n + 1 else n) m
          (omega arith) (ground arith) h.2
      ∙ ground arith

after_wait-ends :
    (fuel : ℕ) (ring : Ptr) (xs : List Ptr) (k : Woken)
    → count_loop fuel ring ring 0 k.mem ≡ some (0 + nonpending ring k.mem (ring ∷ xs))
    → after_wait fuel ring k
      ≡ some (
        (if k.cancelreq && k.enabled then exits else counted (nonpending ring k.mem (ring ∷ xs))),
        k.mem,
      )
unfolding after_wait
after_wait-ends fuel ring xs k counts = elim (Bool-cases (k.cancelreq && k.enabled)) [
  | inl q ↦ rw q refl
  | inr q ↦ rw (q, counts) (ap (λ n. some (counted n, k.mem)) (omega arith))
]

-- If nothing relinks events while the caller waits, then with more fuel than other events pth_wait
-- ends: all events of the ring and no other are marked as pending before the wait; after it the
-- thread exits at the cancellation point if its cancellation is requested and enabled then, and
-- else the result is the number of events of the ring that are not pending.
pub wait-counts :
    (fuel : ℕ) (others : Mem → Woken) (ring : Ptr) (xs : List Ptr) (m : Mem)
    → ring ≢ null
    → length xs < fuel
    → Distinct (ring ∷ xs)
    → Cyclic m.links (ring ∷ xs)
    → ((m' : Mem) → (others m').mem.links ≡ m'.links)
    → (m1 : Mem) × (Marked (ring ∷ xs) m m1
        × (wait fuel others ring m
            ≡ some (
              (if (others m1).cancelreq && (others m1).enabled
                  then exits
                  else counted (nonpending ring (others m1).mem (ring ∷ xs))),
              (others m1).mem,
            )))
unfolding wait
wait-counts fuel others ring xs m rn enough d h keeps =
    let (m1, (e, r)) = mark_loop-Marked ring fuel ring xs m enough d.0 h in
    let ring' : Linked (others m1).mem.links ring xs ring =
      subst (λ l. Linked l ring xs ring) (sym (keeps m1 ∙ r.same_links)) h in
    let counts = count_loop-Linked ring fuel ring xs 0 (others m1).mem enough d.0 ring' in
    (m1, (r, rw (==_ne ring null rn, e) (after_wait-ends fuel ring xs (others m1) counts)))
