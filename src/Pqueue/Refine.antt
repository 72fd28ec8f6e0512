-- ===== src/Pqueue/Refine.antt =====
-- The queue in memory implements the specification: each operation, on a queue that holds `xs`,
-- leaves one that holds what the specification makes of `xs`.
use pth.Base.{
  suc, ◌≡◌, refl, ◌≢◌, inl, inr, true, false, Option, some, List, [], ◌∷◌, arith, ◌==◌, Ptr, null,
  has, length, Bool-cases, ==_ne, subst, sym, ap, ◌∙◌, update,
}
use pth.Base.Int.{ℤ, pos, ◌+ℤ◌, ltb_ℤ, sub_shift}
use pth.Pqueue.Spec
use pth.Pqueue.Spec.{Entry, threads}
use pth.Pqueue.Loop.{insert_loop-Stop}
use pth.Pqueue.Order.{split, not-has-delete, threads-increase}
use pth.Pqueue.Remove.{delete-IsQueue}
use pth.Pqueue.Stored.{Deltas-frame}
use pth.Pqueue.Insert.{insert_first-IsQueue, insert_head-IsQueue, insert_behind-IsQueue}
use pth.Pqueue.{
  Mem, IsQueue, insert, insert_loop, insert_first, insert_head, insert_behind, num_up, delete,
  increase, Deltas, favorite, favorite_prio, set_prio,
}

-- The operation ends, and its memory holds the queue `xs`.
abbrev pub Leaves : Ptr → Option Mem → List Entry → Type 0
Leaves q r xs = (m : Mem) × (r ≡ some m) × IsQueue q m xs

module _ (q t : Ptr) (prio : ℤ) (m : Mem) (tn : t ≢ null) where
  insert-nil : IsQueue q m [] → insert q prio t m ≡ some (num_up q (insert_first q prio t m))
  unfolding insert
  insert-nil h = ground (arith, h.ne_null, h.head_first)

  insert-above :
      (e : Entry) (xs : List Entry)
      → IsQueue q m (e ∷ xs)
      → ltb_ℤ e.1 prio ≡ true
      → insert q prio t m ≡ some (num_up q (insert_head q prio t m))
  unfolding insert
  insert-above e xs h above =
      ground (arith, h.ne_null, h.head_first, h.num, h.stored.0, h.threads_ne_null)

  insert-below :
      (e : Entry) (xs : List Entry) (c : Ptr) (p : ℤ)
      → IsQueue q m (e ∷ xs)
      → ltb_ℤ e.1 prio ≡ false
      → insert_loop (suc (length xs)) q prio e.0 e.1 m ≡ some (c, p)
      → insert q prio t m ≡ some (num_up q (insert_behind q prio c p t m))
  unfolding insert
  insert-below e xs c p h below loop =
      ground (arith, h.ne_null, h.head_first, h.num, h.stored.0, h.threads_ne_null)

  insert_empty : IsQueue q m [] → Leaves q (insert q prio t m) (Spec.insert prio t [])
  unfolding Spec.insert
  insert_empty h = (
    num_up q (insert_first q prio t m),
    insert-nil h,
    insert_first-IsQueue q t prio m h.ne_null tn h,
  )

  insert_over :
      (e : Entry) (xs : List Entry)
      → has t (threads (e ∷ xs)) ≡ false
      → IsQueue q m (e ∷ xs)
      → ltb_ℤ e.1 prio ≡ true
      → Leaves q (insert q prio t m) (Spec.insert prio t (e ∷ xs))
  unfolding Spec.insert
  insert_over e xs out h above = rw above (
    num_up q (insert_head q prio t m),
    insert-above e xs h above,
    insert_head-IsQueue q t prio m h.ne_null tn e xs out h,
  )

  insert_under :
      (e : Entry) (xs : List Entry)
      → has t (threads (e ∷ xs)) ≡ false
      → IsQueue q m (e ∷ xs)
      → ltb_ℤ e.1 prio ≡ false
      → Leaves q (insert q prio t m) (Spec.insert prio t (e ∷ xs))
  insert_under e xs out h below =
      let s =
        insert_loop-Stop q e.0 prio t m h.head_first (suc (length xs)) e.0 e.1 xs (omega arith)
          h.distinct.0 h.cycle h.stored.1 below in
      (
        num_up q (insert_behind q prio s.c s.p t m),
        insert-below e xs s.c s.p h below s.result,
        subst (IsQueue q (num_up q (insert_behind q prio s.c s.p t m))) (sym s.after) (
            insert_behind-IsQueue q t prio m h.ne_null tn s.pre s.c s.p s.post
              (subst (λ ys. has t (threads ys) ≡ false) s.before out)
              (subst (IsQueue q m) s.before h)),
      )

  -- Inserting a thread that is not null and not in the queue ends within the fuel that the count
  -- gives, and leaves the queue in which the thread stands behind all entries of greater or equal
  -- priority; the stored differences encode it.
  pub insert-Leaves :
      (xs : List Entry)
      → has t (threads xs) ≡ false
      → IsQueue q m xs
      → Leaves q (insert q prio t m) (Spec.insert prio t xs)
  insert-Leaves [] out h = insert_empty h
  insert-Leaves (e ∷ xs) out h = elim (Bool-cases (ltb_ℤ e.1 prio)) [
    | inl above ↦ insert_over e xs out h above
    | inr below ↦ insert_under e xs out h below
  ]

module _ (q t : Ptr) (m : Mem) where
  -- Deleting a thread of the queue, at the head or behind it, leaves the other threads in their
  -- order and at their priorities.
  pub delete-Leaves :
      (xs : List Entry)
      → has t (threads xs) ≡ true
      → IsQueue q m xs
      → IsQueue q (delete q t m) (Spec.delete t xs)
  delete-Leaves xs mem h =
      let s = split t xs mem in
      subst (IsQueue q (delete q t m)) (sym s.after)
        (delete-IsQueue q t s.p m s.pre s.post (subst (IsQueue q m) s.before h))

module _ (q : Ptr) (m : Mem) where
  Deltas-set :
      (h : Ptr) (v p : ℤ) (xs : List Entry)
      → has h (threads xs) ≡ false
      → Deltas m.q_prio p xs
      → Deltas (update m.q_prio h v) p xs
  Deltas-set h v p xs out d =
      Deltas-frame m.q_prio (update m.q_prio h v) p xs (λ u i. ground arith) d

  Deltas-increase :
      (f : Ptr → ℤ) (p : ℤ) (xs : List Entry)
      → Deltas f p xs
      → Deltas f (p +ℤ pos 1) (Spec.increase xs)
  unfolding Spec.increase
  Deltas-increase f p [] d = tt
  Deltas-increase f p (e ∷ xs) d = (d.0 ∙ sub_shift p e.1, Deltas-increase f e.1 xs d.1)

  length-increase : (xs : List Entry) → length (Spec.increase xs) ≡ length xs
  unfolding Spec.increase
  length-increase [] = refl
  length-increase (e ∷ xs) = ap suc (length-increase xs)

  increase-nil : IsQueue q m [] → increase q m ≡ m
  unfolding increase
  increase-nil h = ground (arith, h.ne_null, h.head_first)

  increase-cons :
      (e : Entry) (xs : List Entry)
      → IsQueue q m (e ∷ xs)
      → increase q m ≡ set_prio e.0 (e.1 +ℤ pos 1) m
  unfolding increase
  increase-cons e xs h =
      let qn : (q == null) ≡ false = ==_ne q null h.ne_null in
      let en : (e.0 == null) ≡ false = ground (arith, h.threads_ne_null) in
      rw (qn, h.head_first, en, h.stored.0)

  -- The single write of pth_pqueue_increase raises the priority of every thread of the queue by
  -- one.
  pub increase-IsQueue :
      (xs : List Entry) → IsQueue q m xs → IsQueue q (increase q m) (Spec.increase xs)
  unfolding Spec.increase
  increase-IsQueue [] h = rw (increase-nil h) h
  increase-IsQueue (e ∷ xs) h = rw (increase-cons e xs h) (record {
    ne_null = h.ne_null;
    num = rw (length-increase xs) h.num;
    head_first = h.head_first;
    threads_ne_null = rw (threads-increase xs) h.threads_ne_null;
    distinct = rw (threads-increase xs) h.distinct;
    cycle = rw (threads-increase xs) h.cycle;
    stored = (
      ground arith,
      Deltas-increase (update m.q_prio e.0 (e.1 +ℤ pos 1)) e.1 xs
          (Deltas-set e.0 (e.1 +ℤ pos 1) e.1 xs h.distinct.0 h.stored.1),
    );
  })

  favorite_prio_lem : (xs : List Entry) → IsQueue q m xs → favorite_prio q m ≡ Spec.favorite_prio xs
  unfolding favorite_prio Spec.favorite_prio
  favorite_prio_lem [] h = ground (arith, h.head_first)
  favorite_prio_lem (e ∷ xs) h = ground (arith, h.head_first, h.stored.0, h.threads_ne_null)

module _ (q t : Ptr) (m : Mem) where
  favorite_one : (e : Entry) → IsQueue q m (e ∷ []) → favorite q t m ≡ some (true, m)
  unfolding favorite
  favorite_one e h = ground (arith, h.ne_null, h.head_first, h.threads_ne_null, h.num)

  favorite_many :
      (e e' : Entry) (xs : List Entry) (m' : Mem)
      → IsQueue q m (e ∷ e' ∷ xs)
      → insert q (favorite_prio q (delete q t m)) t (delete q t m) ≡ some m'
      → favorite q t m ≡ some (true, m')
  unfolding favorite
  favorite_many e e' xs m' h k =
      ground (arith, h.ne_null, h.head_first, h.threads_ne_null, h.num, k)

  -- Favoring a thread of the queue returns TRUE and puts it in front at one more than the highest
  -- other priority, unless it is alone.
  pub favorite-Leaves :
      (xs : List Entry)
      → has t (threads xs) ≡ true
      → IsQueue q m xs
      → (m' : Mem) × (favorite q t m ≡ some (true, m')) × IsQueue q m' (Spec.favorite t xs)
  unfolding Spec.favorite
  favorite-Leaves [] mem h = absurd (cc)
  favorite-Leaves (e ∷ []) mem h = (m, favorite_one e h, h)
  favorite-Leaves (e ∷ e' ∷ xs) mem h =
      let h' = delete-Leaves q t m (e ∷ e' ∷ xs) mem h in
      let (m', ran, k) =
        insert-Leaves q t (Spec.favorite_prio (Spec.delete t (e ∷ e' ∷ xs))) (delete q t m) tn
          (Spec.delete t (e ∷ e' ∷ xs)) (not-has-delete t (e ∷ e' ∷ xs) h.distinct) h' in
      (m', favorite_many e e' xs m' h (rw (favorite_prio_lem q (delete q t m) _ h') ran), k)
    where
      tn : t ≢ null
      tn n = ground (arith, h.threads_ne_null)
