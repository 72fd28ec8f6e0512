-- ===== src/Pqueue/Insert.antt =====
-- `pth_pqueue_insert` implements the insertion of the specification.
use pth.Base.{
  ◌≡◌, refl, ◌≢◌, ◌∙◌, inl, inr, ◌⊎◌, false, List, [], ◌∷◌, ◌++◌, arith, Ptr, null, has, has-append,
  append_assoc,
}
use pth.Base.Int.{ℤ, ◌-ℤ◌}
use pth.Cycle.{Linked, prev-last, Cyclic, Cyclic-next-has}
use pth.Cycle.Edit.{Inserted, Inserted-first, InsertedAfter, InsertedAfter-Cyclic, last_ne}
use pth.Pqueue.Spec.{Entry, threads}
use pth.Pqueue.Count.{IsQueue-grow}
use pth.Pqueue.Follow.{next_last, next_inner}
use pth.Pqueue.Stored.{threads-append, Deltas-frame, Stored-insert, NextLowered}
use pth.Pqueue.{Mem, IsQueue, first, links, insert_first, insert_head, insert_behind, num_up}

module _ (q t : Ptr) (prio : ℤ) (m : Mem) (ne : q ≢ null) (tn : t ≢ null) where
  insert_head-Inserted :
      (h : Ptr) (xs : List Ptr)
      → m.q_head q ≡ h
      → has t (h ∷ xs) ≡ false
      → Linked (links m) h xs h
      → Inserted (links m) (links (insert_head q prio t m)) h xs t
  unfolding insert_head
  insert_head-Inserted h xs hook out l =
      ground (arith, last_ne t h xs, prev-last (links m) h xs h l)

  insert_head-prios :
      (h : Ptr)
      → m.q_head q ≡ h
      → t ≢ h
      → t ≢ m.q_prev h
      → ((insert_head q prio t m).q_prio t ≡ prio)
        × ((insert_head q prio t m).q_prio h ≡ prio -ℤ m.q_prio h)
        × ((u : Ptr) → u ≢ t → u ≢ h → (insert_head q prio t m).q_prio u ≡ m.q_prio u)
  unfolding insert_head
  insert_head-prios h hook other prev_ne = (ground arith, ground arith, λ u a b. ground arith)

  insert_behind-InsertedAfter :
      (c : Ptr) (p : ℤ)
      → t ≢ c
      → t ≢ m.q_next c
      → InsertedAfter (links m) (links (insert_behind q prio c p t m)) c t
  unfolding insert_behind
  insert_behind-InsertedAfter c p tc tnext = ground arith

  insert_behind-t :
      (c : Ptr) (p : ℤ)
      → t ≢ c
      → t ≢ m.q_next c
      → (insert_behind q prio c p t m).q_prio t ≡ p -ℤ prio
  unfolding insert_behind
  insert_behind-t c p tc tnext = ground arith

  insert_behind-same :
      (c : Ptr) (p : ℤ)
      → t ≢ c
      → (u : Ptr) → u ≢ t
      → ((u ≢ m.q_next c) ⊎ (m.q_next c ≡ m.q_head q))
      → (insert_behind q prio c p t m).q_prio u ≡ m.q_prio u
  unfolding insert_behind
  insert_behind-same c p tc u ut other = ground arith

  insert_behind-next :
      (c : Ptr) (p : ℤ)
      → t ≢ c
      → t ≢ m.q_next c
      → m.q_next c ≢ m.q_head q
      → (insert_behind q prio c p t m).q_prio (m.q_next c)
        ≡ m.q_prio (m.q_next c) -ℤ (insert_behind q prio c p t m).q_prio t
  unfolding insert_behind
  insert_behind-next c p tc tnext inner = ground arith

  insert_head-queue :
      ((insert_head q prio t m).q_head q ≡ t) × ((insert_head q prio t m).q_num q ≡ m.q_num q)
  unfolding insert_head
  insert_head-queue = (ground arith, refl)

  insert_behind-queue :
      (c : Ptr) (p : ℤ)
      → ((insert_behind q prio c p t m).q_head q ≡ m.q_head q)
        × ((insert_behind q prio c p t m).q_num q ≡ m.q_num q)
  unfolding insert_behind
  insert_behind-queue c p = (ground arith, ground arith)

  -- A thread inserted into an empty queue.
  pub insert_first-IsQueue :
      IsQueue q m [] → IsQueue q (num_up q (insert_first q prio t m)) ((t, prio) ∷ [])
  unfolding num_up insert_first
  insert_first-IsQueue h =
      IsQueue-grow q (t, prio) m (num_up q (insert_first q prio t m)) [] [] h tn refl (ground arith)
        (ground arith) (ground arith) (ground arith, tt)

  -- A thread of a higher priority than the head.
  pub insert_head-IsQueue :
      (e : Entry) (xs : List Entry)
      → has t (threads (e ∷ xs)) ≡ false
      → IsQueue q m (e ∷ xs)
      → IsQueue q (num_up q (insert_head q prio t m)) ((t, prio) ∷ e ∷ xs)
  unfolding num_up
  insert_head-IsQueue e xs out h =
      let i = insert_head-Inserted e.0 (threads xs) h.head_first out h.cycle in
      let prev_ne : t ≢ m.q_prev e.0 =
        ground (
          arith,
          prev-last (links m) e.0 (threads xs) e.0 h.cycle,
          last_ne t e.0 (threads xs) out,
        ) in
      let (gt, ge, same) = insert_head-prios e.0 h.head_first (ground arith) prev_ne in
      IsQueue-grow q (t, prio) m (num_up q (insert_head q prio t m)) [] (e ∷ xs) h tn out
        (ground (arith, insert_head-queue)) insert_head-queue.0
        (Inserted-first (links m) (links (insert_head q prio t m)) e.0 (threads xs) t h.distinct out
          i h.cycle)
        (
          gt,
          (
            rw (ge, h.stored.0),
            Deltas-frame m.q_prio (insert_head q prio t m).q_prio e.1 xs
                (λ u in_xs. same u (ground arith) (ground (arith, h.distinct))) h.stored.1,
          ),
        )

  -- The stored priorities behind `c`, by what follows it.
  lowered :
      (pre : List Entry) (c : Ptr) (p : ℤ) (post : List Entry)
      → t ≢ c
      → t ≢ m.q_next c
      → IsQueue q m (pre ++ (c, p) ∷ post)
      → NextLowered m.q_prio (insert_behind q prio c p t m).q_prio t post
  lowered pre c p [] tc tnext h = tt
  lowered pre c p (e ∷ post) tc tnext h =
      let (n, inner) = next_inner q m pre c p e post h in
      ground (arith, n, insert_behind-next c p tc tnext inner)

  unchanged :
      (pre : List Entry) (c : Ptr) (p : ℤ) (post : List Entry)
      → t ≢ c
      → IsQueue q m (pre ++ (c, p) ∷ post)
      → (u : Ptr) → u ≢ t
      → u ≢ first post
      → (insert_behind q prio c p t m).q_prio u ≡ m.q_prio u
  unchanged pre c p [] tc h u ut uf = insert_behind-same c p tc u ut (inr (next_last q m pre c p h))
  unchanged pre c p (e ∷ post) tc h u ut uf =
      let (n, inner) = next_inner q m pre c p e post h in
      insert_behind-same c p tc u ut (inl (λ k. uf (k ∙ n)))

  first-insert :
      (pre : List Entry) (c : Ptr) (p : ℤ) (post : List Entry)
      → first (pre ++ (c, p) ∷ (t, prio) ∷ post) ≡ first (pre ++ (c, p) ∷ post)
  first-insert [] c p post = refl
  first-insert (x ∷ pre) c p post = refl

  -- A thread inserted behind `c`.
  pub insert_behind-IsQueue :
      (pre : List Entry) (c : Ptr) (p : ℤ) (post : List Entry)
      → has t (threads (pre ++ (c, p) ∷ post)) ≡ false
      → IsQueue q m (pre ++ (c, p) ∷ post)
      → IsQueue q (num_up q (insert_behind q prio c p t m)) (pre ++ (c, p) ∷ (t, prio) ∷ post)
  unfolding num_up
  insert_behind-IsQueue pre c p post out h =
      let m' = insert_behind q prio c p t m in
      let out' : has t (threads pre ++ c ∷ threads post) ≡ false = rw threads-append at out in
      let cycle : Cyclic (links m) (threads pre ++ c ∷ threads post) =
        rw threads-append at h.cycle in
      let tc : t ≢ c = ground (arith, has-append t (threads pre) (c ∷ threads post)) in
      let tnext : t ≢ m.q_next c =
        ground (arith, Cyclic-next-has (links m) (threads pre) c (threads post) cycle) in
      rw append_assoc at (
        IsQueue-grow q (t, prio) m (num_up q m') (pre ++ (c, p) ∷ []) post (rw append_assoc h) tn
          (rw append_assoc out) (ground (arith, insert_behind-queue c p))
          (rw append_assoc
            (ground (arith, insert_behind-queue c p, h.head_first, first-insert pre c p post)))
          (rw (append_assoc, threads-append)
            (InsertedAfter-Cyclic (links m) (links m') (threads pre) c t (threads post)
              (rw threads-append at h.distinct) out' (insert_behind-InsertedAfter c p tc tnext)
              cycle))
          (rw append_assoc (
            Stored-insert m.q_prio m'.q_prio t prio pre c p post (insert_behind-t c p tc tnext)
              (lowered pre c p post tc tnext h) (unchanged pre c p post tc h) out h.threads_ne_null
              h.distinct h.stored)))
