-- ===== src/Pqueue/Remove.antt =====
-- `pth_pqueue_delete` and `pth_pqueue_delmax` implement the removal of the specification.
use pth.Base.{
  ◌≡◌, refl, ◌≢◌, ◌∙◌, ◌⊎◌, inl, inr, false, List, [], ◌∷◌, ◌++◌, arith, Ptr, null, has, has-append,
  Distinct,
}
use pth.Base.Int.{ℤ, pos, ◌+ℤ◌, ◌-ℤ◌, sub_sub_self}
use pth.Cycle.{Cyclic}
use pth.Cycle.Edit.{Bypassed, Bypassed-Cyclic, Cyclic-neighbours}
use pth.Pqueue.Spec.{Entry, threads}
use pth.Pqueue.Count.{IsQueue-shrink}
use pth.Pqueue.Follow.{next_last, next_inner}
use pth.Pqueue.Stored.{threads-append, has-threads, Deltas-frame, NextRaised, Stored-remove}
use pth.Pqueue.{Mem, IsQueue, first, links, delete, delmax, remove_only, remove_head, remove_inner}

module _ (q t : Ptr) (m : Mem) (ne : q ≢ null) (tn : t ≢ null) where
  remove_head-Bypassed :
      m.q_next t ≢ t → m.q_prev t ≢ t → Bypassed (links m) (links (remove_head q t m)) t
  unfolding remove_head
  remove_head-Bypassed n p = ground arith

  remove_inner-Bypassed :
      m.q_next t ≢ t → m.q_prev t ≢ t → Bypassed (links m) (links (remove_inner q t m)) t
  unfolding remove_inner
  remove_inner-Bypassed n p = ground arith

  remove_head-fields :
      (y : Ptr)
      → m.q_next t ≡ y
      → y ≢ t
      → m.q_prev t ≢ t
      → ((remove_head q t m).q_num q ≡ m.q_num q -ℤ pos 1)
        × ((remove_head q t m).q_head q ≡ y)
        × ((remove_head q t m).q_prio y ≡ m.q_prio t -ℤ m.q_prio y)
        × ((u : Ptr) → u ≢ t → u ≢ y → (remove_head q t m).q_prio u ≡ m.q_prio u)
  unfolding remove_head
  remove_head-fields y n ny p = (ground arith, ground arith, ground arith, λ u a b. ground arith)

  -- The thread behind the head takes the head's place and stores its own priority.
  remove_head-IsQueue :
      (p : ℤ) (e : Entry) (xs : List Entry)
      → IsQueue q m ((t, p) ∷ e ∷ xs)
      → IsQueue q (remove_head q t m) (e ∷ xs)
  remove_head-IsQueue p e xs h =
      let (n, pr) =
        Cyclic-neighbours (links m) [] t (e.0 ∷ threads xs) h.distinct (λ k. cc) h.cycle in
      let (num, head, value, same) = remove_head-fields e.0 h.cycle.0 (λ k. n (h.cycle.0 ∙ k)) pr in
      IsQueue-shrink q (t, p) m (remove_head q t m) [] (e ∷ xs) h num head
        (Bypassed-Cyclic (links m) (links (remove_head q t m)) [] t (e.0 ∷ threads xs) h.distinct
          (remove_head-Bypassed n pr) h.cycle)
        (
          value ∙ rw (h.stored.0, h.stored.1.0) (sub_sub_self p e.1),
          Deltas-frame m.q_prio (remove_head q t m).q_prio e.1 xs
              (λ u i. same u (ground (arith, h.distinct)) (ground (arith, h.distinct)))
              h.stored.1.1,
        )

  remove_only-IsQueue : (p : ℤ) → IsQueue q m ((t, p) ∷ []) → IsQueue q (remove_only q t m) []
  unfolding remove_only
  remove_only-IsQueue p h = record {
    ne_null = ne;
    num = ground arith;
    head_first = ground arith;
    threads_ne_null = refl;
    distinct = tt;
    cycle = tt;
    stored = tt;
  }

  remove_inner-fields :
      m.q_next t ≢ t
      → m.q_prev t ≢ t
      → ((remove_inner q t m).q_num q ≡ m.q_num q -ℤ pos 1)
        × ((remove_inner q t m).q_head q ≡ m.q_head q)
        × (m.q_next t ≢ m.q_head q
            → (remove_inner q t m).q_prio (m.q_next t) ≡ m.q_prio (m.q_next t) +ℤ m.q_prio t)
        × ((u : Ptr)
            → u ≢ t
            → ((u ≢ m.q_next t) ⊎ (m.q_next t ≡ m.q_head q))
            → (remove_inner q t m).q_prio u ≡ m.q_prio u)
  unfolding remove_inner
  remove_inner-fields n p = (ground arith, ground arith, λ i. ground arith, λ u a b. ground arith)

  raised :
      (x : Entry) (pre : List Entry) (p : ℤ) (post : List Entry)
      → m.q_next t ≢ t
      → m.q_prev t ≢ t
      → IsQueue q m (x ∷ pre ++ (t, p) ∷ post)
      → NextRaised m.q_prio (remove_inner q t m).q_prio t post
  raised x pre p [] n pr h = tt
  raised x pre p (e ∷ post) n pr h =
      let (next, inner) = next_inner q m (x ∷ pre) t p e post h in
      ground (arith, next, (remove_inner-fields n pr).2 inner)

  unchanged :
      (x : Entry) (pre : List Entry) (p : ℤ) (post : List Entry)
      → m.q_next t ≢ t
      → m.q_prev t ≢ t
      → IsQueue q m (x ∷ pre ++ (t, p) ∷ post)
      → (u : Ptr) → u ≢ t
      → u ≢ first post
      → (remove_inner q t m).q_prio u ≡ m.q_prio u
  unchanged x pre p [] n pr h u ut uf =
      (remove_inner-fields n pr).3 u ut (inr (next_last q m (x ∷ pre) t p h))
  unchanged x pre p (e ∷ post) n pr h u ut uf =
      let (next, inner) = next_inner q m (x ∷ pre) t p e post h in
      (remove_inner-fields n pr).3 u ut (inl (λ k. uf (k ∙ next)))

  remove_inner-IsQueue :
      (x : Entry) (pre : List Entry) (p : ℤ) (post : List Entry)
      → IsQueue q m (x ∷ pre ++ (t, p) ∷ post)
      → IsQueue q (remove_inner q t m) (x ∷ pre ++ post)
  remove_inner-IsQueue x pre p post h =
      let m' = remove_inner q t m in
      let cycle : Cyclic (links m) (x.0 ∷ threads pre ++ t ∷ threads post) =
        rw threads-append at h.cycle in
      let d : Distinct (x.0 ∷ threads pre ++ t ∷ threads post) = rw threads-append at h.distinct in
      let (n, pr) =
        Cyclic-neighbours (links m) (x.0 ∷ threads pre) t (threads post) d (λ k. cc) cycle in
      let f = remove_inner-fields n pr in
      IsQueue-shrink q (t, p) m m' (x ∷ pre) post h f.0 (f.1 ∙ h.head_first)
        (rw threads-append (
          Bypassed-Cyclic (links m) (links m') (x.0 ∷ threads pre) t (threads post) d
            (remove_inner-Bypassed n pr) cycle))
        (Stored-remove m.q_prio m'.q_prio t p post x pre (raised x pre p post n pr h)
          (unchanged x pre p post n pr h) h.threads_ne_null h.distinct h.stored)

module _ (q t : Ptr) (p : ℤ) (m : Mem) where
  pub member-ne-null : (pre post : List Entry) → IsQueue q m (pre ++ (t, p) ∷ post) → t ≢ null
  member-ne-null pre post h = ground (arith, has-append null (threads pre) (t ∷ threads post), nn)
    where
      nn : has null (threads pre ++ t ∷ threads post) ≡ false
      nn = rw threads-append at h.threads_ne_null

  delete-only : IsQueue q m ((t, p) ∷ []) → delete q t m ≡ remove_only q t m
  unfolding delete
  delete-only h = ground (arith, h.ne_null, h.head_first, h.cycle, h.threads_ne_null)

  delete-first :
      (e : Entry) (xs : List Entry)
      → IsQueue q m ((t, p) ∷ e ∷ xs)
      → delete q t m ≡ remove_head q t m
  unfolding delete
  delete-first e xs h =
      ground (arith, h.ne_null, h.head_first, h.cycle, h.threads_ne_null, h.distinct)

  delete-inner :
      (x : Entry) (pre post : List Entry)
      → IsQueue q m (x ∷ pre ++ (t, p) ∷ post)
      → delete q t m ≡ remove_inner q t m
  unfolding delete
  delete-inner x pre post h = ground (
    arith,
    h.ne_null,
    h.head_first,
    h.threads_ne_null,
    h.distinct,
    has-threads x.0 pre ((t, p) ∷ post),
    has-append x.0 (threads pre) (t ∷ threads post),
  )

  -- Removing a thread leaves the others in their order and at their priorities.
  pub delete-IsQueue :
      (pre post : List Entry)
      → IsQueue q m (pre ++ (t, p) ∷ post)
      → IsQueue q (delete q t m) (pre ++ post)
  delete-IsQueue [] [] h =
      rw (delete-only h) (remove_only-IsQueue q t m h.ne_null (member-ne-null [] [] h) p h)
  delete-IsQueue [] (e ∷ xs) h =
      rw (delete-first e xs h)
        (remove_head-IsQueue q t m h.ne_null (member-ne-null [] (e ∷ xs) h) p e xs h)
  delete-IsQueue (x ∷ pre) post h =
      rw (delete-inner x pre post h)
        (remove_inner-IsQueue q t m h.ne_null (member-ne-null (x ∷ pre) post h) x pre p post h)

  -- `pth_pqueue_delmax` does at the head what `pth_pqueue_delete` does there.
  delmax-delete : (xs : List Entry) → IsQueue q m ((t, p) ∷ xs) → delmax q m ≡ (t, delete q t m)
  unfolding delmax delete
  delmax-delete xs h = ground (arith, h.ne_null, h.head_first, h.threads_ne_null)

  -- On a queue with a first thread, pth_pqueue_delmax returns that thread and leaves the queue of
  -- the others.
  pub delmax-IsQueue :
      (xs : List Entry)
      → IsQueue q m ((t, p) ∷ xs)
      → ((delmax q m).0 ≡ t) × IsQueue q (delmax q m).1 xs
  delmax-IsQueue xs h = rw (delmax-delete xs h) (refl, delete-IsQueue [] xs h)

-- An empty queue has no thread to remove.
pub delmax-nil : (q : Ptr) (m : Mem) → IsQueue q m [] → delmax q m ≡ (null, m)
unfolding delmax
delmax-nil q m h = ground (arith, h.ne_null, h.head_first)
