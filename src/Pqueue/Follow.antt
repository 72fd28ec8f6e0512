-- ===== src/Pqueue/Follow.antt =====
-- The thread that follows another in a queue.
use pth.Base.{◌≡◌, ◌≢◌, ◌∙◌, sym, false, List, [], ◌∷◌, ◌++◌, arith, Ptr, has, has-append}
use pth.Base.Int.{ℤ}
use pth.Cycle.{Cyclic-next-inner, Cyclic-next-last}
use pth.Pqueue.Spec.{Entry, threads}
use pth.Pqueue.Stored.{threads-append}
use pth.Pqueue.{Mem, IsQueue, links}

module _ (q : Ptr) (m : Mem) where
  -- Behind the last thread comes the head.
  pub next_last :
      (pre : List Entry) (c : Ptr) (p : ℤ)
      → IsQueue q m (pre ++ (c, p) ∷ [])
      → m.q_next c ≡ m.q_head q
  next_last [] c p h = h.cycle.0 ∙ sym h.head_first
  next_last (x ∷ pre) c p h =
      Cyclic-next-last (links m) x.0 (threads pre) c (rw threads-append at h.cycle)
      ∙ sym h.head_first

  -- Behind any other comes the thread of the next entry, which is not the head.
  pub next_inner :
      (pre : List Entry) (c : Ptr) (p : ℤ) (e : Entry) (post : List Entry)
      → IsQueue q m (pre ++ (c, p) ∷ e ∷ post)
      → (m.q_next c ≡ e.0) × (m.q_next c ≢ m.q_head q)
  next_inner [] c p e post h = (h.cycle.0, ground (arith, h.cycle.0, h.head_first, h.distinct))
  next_inner (x ∷ pre) c p e post h =
      let n =
        Cyclic-next-inner (links m) (x.0 ∷ threads pre) c e.0 (threads post)
          (rw threads-append at h.cycle) in
      (
        n,
        ground
            (arith, n, h.head_first, x_ne, has-append x.0 (threads pre) (c ∷ e.0 ∷ threads post)),
      )
    where
      x_ne : has x.0 (threads pre ++ c ∷ e.0 ∷ threads post) ≡ false
      x_ne = rw threads-append at (h.distinct.0)
