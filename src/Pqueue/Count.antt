-- ===== src/Pqueue/Count.antt =====
-- What every insertion into a queue and every removal from one share.
use pth.Base.{
  ℕ, suc, ◌≡◌, ◌≢◌, false, List, ◌∷◌, ◌++◌, arith, Ptr, null, has, has-append, length-append,
  Distinct-insert, Distinct-remove,
}
use pth.Base.Int.{pos, ◌+ℤ◌, ◌-ℤ◌}
use pth.Cycle.{Cyclic}
use pth.Pqueue.Spec.{Entry, threads}
use pth.Pqueue.Stored.{threads-append}
use pth.Pqueue.{Mem, IsQueue, Stored, first, links}

pos_up : (n k : ℕ) → k ≡ suc n → pos n +ℤ pos 1 ≡ pos k
unfolding ◌+ℤ◌
pos_up n k e = ground arith

pos_down : (n k : ℕ) → k ≡ suc n → pos k -ℤ pos 1 ≡ pos n
unfolding ◌-ℤ◌
pos_down n k e = ground arith

module _ (q : Ptr) (e : Entry) (m m' : Mem) (pre post : List Entry) where
  pub IsQueue-grow :
      IsQueue q m (pre ++ post)
      → e.0 ≢ null
      → has e.0 (threads (pre ++ post)) ≡ false
      → m'.q_num q ≡ m.q_num q +ℤ pos 1
      → m'.q_head q ≡ first (pre ++ e ∷ post)
      → Cyclic (links m') (threads (pre ++ e ∷ post))
      → Stored m'.q_prio (pre ++ e ∷ post)
      → IsQueue q m' (pre ++ e ∷ post)
  IsQueue-grow h tn out num head cycle stored = record {
    ne_null = h.ne_null;
    num =
        rw (num, h.num)
          (pos_up _ _ (omega (arith, length-append pre post, length-append pre (e ∷ post))));
    head_first = head;
    threads_ne_null = rw threads-append (
        ground (
          arith,
          has-append null (threads pre) (threads post),
          has-append null (threads pre) (e.0 ∷ threads post),
          nn,
        ));
    distinct = rw threads-append (
        Distinct-insert (threads pre) e.0 (threads post) (rw threads-append at h.distinct)
          (rw threads-append at out));
    cycle = cycle;
    stored = stored;
  }
    where
      nn : has null (threads pre ++ threads post) ≡ false
      nn = rw threads-append at h.threads_ne_null

  pub IsQueue-shrink :
      IsQueue q m (pre ++ e ∷ post)
      → m'.q_num q ≡ m.q_num q -ℤ pos 1
      → m'.q_head q ≡ first (pre ++ post)
      → Cyclic (links m') (threads (pre ++ post))
      → Stored m'.q_prio (pre ++ post)
      → IsQueue q m' (pre ++ post)
  IsQueue-shrink h num head cycle stored = record {
    ne_null = h.ne_null;
    num =
        rw (num, h.num)
          (pos_down _ _ (omega (arith, length-append pre post, length-append pre (e ∷ post))));
    head_first = head;
    threads_ne_null = rw threads-append (
        ground (
          arith,
          has-append null (threads pre) (threads post),
          has-append null (threads pre) (e.0 ∷ threads post),
          nn,
        ));
    distinct =
        rw threads-append
          ((Distinct-remove (threads pre) e.0 (threads post) (rw threads-append at h.distinct)).0);
    cycle = cycle;
    stored = stored;
  }
    where
      nn : has null (threads pre ++ e.0 ∷ threads post) ≡ false
      nn = rw threads-append at h.threads_ne_null
