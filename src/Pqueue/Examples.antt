-- ===== src/Pqueue/Examples.antt =====
-- The theorems on queues at a queue of two threads, and runs of the operations.
use pth.Base.{refl, List, [], ◌∷◌, arith, null, update}
use pth.Base.Int.{pos, negsuc, ◌+ℤ◌, ◌-ℤ◌}
use pth.Pqueue.Spec
use pth.Pqueue.Spec.{Entry}
use pth.Pqueue.{Mem, IsQueue, init}
use pth.Pqueue.Runs.{Op, put, take, bump, run, run_spec, Holds, run-Holds}

-- The queue at 100 holds the thread 1 at priority 2 and the thread 2 at priority -1.
abbrev two : Mem
two = record {
  q_next = update (update (λ _. null) 1 2) 2 1;
  q_prev = update (update (λ _. null) 1 2) 2 1;
  q_prio = update (update (λ _. pos 0) 1 (pos 2)) 2 (pos 3);
  q_head = update (λ _. null) 100 1;
  q_num = update (λ _. pos 0) 100 (pos 2);
}

abbrev entries : List Entry
entries = (1, pos 2) ∷ (2, negsuc 0) ∷ []

two-IsQueue : IsQueue 100 two entries
unfolding ◌-ℤ◌
two-IsQueue = record {
  ne_null = omega arith;
  num = refl;
  head_first = refl;
  threads_ne_null = refl;
  distinct = (refl, (refl, tt));
  cycle = (refl, refl, (refl, refl));
  stored = (refl, (refl, tt));
}

-- Two threads of one priority go in, all priorities rise, and a third one comes in above them.
abbrev history : List Op
history = put (pos 0) 1 ∷ put (pos 0) 2 ∷ bump ∷ put (pos 5) 3 ∷ take ∷ []

run-Holds_example : Holds 100 (run 100 history (init 100 two)) ((1, pos 1) ∷ (2, pos 1) ∷ [])
unfolding run_spec Spec.insert Spec.increase ◌+ℤ◌
run-Holds_example =
    run-Holds 100 two history (omega arith)
      ((omega arith, refl), ((omega arith, refl), (tt, ((omega arith, refl), (tt, tt)))))
