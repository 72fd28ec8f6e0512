-- ===== src/Threads/Examples.antt =====
-- The theorems on threads in a state in which the thread 10 runs, 40 is new, 20 and 25 are ready, 50
-- waits and 30 is suspended.
use pth.Base.{inl, ◌==◌, ◌≡◌, refl, true, false, Option, none, some, [], arith, Ptr, null, update}
use pth.Base.Int.{pos}
use pth.Pqueue.Spec
use pth.Pqueue.Spec.{Entry, AtMost}
use pth.Threads.{
  State, ThreadState, new, ready, waiting, dead, set_tcb, delete, free, Tcb, Queue, nq, rq, wq, sq,
  dq, contains, insert, esrch, fail, yes_ret, Cleanup,
}
use pth.Threads.Calls.{suspend, queue_of, resume, cancel, start_wait}
use pth.Threads.Scheduler.{dispatch, return_from}
use pth.Threads.Placed.{Placed, insert-Placed, set_tcb-Placed}
use pth.Threads.Ends.{join, get_threads, all_threads}
use pth.Threads.Joined.{join-ended}
use pth.Threads.Choice.{
  Dispatched, requested, dispatch-newest, dispatch-highest, cancel-suspended, suspend-resume,
}

abbrev thread_in : ThreadState → Tcb
thread_in st = record {
  prio = pos 0;
  dispatches = 0;
  state = st;
  joinable = true;
  join_arg = null;
  cancelreq = false;
  enabled = true;
  asynchronous = true;
}

abbrev tcbs : Ptr → Tcb
tcbs =
    update (update (update (λ _. thread_in ready) 50 (thread_in waiting)) 40 (thread_in new)) 30
      (thread_in ready)

abbrev idle : State
idle = record {
  sched = 1;
  current = 10;
  main = 2;
  favournew = true;
  tcb = tcbs;
  queue = λ _. [];
  freed = [];
}

abbrev now : State
now = insert rq (pos 1) 20 (insert rq (pos 0) 25 (insert wq (pos 0) 50 (insert sq (pos 0) 30 idle)))

abbrev places : Ptr → Option Queue
places =
    update (update (update (update (λ _. none) 30 (some sq)) 50 (some wq)) 25 (some rq)) 20
      (some rq)

idle-Placed : Placed idle (λ _. none)
idle-Placed = record {
  spots = λ q t. refl;
  distinct = λ q. tt;
  sorted = λ q. tt;
  fits = λ t. tt;
  null_out = refl;
}

now-Placed : Placed now places
now-Placed =
    let h1 = insert-Placed idle _ idle-Placed sq 30 (pos 0) refl (omega arith) tt in
    let h2 = insert-Placed _ _ h1 wq 50 (pos 0) refl (omega arith) refl in
    let h3 = insert-Placed _ _ h2 rq 25 (pos 0) refl (omega arith) refl in
    insert-Placed _ _ h3 rq 20 (pos 1) refl (omega arith) refl

-- Handlers that do nothing.
abbrev no_cleanup : Cleanup
no_cleanup t s = s

-- The running thread suspends 20, waits, and 25 runs.
abbrev stopped : State
stopped = return_from [] (start_wait (suspend 20 now).1)

dispatch-newest_example :
    (s' : State) × ((dispatch (insert nq (pos 0) 40 now) ≡ some s') × (s'.current ≡ 40))
unfolding Spec.insert
dispatch-newest_example = dispatch-newest (insert nq (pos 0) 40 now) (40, pos 0) [] refl refl

dispatch-highest_example : Dispatched now
unfolding Spec.insert
dispatch-highest_example = dispatch-highest now places 25 now-Placed refl refl

cancel-suspended_example : cancel no_cleanup 30 now ≡ (fail esrch, requested 30 now)
cancel-suspended_example =
    cancel-suspended now places now-Placed 30 no_cleanup refl (omega arith) refl refl

suspend-resume_example :
    ((resume 20 (suspend 20 now).1).0 ≡ yes_ret)
    × ((resume 20 (suspend 20 now).1).1.queue rq
        ≡ Spec.insert (pos 0) 20 (Spec.delete 20 (now.queue rq)))
    × ((a : Ptr) → contains sq a (resume 20 (suspend 20 now).1).1 ≡ contains sq a now)
unfolding queue_of
suspend-resume_example =
    suspend-resume now places now-Placed 20 rq refl refl (omega arith) (omega arith)

-- The thread 60 has ended with the value 99.
abbrev ended : State
ended = insert dq (pos 0) 60 (set_tcb 60 (record (thread_in dead) { join_arg = 99 }) now)

abbrev with_ended : Ptr → Option Queue
with_ended = update places 60 (some dq)

ended-Placed : Placed ended with_ended
ended-Placed =
    let x = record (thread_in dead) { join_arg = 99 } in
    insert-Placed _ _ (set_tcb-Placed now places now-Placed 60 x (inl refl)) dq 60 (pos 0) refl
      (omega arith) refl

several : (get_threads all_threads ended == 1) ≡ false
unfolding get_threads Spec.insert
several = refl

join-ended_example :
    (join (λ s. s) 60 ended ≡ (yes_ret, (99, free 60 (delete dq 60 ended))))
    × Placed (free 60 (delete dq 60 ended)) (update with_ended 60 none)
join-ended_example =
    join-ended ended with_ended ended-Placed 60 (λ s. s) refl (omega arith) refl several
