-- ===== src/Threads/Scheduler.antt =====
-- The scheduler's loop, cut at the switch to the thread that it has chosen.
use pth.Base.{
  suc, Bool, not, ◌||◌, Option, none, some, List, [], ◌∷◌, ◌==◌, if◌then◌else◌, Ptr, null,
}
use pth.Base.Int.{ℤ, pos, ◌+ℤ◌}
use pth.Pqueue.Spec
use pth.Pqueue.Spec.{Entry}
use pth.Threads.{
  ready, waiting, dead, nq, rq, wq, dq, State, prio_std, set_queue, set_tcb, set_state, delete,
  insert, free,
}

-- Where a new thread goes in the ready queue.
unfoldable pub new_prio : State → ℤ
new_prio s = if s.favournew then Spec.favorite_prio (s.queue rq) else prio_std

unfoldable pub ready_new : Ptr → State → State
unfolding new_prio
ready_new t s = let s' = set_state t ready (delete nq t s) in insert rq (new_prio s') t s'

-- The `while` loop that empties the new queue from its tail, over its threads from the last to the
-- first.
unfoldable pub ready_all : List Entry → State → State
unfolding ready_new
ready_all [] s = s
ready_all (e ∷ xs) s = ready_new e.0 (ready_all xs s)

-- The chosen thread is taken out of the ready queue and runs.
abbrev pub running : Entry → List Entry → State → State
running e xs s =
    record (set_queue rq xs
      (set_tcb e.0 (record (s.tcb e.0) { dispatches = suc (s.tcb e.0).dispatches }) s)) {
        current = e.0;
      }

-- `pth_pqueue_delmax` chooses the thread that runs; with no thread, the process is aborted.
unfoldable pub choose : State → Option State
choose s = elim (s.queue rq) [ [] ↦ none | e ∷ xs ↦ some (running e xs s) ]

unfoldable pub dispatch : State → Option State
unfolding ready_all choose
dispatch s = choose (ready_all (s.queue nq) s)

-- A thread that comes back dead is freed or kept to be joined, and there is no running thread.
unfoldable pub reap : State → State
reap s = elim (s.tcb s.current).state [
  | dead ↦
      record (if not (s.tcb s.current).joinable
        then free s.current s
        else insert dq prio_std s.current s) { current = null }
  | _ ↦ s
]

unfoldable pub park : State → State
park s = if s.current == null then s else (elim (s.tcb s.current).state [
  | waiting ↦ record (insert wq (s.tcb s.current).prio s.current s) { current = null }
  | _ ↦ s
])

-- The ready queue ages, and a thread that still runs goes back into it.
unfoldable pub requeue : State → State
requeue s =
    let s' = set_queue rq (Spec.increase (s.queue rq)) s in
    if s'.current == null then s' else insert rq (s'.tcb s'.current).prio s'.current s'

-- The end of a round of the event manager for one thread of the waiting queue, `occurred` telling
-- whether one of its events did.
unfoldable pub wake : (occurred : Ptr → Bool) → Ptr → State → State
wake occurred t s =
    if occurred t || (s.tcb t).cancelreq
    then insert rq ((s.tcb t).prio +ℤ pos 1) t (set_state t ready (delete wq t s))
    else s

unfoldable pub wake_all : (occurred : Ptr → Bool) → List Entry → State → State
unfolding wake
wake_all occurred [] s = s
wake_all occurred (e ∷ xs) s = wake_all occurred xs (wake occurred e.0 s)

-- The event manager starts again as long as a function that it has called asks for it: `rounds` has
-- what occurred in each of its rounds.
unfoldable pub manage : (rounds : List (Ptr → Bool)) → State → State
unfolding wake_all
manage [] s = s
manage (occurred ∷ rounds) s = manage rounds (wake_all occurred (s.queue wq) s)

-- What the scheduler does after a thread has switched back to it.
unfoldable pub return_from : (rounds : List (Ptr → Bool)) → State → State
unfolding reap park requeue manage
return_from rounds s = manage rounds (requeue (park (reap s)))
