-- ===== src/Threads/Calls.antt =====
-- The calls on threads: `pth_suspend`, `pth_resume`, `pth_cancel`, `pth_yield`, `pth_join` and others.
use pth.Base.{
  ℕ, ◌+◌, Bool, true, false, not, ◌&&◌, ◌||◌, Option, none, some, ◌==◌, if◌then◌else◌, Ptr, null,
  length,
}
use pth.Base.Int.{ℤ}
use pth.Pqueue.Spec
use pth.Threads.{
  einval, eperm, esrch, Ret, yes_ret, fail, ThreadState, scheduler, new, ready, waiting, dead, Tcb,
  Queue, nq, rq, wq, sq, dq, State, prio_std, canceled, set_queue, set_tcb, set_state, contains,
  delete, insert, free, Cleanup,
}

-- The `switch` that four calls begin with.
unfoldable pub queue_of : ThreadState → Option Queue
queue_of new = some nq
queue_of ready = some rq
queue_of waiting = some wq
queue_of scheduler = none
queue_of dead = none

-- The end of `pth_suspend` for the queue that it has found.
unfoldable pub suspend_from : Queue → Ptr → State → Ret × State
suspend_from q t s =
    if not (contains q t s) then (fail esrch, s) else (yes_ret, insert sq prio_std t (delete q t s))

unfoldable pub suspend : Ptr → State → Ret × State
unfolding queue_of suspend_from
suspend t s =
    if t == null
    then (fail einval, s)
    else (if t == s.sched || t == s.current
        then (fail eperm, s)
        else (elim (queue_of (s.tcb t).state) [
          | none ↦ (fail eperm, s)
          | some q ↦ suspend_from q t s
        ]))

-- `pth_pqueue_insert` does nothing without a queue.
unfoldable pub resume_into : Option Queue → Ptr → State → State
resume_into none t s = s
resume_into (some q) t s = insert q prio_std t s

unfoldable pub resume : Ptr → State → Ret × State
unfolding queue_of resume_into
resume t s =
    if t == null
    then (fail einval, s)
    else (if t == s.sched || t == s.current
        then (fail eperm, s)
        else (if not (contains sq t s)
            then (fail eperm, s)
            else (yes_ret, resume_into (queue_of (s.tcb t).state) t (delete sq t s))))

-- `none` is the error ESRCH.
unfoldable pub thread_exists : Ptr → State → Bool
thread_exists t s =
    contains nq t s || contains rq t s || contains wq t s || contains sq t s || contains dq t s

-- The number of threads that have not ended and do not run.
unfoldable pub exit_cb : State → Bool
exit_cb s =
    (length (s.queue nq) + length (s.queue rq) + length (s.queue wq) + length (s.queue sq)) == 1

-- A thread that ends for good, or that somebody may join.
unfoldable pub bury : Ptr → State → State
bury t s =
    if not (s.tcb t).joinable
    then free t s
    else insert dq prio_std t (set_tcb t (record (s.tcb t) { join_arg = canceled; state = dead }) s)

unfoldable pub cancel_now : Cleanup → Queue → Ptr → State → Ret × State
unfolding bury
cancel_now cleanup q t s =
    if not (contains q t s) then (fail esrch, s) else (yes_ret, bury t (cleanup t (delete q t s)))

-- `pth_cancel` for a thread that is neither the running one nor dead.
unfoldable pub cancel_live : Cleanup → Ptr → State → Ret × State
unfolding queue_of cancel_now
cancel_live cleanup t s =
    let s' = set_tcb t (record (s.tcb t) { cancelreq = true }) s in
    if (s'.tcb t).enabled && (s'.tcb t).asynchronous
    then (elim (queue_of (s'.tcb t).state) [
      | none ↦ (fail esrch, s')
      | some q ↦ cancel_now cleanup q t s'
    ])
    else (yes_ret, s')

unfoldable pub cancel : Cleanup → Ptr → State → Ret × State
unfolding cancel_live
cancel cleanup t s =
    if t == null
    then (fail einval, s)
    else (if t == s.current
        then (fail einval, s)
        else (elim (s.tcb t).state [ dead ↦ (fail eperm, s) | _ ↦ cancel_live cleanup t s ]))

-- `pth_yield` up to its switch to the scheduler; only a new or a ready thread is favored.
unfoldable pub yield_queue : ThreadState → Option Queue
yield_queue new = some nq
yield_queue ready = some rq
yield_queue _ = none

unfoldable pub yield : Ptr → State → Ret × State
unfolding yield_queue
yield to s = if to == null then (yes_ret, s) else (elim (yield_queue (s.tcb to).state) [
  | none ↦ (fail einval, s)
  | some q ↦
      if not (contains q to s)
      then (fail einval, s)
      else (yes_ret, set_queue q (Spec.favorite to (s.queue q)) s)
])

-- What a thread attribute object says of a thread.
pub record Attr : Type 0 where
  pub a_prio : ℤ
  pub a_joinable : Bool
  pub a_enabled : Bool
  pub a_asynchronous : Bool
  pub a_dispatches : ℕ

-- The attributes of a new thread: the given ones, the parent's, or the defaults.
unfoldable pub inherited : Option Attr → State → Attr
inherited (some a) s = a
inherited none s =
    if not (s.current == null)
    then record {
      a_prio = (s.tcb s.current).prio;
      a_joinable = (s.tcb s.current).joinable;
      a_enabled = (s.tcb s.current).enabled;
      a_asynchronous = (s.tcb s.current).asynchronous;
      a_dispatches = 0;
    }
    else record {
      a_prio = prio_std;
      a_joinable = true;
      a_enabled = true;
      a_asynchronous = false;
      a_dispatches = 0;
    }

-- The control block of a new thread; the scheduler's own thread goes into no queue.
unfoldable pub new_tcb : Attr → Tcb
new_tcb a = record {
  prio = a.a_prio;
  dispatches = a.a_dispatches;
  state = new;
  joinable = a.a_joinable;
  join_arg = null;
  cancelreq = false;
  enabled = a.a_enabled;
  asynchronous = a.a_asynchronous;
}

-- `t` is the address that the allocation gives, which may be null, and `context` tells whether the
-- machine context could be set.
unfoldable pub spawn : Option Attr → (func t : Ptr) → (context : Bool) → State → Ptr × State
unfolding inherited new_tcb
spawn attr func t context s =
    if func == null
    then (null, s)
    else (if t == null
        then (null, s)
        else (let x = new_tcb (inherited attr s) in
            if not context
            then (null, free t (set_tcb t x s))
            else (t, insert nq x.prio t (set_tcb t x s))))

-- `pth_wait` up to its switch, and the end of `pth_exit` for a thread that is not the main one.
unfoldable pub start_wait : State → State
start_wait s = set_state s.current waiting s

unfoldable pub exit_thread : Ptr → State → State
exit_thread value s =
    set_tcb s.current (record (s.tcb s.current) { join_arg = value; state = dead }) s
