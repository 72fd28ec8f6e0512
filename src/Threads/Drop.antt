-- ===== src/Threads/Drop.antt =====
-- Start and end of the scheduler: `pth_scheduler_init`, `pth_scheduler_drop` and `pth_kill`.
use pth.Base.{
  ◌≡◌, refl, ◌∙◌, ap, Bool, true, false, not, ◌||◌, Option, none, some, List, [], ◌∷◌, arith, ◌==◌,
  if◌then◌else◌, Ptr, null, has,
}
use pth.Pqueue.Spec.{Entry, threads}
use pth.Threads.{
  State, Queue, nq, rq, wq, sq, dq, Ret, yes_ret, fail, Errno, einval, eperm, Cleanup, same_queue,
  set_queue, free,
}

-- The loop that takes the threads out of a queue and frees them.
unfoldable pub free_all : List Entry → State → State
free_all [] s = s
free_all (e ∷ xs) s = free_all xs (free e.0 s)

unfoldable pub drop_queue : Queue → State → State
unfolding free_all
drop_queue q s = set_queue q [] (free_all (s.queue q) s)

unfoldable pub scheduler_drop : State → State
unfolding drop_queue
scheduler_drop s = drop_queue dq (drop_queue sq (drop_queue wq (drop_queue rq (drop_queue nq s))))

-- `failure` is the error with which the signal pipe could not be made or set to non-blocking mode.
unfoldable pub scheduler_init : (failure : Option Errno) → State → Ret × State
scheduler_init (some e) s = (fail e, s)
scheduler_init none s =
    (yes_ret, record s { sched = null; current = null; queue = λ q. []; favournew = true })

-- Only the main thread may end the package; `cleanup` is what is done with it first. The flag is
-- `pth_initialized`.
unfoldable pub kill : Cleanup → (initialized : Bool) → State → Ret × (Bool × State)
unfolding scheduler_drop
kill cleanup initialized s =
    if not initialized
    then (fail einval, (initialized, s))
    else (if not (s.current == s.main)
        then (fail eperm, (initialized, s))
        else (let s1 = scheduler_drop (cleanup s.main s) in
            (yes_ret, (false, free s1.main (free s1.sched s1)))))

-- The threads that are freed.
free_all-has :
    (t : Ptr) (xs : List Entry) (s : State)
    → has t (free_all xs s).freed ≡ (has t (threads xs) || has t s.freed)
unfolding free_all
free_all-has t [] s = refl
free_all-has t (e ∷ xs) s = ground (arith, free_all-has t xs (free e.0 s))

free_all-queue : (xs : List Entry) (s : State) → (free_all xs s).queue ≡ s.queue
unfolding free_all
free_all-queue [] s = refl
free_all-queue (e ∷ xs) s = free_all-queue xs (free e.0 s)

drop_queue-queue :
    (q q' : Queue) (s : State)
    → (drop_queue q s).queue q' ≡ (if same_queue q q' then [] else s.queue q')
unfolding drop_queue
drop_queue-queue q q' s =
    ap (λ xs. if same_queue q q' then [] else xs) (ap (λ f. f q') (free_all-queue (s.queue q) s))

drop_queue-freed :
    (t : Ptr) (q : Queue) (s : State)
    → has t (drop_queue q s).freed ≡ (has t (threads (s.queue q)) || has t s.freed)
unfolding drop_queue
drop_queue-freed t q s = free_all-has t (s.queue q) s

freed_more :
    (t : Ptr) (q : Queue) (s : State) {before : Bool} {xs : List Entry}
    → has t s.freed ≡ before
    → s.queue q ≡ xs
    → has t (drop_queue q s).freed ≡ (has t (threads xs) || before)
freed_more t q s {xs = xs} h e =
    drop_queue-freed t q s
    ∙ ap (λ ys. has t (threads ys) || has t s.freed) e
    ∙ ap (λ b. has t (threads xs) || b) h

-- All queues are empty, and the freed threads are those that were in a queue.
pub scheduler_drop-empty :
    (s : State)
    → ((q : Queue) → (scheduler_drop s).queue q ≡ [])
      × ((t : Ptr)
          → has t (scheduler_drop s).freed ≡ (
              has t (threads (s.queue dq))
              || (has t (threads (s.queue sq))
                  || (has t (threads (s.queue wq))
                      || (has t (threads (s.queue rq))
                          || (has t (threads (s.queue nq)) || has t s.freed))))))
unfolding scheduler_drop
scheduler_drop-empty s = (empty, freed_are)
  where
    empty : (q : Queue) → (scheduler_drop s).queue q ≡ []
    empty nq =
        rw
          (drop_queue-queue, drop_queue-queue, drop_queue-queue, drop_queue-queue, drop_queue-queue)
          refl
    empty rq = rw (drop_queue-queue, drop_queue-queue, drop_queue-queue, drop_queue-queue) refl
    empty wq = rw (drop_queue-queue, drop_queue-queue, drop_queue-queue) refl
    empty sq = rw (drop_queue-queue, drop_queue-queue) refl
    empty dq = rw drop_queue-queue refl

    freed_are :
        (t : Ptr)
        → has t (scheduler_drop s).freed ≡ (
            has t (threads (s.queue dq))
            || (has t (threads (s.queue sq))
                || (has t (threads (s.queue wq))
                    || (has t (threads (s.queue rq))
                        || (has t (threads (s.queue nq)) || has t s.freed)))))
    freed_are t =
        let s1 = drop_queue nq s in
        let s2 = drop_queue rq s1 in
        let s3 = drop_queue wq s2 in
        let s4 = drop_queue sq s3 in
        let f1 = drop_queue-freed t nq s in
        let f2 = freed_more t rq s1 f1 (drop_queue-queue nq rq s) in
        let f3 = freed_more t wq s2 f2 (drop_queue-queue rq wq s1 ∙ drop_queue-queue nq wq s) in
        let f4 =
          freed_more t sq s3 f3
            (drop_queue-queue wq sq s2 ∙ drop_queue-queue rq sq s1 ∙ drop_queue-queue nq sq s) in
        freed_more t dq s4 f4 (
          drop_queue-queue sq dq s3
          ∙ drop_queue-queue wq dq s2
          ∙ drop_queue-queue rq dq s1
          ∙ drop_queue-queue nq dq s)
