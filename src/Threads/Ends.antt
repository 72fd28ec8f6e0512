-- ===== src/Threads/Ends.antt =====
-- What ends threads, and what counts and constructs: `pth_join`, `pth_abort`, `pth_cancel_state`,
-- `pth_cancel_point`, the threads that `pth_ctrl` counts, and `pth_once`.
use pth.Base.{ℕ, ◌+◌, Bool, true, false, not, ◌&&◌, ◌||◌, ◌==◌, if◌then◌else◌, Ptr, null, length}
use pth.Threads.{
  einval, edeadlk, eio, Ret, yes_ret, fail, dead, nq, rq, wq, sq, dq, State, set_tcb, delete, free,
  first, Cleanup, canceled,
}
use pth.Threads.Calls.{cancel, start_wait, exit_thread}

-- The bits of PTH_CTRL_GETTHREADS.
pub record Query : Type 0 where
  pub get_new : Bool
  pub get_ready : Bool
  pub get_running : Bool
  pub get_waiting : Bool
  pub get_suspended : Bool
  pub get_dead : Bool

abbrev pub counted : Bool → ℕ → ℕ
counted b n = if b then n else 0

unfoldable pub get_threads : Query → State → ℕ
get_threads q s =
    counted q.get_new (length (s.queue nq))
    + counted q.get_ready (length (s.queue rq))
    + counted q.get_running 1
    + counted q.get_waiting (length (s.queue wq))
    + counted q.get_suspended (length (s.queue sq))
    + counted q.get_dead (length (s.queue dq))

abbrev pub all_threads : Query
all_threads = record {
  get_new = true;
  get_ready = true;
  get_running = true;
  get_waiting = true;
  get_suspended = true;
  get_dead = true;
}

abbrev pub is_dead : Ptr → State → Bool
is_dead t s = elim (s.tcb t).state [ dead ↦ true | _ ↦ false ]

abbrev pub not_ended : Ptr → State → Bool
not_ended t s = (t == null) || not (is_dead t s)

-- The end of `pth_join`: the value, and the thread is gone.
unfoldable pub join_dead : Ptr → State → Ret × (Ptr × State)
join_dead t s =
    let tid = if t == null then first (s.queue dq) else t in
    if not_ended tid s
    then (fail eio, (null, s))
    else (yes_ret, ((s.tcb tid).join_arg, free tid (delete dq tid s)))

-- `others` is what happens while the caller waits.
unfoldable pub join : (others : State → State) → Ptr → State → Ret × (Ptr × State)
unfolding get_threads join_dead
join others t s =
    if t == s.current
    then (fail edeadlk, (null, s))
    else (if not (t == null) && not (s.tcb t).joinable
        then (fail einval, (null, s))
        else (if get_threads all_threads s == 1
            then (fail edeadlk, (null, s))
            else (let tid = if t == null then first (s.queue dq) else t in
                join_dead tid (if not_ended tid s then others (start_wait s) else s))))

unfoldable pub abort : (others : State → State) → Cleanup → Ptr → State → Ret × State
unfolding join
abort others cleanup t s =
    if t == null
    then (fail einval, s)
    else (if t == s.current
        then (fail einval, s)
        else (if is_dead t s && (s.tcb t).joinable
            then (let r = join others t s in (r.0, r.1.1))
            else cancel cleanup t (
                set_tcb t
                  (record (s.tcb t) { joinable = false; enabled = true; asynchronous = true }) s)))

-- The state of cancellation as two bits; `none_new` is the 0 that changes nothing.
unfoldable pub cancel_state : (none_new enabled asynchronous : Bool) → State → (Bool × Bool) × State
cancel_state none_new en asy s = (
  ((s.tcb s.current).enabled, (s.tcb s.current).asynchronous),
  (if none_new
      then s
      else set_tcb s.current (record (s.tcb s.current) { enabled = en; asynchronous = asy }) s),
)

-- A thread other than the main one ends at a cancellation point if it is to.
unfoldable pub cancel_point : Cleanup → State → State
unfolding exit_thread
cancel_point cleanup s =
    if (s.tcb s.current).cancelreq && (s.tcb s.current).enabled
    then (let s' = set_tcb s.current (record (s.tcb s.current) { cancelreq = false }) s in
        exit_thread canceled (cleanup s'.current s'))
    else s

-- `pth_once`: the control word, and what the constructor does to it and to the rest.
unfoldable pub once {ℓ} :
    {W : Type ℓ}
    → (some_args : Bool) → (constructor : Bool × W → Bool × W) → Bool × W
    → Ret × (Bool × W)
once some_args constructor w =
    if not some_args
    then (fail einval, w)
    else (yes_ret, (true, (if w.0 then w else constructor w).1))
