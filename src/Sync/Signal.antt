-- ===== src/Sync/Signal.antt =====
-- Condition variables.
use pth.Base.{
  ◌+◌, ◌-◌, ◌%◌, Bool, true, false, not, ◌&&◌, ◌||◌, ltb, ◌==◌, if◌then◌else◌, Ptr, null,
}
use pth.Ring.{uint_mod}
use pth.Sync.{
  einval, edeadlk, Ret, yes_ret, fail, State, Cmd, ◌>>=◌, ◌>>◌, pure, modify, get_state, wait,
  set_cond,
}
use pth.Sync.Lock.{acquire, release_cmd}

unfoldable pub cond_init : Ptr → State → Ret × State
cond_init c s = if c == null then (fail einval, s) else (
  yes_ret,
  set_cond c
      (record {
        cond_initialized = true;
        signaled = false;
        broadcast = false;
        handled = false;
        waiters = 0;
      })
      s,
)

abbrev pub fewer_waiters : Ptr → Cmd (Unit {0})
fewer_waiters c = modify (λ s.
    set_cond c (record (s.cond c) { waiters = ((s.cond c).waiters + uint_mod - 1) % uint_mod }) s)

-- What a thread does that is cancelled while it waits.
unfoldable pub cleanup_handler : (mutex cond : Ptr) → Cmd (Unit {0})
cleanup_handler m c = acquire m false false >> fewer_waiters c

-- The wait of a thread for which there is no signal yet.
unfoldable pub await_signal : (cond mutex : Ptr) → Cmd Ret
await_signal c m =
    modify (λ s. set_cond c (record (s.cond c) { waiters = ((s.cond c).waiters + 1) % uint_mod }) s)
    >> release_cmd m
    >> wait
    >> acquire m false false
    >> fewer_waiters c
    >> pure yes_ret

unfoldable pub await : (cond mutex : Ptr) → Cmd Ret
unfolding await_signal
await c m = get_state >>= λ s.
    if c == null || m == null
    then pure (fail einval)
    else (if not (s.cond c).cond_initialized
        then pure (fail edeadlk)
        else (if (s.cond c).signaled && not (s.cond c).broadcast
            then (modify (λ s1.
                  set_cond c
                    (record (s1.cond c) { signaled = false; broadcast = false; handled = false })
                    s1)
                >> pure yes_ret)
            else await_signal c m))

-- Other threads run before a call returns that has signaled.
unfoldable pub notify : Ptr → (to_all : Bool) → Cmd Ret
notify c to_all = get_state >>= λ s.
    if c == null
    then pure (fail einval)
    else (if not (s.cond c).cond_initialized
        then pure (fail edeadlk)
        else (if ltb 0 (s.cond c).waiters
            then (modify (λ s1.
                  set_cond c
                    (record (s1.cond c) { signaled = true; broadcast = to_all; handled = false })
                    s1)
                >> wait
                >> pure yes_ret)
            else pure yes_ret))
