-- ===== src/Sync/Lock.antt =====
-- Mutexes. `start` is `pth_mutex_acquire` up to its wait, `resume` what follows each wait.
use pth.Base.{
  ℕ, zero, suc, ◌+◌, ◌-◌, ◌%◌, Bool, true, false, not, ◌&&◌, Option, none, some, List, [], ◌∷◌,
  ◌==◌, leb, if◌then◌else◌, Ptr, null,
}
use pth.Ring
use pth.Sync.{
  einval, edeadlk, ebusy, eintr, eacces, Ret, yes_ret, fail, State, Wake, Run, done, asleep, Cmd,
  set_mutex, set_rings, ulong_mod,
}

unfoldable pub init : Ptr → State → Ret × State
init m s = if m == null then (fail einval, s) else (
  yes_ret,
  set_mutex m (record { initialized = true; locked = false; owner = null; count = 0 }) s,
)

-- The lines that lock a free mutex for the current thread.
unfoldable pub lock : Ptr → State → State
lock m s =
    set_rings (Ring.append s.current m s.rings)
      (set_mutex m (record (s.mutex m) { locked = true; owner = s.current; count = 1 }) s)

-- What a piece of a call comes to.
pub data Outcome : Type 0 where
  returns : Ret → State → Outcome
  waits : State → Outcome

unfoldable pub start : Ptr → (tryonly : Bool) → State → Outcome
unfolding lock
start m tryonly s =
    if m == null
    then returns (fail einval) s
    else (if not (s.mutex m).initialized
        then returns (fail edeadlk) s
        else (if not (s.mutex m).locked
            then returns yes_ret (lock m s)
            else (if leb 1 (s.mutex m).count && (s.mutex m).owner == s.current
                then returns yes_ret (
                    set_mutex m (record (s.mutex m) { count = ((s.mutex m).count + 1) % ulong_mod })
                      s)
                else (if tryonly then returns (fail ebusy) s else waits s))))

unfoldable pub resume : Ptr → (extra pending : Bool) → State → Outcome
unfolding lock
resume m extra pending s =
    if extra && pending
    then returns (fail eintr) s
    else (if not (s.mutex m).locked then returns yes_ret (lock m s) else waits s)

-- The `for` loop: one round for each wake-up.
unfoldable pub wait_loop : Ptr → Bool → State → List Wake → Run Ret
wait_loop m extra s [] = asleep (record { state = s; wakes = [] })
wait_loop m extra s (w ∷ ws) = elim (resume m extra w.pending (w.others s)) [
  | returns r s' ↦ done r (record { state = s'; wakes = ws })
  | waits s' ↦ wait_loop m extra s' ws
]

unfoldable pub acquire : Ptr → (tryonly extra : Bool) → Cmd Ret
unfolding wait_loop
acquire m tryonly extra w = elim (start m tryonly w.state) [
  | returns r s ↦ done r (record w { state = s })
  | waits s ↦ wait_loop m extra s w.wakes
]

-- The lines that unlock a mutex.
unfoldable pub unlock : Ptr → State → State
unlock m s =
    set_rings (Ring.delete s.current m s.rings)
      (set_mutex m (record (s.mutex m) { locked = false; owner = null; count = 0 }) s)

unfoldable pub release : Ptr → State → Ret × State
unfolding unlock
release m s =
    if m == null
    then (fail einval, s)
    else (if not (s.mutex m).initialized
        then (fail edeadlk, s)
        else (if not (s.mutex m).locked
            then (fail edeadlk, s)
            else (if not ((s.mutex m).owner == s.current)
                then (fail eacces, s)
                else (let left = ((s.mutex m).count + ulong_mod - 1) % ulong_mod in
                    if leb left 0
                    then (yes_ret, unlock m s)
                    else (yes_ret, set_mutex m (record (s.mutex m) { count = left }) s)))))

-- The loop of `pth_mutex_releaseall` from the node `rn` on, `rnf` being the first one; `none`
-- without fuel.
unfoldable pub releaseall_loop : ℕ → Ptr → Ptr → Ptr → State → Option State
releaseall_loop zero t rnf rn s = none
releaseall_loop (suc k) t rnf rn s = elim (rn == null) [
  | true ↦ some s
  | false ↦
      let s' = (release rn s).1 in
      elim (Ring.next t rn s'.rings == rnf) [
        | true ↦ some s'
        | false ↦ releaseall_loop k t rnf (Ring.next t rn s'.rings) s'
      ]
]

unfoldable pub releaseall : ℕ → Ptr → State → Option State
unfolding releaseall_loop
releaseall fuel t s =
    if t == null
    then some s
    else releaseall_loop fuel t (Ring.first t s.rings) (Ring.first t s.rings) s

unfoldable pub release_cmd : Ptr → Cmd Ret
unfolding release
release_cmd m w = let r = release m w.state in done r.0 (record w { state = r.1 })
