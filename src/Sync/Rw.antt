-- ===== src/Sync/Rw.antt =====
-- Read-write locks: a mutex for the writers, held for all readers by the first of them, and a mutex
-- for the count of readers.
use pth.Base.{ℕ, ◌+◌, ◌-◌, ◌%◌, Bool, true, false, not, ◌==◌, if◌then◌else◌, Ptr, null}
use pth.Sync.{
  einval, edeadlk, Ret, yes_ret, fail, State, Cmd, ◌>>=◌, ◌>>◌, pure, modify, get_state, set_rwlock,
  ulong_mod,
}
use pth.Sync.Lock.{init, acquire, release_cmd}

unfoldable pub rw_init : Ptr → State → Ret × State
rw_init l s =
    if l == null
    then (fail einval, s)
    else (let x = record (s.rwlock l) { rw_initialized = true; rw_readers = 0 } in
        (yes_ret, (init x.rw_mutex_rw (init x.rw_mutex_rd (set_rwlock l x s)).1).1))

abbrev pub set_readers : ℕ → Ptr → State → State
set_readers n l s = set_rwlock l (record (s.rwlock l) { rw_readers = n }) s

abbrev pub more_readers : Ptr → Cmd (Unit {0})
more_readers l = modify (λ s. set_readers (((s.rwlock l).rw_readers + 1) % ulong_mod) l s)

abbrev pub fewer_readers : Ptr → Cmd (Unit {0})
fewer_readers l =
    modify (λ s. set_readers (((s.rwlock l).rw_readers + ulong_mod - 1) % ulong_mod) l s)

abbrev pub set_writing : Bool → Ptr → Cmd (Unit {0})
set_writing b l = modify (λ s. set_rwlock l (record (s.rwlock l) { rw_writing = b }) s)

-- The last lines of the readers' branch of both calls.
unfoldable pub end_reading : Ptr → Cmd Ret
end_reading l =
    set_writing false l >> get_state >>= λ s. release_cmd (s.rwlock l).rw_mutex_rd >> pure yes_ret

-- The branch that gives up: the error is that of the call which failed.
unfoldable pub give_up : (more : Bool) → Ptr → Ret → Cmd Ret
give_up more l r = (if more then more_readers l else fewer_readers l) >> get_state >>= λ s.
    release_cmd (s.rwlock l).rw_mutex_rd >> pure r

unfoldable pub acquire_writing : Ptr → (tryonly extra : Bool) → Cmd Ret
acquire_writing l tryonly extra = get_state >>= λ s.
    acquire (s.rwlock l).rw_mutex_rw tryonly extra >>= λ r. elim r [
      | fail e ↦ pure (fail e)
      | yes_ret ↦ set_writing true l >> pure yes_ret
    ]

unfoldable pub acquire_reading : Ptr → (tryonly extra : Bool) → Cmd Ret
unfolding end_reading give_up
acquire_reading l tryonly extra = get_state >>= λ s.
    acquire (s.rwlock l).rw_mutex_rd tryonly extra >>= λ r. elim r [
      | fail e ↦ pure (fail e)
      | yes_ret ↦ more_readers l >> get_state >>= λ s1.
          if (s1.rwlock l).rw_readers == 1
          then (acquire (s1.rwlock l).rw_mutex_rw tryonly extra >>= λ r1. elim r1 [
            | fail e ↦ give_up false l (fail e)
            | yes_ret ↦ end_reading l
          ])
          else end_reading l
    ]

unfoldable pub rw_acquire : Ptr → (writing tryonly extra : Bool) → Cmd Ret
unfolding acquire_writing acquire_reading
rw_acquire l writing tryonly extra = get_state >>= λ s.
    if l == null
    then pure (fail einval)
    else (if not (s.rwlock l).rw_initialized
        then pure (fail edeadlk)
        else (if writing then acquire_writing l tryonly extra else acquire_reading l tryonly extra))

unfoldable pub release_reading : Ptr → Cmd Ret
unfolding end_reading give_up
release_reading l = get_state >>= λ s. acquire (s.rwlock l).rw_mutex_rd false false >>= λ r.
    elim r [
      | fail e ↦ pure (fail e)
      | yes_ret ↦ fewer_readers l >> get_state >>= λ s1.
          if (s1.rwlock l).rw_readers == 0
          then (release_cmd (s1.rwlock l).rw_mutex_rw >>= λ r1. elim r1 [
            | fail e ↦ give_up true l (fail e)
            | yes_ret ↦ end_reading l
          ])
          else end_reading l
    ]

unfoldable pub rw_release : Ptr → Cmd Ret
unfolding release_reading
rw_release l = get_state >>= λ s.
    if l == null
    then pure (fail einval)
    else (if not (s.rwlock l).rw_initialized
        then pure (fail edeadlk)
        else (if (s.rwlock l).rw_writing
            then release_cmd (s.rwlock l).rw_mutex_rw
            else release_reading l))
