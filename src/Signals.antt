-- ===== src/Signals.antt =====
-- Signals for threads: `pth_raise` of src/pth_lib.c, and what the scheduler of src/pth_sched.c does with
-- them around the switch to a thread. The other end is the scan in Manager/Scan.antt.
pub mod Count
pub mod Pass
pub mod Runs
pub mod Around
mod Examples
use pth.Base.{
  ℕ, zero, suc, ◌≡◌, Bool, true, false, not, ◌||◌, Option, none, some, List, [], ◌∷◌, ◌==◌, ltb,
  if◌then◌else◌, Ptr, null, update,
}
use pth.Base.Int.{ℤ, pos, ◌-ℤ◌, ◌+ℤ◌, ltb_ℤ, pos_part}
use pth.Threads.{Ret, yes_ret, fail, einval, esrch}
use pth.Threads.Calls.{thread_exists, yield}
use pth.Manager.{SigSet, sigadd, sigdel, State}

-- PTH_NSIG
abbrev pub nsig : ℕ
nsig = 32

-- The signal becomes pending for the thread, once.
unfoldable pub note : (t : Ptr) → (sig : ℕ) → State → State
note t sig s =
    if not (s.sigpending t sig)
    then record s {
      sigpending = update s.sigpending t (sigadd sig (s.sigpending t));
      sigpendcnt = update s.sigpendcnt t (s.sigpendcnt t +ℤ pos 1);
    }
    else s

-- `action` is what `sigaction` finds: nothing for a number that is no signal, else whether the signal
-- is ignored.
unfoldable pub raise : (action : ℕ → Option Bool) → Ptr → ℤ → State → Ret × State
unfolding note thread_exists yield
raise action t sig s =
    if (t == null) || ((t == s.threads.current) || (ltb_ℤ sig (pos 0) || ltb_ℤ (pos nsig) sig))
    then (fail einval, s)
    else (if pos_part sig == 0
        then ((if thread_exists t s.threads then yes_ret else fail esrch), s)
        else (elim (action (pos_part sig)) [
          | none ↦ (fail einval, s)
          | some ignored ↦
              if ignored
              then (yes_ret, s)
              else (let s1 = note t (pos_part sig) s in
                  (yes_ret, record s1 { threads = (yield t s1.threads).1 }))
        ]))

-- The signals that the scheduler sends to the process before it switches to a thread: those pending
-- for the thread and not for the process.
unfoldable pub kill_loop : (left sig : ℕ) → (own process : SigSet) → List ℕ
kill_loop zero sig own process = []
kill_loop (suc k) sig own process =
    let rest = kill_loop k (suc sig) own process in
    if own sig then (if not (process sig) then sig ∷ rest else rest) else rest

unfoldable pub kills : (t : Ptr) → (process : SigSet) → State → List ℕ
unfolding kill_loop
kills t process s =
    if ltb_ℤ (pos 0) (s.sigpendcnt t) then kill_loop 31 1 (s.sigpending t) process else []

-- After the switch: a signal that is not pending for the process any more has been delivered. One that
-- still is, and was not before, is taken out of the process, which is the list of the result.
unfoldable pub settle_one :
    (t : Ptr) → (sig : ℕ) → (before still : SigSet) → State × List ℕ → State × List ℕ
settle_one t sig before still (s, gone) =
    if s.sigpending t sig
    then (if not (still sig)
        then (
          record s {
            sigpending = update s.sigpending t (sigdel sig (s.sigpending t));
            sigpendcnt = update s.sigpendcnt t (s.sigpendcnt t -ℤ pos 1);
          },
          gone,
        )
        else (if not (before sig) then (s, sig ∷ gone) else (s, gone)))
    else (s, gone)

unfoldable pub settle_loop :
    (left sig : ℕ) → (t : Ptr) → (before still : SigSet) → State × List ℕ → State × List ℕ
unfolding settle_one
settle_loop zero sig t before still r = r
settle_loop (suc k) sig t before still r =
    settle_loop k (suc sig) t before still (settle_one t sig before still r)

unfoldable pub settle : (t : Ptr) → (before still : SigSet) → State → State × List ℕ
unfolding settle_loop
settle t before still s =
    if ltb_ℤ (pos 0) (s.sigpendcnt t) then settle_loop 31 1 t before still (s, []) else (s, [])
