-- ===== src/Manager/Scan.antt =====
-- The first loop: all events of all waiting threads.
use pth.Base.{
  ℕ, zero, suc, Bool, true, false, not, ◌&&◌, ◌||◌, Option, none, some, List, [], ◌∷◌, ◌==◌, ltb,
  if◌then◌else◌, Ptr, null, update, length,
}
use pth.Base.Int.{ℤ, pos, ◌-ℤ◌, ltb_ℤ, pos_part}
use pth.Time
use pth.Time.{Time}
use pth.Util.{FdSet, fd_set, fds_merge}
use pth.Event.{
  occurred, Args, on_fd, on_select, on_sigs, on_time, on_msg, on_mutex, on_cond, on_tid, on_func,
  bit,
}
use pth.Event.Cycles.{is_pending}
use pth.Threads.{dq}
use pth.Pqueue.Spec.{Entry}
use pth.Manager.{SigSet, sigadd, sigdel, State, Polls, set_status, set_cond, set_out, state_number}

abbrev pub max_ℤ : ℤ → ℤ → ℤ
max_ℤ a b = if ltb_ℤ a b then b else a

-- A descriptor is put into the sets that its goal asks for.
unfoldable pub scan_fd : ℤ → (goal : ℕ) → Polls → Polls
scan_fd fd goal p = record p {
  rfds = if bit 12 goal then fd_set (pos_part fd) p.rfds else p.rfds;
  wfds = if bit 13 goal then fd_set (pos_part fd) p.wfds else p.wfds;
  efds = if bit 14 goal then fd_set (pos_part fd) p.efds else p.efds;
  fdmax = max_ℤ p.fdmax fd;
}

unfoldable pub scan_select : ℤ → (rfds wfds efds : Option FdSet) → Polls → Polls
scan_select nfd rfds wfds efds p =
    let m = fds_merge (pos_part nfd) rfds p.rfds wfds p.wfds efds p.efds in
    record p { rfds = m.0; wfds = m.1; efds = m.2; fdmax = max_ℤ p.fdmax (nfd -ℤ pos 1) }

-- A signal of the set: pending for the thread, pending for the process, or one to be caught.
unfoldable pub scan_sig_thread : (t sigp : Ptr) → (sig : ℕ) → State × Bool → State × Bool
scan_sig_thread t sigp sig (s, this) =
    if s.sigpending t sig
    then (
      record (set_out sigp sig s) {
        sigpending = update s.sigpending t (sigdel sig (s.sigpending t));
        sigpendcnt = update s.sigpendcnt t (s.sigpendcnt t -ℤ pos 1);
      },
      true,
    )
    else (s, this)

unfoldable pub scan_sig_process : (sigp : Ptr) → (sig : ℕ) → State × Bool → State × Bool
scan_sig_process sigp sig (s, this) =
    if s.pth_sigpending sig
    then (
      record (if not (sigp == null) then set_out sigp sig s else s) {
        pth_sigpending = sigdel sig s.pth_sigpending;
      },
      true,
    )
    else (
      record s {
        pth_sigblock = sigdel sig s.pth_sigblock;
        pth_sigcatch = sigadd sig s.pth_sigcatch;
      },
      this,
    )

-- `left` signals from `sig` on; the callers start with the 31 signals below PTH_NSIG.
unfoldable pub scan_sigs : (left sig : ℕ) → SigSet → (t sigp : Ptr) → State × Bool → State × Bool
unfolding scan_sig_thread scan_sig_process
scan_sigs zero sig set t sigp r = r
scan_sigs (suc k) sig set t sigp r =
    scan_sigs k (suc sig) set t sigp
      (if set sig then scan_sig_process sigp sig (scan_sig_thread t sigp sig r) else r)

-- The timer that elapses next.
unfoldable pub next_timer : (t e : Ptr) → Time → Polls → Polls
next_timer t e tv p = elim p.nexttimer [
  | none ↦ record p { nexttimer = some (t, e, tv) }
  | some (t0, e0, v) ↦
      if ltb_ℤ (Time.cmp tv v) (pos 0) then record p { nexttimer = some (t, e, tv) } else p
]

-- A condition variable that is signaled to all occurs for each waiting thread, one that is signaled
-- to one thread occurs once.
unfoldable pub scan_cond : Ptr → State → State × Bool
scan_cond c s =
    if (s.cond c).signaled
    then (if (s.cond c).broadcast
        then (s, true)
        else (if not (s.cond c).handled
            then (set_cond c (record (s.cond c) { handled = true }) s, true)
            else (s, false)))
    else (s, false)

unfoldable pub scan_tid : (tid : Ptr) → (goal : ℕ) → State → Bool
scan_tid tid goal s =
    ((tid == null) && ltb 0 (length (s.threads.queue dq)))
    || (not (tid == null) && (state_number (s.threads.tcb tid).state == goal))

-- What an event waits for, in its turn: the state, the polls, and whether it has occurred. `func` is
-- what the functions of the application return.
unfoldable pub scan_args :
    (func : Ptr → Ptr → Bool)
    → (now : Time) → (t e : Ptr) → Args
    → (goal : ℕ) → State
    → Polls
    → (State × Bool) × Polls
unfolding scan_fd scan_select scan_sigs next_timer scan_cond scan_tid
scan_args func now t e (on_fd fd) goal s p = ((s, false), scan_fd fd goal p)
scan_args func now t e (on_select n nfd rfds wfds efds) goal s p =
    ((s, false), scan_select nfd (s.fds rfds) (s.fds wfds) (s.fds efds) p)
scan_args func now t e (on_sigs sigs sig) goal s p =
    (scan_sigs 31 1 (s.sigs sigs) t sig (s, false), p)
scan_args func now t e (on_time tv) goal s p =
    if ltb_ℤ (Time.cmp tv now) (pos 0) then ((s, true), p) else ((s, false), next_timer t e tv p)
scan_args func now t e (on_msg mp) goal s p = ((s, ltb 0 (s.elements mp)), p)
scan_args func now t e (on_mutex mutex) goal s p = ((s, not (s.locked mutex)), p)
scan_args func now t e (on_cond cond) goal s p = (scan_cond cond s, p)
scan_args func now t e (on_tid tid) goal s p = ((s, scan_tid tid goal s), p)
scan_args func now t e (on_func f arg tv) goal s p =
    if func f arg then ((s, true), p) else ((s, false), next_timer t e (Time.add now tv) p)

-- An event that has occurred is tagged.
unfoldable pub tag : Ptr → (State × Bool) × Polls → State × Polls
tag e ((s, true), p) = (set_status e occurred s, record p { any_occurred = true })
tag e ((s, false), p) = (s, p)

unfoldable pub scan_event :
    (func : Ptr → Ptr → Bool) → (now : Time) → (t e : Ptr) → State × Polls → State × Polls
unfolding scan_args tag
scan_event func now t e (s, p) =
    if is_pending (s.events.ev_status e)
    then tag e (scan_args func now t e (s.events.ev_args e) (s.events.ev_goal e) s p)
    else (s, p)

unfoldable pub scan_ring :
    (func : Ptr → Ptr → Bool) → (now : Time) → (t : Ptr) → List Ptr → State × Polls → State × Polls
unfolding scan_event
scan_ring func now t [] r = r
scan_ring func now t (e ∷ es) r = scan_ring func now t es (scan_event func now t e r)

-- The signals that the thread does not block are not blocked while the scheduler waits.
unfoldable pub unblock : (left sig : ℕ) → SigSet → SigSet → SigSet
unblock zero sig own blocked = blocked
unblock (suc k) sig own blocked =
    unblock k (suc sig) own (if not (own sig) then sigdel sig blocked else blocked)

unfoldable pub scan_thread :
    (func : Ptr → Ptr → Bool) → (now : Time) → Ptr → State × Polls → State × Polls
unfolding unblock scan_ring
scan_thread func now t (s, p) = scan_ring func now t (s.ring t) (
  record s { pth_sigblock = unblock 31 1 (s.mctx_sigs t) s.pth_sigblock },
  (if (s.threads.tcb t).cancelreq then record p { any_occurred = true } else p),
)

unfoldable pub scan_all :
    (func : Ptr → Ptr → Bool) → (now : Time) → List Entry → State × Polls → State × Polls
unfolding scan_thread
scan_all func now [] r = r
scan_all func now (x ∷ xs) r = scan_all func now xs (scan_thread func now x.0 r)
