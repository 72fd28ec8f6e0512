-- ===== src/Manager/Late.antt =====
-- The last loop: what the poll has found, and the threads that are made ready.
use pth.Base.{
  ℕ, zero, suc, Bool, false, not, ◌&&◌, ◌||◌, List, [], ◌∷◌, ◌==◌, if◌then◌else◌, Ptr, null, update,
}
use pth.Base.Int.{ℤ, pos_part}
use pth.Util.{FdSet, fds_test, fds_select}
use pth.Event.{occurred, failed, Args, on_fd, on_select, on_sigs, on_cond, bit}
use pth.Event.Cycles.{is_pending}
use pth.Threads.Scheduler.{wake}
use pth.Pqueue.Spec.{Entry}
use pth.Manager.{SigSet, sigdel, State, set_status, set_cond, set_out}

-- The sets that the poll has left, whether it failed, and whether the poll of the descriptors of one
-- event fails.
pub record Found : Type 0 where
  pub rfds : FdSet
  pub wfds : FdSet
  pub efds : FdSet
  pub rc_negative : Bool
  pub recheck_fails : Ptr → Bool

-- A poll that failed is repeated for the one event; the sets are empty before and after. That the
-- descriptor is ready is left for the next round.
unfoldable pub recheck : Found → Ptr → State → State
recheck f e s = if f.rc_negative && f.recheck_fails e then set_status e failed s else s

unfoldable pub late_fd : Found → (e : Ptr) → ℤ → (goal : ℕ) → State → State
unfolding recheck
late_fd f e fd goal s =
    if (bit 12 goal && f.rfds (pos_part fd))
      || ((bit 13 goal && f.wfds (pos_part fd)) || (bit 14 goal && f.efds (pos_part fd)))
    then set_status e occurred s
    else recheck f e s

-- The sets of the event are cut to what occurred, and the number is stored.
unfoldable pub take_selected : Found → (e n : Ptr) → ℤ → (rfds wfds efds : Ptr) → State → State
take_selected f e n nfd rfds wfds efds s =
    let r = fds_select (pos_part nfd) (s.fds rfds) f.rfds (s.fds wfds) f.wfds (s.fds efds) f.efds in
    let s1 = record s { fds = update (update (update s.fds rfds r.0.0) wfds r.0.1) efds r.0.2 } in
    set_status e occurred (if not (n == null) then set_out n r.1 s1 else s1)

unfoldable pub late_select : Found → (e n : Ptr) → ℤ → (rfds wfds efds : Ptr) → State → State
unfolding recheck take_selected
late_select f e n nfd rfds wfds efds s =
    if fds_test (pos_part nfd) (s.fds rfds) f.rfds (s.fds wfds) f.wfds (s.fds efds) f.efds
    then take_selected f e n nfd rfds wfds efds s
    else recheck f e s

-- A signal of the set that the handler has noted.
unfoldable pub late_sig : (e sigp : Ptr) → (sig : ℕ) → State → State
late_sig e sigp sig s =
    if s.pth_sigraised sig
    then set_status e occurred (record (if not (sigp == null) then set_out sigp sig s else s) {
      pth_sigraised = sigdel sig s.pth_sigraised;
    })
    else s

unfoldable pub late_sigs : (left sig : ℕ) → SigSet → (e sigp : Ptr) → State → State
unfolding late_sig
late_sigs zero sig set e sigp s = s
late_sigs (suc k) sig set e sigp s =
    late_sigs k (suc sig) set e sigp (if set sig then late_sig e sigp sig s else s)

unfoldable pub late_pending : Found → Ptr → Args → (goal : ℕ) → State → State
unfolding late_fd late_select late_sigs
late_pending f e (on_fd fd) goal s = late_fd f e fd goal s
late_pending f e (on_select n nfd rfds wfds efds) goal s = late_select f e n nfd rfds wfds efds s
late_pending f e (on_sigs sigs sig) goal s = late_sigs 31 1 (s.sigs sigs) e sig s
late_pending f e a goal s = s

-- The signal of a condition variable is taken back.
unfoldable pub clean_cond : Args → State → State
clean_cond (on_cond c) s =
    if (s.cond c).signaled
    then set_cond c (record (s.cond c) { signaled = false; broadcast = false; handled = false }) s
    else s
clean_cond a s = s

unfoldable pub late_event : Found → Ptr → State → State
unfolding late_pending clean_cond
late_event f e s =
    if is_pending (s.events.ev_status e)
    then late_pending f e (s.events.ev_args e) (s.events.ev_goal e) s
    else clean_cond (s.events.ev_args e) s

-- The events of a thread, and whether one of them is not pending any more.
unfoldable pub late_ring : Found → List Ptr → State × Bool → State × Bool
unfolding late_event
late_ring f [] r = r
late_ring f (e ∷ es) (s, any) =
    let s1 = late_event f e s in
    late_ring f es (s1, (not (is_pending (s1.events.ev_status e)) || any))

-- A thread with such an event, or with a request for its cancellation, is made ready.
unfoldable pub late_thread : Found → Ptr → State → State
unfolding late_ring
late_thread f t s =
    let r = late_ring f (s.ring t) (s, false) in
    record r.0 { threads = wake (λ _. r.1) t r.0.threads }

unfoldable pub late_all : Found → List Entry → State → State
unfolding late_thread
late_all f [] s = s
late_all f (x ∷ xs) s = late_all f xs (late_thread f x.0 s)
