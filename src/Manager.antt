-- ===== src/Manager.antt =====
-- `pth_sched_eventmanager` of src/pth_sched.c: which events of waiting threads have occurred. The ring
-- of events of a thread is the list of its events, from the first on; a thread with no events has the
-- empty list. Event.antt has the rings in memory.
pub mod Scan
pub mod Late
pub mod Round
pub mod Conds
pub mod Signals
pub mod Compose
pub mod Once
pub mod Wakes
pub mod Whole
pub mod Examples
use pth.Base.{
  ℕ, zero, suc, ◌+◌, ◌-◌, ◌*◌, ◌/◌, ◌%◌, ◌^◌, Bool, true, false, not, ◌&&◌, ◌||◌, Option, none,
  some, List, [], ◌∷◌, ◌==◌, if◌then◌else◌, Ptr, null, update,
}
use pth.Base.Int.{ℤ, pos, negsuc, ◌-ℤ◌, ltb_ℤ, pos_part}
use pth.Time
use pth.Time.{Time}
use pth.Util.{FdSet}
use pth.Sync.{Cond}
use pth.Event
use pth.Threads

abbrev pub SigSet : Type 0
SigSet = ℕ → Bool

abbrev pub sigadd : ℕ → SigSet → SigSet
sigadd n f x = if n == x then true else f x

abbrev pub sigdel : ℕ → SigSet → SigSet
sigdel n f x = if n == x then false else f x

-- What the event manager reads and writes. `out` has the integers that events point to; a set of
-- descriptors that an event points to may be absent.
pub record State : Type 0 where
  pub threads : Threads.State
  pub events : Event.Mem
  pub ring : Ptr → List Ptr
  pub elements : Ptr → ℕ
  pub locked : Ptr → Bool
  pub cond : Ptr → Cond
  pub fds : Ptr → Option FdSet
  pub out : Ptr → ℕ
  pub sigs : Ptr → SigSet
  pub sigpending : Ptr → SigSet
  pub sigpendcnt : Ptr → ℤ
  pub mctx_sigs : Ptr → SigSet
  pub pth_sigpending : SigSet
  pub pth_sigblock : SigSet
  pub pth_sigcatch : SigSet
  pub pth_sigraised : SigSet

-- The local variables that the scan of the events fills.
pub record Polls : Type 0 where
  pub rfds : FdSet
  pub wfds : FdSet
  pub efds : FdSet
  pub fdmax : ℤ
  pub nexttimer : Option (Ptr × Ptr × Time)
  pub any_occurred : Bool

abbrev pub set_status : Ptr → Event.Status → State → State
set_status e v s = record s { events = Event.set_status e v s.events }

abbrev pub set_cond : Ptr → Cond → State → State
set_cond c x s = record s { cond = update s.cond c x }

abbrev pub set_out : Ptr → ℕ → State → State
set_out p v s = record s { out = update s.out p v }

abbrev pub state_number : Threads.ThreadState → ℕ
state_number Threads.scheduler = 0
state_number Threads.new = 1
state_number Threads.ready = 2
state_number Threads.waiting = 3
state_number Threads.dead = 4
