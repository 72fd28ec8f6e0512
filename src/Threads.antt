-- ===== src/Threads.antt =====
-- The threads and the scheduler: src/pth_lib.c, src/pth_cancel.c and src/pth_sched.c. The five queues
-- are lists of threads with their priorities, which the queues of src/pth_pqueue.c implement. A call
-- runs up to the switch of contexts, which is a step of its own.
pub mod Calls
pub mod Scheduler
pub mod Ends
pub mod Drop
pub mod Joined
pub mod Placed
pub mod Keep
pub mod Loop
pub mod Return
pub mod Runs
pub mod Away
pub mod Choice
mod Examples
use pth.Base.{
  ℕ, zero, suc, Bool, true, false, not, ◌&&◌, List, [], ◌∷◌, ◌==◌, if◌then◌else◌, Ptr, null, update,
  has,
}
use pth.Base.Int.{ℤ, pos}
use pth.Pqueue.Spec
use pth.Pqueue.Spec.{Entry, threads}

pub data Errno : Type 0 where
  einval eperm esrch edeadlk eio : Errno

pub data Ret : Type 0 where
  yes_ret : Ret
  fail : Errno → Ret

pub data ThreadState : Type 0 where
  scheduler new ready waiting dead : ThreadState

-- The bits of `cancelstate` that are read are fields.
pub record Tcb : Type 0 where
  pub prio : ℤ
  pub dispatches : ℕ
  pub state : ThreadState
  pub joinable : Bool
  pub join_arg : Ptr
  pub cancelreq : Bool
  pub enabled : Bool
  pub asynchronous : Bool

pub data Queue : Type 0 where
  nq rq wq sq dq : Queue

pub record State : Type 0 where
  pub sched : Ptr
  pub current : Ptr
  pub main : Ptr
  pub favournew : Bool
  pub tcb : Ptr → Tcb
  pub queue : Queue → List Entry
  pub freed : List Ptr

abbrev pub same_queue : Queue → Queue → Bool
same_queue nq nq = true
same_queue rq rq = true
same_queue wq wq = true
same_queue sq sq = true
same_queue dq dq = true
same_queue _ _ = false

abbrev pub prio_std : ℤ
prio_std = pos 0

abbrev pub canceled : Ptr
canceled = 18446744073709551615

abbrev pub set_queue : Queue → List Entry → State → State
set_queue q xs s = record s { queue = λ q'. if same_queue q q' then xs else s.queue q' }

abbrev pub set_tcb : Ptr → Tcb → State → State
set_tcb t x s = record s { tcb = update s.tcb t x }

abbrev pub set_state : Ptr → ThreadState → State → State
set_state t st s = set_tcb t (record (s.tcb t) { state = st }) s

abbrev pub contains : Queue → Ptr → State → Bool
contains q t s = has t (threads (s.queue q))

abbrev pub delete : Queue → Ptr → State → State
delete q t s = set_queue q (Spec.delete t (s.queue q)) s

abbrev pub insert : Queue → ℤ → Ptr → State → State
insert q p t s = set_queue q (Spec.insert p t (s.queue q)) s

-- `pth_tcb_free`
abbrev pub free : Ptr → State → State
free t s = record s { freed = t ∷ s.freed }

abbrev pub first : List Entry → Ptr
first [] = null
first (e ∷ xs) = e.0

-- What other calls do to the threads when a thread is cleaned up: the cleanup handlers, the
-- destructors and the release of mutexes are code of other parts and of the application.
abbrev pub Cleanup : Type 0
Cleanup = Ptr → State → State
