-- ===== src/Sync.antt =====
-- src/pth_sync.c. Threads run one at a time: a call runs to its end unless it waits. The state is the
-- mutexes, the condition variables, the read-write locks and the rings of the mutexes that each
-- thread holds, a ring standing at its thread's address and a node at its mutex's. What other threads
-- do while the caller waits is a list of wake-ups, so that a call that waits once too often is asleep.
pub mod Lock
pub mod Held
pub mod Moves
pub mod Runs
pub mod Branches
pub mod Counted
pub mod Nested
pub mod Waits
pub mod Releaseall
pub mod Rw
pub mod Signal
pub mod Meet
pub mod Headlight
mod Examples
use pth.Base.{ℕ, suc, ◌+◌, ◌-◌, ◌%◌, Bool, true, false, List, [], ◌∷◌, Ptr, null, update}
use pth.Base.Int.{ℤ}
use pth.Ring

pub data Errno : Type 0 where
  einval edeadlk ebusy eintr eacces : Errno

-- TRUE, or FALSE and an error number.
pub data Ret : Type 0 where
  yes_ret : Ret
  fail : Errno → Ret

-- One field for each bit of `mx_state`.
pub record Mutex : Type 0 where
  pub initialized : Bool
  pub locked : Bool
  pub owner : Ptr
  pub count : ℕ

-- One field for each bit of `cn_state`.
pub record Cond : Type 0 where
  pub cond_initialized : Bool
  pub signaled : Bool
  pub broadcast : Bool
  pub handled : Bool
  pub waiters : ℕ

-- The two mutexes of the struct are addresses.
pub record Rwlock : Type 0 where
  pub rw_initialized : Bool
  pub rw_writing : Bool
  pub rw_readers : ℕ
  pub rw_mutex_rd : Ptr
  pub rw_mutex_rw : Ptr

-- So are the condition variable and the mutex of a barrier.
pub record Barrier : Type 0 where
  pub br_initialized : Bool
  pub br_threshold : ℤ
  pub br_count : ℤ
  pub br_cycle : Bool
  pub br_cond : Ptr
  pub br_mutex : Ptr

pub record State : Type 0 where
  pub current : Ptr
  pub mutex : Ptr → Mutex
  pub cond : Ptr → Cond
  pub rwlock : Ptr → Rwlock
  pub barrier : Ptr → Barrier
  pub rings : Ring.Mem

-- What happened while the thread waited, and whether its own event is still pending.
pub record Wake : Type 0 where
  pub others : State → State
  pub pending : Bool

pub record World : Type 0 where
  pub state : State
  pub wakes : List Wake

pub data Run {ℓ} (A : Type ℓ) : Type ℓ where
  done : A → World → Run A
  asleep : World → Run A

abbrev pub Cmd {ℓ} : Type ℓ → Type ℓ
Cmd A = World → Run A

infixl 5 ◌>>=◌ ◌>>◌
abbrev pub and_then {ℓ κ} : {A : Type ℓ} {B : Type κ} → Run A → (A → Cmd B) → Run B
and_then (done a w) k = k a w
and_then (asleep w) k = asleep w

abbrev pub ◌>>=◌ {ℓ κ} : {A : Type ℓ} {B : Type κ} → Cmd A → (A → Cmd B) → Cmd B
◌>>=◌ m f w = and_then (m w) f

abbrev pub ◌>>◌ {ℓ κ} : {A : Type ℓ} {B : Type κ} → Cmd A → Cmd B → Cmd B
m >> k = m >>= λ _. k

abbrev pub pure {ℓ} : {A : Type ℓ} → A → Cmd A
pure a w = done a w

abbrev pub set_mutex : Ptr → Mutex → State → State
set_mutex m x s = record s { mutex = update s.mutex m x }

abbrev pub set_cond : Ptr → Cond → State → State
set_cond c x s = record s { cond = update s.cond c x }

abbrev pub set_rwlock : Ptr → Rwlock → State → State
set_rwlock l x s = record s { rwlock = update s.rwlock l x }

abbrev pub set_barrier : Ptr → Barrier → State → State
set_barrier b x s = record s { barrier = update s.barrier b x }

abbrev pub set_rings : Ring.Mem → State → State
set_rings r s = record s { rings = r }

-- `unsigned long` counts modulo this.
abbrev pub ulong_mod : ℕ
ulong_mod = 18446744073709551616

-- A change of the state, and a look at it.
abbrev pub modify : (State → State) → Cmd (Unit {0})
modify f w = done tt (record w { state = f w.state })

abbrev pub get_state : Cmd State
get_state w = done w.state w

-- The thread waits, or lets others run, until its next wake-up.
abbrev pub wait : Cmd Bool
wait w = elim w.wakes [
  | [] ↦ asleep w
  | x ∷ xs ↦ done x.pending (record { state = x.others w.state; wakes = xs })
]
