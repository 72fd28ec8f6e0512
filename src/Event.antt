-- ===== src/Event.antt =====
-- src/pth_event.c: events and the cycles in which they are linked. Memory is the fields of all
-- events, each as a function of an address. `spec` is a number, read bit by bit.
pub mod Make
pub mod Cycles
pub mod Chain
pub mod Splice
pub mod Concat
pub mod Walk
pub mod Marks
pub mod Static
pub mod Types
mod Examples
use Prim.Native.Nat.{bit_or}
use pth.Base.{
  ℕ, zero, suc, ◌+◌, ◌*◌, ◌/◌, ◌%◌, ◌^◌, Bool, true, false, Option, none, some, List, [], ◌∷◌, ◌==◌,
  if◌then◌else◌, Ptr, null, update,
}
use pth.Base.Int.{ℤ}
use pth.Cycle.{Links}
use pth.Time.{Time}

pub data Status : Type 0 where
  pending occurred failed : Status

-- The union `ev_args`; the constructor is `ev_type`, which is always written with it.
pub data Args : Type 0 where
  on_fd : (fd : ℤ) → Args
  on_select : (n : Ptr) → (nfd : ℤ) → (rfds wfds efds : Ptr) → Args
  on_sigs : (sigs sig : Ptr) → Args
  on_time : Time → Args
  on_msg : (mp : Ptr) → Args
  on_mutex : (mutex : Ptr) → Args
  on_cond : (cond : Ptr) → Args
  on_tid : (tid : Ptr) → Args
  on_func : (func arg : Ptr) → Time → Args

pub record Mem : Type 0 where
  pub links : Links
  pub ev_status : Ptr → Status
  pub ev_args : Ptr → Args
  pub ev_goal : Ptr → ℕ
  pub freed : List Ptr

-- `spec & _BIT(n)` as a test and as a number.
abbrev pub bit : ℕ → ℕ → Bool
bit n spec = (spec / 2 ^ n) % 2 == 1

abbrev pub mask : ℕ → ℕ → ℕ
mask n spec = ((spec / 2 ^ n) % 2) * 2 ^ n

abbrev pub event_type : Args → ℕ
event_type (on_fd fd) = 2
event_type (on_select n nfd rfds wfds efds) = 4
event_type (on_sigs sigs sig) = 8
event_type (on_time tv) = 16
event_type (on_msg mp) = 32
event_type (on_mutex mutex) = 64
event_type (on_cond cond) = 128
event_type (on_tid tid) = 256
event_type (on_func func arg tv) = 512

abbrev pub set_next : Ptr → Ptr → Mem → Mem
set_next e v m = record m { links = record m.links { next = update m.links.next e v } }

abbrev pub set_prev : Ptr → Ptr → Mem → Mem
set_prev e v m = record m { links = record m.links { prev = update m.links.prev e v } }

abbrev pub set_status : Ptr → Status → Mem → Mem
set_status e v m = record m { ev_status = update m.ev_status e v }

abbrev pub free_event : Ptr → Mem → Mem
free_event e m = record m { freed = e ∷ m.freed }

-- `none` is the error EINVAL of the calls on events.
unfoldable pub typeof : Ptr → Mem → Option ℕ
typeof e m = if e == null then none else some (bit_or (event_type (m.ev_args e)) (m.ev_goal e))

unfoldable pub status : Ptr → Mem → Option Status
status e m = if e == null then none else some (m.ev_status e)

-- What is written through the pointers that the caller gives: the event's own values.
unfoldable pub extracted : Args → Option Args
extracted (on_select n nfd rfds wfds efds) = none
extracted a = some a

unfoldable pub extract : Ptr → Mem → Option Args
unfolding extracted
extract e m = if e == null then none else extracted (m.ev_args e)
