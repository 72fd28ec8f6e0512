-- ===== src/High.antt =====
-- src/pth_high.c: reading and writing. The answers of the system to the calls that are made of it
-- are a list, which the loops consume; when it ends, the thread is still inside the call.
pub mod Vectors
pub mod Write
pub mod Read
pub mod Advance
pub mod Whole
pub mod Complete
pub mod Equal
pub mod Overflow
pub mod Faked
pub mod Connect
pub mod Accept
pub mod Socket
pub mod Sleep
pub mod Select
pub mod Timeouts
mod Examples
mod SocketExamples
use pth.Base.{
  ℕ, zero, suc, ◌+◌, ◌-◌, Bool, true, false, not, ◌&&◌, ◌||◌, Option, none, some, List, [], ◌∷◌,
  ◌++◌, ◌==◌, ltb, if◌then◌else◌,
}
use pth.Base.Int.{ℤ, pos, negsuc}

pub data Errno : Type 0 where
  eintr ebadf einval eagain enomem : Errno

-- What a system call gives: a number of bytes, or an error.
pub data Answer : Type 0 where
  bytes : ℕ → Answer
  error : Errno → Answer

-- What `pth_fdmode` gives: the mode that the descriptor was in.
pub data Mode : Type 0 where
  blocking nonblocking bad_mode : Mode

pub data Ret : Type 0 where
  returns : ℕ → Ret
  fails : Errno → Ret
  stuck : Ret
  -- The call has written beyond a vector of its own.
  overflows : Ret

-- The first `n` of a list, and the rest.
abbrev pub take : ℕ → List ℕ → List ℕ
take zero xs = []
take (suc n) [] = []
take (suc n) (x ∷ xs) = x ∷ take n xs

abbrev pub drop : ℕ → List ℕ → List ℕ
drop zero xs = xs
drop (suc n) [] = []
drop (suc n) (x ∷ xs) = drop n xs

-- The loop around a system call that is repeated as long as a signal interrupts it: the answer and
-- those that are left.
unfoldable pub uninterrupted : List Answer → Option (Answer × List Answer)
uninterrupted [] = none
uninterrupted (error eintr ∷ as1) = uninterrupted as1
uninterrupted (a ∷ as1) = some (a, as1)

-- `select` finds the descriptor ready, not ready, or fails.
pub data Poll : Type 0 where
  ready not_ready : Poll
  poll_fails : Errno → Poll

-- The wait for the descriptor or the extra events: whether there are extra events, and whether the
-- event of the descriptor has occurred after each wait; it has after the waits beyond the list.
pub record Waits : Type 0 where
  pub extra : Bool
  pub happened : List Bool

-- A wait goes on, or is interrupted by an extra event.
unfoldable pub wait : Waits → Option Waits
wait w = if not w.extra then some w else (elim w.happened [
  | [] ↦ some w
  | h ∷ hs ↦ if h then some (record w { happened = hs }) else none
])

-- A wait that takes place only if the descriptor is not ready.
unfoldable pub wait_if : Bool → Waits → Option Waits
unfolding wait
wait_if unready w = if unready then wait w else some w
