-- ===== src/High/Read.antt =====
-- `pth_read_ev` and `pth_readv_ev`. They keep the number of bytes in an `int`: the system is taken to
-- give less than 2 ^ 31 bytes to one call.
use pth.Base.{ℕ, Bool, true, false, not, ◌||◌, Option, none, some, List, ◌==◌, ltb, if◌then◌else◌}
use pth.Base.Int.{ℤ}
use pth.Util.{fd_valid}
use pth.High.{
  eintr, ebadf, einval, Answer, bytes, error, Mode, blocking, nonblocking, bad_mode, Ret, returns,
  fails, stuck, uninterrupted, Poll, ready, not_ready, poll_fails, Waits, wait_if,
}

abbrev pub ret_of : Option (Answer × List Answer) → Ret
ret_of none = stuck
ret_of (some (bytes n, _)) = returns n
ret_of (some (error e, _)) = fails e

-- The read itself, after a wait if the descriptor is not ready.
unfoldable pub read_after : (unready : Bool) → List Answer → Waits → Ret
unfolding wait_if uninterrupted
read_after unready as1 w = elim (wait_if unready w) [
  | none ↦ fails eintr
  | some w' ↦ ret_of (uninterrupted as1)
]

-- A poll of a descriptor that fails for another reason does not lead to a wait.
unfoldable pub read_polled : Poll → List Answer → Waits → Ret
unfolding read_after
read_polled ready as1 w = read_after false as1 w
read_polled not_ready as1 w = read_after true as1 w
read_polled (poll_fails einval) as1 w = fails einval
read_polled (poll_fails ebadf) as1 w = fails ebadf
read_polled (poll_fails e) as1 w = read_after false as1 w

unfoldable pub read_mode : Mode → Poll → List Answer → Waits → Ret
unfolding read_polled
read_mode bad_mode p as1 w = fails ebadf
read_mode nonblocking p as1 w = read_after false as1 w
read_mode blocking p as1 w = read_polled p as1 w

unfoldable pub read_ev :
    (fcntl : ℕ → Bool) → ℤ → (nbytes : ℕ) → Mode → Poll → List Answer → Waits → Ret
unfolding fd_valid read_mode
read_ev fcntl fd nbytes mode p as1 w =
    if nbytes == 0
    then returns 0
    else (if not (fd_valid fcntl fd) then fails ebadf else read_mode mode p as1 w)

-- Here any failure of the poll leads to a wait.
unfoldable pub readv_mode : Mode → Poll → List Answer → Waits → Ret
unfolding read_after
readv_mode bad_mode p as1 w = fails ebadf
readv_mode nonblocking p as1 w = read_after false as1 w
readv_mode blocking ready as1 w = read_after false as1 w
readv_mode blocking p as1 w = read_after true as1 w

unfoldable pub readv_ev :
    (fcntl : ℕ → Bool) → ℤ → (iovcnt : ℕ) → Mode → Poll → List Answer → Waits → Ret
unfolding fd_valid readv_mode
readv_ev fcntl fd iovcnt mode p as1 w =
    if (iovcnt == 0) || ltb 1024 iovcnt
    then fails einval
    else (if not (fd_valid fcntl fd) then fails ebadf else readv_mode mode p as1 w)
