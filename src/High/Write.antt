-- ===== src/High/Write.antt =====
-- `pth_write_ev` and `pth_writev_ev`.
use pth.Base.{
  ℕ, ◌+◌, ◌-◌, Bool, true, false, not, ◌&&◌, ◌||◌, none, some, List, [], ◌∷◌, ◌++◌, ◌==◌, ltb,
  if◌then◌else◌, length,
}
use pth.Base.Int.{ℤ}
use pth.Util.{fd_valid}
use pth.High.{
  Errno, eintr, ebadf, einval, enomem, Answer, bytes, error, Mode, blocking, nonblocking, bad_mode,
  Ret, returns, fails, stuck, overflows, take, drop, uninterrupted, Poll, ready, poll_fails, Waits,
  wait_if,
}
use pth.High.Vectors.{Iov, flatten, iov_bytes, Local, unset, advance, current}

-- The result, the bytes that the system has taken, and the mode of the descriptor in the end.
pub record Written : Type 0 where
  pub ret : Ret
  pub out : List ℕ
  pub mode : Mode

abbrev pub ends : Ret → List ℕ → Mode → Written
ends r out mode = record { ret = r; out = out; mode = mode }

-- Only `n` bytes are written, and there are more.
abbrev pub partial : ℕ → ℕ → Bool
partial n nbytes = ltb 0 n && ltb n nbytes

-- An error is passed on if nothing has been written.
abbrev pub rv_error : ℕ → Errno → Ret
rv_error rv e = if rv == 0 then fails e else returns rv

-- The endless loop; `unready` tells that it begins with a wait.
unfoldable pub write_loop :
    List Answer
    → Waits
    → (unready : Bool) → (buf : List ℕ) → (rv : ℕ) → (out : List ℕ) → Mode
    → Written
unfolding wait_if
write_loop [] w unready buf rv out mode = elim (wait_if unready w) [
  | none ↦ ends (fails eintr) out mode
  | some w' ↦ ends stuck out nonblocking
]
write_loop (error eintr ∷ as1) w unready buf rv out mode = elim (wait_if unready w) [
  | none ↦ ends (fails eintr) out mode
  | some w' ↦ write_loop as1 w' false buf rv out mode
]
write_loop (error e ∷ as1) w unready buf rv out mode = elim (wait_if unready w) [
  | none ↦ ends (fails eintr) out mode
  | some w' ↦ ends (rv_error rv e) out mode
]
write_loop (bytes s ∷ as1) w unready buf rv out mode = elim (wait_if unready w) [
  | none ↦ ends (fails eintr) out mode
  | some w' ↦ elim (partial s (length buf)) [
    | true ↦ write_loop as1 w' true (drop s buf) (rv + s) (out ++ take s buf) mode
    | false ↦ ends (returns (rv + s)) (out ++ take s buf) mode
  ]
]

-- The call on a descriptor that is in non-blocking mode already.
unfoldable pub write_once : List Answer → (buf : List ℕ) → Mode → Written
unfolding uninterrupted
write_once as1 buf mode = elim (uninterrupted as1) [
  | none ↦ ends stuck [] mode
  | some (bytes s, _) ↦ ends (returns s) (take s buf) mode
  | some (error e, _) ↦ ends (fails e) [] mode
]

abbrev pub is_unready : Poll → Bool
is_unready ready = false
is_unready _ = true

-- The part after the poll, which fails without restoring the mode.
unfoldable pub write_polled : Poll → List Answer → Waits → (buf : List ℕ) → Mode → Written
unfolding write_loop
write_polled (poll_fails einval) as1 w buf mode = ends (fails einval) [] nonblocking
write_polled (poll_fails ebadf) as1 w buf mode = ends (fails ebadf) [] nonblocking
write_polled p as1 w buf mode = write_loop as1 w (is_unready p) buf 0 [] mode

unfoldable pub write_mode : Mode → Poll → List Answer → Waits → (buf : List ℕ) → Written
unfolding write_once write_polled
write_mode bad_mode p as1 w buf = ends (fails ebadf) [] bad_mode
write_mode nonblocking p as1 w buf = write_once as1 buf nonblocking
write_mode blocking p as1 w buf = write_polled p as1 w buf blocking

-- `pth_write_ev`; `mode` is the mode of the descriptor at the call.
unfoldable pub write_ev :
    (fcntl : ℕ → Bool) → ℤ → Mode → Poll → List Answer → Waits → (buf : List ℕ) → Written
unfolding fd_valid write_mode
write_ev fcntl fd mode p as1 w buf =
    if length buf == 0
    then ends (returns 0) [] mode
    else (if not (fd_valid fcntl fd)
        then ends (fails ebadf) [] mode
        else write_mode mode p as1 w buf)

-- The loop of `pth_writev_ev`: `nbytes` are left to be written, of the caller's vector `riov`.
unfoldable pub writev_loop :
    (room : ℕ)
    → List Answer
    → Waits
    → (unready : Bool) → (riov : Iov) → Local
    → (nbytes rv : ℕ) → (out : List ℕ) → Mode
    → Written
unfolding wait_if
writev_loop room [] w unready riov l nbytes rv out mode = elim (wait_if unready w) [
  | none ↦ ends (fails eintr) out mode
  | some w' ↦ ends stuck out nonblocking
]
writev_loop room (error eintr ∷ as1) w unready riov l nbytes rv out mode =
    elim (wait_if unready w) [
      | none ↦ ends (fails eintr) out mode
      | some w' ↦ writev_loop room as1 w' false riov l nbytes rv out mode
    ]
writev_loop room (error e ∷ as1) w unready riov l nbytes rv out mode = elim (wait_if unready w) [
  | none ↦ ends (fails eintr) out mode
  | some w' ↦ ends (rv_error rv e) out mode
]
writev_loop room (bytes s ∷ as1) w unready riov l nbytes rv out mode = elim (wait_if unready w) [
  | none ↦ ends (fails eintr) out mode
  | some w' ↦ elim (partial s nbytes) [
    | true ↦ elim (advance room riov s l) [
      | none ↦ ends overflows (out ++ take s (flatten (current riov l))) nonblocking
      | some l' ↦
          writev_loop room as1 w' true riov l' (nbytes - s) (rv + s)
            (out ++ take s (flatten (current riov l))) mode
    ]
    | false ↦ ends (returns (rv + s)) (out ++ take s (flatten (current riov l))) mode
  ]
]

abbrev pub uio_maxiov : ℕ
uio_maxiov = 1024

-- The number of entries that the local vector has room for. The size of the one on the stack, which
-- has 32 entries of 16 bytes, is taken for a number of entries.
unfoldable pub tiov_room : (iovcnt : ℕ) → ℕ
tiov_room iovcnt = if ltb 512 iovcnt then uio_maxiov else 32

-- The local vector is set up, and the loop begins.
unfoldable pub writev_polled : (room : ℕ) → Poll → List Answer → Waits → Iov → Mode → Written
unfolding writev_loop iov_bytes
writev_polled room p as1 w iov mode = elim (advance room iov 0 unset) [
  | none ↦ ends overflows [] nonblocking
  | some l ↦ writev_loop room as1 w (is_unready p) iov l (iov_bytes iov) 0 [] mode
]

-- The call on a descriptor that is in non-blocking mode, and the loop on another. `memory` tells
-- whether `malloc` gives a local vector for more than 512 entries; without one the mode is not restored.
unfoldable pub writev_mode : (memory : Bool) → Mode → Poll → List Answer → Waits → Iov → Written
unfolding write_once writev_polled tiov_room
writev_mode memory bad_mode p as1 w iov = ends (fails ebadf) [] bad_mode
writev_mode memory nonblocking p as1 w iov = write_once as1 (flatten iov) nonblocking
writev_mode memory blocking p as1 w iov =
    if ltb 512 (length iov) && not memory
    then ends (fails enomem) [] nonblocking
    else writev_polled (tiov_room (length iov)) p as1 w iov blocking

-- `pth_writev_ev` with the system's `writev`.
unfoldable pub writev_ev :
    (fcntl : ℕ → Bool) → (memory : Bool) → ℤ → Mode → Poll → List Answer → Waits → Iov → Written
unfolding fd_valid writev_mode
writev_ev fcntl memory fd mode p as1 w iov =
    if (length iov == 0) || ltb uio_maxiov (length iov)
    then ends (fails einval) [] mode
    else (if not (fd_valid fcntl fd)
        then ends (fails ebadf) [] mode
        else writev_mode memory mode p as1 w iov)
