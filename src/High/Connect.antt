-- ===== src/High/Connect.antt =====
-- `pth_connect_ev` and `pth_accept_ev`.
use pth.Base.{
  ℕ, Bool, true, false, not, ◌&&◌, Option, none, some, List, [], ◌∷◌, ◌==◌, if◌then◌else◌,
}
use pth.Base.Int.{ℤ}
use pth.Util.{fd_valid}
use pth.Event.{Status, pending, occurred, failed}
use pth.High.{Mode, nonblocking, bad_mode}

-- EAGAIN and EWOULDBLOCK are one error.
pub data Errno : Type 0 where
  eintr ebadf eagain einprogress enomem : Errno
  other : ℕ → Errno

pub data Answer : Type 0 where
  gives : ℕ → Answer
  refuses : Errno → Answer

pub data Ret : Type 0 where
  returns : ℕ → Ret
  fails : Errno → Ret
  stuck : Ret

-- The result, the mode of the socket and that of the descriptor that was accepted.
pub record Done : Type 0 where
  pub ret : Ret
  pub mode : Mode
  pub new_mode : Option Mode

abbrev pub done : Ret → Mode → Done
done r m = record { ret = r; mode = m; new_mode = none }

abbrev pub is_nonblocking : Mode → Bool
is_nonblocking nonblocking = true
is_nonblocking m = false

-- The next outcome of a wait: whether the event of the socket has occurred. It may have failed, and it is
-- pending if an extra event alone has ended the wait. A wait without extra events goes on then.
unfoldable pub outcome : (linked : Bool) → List Status → Bool × List Status
outcome linked [] = (true, [])
outcome true (pending ∷ hs) = (false, hs)
outcome false (pending ∷ hs) = outcome false hs
outcome linked (occurred ∷ hs) = (true, hs)
outcome linked (failed ∷ hs) = (false, hs)

-- The loop around `accept`. `fresh` tells that there is no event yet; only a new event is concatenated
-- with the extra ones, and each wait isolates it. `room` tells whether the event could be made.
unfoldable pub accept_loop :
    List Answer → (room extra fresh : Bool) → (happened : List Status) → Mode → Done
unfolding outcome
accept_loop [] room extra fresh hs mode = done stuck nonblocking
accept_loop (gives n ∷ as1) room extra fresh hs mode = record {
  ret = returns n;
  mode = mode;
  new_mode = some mode;
}
accept_loop (refuses eagain ∷ as1) room extra fresh hs mode =
    let next = outcome (extra && fresh) hs in
    let rest = accept_loop as1 room extra false next.1 mode in
    if is_nonblocking mode
    then done (fails eagain) mode
    else (if fresh && not room
        then done (fails enomem) nonblocking
        else (if extra && not next.0 then done (fails eintr) mode else rest))
accept_loop (refuses e ∷ as1) room extra fresh hs mode = done (fails e) mode

-- `mode` is the mode of the socket at the call.
unfoldable pub accept_ev :
    (fcntl : ℕ → Bool)
    → ℤ
    → Mode
    → List Answer
    → (room extra : Bool) → (happened : List Status) → Done
unfolding fd_valid accept_loop
accept_ev fcntl s bad_mode as1 room extra hs = done (fails ebadf) bad_mode
accept_ev fcntl s mode as1 room extra hs =
    if not (fd_valid fcntl s)
    then done (fails ebadf) mode
    else accept_loop as1 room extra true hs mode

-- The connection is under way: the wait for it, and the error of the socket, `none` if `getsockopt`
-- fails with its own error.
unfoldable pub connect_wait :
    (room extra : Bool) → (happened : List Status) → (failure : Errno) → Option ℕ → Mode → Done
unfolding outcome
connect_wait room extra hs failure err mode =
    if not room
    then done (fails enomem) mode
    else (if extra && not (outcome extra hs).0 then done (fails eintr) mode else (elim err [
      | none ↦ done (fails failure) mode
      | some e ↦ if e == 0 then done (returns 0) mode else done (fails (other e)) mode
    ]))

-- `connect` is called again as long as a signal interrupts it.
unfoldable pub connect_loop :
    List Answer
    → (room extra : Bool) → (happened : List Status) → (failure : Errno) → Option ℕ
    → Mode
    → Done
unfolding connect_wait
connect_loop [] room extra hs failure err mode = done stuck nonblocking
connect_loop (refuses eintr ∷ as1) room extra hs failure err mode =
    connect_loop as1 room extra hs failure err mode
connect_loop (refuses einprogress ∷ as1) room extra hs failure err mode =
    if not (is_nonblocking mode)
    then connect_wait room extra hs failure err mode
    else done (fails einprogress) mode
connect_loop (refuses e ∷ as1) room extra hs failure err mode = done (fails e) mode
connect_loop (gives n ∷ as1) room extra hs failure err mode = done (returns n) mode

unfoldable pub connect_ev :
    (fcntl : ℕ → Bool)
    → ℤ
    → Mode
    → List Answer
    → (room extra : Bool) → (happened : List Status) → (failure : Errno) → Option ℕ
    → Done
unfolding fd_valid connect_loop
connect_ev fcntl s bad_mode as1 room extra hs failure err = done (fails ebadf) bad_mode
connect_ev fcntl s mode as1 room extra hs failure err =
    if not (fd_valid fcntl s)
    then done (fails ebadf) mode
    else connect_loop as1 room extra hs failure err mode
