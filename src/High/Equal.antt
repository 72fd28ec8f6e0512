-- ===== src/High/Equal.antt =====
-- `pth_writev_ev` writes as `pth_write_ev` does with the bytes of the vector in one piece.
use pth.Base.{
  ℕ, zero, suc, ◌+◌, ◌-◌, ◌<◌, ◌≤◌, ◌≡◌, refl, ◌≢◌, ◌∙◌, ap, Bool, true, false, ◌||◌, List, [], ◌∷◌,
  ◌++◌, arith, ◌==◌, ltb, ◌&&◌, ◌⊎◌, if◌then◌else◌, length, Option-cases, Bool-cases, inl, inr,
  subst,
}
use pth.Base.Int.{ℤ}
use pth.High.{
  eintr, ebadf, einval, eagain, enomem, Answer, bytes, error, Mode, blocking, nonblocking, bad_mode,
  Poll, ready, not_ready, poll_fails, Waits, wait_if, take, drop, fails,
}
use pth.High.Vectors.{Iov, flatten, iov_bytes, Local, unset, moved, current, started}
use pth.High.Write.{
  write_loop, writev_loop, writev_polled, tiov_room, is_unready, ends, write_ev, writev_ev,
  write_mode, writev_mode, partial, uio_maxiov,
}
use pth.High.Advance.{local, moved-started, moved-drop, advance-fits, iov_bytes-length}

pub length-drop : (n : ℕ) (xs : List ℕ) → length (drop n xs) ≡ length xs - n
length-drop zero xs = omega arith
length-drop (suc n) [] = omega arith
length-drop (suc n) (x ∷ xs) = omega (arith, length-drop n xs)

-- The local vector has the bytes that are still to be written.
abbrev Stands : Iov → Local → List ℕ → ℕ → Type 0
Stands riov l buf nbytes = (started l ≡ l) × (local riov l ≡ buf) × (nbytes ≡ length buf)

current-buf :
    (riov : Iov) (l : Local) (buf : List ℕ) (nbytes : ℕ)
    → Stands riov l buf nbytes
    → flatten (current riov l) ≡ buf
current-buf riov l buf nbytes st = subst (λ k. flatten (current riov k) ≡ buf) st.0 st.1

partial-length :
    (s nbytes : ℕ) (riov : Iov) (l : Local) (buf : List ℕ) {b : Bool}
    → Stands riov l buf nbytes
    → partial s nbytes ≡ b
    → partial s (length buf) ≡ b
partial-length s nbytes riov l buf st p = rw (← st.2) p

Stands-moved :
    (riov : Iov) (l : Local) (buf : List ℕ) (nbytes s : ℕ)
    → Stands riov l buf nbytes
    → Stands riov (moved riov s l) (drop s buf) (nbytes - s)
Stands-moved riov l buf nbytes s st = (
  moved-started riov s l,
  moved-drop riov s l ∙ ap (drop s) st.1,
  omega (arith, length-drop s buf, st.2),
)

pub loop-equal :
    (room : ℕ) (as1 : List Answer) (w : Waits) (unready : Bool) (riov : Iov) (l : Local)
    (buf : List ℕ) (nbytes rv : ℕ) (out : List ℕ) (mode : Mode)
    → length riov ≤ room
    → Stands riov l buf nbytes
    → writev_loop room as1 w unready riov l nbytes rv out mode
      ≡ write_loop as1 w unready buf rv out mode
unfolding writev_loop write_loop
loop-equal room [] w unready riov l buf nbytes rv out mode fit st = refl
loop-equal room (error eintr ∷ as1) w unready riov l buf nbytes rv out mode fit st =
    elim (Option-cases (wait_if unready w)) [
      | inl e ↦ rw (writev_loop, write_loop, e) refl
      | inr (w', e) ↦
          rw (writev_loop, write_loop, e)
            (loop-equal room as1 w' false riov l buf nbytes rv out mode fit st)
    ]
loop-equal room (error ebadf ∷ as1) w unready riov l buf nbytes rv out mode fit st = refl
loop-equal room (error einval ∷ as1) w unready riov l buf nbytes rv out mode fit st = refl
loop-equal room (error eagain ∷ as1) w unready riov l buf nbytes rv out mode fit st = refl
loop-equal room (error enomem ∷ as1) w unready riov l buf nbytes rv out mode fit st = refl
loop-equal room (bytes s ∷ as1) w unready riov l buf nbytes rv out mode fit st =
    let cur : flatten (current riov l) ≡ buf = current-buf riov l buf nbytes st in
    elim (Option-cases (wait_if unready w)) [
      | inl e ↦ rw (writev_loop, write_loop, e) refl
      | inr (w', e) ↦ elim (Bool-cases (partial s nbytes)) [
        | inl p ↦
            rw
              (
                writev_loop,
                write_loop,
                e,
                p,
                partial-length s nbytes riov l buf st p,
                advance-fits room riov s l fit,
                cur,
              )
              (loop-equal room as1 w' true riov (moved riov s l) (drop s buf) (nbytes - s) (rv + s)
                (out ++ take s buf) mode fit (Stands-moved riov l buf nbytes s st))
        | inr p ↦
            rw (writev_loop, write_loop, e, p, partial-length s nbytes riov l buf st p, cur) refl
      ]
    ]

pub entries : (iov : Iov) → 0 < length (flatten iov) → 0 < length iov
entries [] h = h
entries (x ∷ xs) h = omega arith

Stands-start : (iov : Iov) → Stands iov (moved iov 0 unset) (flatten iov) (iov_bytes iov)
unfolding moved
Stands-start iov = (refl, refl, iov_bytes-length iov)

-- The local vector has room for the whole of it.
abbrev pub HasRoom : Iov → Type 0
HasRoom iov = (length iov ≤ 32) ⊎ ((512 < length iov) × (length iov ≤ uio_maxiov))

room-fits : (iov : Iov) → HasRoom iov → length iov ≤ tiov_room (length iov)
unfolding tiov_room
room-fits iov (inl h) = ground arith
room-fits iov (inr (lo, hi)) = ground arith

pub no_and : (b : Bool) → (b && false) ≡ false
no_and true = refl
no_and false = refl

pub polled-equal :
    (p : Poll) (as1 : List Answer) (w : Waits) (iov : Iov)
    → HasRoom iov
    → (if ltb 512 (length iov) && false
        then ends (fails enomem) [] nonblocking
        else writev_polled (tiov_room (length iov)) p as1 w iov blocking)
      ≡ write_loop as1 w (is_unready p) (flatten iov) 0 [] blocking
unfolding writev_polled
polled-equal p as1 w iov room =
    rw
      (
        no_and (ltb 512 (length iov)),
        writev_polled,
        advance-fits (tiov_room (length iov)) iov 0 unset (room-fits iov room),
      )
      (loop-equal (tiov_room (length iov)) as1 w (is_unready p) iov (moved iov 0 unset)
        (flatten iov) (iov_bytes iov) 0 [] blocking (room-fits iov room) (Stands-start iov))

mode-equal :
    (mode : Mode) (p : Poll) (as1 : List Answer) (w : Waits) (iov : Iov)
    → HasRoom iov
    → p ≢ poll_fails einval
    → p ≢ poll_fails ebadf
    → writev_mode true mode p as1 w iov ≡ write_mode mode p as1 w (flatten iov)
unfolding writev_mode write_mode
mode-equal bad_mode p as1 w iov room ni nb = refl
mode-equal nonblocking p as1 w iov room ni nb = refl
mode-equal blocking (poll_fails einval) as1 w iov room ni nb = absurd (ni refl)
mode-equal blocking (poll_fails ebadf) as1 w iov room ni nb = absurd (nb refl)
mode-equal blocking ready as1 w iov room ni nb = polled-equal ready as1 w iov room
mode-equal blocking not_ready as1 w iov room ni nb = polled-equal not_ready as1 w iov room
mode-equal blocking (poll_fails eintr) as1 w iov room ni nb =
    polled-equal (poll_fails eintr) as1 w iov room
mode-equal blocking (poll_fails eagain) as1 w iov room ni nb =
    polled-equal (poll_fails eagain) as1 w iov room
mode-equal blocking (poll_fails enomem) as1 w iov room ni nb =
    polled-equal (poll_fails enomem) as1 w iov room

at_most : (iov : Iov) → HasRoom iov → length iov ≤ uio_maxiov
at_most iov (inl h) = omega arith
at_most iov (inr h) = h.1

-- If the vector has at most 32 entries, or more than 512 and at most UIO_MAXIOV with memory for
-- the local vector, not all of them empty, and the poll of the descriptor does not fail with
-- EINVAL or EBADF, pth_writev_ev has the result, the written bytes and the mode of the descriptor
-- that pth_write_ev has for the bytes of the vector in one piece, for every sequence of partial
-- writes, interruptions, errors and waits.
pub writev-write :
    (fcntl : ℕ → Bool) (fd : ℤ) (mode : Mode) (p : Poll) (as1 : List Answer) (w : Waits) (iov : Iov)
    → HasRoom iov
    → 0 < length (flatten iov)
    → p ≢ poll_fails einval
    → p ≢ poll_fails ebadf
    → writev_ev fcntl true fd mode p as1 w iov ≡ write_ev fcntl fd mode p as1 w (flatten iov)
unfolding writev_ev write_ev
writev-write fcntl fd mode p as1 w iov room some_bytes ni nb =
    let f : ((length iov == 0) || ltb uio_maxiov (length iov)) ≡ false =
      ground (arith, entries iov some_bytes, at_most iov room) in
    let g : (length (flatten iov) == 0) ≡ false = ground arith in
    rw (f, g, mode-equal mode p as1 w iov room ni nb) refl
