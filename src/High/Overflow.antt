-- ===== src/High/Overflow.antt =====
-- `pth_writev_ev`: when the copy of the vector overflows the local one.
use pth.Base.{
  ℕ, ◌+◌, ◌<◌, ◌≤◌, ◌≡◌, refl, ◌≢◌, ◌∙◌, sym, ap, Bool, true, false, ◌&&◌, ◌||◌, none, some, List,
  [], ◌∷◌, ◌++◌, arith, ◌==◌, ltb, leb, length, ◌↔◌, ◌⊎◌, inl, inr, Option-cases, Bool-cases,
  if_intro, if◌then◌else◌,
}
use pth.Base.Int.{ℤ}
use pth.Util.{fd_valid}
use pth.High.{
  Errno, eintr, enomem, Answer, bytes, error, Mode, blocking, nonblocking, ready, Waits, wait_if,
  take, drop, fails, overflows,
}
use pth.High.Vectors.{Iov, flatten, iov_bytes, whole, unset, advance, moved}
use pth.High.Write.{
  ends, partial, rv_error, write_loop, writev_loop, writev_polled, writev_mode, writev_ev,
  uio_maxiov, tiov_room,
}
use pth.High.Advance.{iov_bytes-length}
use pth.High.Equal.{polled-equal, no_and, entries}

rv_error-fits : (rv : ℕ) (e : Errno) → rv_error rv e ≢ overflows
rv_error-fits rv e = if_intro (λ r. r ≢ overflows) (rv == 0) (λ _ q. absurd cc) (λ _ q. absurd cc)

write_loop-fits :
    (as1 : List Answer) (w : Waits) (unready : Bool) (buf : List ℕ) (rv : ℕ) (out : List ℕ)
    (mode : Mode)
    → (write_loop as1 w unready buf rv out mode).ret ≢ overflows
unfolding write_loop
write_loop-fits [] w unready buf rv out mode = elim (Option-cases (wait_if unready w)) [
  | inl e ↦ rw (write_loop, e) (λ q. absurd cc)
  | inr (w', e) ↦ rw (write_loop, e) (λ q. absurd cc)
]
write_loop-fits (error eintr ∷ as1) w unready buf rv out mode =
    elim (Option-cases (wait_if unready w)) [
      | inl e ↦ rw (write_loop, e) (λ q. absurd cc)
      | inr (w', e) ↦ rw (write_loop, e) (write_loop-fits as1 w' false buf rv out mode)
    ]
write_loop-fits (error e1 ∷ as1) w unready buf rv out mode =
    elim (Option-cases (wait_if unready w)) [
      | inl e ↦ rw (write_loop, e) (λ q. absurd cc)
      | inr (w', e) ↦ rw (write_loop, e) (rv_error-fits rv e1)
    ]
write_loop-fits (bytes s ∷ as1) w unready buf rv out mode =
    elim (Option-cases (wait_if unready w)) [
      | inl e ↦ rw (write_loop, e) (λ q. absurd cc)
      | inr (w', e) ↦ elim (Bool-cases (partial s (length buf))) [
        | inl p ↦
            rw (write_loop, e, p)
              (write_loop-fits as1 w' true (drop s buf) (rv + s) (out ++ take s buf) mode)
        | inr p ↦ rw (write_loop, e, p) (λ q. absurd cc)
      ]
    ]

advance-start : (room : ℕ) (iov : Iov) → advance room iov 0 unset ≡ some whole
unfolding advance moved
advance-start room iov = refl

advance-overflows :
    (iov : Iov) (s : ℕ)
    → 0 < s
    → 32 < length iov
    → length iov ≤ 512
    → advance (tiov_room (length iov)) iov s whole ≡ none
unfolding advance moved tiov_room
advance-overflows iov s pos lo hi = ground arith

-- The first partial write of a vector that the local one has no room for.
polled-overflows :
    (as1 : List Answer) (w : Waits) (iov : Iov) (s : ℕ)
    → 0 < s
    → s < length (flatten iov)
    → 32 < length iov
    → length iov ≤ 512
    → (writev_polled (tiov_room (length iov)) ready (bytes s ∷ as1) w iov blocking).ret ≡ overflows
unfolding writev_polled writev_loop
polled-overflows as1 w iov s pos part lo hi =
    let n : partial s (iov_bytes iov) ≡ true = ground (arith, iov_bytes-length iov) in
    rw
      (
        writev_polled,
        advance-start (tiov_room (length iov)) iov,
        writev_loop,
        n,
        advance-overflows iov s pos lo hi,
      )
      refl

-- For a vector of at most UIO_MAXIOV entries and a valid blocking descriptor that is ready, with
-- memory for the local vector, if the first write takes some of the bytes but not all,
-- pth_writev_ev writes beyond its local vector exactly if the vector has more than 32 and at most
-- 512 entries, whatever the system answers afterwards.
pub writev_ev-overflows :
    (fcntl : ℕ → Bool) (fd : ℤ) (as1 : List Answer) (w : Waits) (iov : Iov) (s : ℕ)
    → fd_valid fcntl fd ≡ true
    → 0 < s
    → s < length (flatten iov)
    → length iov ≤ uio_maxiov
    → ((writev_ev fcntl true fd blocking ready (bytes s ∷ as1) w iov).ret ≡ overflows)
      ↔ ((32 < length iov) × (length iov ≤ 512))
unfolding writev_ev writev_mode
writev_ev-overflows fcntl fd as1 w iov s valid pos part small =
    let some_entries : ((length iov == 0) || ltb uio_maxiov (length iov)) ≡ false =
      ground (arith, entries iov (omega arith)) in
    let run : writev_ev fcntl true fd blocking ready (bytes s ∷ as1) w iov ≡ (
        if ltb 512 (length iov) && false
        then ends (fails enomem) [] nonblocking
        else writev_polled (tiov_room (length iov)) ready (bytes s ∷ as1) w iov blocking) =
      rw (some_entries, valid) refl in
    (
      λ o. elim (room_cases (length iov) small) [
        | inl h ↦ absurd (
            write_loop-fits (bytes s ∷ as1) w false (flatten iov) 0 [] blocking
              (sym (ap (λ r. r.ret) (run ∙ polled-equal ready (bytes s ∷ as1) w iov h)) ∙ o))
        | inr h ↦ h
      ],
      λ (lo, hi).
          ap (λ r. r.ret) run
          ∙ rw (no_and (ltb 512 (length iov))) (polled-overflows as1 w iov s pos part lo hi),
    )
  where
    room_cases :
        (n : ℕ)
        → n ≤ uio_maxiov
        → ((n ≤ 32) ⊎ ((512 < n) × (n ≤ uio_maxiov))) ⊎ ((32 < n) × (n ≤ 512))
    room_cases n h = elim (Bool-cases (leb n 32)) [
      | inl p ↦ inl (inl (ground arith))
      | inr p ↦ elim (Bool-cases (leb n 512)) [
        | inl q ↦ inr (ground arith, ground arith)
        | inr q ↦ inl (inr (ground arith, h))
      ]
    ]
