-- ===== src/High/Complete.antt =====
-- `pth_write_ev` on a blocking descriptor: all is written as long as the system takes something.
use pth.Base.{
  ℕ, zero, suc, ◌+◌, ◌<◌, ◌≤◌, ◌≡◌, refl, ◌≢◌, ◌∙◌, ap, Bool, true, false, List, [], ◌∷◌, ◌++◌,
  arith, ◌==◌, length, none, some, Bool-cases, inl, inr,
}
use pth.Base.Int.{ℤ}
use pth.Util.{fd_valid}
use pth.High.{
  eintr, ebadf, einval, eagain, enomem, Answer, bytes, error, Mode, blocking, Poll, ready,
  not_ready, poll_fails, Waits, wait_if, wait, take, drop, returns, fails,
}
use pth.High.Write.{
  Written, ends, write_loop, write_ev, write_mode, write_polled, partial, is_unready,
}
use pth.High.Whole.{write_ev-counted}
use pth.High.Equal.{length-drop}

-- Every answer is a number of bytes that is not 0, or an interruption by a signal.
abbrev pub Progress : List Answer → Type 0
Progress [] = Unit {0}
Progress (bytes s ∷ as1) = (0 < s) × Progress as1
Progress (error eintr ∷ as1) = Progress as1
Progress (error e ∷ as1) = ⊥

abbrev pub accepted : List Answer → ℕ
accepted [] = 0
accepted (bytes s ∷ as1) = s + accepted as1
accepted (error e ∷ as1) = accepted as1

wait_if-alone : (unready : Bool) (w : Waits) → w.extra ≡ false → wait_if unready w ≡ some w
unfolding wait_if
wait_if-alone true w h = rw (wait, h) refl
wait_if-alone false w h = refl

-- At least `total` bytes are reported.
abbrev AtLeast : ℕ → Written → Type 0
AtLeast total r = (n : ℕ) × ((r.ret ≡ returns n) × (total ≤ n))

write_loop-all :
    (as1 : List Answer) (w : Waits) (unready : Bool) (buf : List ℕ) (rv : ℕ) (out : List ℕ)
    (mode : Mode)
    → w.extra ≡ false
    → Progress as1
    → 0 < length buf
    → length buf ≤ accepted as1
    → AtLeast (rv + length buf) (write_loop as1 w unready buf rv out mode)
unfolding write_loop
write_loop-all [] w unready buf rv out mode x p some_left enough = absurd (omega arith)
write_loop-all (error eintr ∷ as1) w unready buf rv out mode x p some_left enough =
    rw (write_loop, wait_if-alone unready w x)
      (write_loop-all as1 w false buf rv out mode x p some_left enough)
write_loop-all (error ebadf ∷ as1) w unready buf rv out mode x p some_left enough = absurd p
write_loop-all (error einval ∷ as1) w unready buf rv out mode x p some_left enough = absurd p
write_loop-all (error eagain ∷ as1) w unready buf rv out mode x p some_left enough = absurd p
write_loop-all (error enomem ∷ as1) w unready buf rv out mode x p some_left enough = absurd p
write_loop-all (bytes s ∷ as1) w unready buf rv out mode x p some_left enough =
    elim (Bool-cases (partial s (length buf))) [
      | inl q ↦
          let (n, (r, le)) =
            write_loop-all as1 w true (drop s buf) (rv + s) (out ++ take s buf) mode x p.1
              (ground (arith, length-drop s buf)) (ground (arith, length-drop s buf)) in
          (n, (rw (write_loop, wait_if-alone unready w x, q) r, ground (arith, length-drop s buf)))
      | inr q ↦ (rv + s, (rw (write_loop, wait_if-alone unready w x, q) refl, ground arith))
    ]

pub take_all : (n : ℕ) (xs : List ℕ) → length xs ≤ n → take n xs ≡ xs
take_all zero [] h = refl
take_all zero (x ∷ xs) h = absurd (omega arith)
take_all (suc n) [] h = refl
take_all (suc n) (x ∷ xs) h = ap (λ l. x ∷ l) (take_all n xs (omega arith))

write_polled-loop :
    (p : Poll) (as1 : List Answer) (w : Waits) (buf : List ℕ) (mode : Mode)
    → p ≢ poll_fails einval
    → p ≢ poll_fails ebadf
    → write_polled p as1 w buf mode ≡ write_loop as1 w (is_unready p) buf 0 [] mode
unfolding write_polled
write_polled-loop ready as1 w buf mode ni nb = refl
write_polled-loop not_ready as1 w buf mode ni nb = refl
write_polled-loop (poll_fails einval) as1 w buf mode ni nb = absurd (ni refl)
write_polled-loop (poll_fails ebadf) as1 w buf mode ni nb = absurd (nb refl)
write_polled-loop (poll_fails e) as1 w buf mode ni nb = refl

write_ev-blocking :
    (fcntl : ℕ → Bool) (fd : ℤ) (p : Poll) (as1 : List Answer) (w : Waits) (buf : List ℕ)
    → fd_valid fcntl fd ≡ true
    → 0 < length buf
    → write_ev fcntl fd blocking p as1 w buf ≡ write_polled p as1 w buf blocking
unfolding write_ev write_mode
write_ev-blocking fcntl fd p as1 w buf valid some_bytes =
    let e : (length buf == 0) ≡ false = ground arith in rw (e, valid) refl

-- On a valid blocking descriptor whose poll does not fail with EINVAL or EBADF, without extra
-- events, if every answer of the system is a positive number of bytes or EINTR and the numbers add
-- up to the size of the buffer, pth_write_ev returns at least that size, has written the whole
-- buffer and leaves the descriptor blocking.
pub write_ev-whole :
    (fcntl : ℕ → Bool) (fd : ℤ) (p : Poll) (as1 : List Answer) (w : Waits) (buf : List ℕ)
    → fd_valid fcntl fd ≡ true
    → p ≢ poll_fails einval
    → p ≢ poll_fails ebadf
    → w.extra ≡ false
    → Progress as1
    → 0 < length buf
    → length buf ≤ accepted as1
    → let r = write_ev fcntl fd blocking p as1 w buf in
      (n : ℕ) × ((r.ret ≡ returns n) × (length buf ≤ n) × (r.out ≡ buf) × (r.mode ≡ blocking))
write_ev-whole fcntl fd p as1 w buf valid ni nb x progress some_bytes enough =
    let whole =
      write_ev-blocking fcntl fd p as1 w buf valid some_bytes
      ∙ write_polled-loop p as1 w buf blocking ni nb in
    let (n, (r, le)) =
      write_loop-all as1 w (is_unready p) buf 0 [] blocking x progress some_bytes enough in
    let r' : (write_ev fcntl fd blocking p as1 w buf).ret ≡ returns n = ap (λ y. y.ret) whole ∙ r in
    let (o, m) = write_ev-counted fcntl fd blocking p as1 w buf n r' in
    (n, (r', omega arith, o ∙ take_all n buf (omega arith), m))

write_loop-stops :
    (as1 : List Answer) (w : Waits) (unready : Bool) (buf : List ℕ) (rv : ℕ) (out : List ℕ)
    (mode : Mode)
    → wait_if unready w ≡ none
    → write_loop as1 w unready buf rv out mode ≡ ends (fails eintr) out mode
unfolding write_loop
write_loop-stops [] w unready buf rv out mode h = rw (write_loop, h) refl
write_loop-stops (error eintr ∷ as1) w unready buf rv out mode h = rw (write_loop, h) refl
write_loop-stops (error e ∷ as1) w unready buf rv out mode h = rw (write_loop, h) refl
write_loop-stops (bytes s ∷ as1) w unready buf rv out mode h = rw (write_loop, h) refl

-- If a valid blocking descriptor is ready, takes a part of the buffer that is neither nothing nor
-- all, and the wait that follows ends by an extra event, pth_write_ev fails with EINTR although
-- that part is written.
pub write_ev-interrupted :
    (fcntl : ℕ → Bool) (fd : ℤ) (s : ℕ) (as1 : List Answer) (hs : List Bool) (buf : List ℕ)
    → fd_valid fcntl fd ≡ true
    → 0 < s
    → s < length buf
    → let r =
        write_ev fcntl fd blocking ready
          (bytes s ∷ as1)
          (record { extra = true; happened = false ∷ hs })
          buf in
      (r.ret ≡ fails eintr) × (r.out ≡ take s buf)
unfolding wait_if
write_ev-interrupted fcntl fd s as1 hs buf valid sp sl =
    let w : Waits = record { extra = true; happened = false ∷ hs } in
    let q : partial s (length buf) ≡ true = ground arith in
    rw (write_ev-blocking fcntl fd ready (bytes s ∷ as1) w buf valid (omega arith)) (
      unfold write_polled in
      rw (write_loop, q)
        (let e =
            write_loop-stops as1 (record { extra = true; happened = false ∷ hs }) true (drop s buf)
              (0 + s) ([] ++ take s buf) blocking refl in
          (ap (λ r. r.ret) e, ap (λ r. r.out) e)))
