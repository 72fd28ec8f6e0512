-- ===== src/High/Whole.antt =====
-- `pth_write_ev`: what is written when the call returns.
use pth.Base.{
  ℕ, zero, suc, ◌+◌, ◌≡◌, refl, ◌∙◌, sym, ap, Bool, true, false, not, List, [], ◌∷◌, ◌++◌, arith,
  ◌==◌, length, none, some, Option-cases, Bool-cases, inl, inr, if_intro,
}
use pth.Base.Int.{ℤ}
use pth.Util.{fd_valid}
use pth.High.{
  Errno, eintr, ebadf, einval, Answer, bytes, error, Mode, blocking, nonblocking, bad_mode, Poll,
  poll_fails, Waits, wait_if, take, drop, returns, fails, stuck, uninterrupted,
}
use pth.High.Write.{
  Written, ends, rv_error, write_loop, write_ev, write_mode, write_once, write_polled, partial,
  is_unready,
}

take-nil : (n : ℕ) → take n [] ≡ []
take-nil zero = refl
take-nil (suc n) = refl

suc_add : (a b : ℕ) → suc (a + b) ≡ suc a + b
suc_add a b = omega arith

pub take-append : (a b : ℕ) (xs : List ℕ) → take a xs ++ take b (drop a xs) ≡ take (a + b) xs
take-append zero b xs = ap (λ k. take k xs) (omega arith)
take-append (suc a) b [] = take-nil b ∙ sym (take-nil (suc a + b))
take-append (suc a) b (x ∷ xs) =
    ap (λ l. x ∷ l) (take-append a b xs) ∙ ap (λ k. take k (x ∷ xs)) (suc_add a b)

drop-nil : (n : ℕ) → drop n [] ≡ []
drop-nil zero = refl
drop-nil (suc n) = refl

drop-drop : (a b : ℕ) (xs : List ℕ) → drop b (drop a xs) ≡ drop (a + b) xs
drop-drop zero b xs = ap (λ k. drop k xs) (omega arith)
drop-drop (suc a) b [] = drop-nil b ∙ sym (drop-nil (suc a + b))
drop-drop (suc a) b (x ∷ xs) = drop-drop a b xs ∙ ap (λ k. drop k (x ∷ xs)) (suc_add a b)

-- The count is right: what is left of `all` is `buf`, what is written are its first bytes.
abbrev Upto : List ℕ → (buf : List ℕ) → (rv : ℕ) → (out : List ℕ) → Type 0
Upto all buf rv out = (buf ≡ drop rv all) × (out ≡ take rv all)

-- A result with a count has the first bytes, and leaves the mode.
abbrev IsCounted : List ℕ → Mode → Written → Type 0
IsCounted all mode r = (n : ℕ) → r.ret ≡ returns n → (r.out ≡ take n all) × (r.mode ≡ mode)

Upto-more :
    (all buf : List ℕ) (rv s : ℕ) (out : List ℕ)
    → Upto all buf rv out
    → Upto all (drop s buf) (rv + s) (out ++ take s buf)
Upto-more all buf rv s out (left, written) =
    (ap (drop s) left ∙ drop-drop rv s all, rw (left, written) (take-append rv s all))

fails-IsCounted :
    (all : List ℕ) (e : Errno) (out : List ℕ) (mode : Mode)
    → IsCounted all mode (ends (fails e) out mode)
fails-IsCounted all e out mode n h = absurd (cc)

returns-IsCounted :
    (all : List ℕ) (rv : ℕ) (out : List ℕ) (mode : Mode)
    → out ≡ take rv all
    → IsCounted all mode (ends (returns rv) out mode)
returns-IsCounted all rv out mode u n h =
    let e : rv ≡ n = ground arith in (u ∙ ap (λ k. take k all) e, refl)

error-IsCounted :
    (all : List ℕ) (rv : ℕ) (e : Errno) (out : List ℕ) (mode : Mode)
    → out ≡ take rv all
    → IsCounted all mode (ends (rv_error rv e) out mode)
error-IsCounted all rv e out mode u =
    if_intro (λ r. IsCounted all mode (ends r out mode)) (rv == 0)
      (λ _. fails-IsCounted all e out mode) (λ _. returns-IsCounted all rv out mode u)

module _ (all : List ℕ) (w : Waits) (unready : Bool) (rv : ℕ) (out : List ℕ) (mode : Mode) where
  -- The wait goes on to `r`, or is interrupted.
  after_wait-IsCounted :
      (r : Waits → Written)
      → ((w' : Waits) → IsCounted all mode (r w'))
      → IsCounted all mode
          (elim (wait_if unready w) [ none ↦ ends (fails eintr) out mode | some w' ↦ r w' ])
  after_wait-IsCounted r f = elim (Option-cases (wait_if unready w)) [
    | inl e ↦ rw e (fails-IsCounted all eintr out mode)
    | inr (w', e) ↦ rw e (f w')
  ]

write_loop-IsCounted :
    (all : List ℕ) (as1 : List Answer) (w : Waits) (unready : Bool) (buf : List ℕ) (rv : ℕ)
    (out : List ℕ) (mode : Mode)
    → Upto all buf rv out
    → IsCounted all mode (write_loop as1 w unready buf rv out mode)
unfolding write_loop
write_loop-IsCounted all [] w unready buf rv out mode u =
    after_wait-IsCounted all w unready rv out mode (λ w'. ends stuck out nonblocking)
      (λ w' n h. absurd (cc))
write_loop-IsCounted all (error eintr ∷ as1) w unready buf rv out mode u =
    after_wait-IsCounted all w unready rv out mode (λ w'. write_loop as1 w' false buf rv out mode)
      (λ w'. write_loop-IsCounted all as1 w' false buf rv out mode u)
write_loop-IsCounted all (error e ∷ as1) w unready buf rv out mode u =
    after_wait-IsCounted all w unready rv out mode (λ w'. ends (rv_error rv e) out mode)
      (λ w'. error-IsCounted all rv e out mode u.1)
write_loop-IsCounted all (bytes s ∷ as1) w unready buf rv out mode u =
    let more = Upto-more all buf rv s out u in
    after_wait-IsCounted all w unready rv out mode
      (λ w'. elim (partial s (length buf)) [
        | true ↦ write_loop as1 w' true (drop s buf) (rv + s) (out ++ take s buf) mode
        | false ↦ ends (returns (rv + s)) (out ++ take s buf) mode
      ])
      (λ w'. elim (Bool-cases (partial s (length buf))) [
        | inl p ↦ rw p (
            write_loop-IsCounted all as1 w' true (drop s buf) (rv + s) (out ++ take s buf) mode
              more)
        | inr p ↦ rw p (returns-IsCounted all (rv + s) (out ++ take s buf) mode more.1)
      ])

write_once-IsCounted :
    (as1 : List Answer) (buf : List ℕ) (mode : Mode) → IsCounted buf mode (write_once as1 buf mode)
unfolding write_once
write_once-IsCounted as1 buf mode = elim (Option-cases (uninterrupted as1)) [
  | inl e ↦ rw (write_once, e) (λ n h. absurd (cc))
  | inr ((bytes s, r), e) ↦ rw (write_once, e) (returns-IsCounted buf s (take s buf) mode refl)
  | inr ((error x, r), e) ↦ rw (write_once, e) (fails-IsCounted buf x [] mode)
]

write_polled-IsCounted :
    (p : Poll) (as1 : List Answer) (w : Waits) (buf : List ℕ) (mode : Mode)
    → IsCounted buf mode (write_polled p as1 w buf mode)
unfolding write_polled
write_polled-IsCounted (poll_fails einval) as1 w buf mode = λ n h. absurd (cc)
write_polled-IsCounted (poll_fails ebadf) as1 w buf mode = λ n h. absurd (cc)
write_polled-IsCounted p as1 w buf mode =
    write_loop-IsCounted buf as1 w (is_unready p) buf 0 [] mode (refl, refl)

write_mode-IsCounted :
    (mode : Mode) (p : Poll) (as1 : List Answer) (w : Waits) (buf : List ℕ)
    → IsCounted buf mode (write_mode mode p as1 w buf)
unfolding write_mode
write_mode-IsCounted bad_mode p as1 w buf = fails-IsCounted buf ebadf [] bad_mode
write_mode-IsCounted nonblocking p as1 w buf = write_once-IsCounted as1 buf nonblocking
write_mode-IsCounted blocking p as1 w buf = write_polled-IsCounted p as1 w buf blocking

-- Whatever the mode of the descriptor, its poll, the answers of the system and the waits, if
-- pth_write_ev returns a count of bytes, the bytes written are the first of the buffer in that
-- number, and the descriptor is in the mode it was in.
pub write_ev-counted :
    (fcntl : ℕ → Bool) (fd : ℤ) (mode : Mode) (p : Poll) (as1 : List Answer) (w : Waits)
    (buf : List ℕ) (n : ℕ)
    → (write_ev fcntl fd mode p as1 w buf).ret ≡ returns n
    → ((write_ev fcntl fd mode p as1 w buf).out ≡ take n buf)
      × ((write_ev fcntl fd mode p as1 w buf).mode ≡ mode)
unfolding write_ev
write_ev-counted fcntl fd mode p as1 w buf =
    if_intro (IsCounted buf mode) (length buf == 0) (λ _. returns-IsCounted buf 0 [] mode refl)
      (λ _.
        if_intro (IsCounted buf mode) (not (fd_valid fcntl fd))
          (λ _. fails-IsCounted buf ebadf [] mode) (λ _. write_mode-IsCounted mode p as1 w buf))
