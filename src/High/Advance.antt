-- ===== src/High/Advance.antt =====
-- `pth_writev_iov_bytes` and `pth_writev_iov_advance`: a vector seen as the bytes of its entries.
use pth.Base.{
  none, some, Bool, true, false, not, ◌&&◌, if◌then◌else◌, ℕ, zero, suc, ◌-◌, ◌<◌, ◌≤◌, ◌≡◌, refl,
  ◌∙◌, sym, ap, List, [], ◌∷◌, ◌++◌, arith, ◌==◌, ltb, length, length-append, if_intro, ==_iff,
  ltb→lt,
}
use pth.High.{drop}
use pth.High.Vectors.{
  Iov, flatten, iov_bytes, Local, unset, whole, rest, advance_loop, advance, moved, is_callers,
  copied, current, started,
}

pub drop-append_lt : (n : ℕ) (x ys : List ℕ) → n < length x → drop n (x ++ ys) ≡ drop n x ++ ys
drop-append_lt n [] ys h = absurd (omega arith)
drop-append_lt zero (x ∷ xs) ys h = refl
drop-append_lt (suc n) (x ∷ xs) ys h = drop-append_lt n xs ys (omega arith)

pub drop-append_le :
    (n : ℕ) (x ys : List ℕ) → length x ≤ n → drop n (x ++ ys) ≡ drop (n - length x) ys
drop-append_le n [] ys h = ap (λ k. drop k ys) (omega arith)
drop-append_le zero (x ∷ xs) ys h = absurd (omega arith)
drop-append_le (suc n) (x ∷ xs) ys h =
    drop-append_le n xs ys (omega arith) ∙ ap (λ k. drop k ys) (omega arith)

drop-nil : (n : ℕ) → drop n [] ≡ []
drop-nil zero = refl
drop-nil (suc n) = refl

advance_loop-drop : (n : ℕ) (xs : Iov) → flatten (advance_loop n xs) ≡ drop n (flatten xs)
unfolding advance_loop
advance_loop-drop n [] = sym (drop-nil n)
advance_loop-drop n (x ∷ xs) =
    if_intro (λ r. flatten r ≡ drop n (x ++ flatten xs)) (n == 0)
      (λ z. ap (λ k. drop k (x ++ flatten xs)) (sym ((==_iff n 0).0 z)))
      (λ nz.
        if_intro (λ r. flatten r ≡ drop n (x ++ flatten xs)) (ltb n (length x))
          (λ lt. sym (drop-append_lt n x (flatten xs) (ltb→lt n (length x) lt)))
          (λ ge.
            advance_loop-drop (n - length x) xs
            ∙ sym (drop-append_le n x (flatten xs) (ground arith))))

pub iov_bytes-length : (iov : Iov) → iov_bytes iov ≡ length (flatten iov)
unfolding iov_bytes
iov_bytes-length [] = refl
iov_bytes-length (x ∷ xs) = ground (arith, iov_bytes-length xs, length-append x (flatten xs))

-- The bytes that a local vector has.
abbrev pub local : Iov → Local → List ℕ
local riov l = flatten (current riov (started l))

pub moved-started : (riov : Iov) (n : ℕ) (l : Local) → started (moved riov n l) ≡ moved riov n l
unfolding moved
moved-started riov n unset = if_intro (λ r. started r ≡ r) (n == 0) (λ _. refl) (λ _. refl)
moved-started riov n whole = if_intro (λ r. started r ≡ r) (n == 0) (λ _. refl) (λ _. refl)
moved-started riov n (rest xs) = if_intro (λ r. started r ≡ r) (n == 0) (λ _. refl) (λ _. refl)

copied-current : (riov : Iov) (l : Local) → copied riov (started l) ≡ current riov (started l)
unfolding copied
copied-current riov unset = refl
copied-current riov whole = refl
copied-current riov (rest xs) = refl

pub moved-drop :
    (riov : Iov) (n : ℕ) (l : Local) → local riov (moved riov n l) ≡ drop n (local riov l)
moved-drop riov n l = rw (moved-started riov n l) (
    unfold moved in
    if_intro (λ r. flatten (current riov r) ≡ drop n (local riov l)) (n == 0)
      (λ z. ap (λ k. drop k (local riov l)) (sym ((==_iff n 0).0 z)))
      (λ nz.
        advance_loop-drop n (copied riov (started l))
        ∙ ap (λ xs. drop n (flatten xs)) (copied-current riov l)))

-- A vector that the local one has room for is moved.
pub advance-fits :
    (room : ℕ) (riov : Iov) (n : ℕ) (l : Local)
    → length riov ≤ room
    → advance room riov n l ≡ some (moved riov n l)
unfolding advance
advance-fits room riov n l fit =
    rw (fits room (length riov) fit) (if_false (is_callers l) (not (n == 0)))
  where
    fits : (a b : ℕ) → b ≤ a → ltb a b ≡ false
    fits a b h = ground arith

    if_false :
        (c d : Bool)
        → (if d && (c && false) then none else some (moved riov n l)) ≡ some (moved riov n l)
    if_false true true = refl
    if_false true false = refl
    if_false false true = refl
    if_false false false = refl
