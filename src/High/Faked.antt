-- ===== src/High/Faked.antt =====
-- `pth_writev_faked` and `pth_readv_faked`.
use pth.Base.{
  ℕ, ◌+◌, ◌-◌, ◌<◌, ◌≤◌, ◌≡◌, refl, ◌∙◌, ap, true, false, List, [], ◌∷◌, ◌++◌, arith, ◌==◌, ltb,
  length, some, Bool-cases, inl, inr, length-append, append-nil,
}
use pth.High.{take, drop, bytes}
use pth.High.Vectors.{Iov, flatten, total, min, memcpy, gather, writev_faked, scatter, readv_faked}
use pth.High.Whole.{take-append}
use pth.High.Complete.{take_all}

-- No entry is empty.
abbrev pub NoneEmpty : Iov → Type 0
NoneEmpty [] = Unit {0}
NoneEmpty (x ∷ xs) = (0 < length x) × NoneEmpty xs

total_lem : (iov : Iov) → NoneEmpty iov → total iov ≡ some (length (flatten iov))
unfolding total
total_lem [] h = refl
total_lem (x ∷ xs) h = ground (arith, total_lem xs h.1, length-append x (flatten xs))

flatten-positive : (xs : Iov) (z : List ℕ) → 0 < length z → 0 < length (flatten (xs ++ z ∷ []))
flatten-positive [] z h = omega (arith, length-append z [])
flatten-positive (x ∷ xs) z h =
    omega (arith, length-append x (flatten (xs ++ z ∷ [])), flatten-positive xs z h)

-- An entry that is not the last is copied whole.
gather-step :
    (n : ℕ) (buffer x : List ℕ) (ys : Iov)
    → length x < n
    → gather n buffer (x ∷ ys) ≡ gather (n - length x) (memcpy buffer x (length x)) ys
unfolding gather
gather-step n buffer x ys h =
    let c : min (length x) n ≡ length x = ground arith in
    let d : (n - length x == 0) ≡ false = ground arith in rw (gather, c, d, c) refl

gather-last :
    (n : ℕ) (buffer : List ℕ) (xs : Iov) (z : List ℕ)
    → 0 < length z
    → n ≡ length (flatten (xs ++ z ∷ []))
    → (rest : List ℕ) × (gather n buffer (xs ++ z ∷ []) ≡ z ++ rest)
unfolding gather
gather-last n buffer [] z h e =
    let l : n ≡ length z = omega (arith, length-append z []) in
    let c : min (length z) n ≡ length z = ground arith in
    let d : (n - length z == 0) ≡ true = ground arith in
    (
      drop (length z) buffer,
      rw (gather, c, d, c)
          (ap (λ t. t ++ drop (length z) buffer) (take_all (length z) z (omega arith))),
    )
gather-last n buffer (x ∷ xs) z h e =
    let l = length-append x (flatten (xs ++ z ∷ [])) in
    let more = flatten-positive xs z h in
    let (rest, ih) = gather-last (n - length x) (memcpy buffer x (length x)) xs z h (omega arith) in
    (rest, gather-step n buffer x (xs ++ z ∷ []) (omega arith) ∙ ih)

-- For a vector of entries that are not empty, the bytes that pth_writev_faked hands to the system
-- begin with those of the last entry, whatever stands before it.
pub writev_faked-last :
    (fresh : List ℕ) (xs : Iov) (z : List ℕ)
    → NoneEmpty (xs ++ z ∷ [])
    → 0 < length z
    → (rest : List ℕ) × (writev_faked fresh (xs ++ z ∷ []) ≡ some (z ++ rest))
unfolding writev_faked
writev_faked-last fresh xs z h zp =
    let n = length (flatten (xs ++ z ∷ [])) in
    let p : (n == 0) ≡ false = ground (arith, flatten-positive xs z zp) in
    let (rest, g) = gather-last n fresh xs z zp refl in
    (rest, rw (writev_faked, total_lem (xs ++ z ∷ []) h, p, g) refl)

abbrev pub sum : List ℕ → ℕ
sum [] = 0
sum (x ∷ xs) = x + sum xs

scatter-take :
    (n : ℕ) (buffer sizes : List ℕ)
    → n ≤ sum sizes
    → (flatten (scatter n buffer sizes).0 ≡ take n buffer) × ((scatter n buffer sizes).1 ≡ n)
unfolding scatter
scatter-take n buffer [] h = let e : n ≡ 0 = omega arith in rw e (refl, refl)
scatter-take n buffer (size ∷ sizes) h = elim (Bool-cases (ltb size n)) [
  | inl q ↦
      let c : min size n ≡ size = ground arith in
      let d : (n - size == 0) ≡ false = ground arith in
      let (f, o) = scatter-take (n - size) (drop size buffer) sizes (ground arith) in
      let s : size + (n - size) ≡ n = ground arith in
      rw (scatter, c, d, c)
        (
          ap (λ t. take size buffer ++ t) f
              ∙ take-append size (n - size) buffer
              ∙ ap (λ k. take k buffer) s,
          ap (λ k. size + k) o ∙ s,
        )
  | inr q ↦
      let c : min size n ≡ n = ground arith in
      let d : (n - n == 0) ≡ true = ground arith in
      rw (scatter, c, d, c) (append-nil (take n buffer), refl)
]

pub readv_faked-scatters :
    (n : ℕ) (buffer sizes : List ℕ)
    → 0 < n
    → n ≤ sum sizes
    → (flatten (readv_faked (bytes n) buffer sizes).0 ≡ take n buffer)
      × ((readv_faked (bytes n) buffer sizes).1 ≡ n)
unfolding readv_faked
readv_faked-scatters n buffer sizes pos_n h =
    let e : ltb 0 n ≡ true = ground arith in rw e (scatter-take n buffer sizes h)
