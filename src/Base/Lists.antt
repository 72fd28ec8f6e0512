-- ===== src/Base/Lists.antt =====
-- Lists over the native numbers, under the library's names, and lists of distinct addresses.
use Prim.Native.Nat.{ℕ, zero, suc, ◌+◌}
use mathlib.Core.Path.{◌≡◌, refl, ap}
use mathlib.Core.Bool.{Bool, true, false, ◌||◌}
use mathlib.Core.Logic.{◌≢◌, inl, inr}
use mathlib.Core.List.{List, [], ◌∷◌, ◌++◌, map, append-nil, append_assoc}
use mathlib.Core.Option.{Option, none, some}
use native.Mathlib.Omega.{arith}
use pth.Base.Tests.{◌==◌, Bool-cases}

module _ {ℓ} {A : Type ℓ} where
  abbrev pub length : List A → ℕ
  length [] = 0
  length (x ∷ xs) = suc (length xs)

  abbrev pub get_elem? : List A → ℕ → Option A
  get_elem? [] i = none
  get_elem? (x ∷ xs) zero = some x
  get_elem? (x ∷ xs) (suc i) = get_elem? xs i

  -- A write out of bounds changes nothing.
  abbrev pub set : List A → ℕ → A → List A
  set [] i v = []
  set (x ∷ xs) zero v = v ∷ xs
  set (x ∷ xs) (suc i) v = x ∷ set xs i v

  abbrev pub replicate : ℕ → A → List A
  replicate zero a = []
  replicate (suc n) a = a ∷ replicate n a

  pub length-append : (xs ys : List A) → length (xs ++ ys) ≡ length xs + length ys
  length-append [] ys = omega arith
  length-append (x ∷ xs) ys = omega (arith, length-append xs ys)

pub length-map {ℓ κ} :
    {A : Type ℓ} {B : Type κ} (f : A → B) (xs : List A) → length (map f xs) ≡ length xs
length-map f [] = refl
length-map f (x ∷ xs) = ap suc (length-map f xs)

-- Membership as a test, which `ground` decides.
abbrev pub has : ℕ → List ℕ → Bool
has a [] = false
has a (x ∷ xs) = (a == x) || has a xs

abbrev pub Distinct : List ℕ → Type 0
Distinct [] = Unit {0}
Distinct (x ∷ xs) = (has x xs ≡ false) × Distinct xs

pub has-append : (a : ℕ) (xs ys : List ℕ) → has a (xs ++ ys) ≡ (has a xs || has a ys)
has-append a [] ys = refl
has-append a (x ∷ xs) ys = ground (arith, has-append a xs ys)

-- The rotation of a cycle keeps its members distinct.
pub Distinct-snoc : (a : ℕ) (xs : List ℕ) → Distinct xs → has a xs ≡ false → Distinct (xs ++ a ∷ [])
Distinct-snoc a [] d h = (refl, tt)
Distinct-snoc a (x ∷ xs) d h =
    (ground (arith, has-append x xs (a ∷ [])), Distinct-snoc a xs d.1 (ground arith))

pub Distinct-rotate : (xs ys : List ℕ) → Distinct (xs ++ ys) → Distinct (ys ++ xs)
Distinct-rotate [] ys d = rw append-nil d
Distinct-rotate (x ∷ xs) ys d =
    rw append_assoc at
      (Distinct-rotate xs (ys ++ x ∷ []) (rw (← append_assoc) (Distinct-snoc x (xs ++ ys) d.1 d.0)))

pub Distinct-insert :
    (xs : List ℕ) (t : ℕ) (ys : List ℕ)
    → Distinct (xs ++ ys)
    → has t (xs ++ ys) ≡ false
    → Distinct (xs ++ t ∷ ys)
Distinct-insert [] t ys d out = (out, d)
Distinct-insert (x ∷ xs) t ys d out = (
  ground (arith, has-append x xs ys, has-append x xs (t ∷ ys)),
  Distinct-insert xs t ys d.1 (ground arith),
)

pub Distinct-remove :
    (xs : List ℕ) (t : ℕ) (ys : List ℕ)
    → Distinct (xs ++ t ∷ ys)
    → Distinct (xs ++ ys) × (has t (xs ++ ys) ≡ false)
Distinct-remove [] t ys d = (d.1, d.0)
Distinct-remove (x ∷ xs) t ys d =
    let (rest, out) = Distinct-remove xs t ys d.1 in
    (
      (ground (arith, has-append x xs ys, has-append x xs (t ∷ ys)), rest),
      ground (arith, has-append x xs (t ∷ ys)),
    )

pub length_rotate {ℓ} : {A : Type ℓ} (xs ys : List A) → length (xs ++ ys) ≡ length (ys ++ xs)
length_rotate xs ys = omega (arith, length-append xs ys, length-append ys xs)

pub has-split :
    (a : ℕ) (xs : List ℕ) → has a xs ≡ true → (ys : List ℕ) × ((zs : List ℕ) × (xs ≡ ys ++ a ∷ zs))
has-split a [] h = absurd (cc)
has-split a (x ∷ xs) h = elim (Bool-cases (a == x)) [
  | inl e ↦ let p : x ≡ a = ground arith in ([], (xs, ap (λ y. y ∷ xs) p))
  | inr e ↦ let (ys, (zs, p)) = has-split a xs (ground arith) in (x ∷ ys, (zs, ap (λ l. x ∷ l) p))
]

-- The parts of a list of distinct addresses have none in common.
pub Distinct-append :
    (xs ys : List ℕ)
    → Distinct (xs ++ ys)
    → Distinct xs × Distinct ys × ((u : ℕ) → has u xs ≡ true → has u ys ≡ false)
Distinct-append [] ys d = (tt, d, λ u h. absurd (cc))
Distinct-append (x ∷ xs) ys d =
    let (left, right, apart) = Distinct-append xs ys d.1 in
    (
      (ground (arith, has-append x xs ys), left),
      right,
      λ u h. elim (Bool-cases (u == x)) [
        | inl e ↦ ground (arith, has-append x xs ys)
        | inr e ↦ ground (arith, apart u)
      ],
    )

pub ne_of_has : (a b : ℕ) (xs : List ℕ) → has a xs ≡ false → has b xs ≡ true → a ≢ b
ne_of_has a b xs out i e = ground (arith, ap (λ u. has u xs) e)
