-- ===== src/Util/Names.antt =====
-- `pth_util_cpystrn`: the copy of a name.
use pth.Base.{
  ℕ, zero, suc, ◌-◌, ◌≤◌, ◌≡◌, refl, ◌≢◌, List, [], ◌∷◌, ◌++◌, arith, ◌==◌, if◌then◌else◌, length,
}
use pth.Util.{cpy_loop, cpystrn}

-- The characters before the end of a text.
abbrev pub text_of : List ℕ → List ℕ
text_of [] = []
text_of (c ∷ xs) = if c == 0 then [] else c ∷ text_of xs

abbrev pub take : ℕ → List ℕ → List ℕ
take zero xs = []
take (suc n) [] = []
take (suc n) (x ∷ xs) = x ∷ take n xs

cpy_loop-take : (k : ℕ) (src : List ℕ) → cpy_loop k src ≡ take k (text_of src) ++ 0 ∷ []
unfolding cpy_loop
cpy_loop-take zero src = refl
cpy_loop-take (suc k) [] = refl
cpy_loop-take (suc k) (c ∷ src) = ground (arith, cpy_loop-take k src)

length-cpy_loop : (k : ℕ) (src : List ℕ) → length (cpy_loop k src) ≤ suc k
unfolding cpy_loop
length-cpy_loop zero src = omega arith
length-cpy_loop (suc k) [] = omega arith
length-cpy_loop (suc k) (c ∷ src) = ground (arith, length-cpy_loop k src)

pub cpystrn-bounded :
    (src : List ℕ) (dst_size : ℕ)
    → dst_size ≢ 0
    → (cpystrn src dst_size ≡ take (dst_size - 1) (text_of src) ++ 0 ∷ [])
      × (length (cpystrn src dst_size) ≤ dst_size)
unfolding cpystrn
cpystrn-bounded src dst_size h = (
  ground (arith, cpy_loop-take (dst_size - 1) src),
  ground (arith, length-cpy_loop (dst_size - 1) src),
)
