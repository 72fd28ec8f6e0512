-- ===== src/Util/Examples.antt =====
-- Tests of src/pth_util.c.
use pth.Base.{
  ◌-◌, ◌≤◌, ◌≡◌, refl, true, false, ◌&&◌, ◌||◌, none, some, [], ◌∷◌, ◌++◌, arith, ltb, ◌==◌, length,
}
use pth.Base.Int.{pos, negsuc}
use pth.Util.{FdSet, isset, fds_merge, fds_test, fds_select, cpystrn, fd_valid}
use pth.Util.Fds.{fds_merge-union, fds_select-exact, left_of, hits, selected}
use pth.Util.Names.{cpystrn-bounded, take, text_of}

abbrev one_and_two : FdSet
one_and_two x = (x == 1) || (x == 2)

abbrev only_two : FdSet
only_two x = x == 2

abbrev no_fds : FdSet
no_fds x = false

merged : (fds_merge 3 (some one_and_two) no_fds none only_two none no_fds).0 2 ≡ true
unfolding fds_merge
merged = refl

beyond : (fds_merge 2 (some one_and_two) no_fds none only_two none no_fds).0 2 ≡ false
unfolding fds_merge
beyond = refl

tested : fds_test 3 (some one_and_two) only_two none no_fds none no_fds ≡ true
unfolding fds_test
tested = refl

selected_number : (fds_select 3 (some one_and_two) only_two none no_fds none no_fds).1 ≡ 1
unfolding fds_select
selected_number = refl

fd_range : fd_valid (λ x. true) (pos 1024) ≡ false
unfolding fd_valid
fd_range = refl

fd_negative : fd_valid (λ x. true) (negsuc 0) ≡ false
unfolding fd_valid
fd_negative = refl

copied : cpystrn (b'm' ∷ b'a' ∷ b'i' ∷ b'n' ∷ []) 3 ≡ b'm' ∷ b'a' ∷ 0 ∷ []
unfolding cpystrn
copied = refl

fds_merge-union_example :
    (((fds_merge 3 (some one_and_two) no_fds none only_two none no_fds).0 2
        ≡ (no_fds 2 || (ltb 2 3 && isset 2 (some one_and_two))))
      × ((fds_merge 3 (some one_and_two) no_fds none only_two none no_fds).1 2
          ≡ (only_two 2 || (ltb 2 3 && isset 2 none)))
      × ((fds_merge 3 (some one_and_two) no_fds none only_two none no_fds).2 2
          ≡ (no_fds 2 || (ltb 2 3 && isset 2 none))))
fds_merge-union_example = fds_merge-union (some one_and_two) none none no_fds only_two no_fds 3 2

fds_select-exact_example :
    (isset 1 (selected (some one_and_two) none none only_two no_fds no_fds 3).0.0
      ≡ left_of (some one_and_two) only_two 3 1)
    × (isset 1 (selected (some one_and_two) none none only_two no_fds no_fds 3).0.1
        ≡ left_of none no_fds 3 1)
    × (isset 1 (selected (some one_and_two) none none only_two no_fds no_fds 3).0.2
        ≡ left_of none no_fds 3 1)
    × ((selected (some one_and_two) none none only_two no_fds no_fds 3).1
        ≡ hits (some one_and_two) none none only_two no_fds no_fds 3)
fds_select-exact_example = fds_select-exact (some one_and_two) none none only_two no_fds no_fds 3 1

cpystrn-bounded_example :
    (cpystrn (b'm' ∷ b'a' ∷ b'i' ∷ b'n' ∷ []) 3
      ≡ take (3 - 1) (text_of (b'm' ∷ b'a' ∷ b'i' ∷ b'n' ∷ [])) ++ 0 ∷ [])
    × (length (cpystrn (b'm' ∷ b'a' ∷ b'i' ∷ b'n' ∷ []) 3) ≤ 3)
cpystrn-bounded_example = cpystrn-bounded (b'm' ∷ b'a' ∷ b'i' ∷ b'n' ∷ []) 3 (omega arith)
