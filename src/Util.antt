-- ===== src/Util.antt =====
-- src/pth_util.c: names, file descriptors and sets of them. A set of descriptors is a function into
-- Bool; a pointer to one that may be null is an option.
pub mod Fds
pub mod Names
mod Examples
use pth.Base.{
  ℕ, zero, suc, ◌+◌, ◌-◌, Bool, true, false, ◌&&◌, ◌||◌, Option, none, some, List, [], ◌∷◌, ◌==◌,
  ltb, if◌then◌else◌,
}
use pth.Base.Int.{ℤ, pos, negsuc}

abbrev pub fd_setsize : ℕ
fd_setsize = 1024

-- `fcntl` tells whether the system knows the descriptor: it does not fail with EBADF.
unfoldable pub fd_valid : (fcntl : ℕ → Bool) → ℤ → Bool
fd_valid fcntl (negsuc n) = false
fd_valid fcntl (pos n) = if ltb n fd_setsize then fcntl n else false

abbrev pub FdSet : Type 0
FdSet = ℕ → Bool

abbrev pub fd_set : ℕ → FdSet → FdSet
fd_set s f x = if s == x then true else f x

abbrev pub fd_clr : ℕ → FdSet → FdSet
fd_clr s f x = if s == x then false else f x

-- `ifds != NULL && FD_ISSET(s, ifds)`
abbrev pub isset : ℕ → Option FdSet → Bool
isset s none = false
isset s (some f) = f s

-- What the loop of `pth_util_fds_merge` does for a descriptor in one pair of sets.
unfoldable pub merge_one : ℕ → Option FdSet → FdSet → FdSet
merge_one s ifds ofds = if isset s ifds then fd_set s ofds else ofds

-- The first `nfd` descriptors, the last of them last.
unfoldable pub fds_merge :
    ℕ
    → (i1 : Option FdSet) (o1 : FdSet) (i2 : Option FdSet) (o2 : FdSet) (i3 : Option FdSet)
      (o3 : FdSet)
    → FdSet × FdSet × FdSet
unfolding merge_one
fds_merge zero i1 o1 i2 o2 i3 o3 = (o1, o2, o3)
fds_merge (suc s) i1 o1 i2 o2 i3 o3 =
    let r = fds_merge s i1 o1 i2 o2 i3 o3 in
    (merge_one s i1 r.0, merge_one s i2 r.1, merge_one s i3 r.2)

unfoldable pub test_one : ℕ → Option FdSet → FdSet → Bool
test_one s ifds ofds = isset s ifds && ofds s

-- `left` descriptors from `s` on.
unfoldable pub test_loop :
    (left s : ℕ) (i1 : Option FdSet) (o1 : FdSet) (i2 : Option FdSet) (o2 : FdSet)
    (i3 : Option FdSet) (o3 : FdSet)
    → Bool
unfolding test_one
test_loop zero s i1 o1 i2 o2 i3 o3 = false
test_loop (suc k) s i1 o1 i2 o2 i3 o3 = elim (test_one s i1 o1) [
  | true ↦ true
  | false ↦ elim (test_one s i2 o2) [
    | true ↦ true
    | false ↦ elim (test_one s i3 o3) [
      | true ↦ true
      | false ↦ test_loop k (suc s) i1 o1 i2 o2 i3 o3
    ]
  ]
]

unfoldable pub fds_test :
    ℕ
    → (i1 : Option FdSet) (o1 : FdSet) (i2 : Option FdSet) (o2 : FdSet) (i3 : Option FdSet)
      (o3 : FdSet)
    → Bool
unfolding test_loop
fds_test nfd i1 o1 i2 o2 i3 o3 = test_loop nfd 0 i1 o1 i2 o2 i3 o3

-- A descriptor that did not occur is taken out of the set, one that did is counted.
unfoldable pub select_one : ℕ → (ofds : FdSet) → Option FdSet × ℕ → Option FdSet × ℕ
select_one s ofds (none, n) = (none, n)
select_one s ofds (some f, n) =
    if f s then (if ofds s then (some f, n + 1) else (some (fd_clr s f), n)) else (some f, n)

-- The three sets and the number.
unfoldable pub fds_select :
    ℕ
    → (i1 : Option FdSet) (o1 : FdSet) (i2 : Option FdSet) (o2 : FdSet) (i3 : Option FdSet)
      (o3 : FdSet)
    → (Option FdSet × Option FdSet × Option FdSet) × ℕ
unfolding select_one
fds_select zero i1 o1 i2 o2 i3 o3 = ((i1, i2, i3), 0)
fds_select (suc s) i1 o1 i2 o2 i3 o3 =
    let r = fds_select s i1 o1 i2 o2 i3 o3 in
    let a = select_one s o1 (r.0.0, r.1) in
    let b = select_one s o2 (r.0.1, a.1) in
    let c = select_one s o3 (r.0.2, b.1) in ((a.0, b.0, c.0), c.1)

-- The loop of `pth_util_cpystrn` with `left` places before `end`: the characters of `src` up to its
-- end, those that it writes, and the terminating 0. The text ends with the list.
unfoldable pub cpy_loop : (left : ℕ) → List ℕ → List ℕ
cpy_loop zero src = 0 ∷ []
cpy_loop (suc k) [] = 0 ∷ []
cpy_loop (suc k) (c ∷ src) = elim (c == 0) [ true ↦ 0 ∷ [] | false ↦ c ∷ cpy_loop k src ]

-- What is written to `dst`.
unfoldable pub cpystrn : List ℕ → (dst_size : ℕ) → List ℕ
unfolding cpy_loop
cpystrn src dst_size = if dst_size == 0 then [] else cpy_loop (dst_size - 1) src
