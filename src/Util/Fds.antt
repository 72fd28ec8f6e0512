-- ===== src/Util/Fds.antt =====
-- `pth_util_fds_merge`, `pth_util_fds_test` and `pth_util_fds_select`.
use pth.Base.{
  ℕ, zero, suc, ◌+◌, ◌<◌, ◌≤◌, ◌≡◌, refl, Bool, true, ◌&&◌, ◌||◌, Option, none, some, arith, ltb,
  if◌then◌else◌, ◌==◌, not, Bool-cases, inl, inr, ◌↔◌, ◌∙◌, ap,
}
use pth.Util.{FdSet, isset, merge_one, fds_merge, test_loop, fds_test, select_one, fds_select}

merge_one_lem :
    (s x : ℕ) (i : Option FdSet) (o : FdSet) → merge_one s i o x ≡ (o x || ((s == x) && isset x i))
unfolding merge_one
merge_one_lem s x none o = ground arith
merge_one_lem s x (some f) o = ground arith

module _ (i1 i2 i3 : Option FdSet) (o1 o2 o3 : FdSet) where
  pub fds_merge-union :
      (n x : ℕ)
      → (((fds_merge n i1 o1 i2 o2 i3 o3).0 x ≡ (o1 x || (ltb x n && isset x i1)))
          × ((fds_merge n i1 o1 i2 o2 i3 o3).1 x ≡ (o2 x || (ltb x n && isset x i2)))
          × ((fds_merge n i1 o1 i2 o2 i3 o3).2 x ≡ (o3 x || (ltb x n && isset x i3))))
  unfolding fds_merge
  fds_merge-union zero x = ground arith
  fds_merge-union (suc s) x =
      let ih = fds_merge-union s x in
      let r = fds_merge s i1 o1 i2 o2 i3 o3 in
      (
        ground (arith, merge_one_lem s x i1 r.0),
        ground (arith, merge_one_lem s x i2 r.1),
        ground (arith, merge_one_lem s x i3 r.2),
      )

  -- A descriptor stands in one of the three sets, and occurred there.
  abbrev pub hit : ℕ → Bool
  hit s = (isset s i1 && o1 s) || ((isset s i2 && o2 s) || (isset s i3 && o3 s))

  test_loop-true :
      (k s x : ℕ) → s ≤ x → x < s + k → hit x ≡ true → test_loop k s i1 o1 i2 o2 i3 o3 ≡ true
  unfolding test_loop
  test_loop-true zero s x lo hi h = absurd (omega arith)
  test_loop-true (suc k) s x lo hi h = elim (Bool-cases (s == x)) [
    | inl e ↦ ground arith
    | inr e ↦ ground (arith, test_loop-true k (suc s) x)
  ]

  test_loop-find :
      (k s : ℕ) → test_loop k s i1 o1 i2 o2 i3 o3 ≡ true → (x : ℕ) × ((x < s + k) × (hit x ≡ true))
  unfolding test_loop
  test_loop-find zero s h = absurd (cc)
  test_loop-find (suc k) s h = elim (Bool-cases (hit s)) [
    | inl e ↦ (s, (omega arith, e))
    | inr e ↦ let (x, (lt, hx)) = test_loop-find k (suc s) (ground arith) in (x, (omega arith, hx))
  ]

  -- The number of times that the first `n` descriptors stand in a set and occurred in it.
  abbrev pub hits : ℕ → ℕ
  hits zero = 0
  hits (suc s) =
      ((hits s + (if isset s i1 && o1 s then 1 else 0)) + (if isset s i2 && o2 s then 1 else 0))
      + (if isset s i3 && o3 s then 1 else 0)

  hits_mono : (n x : ℕ) → x < n → hit x ≡ true → 0 < hits n
  hits_mono zero x lt h = absurd (omega arith)
  hits_mono (suc n) x lt h = elim (Bool-cases (x == n)) [
    | inl e ↦ ground arith
    | inr e ↦ ground (arith, hits_mono n x)
  ]

  hits_find : (n : ℕ) → 0 < hits n → (x : ℕ) × ((x < n) × (hit x ≡ true))
  hits_find zero h = absurd (omega arith)
  hits_find (suc n) h = elim (Bool-cases (hit n)) [
    | inl e ↦ (n, (omega arith, e))
    | inr e ↦ let (x, (lt, hx)) = hits_find n (ground arith) in (x, (omega arith, hx))
  ]

  pub fds_test-hits : (n : ℕ) → (fds_test n i1 o1 i2 o2 i3 o3 ≡ true) ↔ (0 < hits n)
  unfolding fds_test
  fds_test-hits n = (
    λ h. let (x, (lt, hx)) = test_loop-find n 0 h in hits_mono n x (omega arith) hx,
    λ h. let (x, (lt, hx)) = hits_find n h in test_loop-true n 0 x (omega arith) (omega arith) hx,
  )

select_one-isset :
    (s x : ℕ) (o : FdSet) (i : Option FdSet) (n : ℕ)
    → isset x (select_one s o (i, n)).0 ≡ (isset x i && (not (s == x) || o x))
unfolding select_one
select_one-isset s x o none n = refl
select_one-isset s x o (some f) n = ground arith

select_one-count :
    (s : ℕ) (o : FdSet) (i : Option FdSet) (n : ℕ)
    → (select_one s o (i, n)).1 ≡ n + (if isset s i && o s then 1 else 0)
unfolding select_one
select_one-count s o none n = omega arith
select_one-count s o (some f) n = ground arith

-- What is left of a set: what occurred, or lies beyond the first `n`.
abbrev pub left_of : Option FdSet → FdSet → ℕ → ℕ → Bool
left_of i o n x = isset x i && (not (ltb x n) || o x)

-- The count of a set that is still as it was.
select_one-same :
    (s : ℕ) (o : FdSet) (i i0 : Option FdSet) (n : ℕ)
    → isset s i ≡ isset s i0
    → (select_one s o (i, n)).1 ≡ n + (if isset s i0 && o s then 1 else 0)
select_one-same s o i i0 n h =
    select_one-count s o i n ∙ ap (λ b. n + (if b && o s then 1 else 0)) h

left_of-outside :
    (i : Option FdSet) (o : FdSet) (s : ℕ) → (isset s i && (not (ltb s s) || o s)) ≡ isset s i
left_of-outside i o s = ground arith

module _ (i1 i2 i3 : Option FdSet) (o1 o2 o3 : FdSet) where
  abbrev pub selected : ℕ → (Option FdSet × Option FdSet × Option FdSet) × ℕ
  selected n = fds_select n i1 o1 i2 o2 i3 o3

  select-sets :
      (n x : ℕ)
      → (isset x (selected n).0.0 ≡ left_of i1 o1 n x)
        × (isset x (selected n).0.1 ≡ left_of i2 o2 n x)
        × (isset x (selected n).0.2 ≡ left_of i3 o3 n x)
  unfolding fds_select
  select-sets zero x = (ground arith, ground arith, ground arith)
  select-sets (suc s) x =
      let r = selected s in
      let ih = select-sets s x in
      let a = select_one s o1 (r.0.0, r.1) in
      let b = select_one s o2 (r.0.1, a.1) in
      (
        ground (arith, select_one-isset s x o1 r.0.0 r.1),
        ground (arith, select_one-isset s x o2 r.0.1 a.1),
        ground (arith, select_one-isset s x o3 r.0.2 b.1),
      )

  select-same :
      (s : ℕ)
      → (isset s (selected s).0.0 ≡ isset s i1)
        × (isset s (selected s).0.1 ≡ isset s i2)
        × (isset s (selected s).0.2 ≡ isset s i3)
  select-same s =
      let h = select-sets s s in
      (h.0 ∙ left_of-outside i1 o1 s, h.1 ∙ left_of-outside i2 o2 s, h.2 ∙ left_of-outside i3 o3 s)

  select-count : (n : ℕ) → (selected n).1 ≡ hits i1 i2 i3 o1 o2 o3 n
  unfolding fds_select
  select-count zero = refl
  select-count (suc s) =
      let r = selected s in
      let (p1, p2, p3) = select-same s in
      let a = select_one s o1 (r.0.0, r.1) in
      let b = select_one s o2 (r.0.1, a.1) in
      let ea = select_one-same s o1 r.0.0 i1 r.1 p1 in
      let eb = select_one-same s o2 r.0.1 i2 a.1 p2 in
      let ec = select_one-same s o3 r.0.2 i3 b.1 p3 in omega (arith, select-count s)

  -- pth_util_fds_select leaves in each of the three sets that are there the descriptors that
  -- occurred and those that are not below nfd, and returns how often a descriptor below nfd stands
  -- in a set and occurred for it, counted for each set.
  pub fds_select-exact :
      (n x : ℕ)
      → (isset x (selected n).0.0 ≡ left_of i1 o1 n x)
        × (isset x (selected n).0.1 ≡ left_of i2 o2 n x)
        × (isset x (selected n).0.2 ≡ left_of i3 o3 n x)
        × ((selected n).1 ≡ hits i1 i2 i3 o1 o2 o3 n)
  fds_select-exact n x = let h = select-sets n x in (h.0, h.1, h.2, select-count n)

  -- pth_util_fds_test holds exactly if the number that pth_util_fds_select returns for the same
  -- sets is positive.
  pub fds_test-select : (n : ℕ) → (fds_test n i1 o1 i2 o2 i3 o3 ≡ true) ↔ (0 < (selected n).1)
  fds_test-select n = rw (select-count n) (fds_test-hits i1 i2 i3 o1 o2 o3 n)
