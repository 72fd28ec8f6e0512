-- ===== src/Time/Laws.antt =====
-- What the sum, the difference and the comparison of time values are.
use pth.Base.{◌≡◌, ◌≢◌, ◌∙◌, ap, arith, if_intro, ◌||◌, ◌&&◌}
use pth.Base.Int.{ℤ, pos, negsuc, ◌+ℤ◌, ◌-ℤ◌, ◌≤ℤ◌, ◌<ℤ◌, ltb_ℤ, eqb_ℤ, int_laws}
use pth.Time.{Time, time, million, to_int, cmp, add, sub, IsNormal}

Time-eq : (sec usec : ℤ) (a : Time) → sec ≡ a.tv_sec → usec ≡ a.tv_usec → time sec usec ≡ a
Time-eq sec usec a p q = λ i. record { tv_sec = p i; tv_usec = q i }

-- For times with microseconds below a million, adding a time and taking it away again gives the
-- time back.
pub sub-add : (a b : Time) → IsNormal a → IsNormal b → sub (add a b) b ≡ a
unfolding sub add
sub-add a b ha hb =
    let sec = a.tv_sec +ℤ b.tv_sec in
    let usec = a.tv_usec +ℤ b.tv_usec in
    let P = λ (t : Time). t ≡ a in
    if_intro (λ (t : Time). sub t b ≡ a) (ltb_ℤ (pos million) usec)
      (λ i.
        if_intro P (ltb_ℤ (usec -ℤ pos million -ℤ b.tv_usec) (pos 0))
          (λ j. Time-eq _ _ a (omega int_laws) (omega int_laws)) (λ j. absurd (grind int_laws)))
      (λ i.
        if_intro P (ltb_ℤ (usec -ℤ b.tv_usec) (pos 0)) (λ j. absurd (grind int_laws))
          (λ j. Time-eq _ _ a (omega int_laws) (omega int_laws)))

-- The sum of times with microseconds below a million is such a time, unless the microseconds add
-- up to exactly a million.
pub add-IsNormal :
    (a b : Time)
    → IsNormal a
    → IsNormal b
    → a.tv_usec +ℤ b.tv_usec ≢ pos million
    → IsNormal (add a b)
unfolding add
add-IsNormal a b ha hb ne = record { nonneg = grind int_laws; small = grind int_laws }

-- If the microseconds add up to exactly a million, the sum has a million of microseconds and
-- nothing is carried.
pub add-million :
    (a b : Time) → a.tv_usec +ℤ b.tv_usec ≡ pos million → (add a b).tv_usec ≡ pos million
unfolding add
add-million a b e = grind int_laws

-- A difference of normal times is normal.
pub sub-IsNormal : (a b : Time) → IsNormal a → IsNormal b → IsNormal (sub a b)
unfolding sub
sub-IsNormal a b ha hb = record { nonneg = grind int_laws; small = grind int_laws }

-- An integer of 32 bits is not cut.
to_int-small : (d : ℤ) → negsuc 2147483647 ≤ℤ d → d <ℤ pos 2147483648 → to_int d ≡ d
unfolding to_int
to_int-small (pos n) lo hi = ground arith
to_int-small (negsuc n) lo hi = ground arith

-- A difference that an `int` can hold.
abbrev pub FitsInt : ℤ → Type 0
FitsInt d = (negsuc 2147483647 ≤ℤ d) × (d <ℤ pos 2147483648)

-- As long as the differences of seconds and of microseconds fit an int, the result of pth_time_cmp
-- is negative exactly if the first time is earlier, seconds counting first.
pub cmp-order :
    (a b : Time)
    → FitsInt (a.tv_sec -ℤ b.tv_sec)
    → FitsInt (a.tv_usec -ℤ b.tv_usec)
    → ltb_ℤ (cmp a b) (pos 0)
      ≡ (ltb_ℤ a.tv_sec b.tv_sec || (eqb_ℤ a.tv_sec b.tv_sec && ltb_ℤ a.tv_usec b.tv_usec))
unfolding cmp
cmp-order a b fs fu =
    rw
      (
        cmp,
        to_int-small (a.tv_sec -ℤ b.tv_sec) fs.0 fs.1,
        to_int-small (a.tv_usec -ℤ b.tv_usec) fu.0 fu.1,
      )
      (grind int_laws)

-- If the seconds of two times differ by 2 ^ 32, pth_time_cmp returns the difference of their
-- microseconds.
pub cmp-wraps :
    (a b : Time)
    → a.tv_sec ≡ b.tv_sec +ℤ pos 4294967296
    → FitsInt (a.tv_usec -ℤ b.tv_usec)
    → cmp a b ≡ a.tv_usec -ℤ b.tv_usec
unfolding cmp to_int
cmp-wraps a b e fu =
    let d : a.tv_sec -ℤ b.tv_sec ≡ pos 4294967296 = ap (λ x. x -ℤ b.tv_sec) e ∙ omega int_laws in
    rw (cmp, d) (to_int-small (a.tv_usec -ℤ b.tv_usec) fu.0 fu.1)
