-- ===== src/Signals/Around.antt =====
-- What the scheduler does with the signals of a thread around the switch to it.
use pth.Base.{
  ℕ, zero, suc, ◌+◌, ◌≤◌, ◌<◌, ◌≡◌, ◌≢◌, refl, ◌∙◌, ap, Bool, true, false, not, ◌&&◌, ◌||◌, List,
  [], ◌==◌, arith, ltb, leb, Ptr, has, Bool-cases, inl, inr,
}
use pth.Base.Int.{ℤ, pos, ltb_ℤ}
use pth.Manager.{SigSet, State}
use pth.Signals.{kill_loop, kills, settle_one, settle_loop, settle, nsig}
use pth.Signals.Count.{count, number, AllCounted}

abbrev within : (left sig x : ℕ) → Bool
within left sig x = leb sig x && ltb x (sig + left)

count-has :
    (left sig x : ℕ) (set : SigSet)
    → within left sig x ≡ true
    → set x ≡ true
    → count left sig set ≢ 0
unfolding count
count-has zero sig x set w h = absurd (ground arith)
count-has (suc k) sig x set w h = elim (Bool-cases (sig == x)) [
  | inl i ↦ ground arith
  | inr i ↦ ground (arith, count-has k (suc sig) x set)
]

-- Without a count no signal is pending.
none_pending :
    (t : Ptr) (x : ℕ) (s : State)
    → AllCounted s
    → within 31 1 x ≡ true
    → ltb_ℤ (pos 0) (s.sigpendcnt t) ≡ false
    → s.sigpending t x ≡ false
unfolding number
none_pending t x s h w q = elim (Bool-cases (s.sigpending t x)) [
  | inl i ↦ absurd (count-has 31 1 x (s.sigpending t) w i (zero_count (h t) q))
  | inr i ↦ i
]
  where
    zero_count : {c : ℤ} {n : ℕ} → c ≡ pos n → ltb_ℤ (pos 0) c ≡ false → n ≡ 0
    zero_count e p = grind (arith, ap (λ c. ltb_ℤ (pos 0) c) e)

kill_loop-has :
    (left sig x : ℕ) (own process : SigSet)
    → has x (kill_loop left sig own process) ≡ (within left sig x && (own x && not (process x)))
unfolding kill_loop
kill_loop-has zero sig x own process = ground arith
kill_loop-has (suc k) sig x own process = ground (arith, kill_loop-has k (suc sig) x own process)

module _ (t : Ptr) (before still : SigSet) (x : ℕ) where
  settle_loop-pending :
      (left sig : ℕ) (r : State × List ℕ)
      → (settle_loop left sig t before still r).0.sigpending t x
        ≡ (r.0.sigpending t x && (not (within left sig x) || still x))
  unfolding settle_loop settle_one
  settle_loop-pending zero sig r = ground arith
  settle_loop-pending (suc k) sig (s, gone) =
      ground (arith, settle_loop-pending k (suc sig) (settle_one t sig before still (s, gone)))

  settle_loop-gone :
      (left sig : ℕ) (r : State × List ℕ)
      → has x (settle_loop left sig t before still r).1
        ≡ ((within left sig x && (r.0.sigpending t x && (still x && not (before x)))) || has x r.1)
  unfolding settle_loop settle_one
  settle_loop-gone zero sig r = ground arith
  settle_loop-gone (suc k) sig (s, gone) =
      ground (arith, settle_loop-gone k (suc sig) (settle_one t sig before still (s, gone)))

-- If sigpendcnt of every thread is the number of its pending signals, then of the signals between
-- 1 and 31 the scheduler sends to the process before a switch exactly those that are pending for
-- the thread and not for the process; after it those stay pending for the thread that were and
-- still are pending for the process, and those of them that had not been pending for the process
-- before are taken out of it.
pub switch-pending :
    (t : Ptr) (process before still : SigSet) (s : State) (x : ℕ)
    → AllCounted s
    → 1 ≤ x
    → x < nsig
    → (has x (kills t process s) ≡ (s.sigpending t x && not (process x)))
      × ((settle t before still s).0.sigpending t x ≡ (s.sigpending t x && still x))
      × (has x (settle t before still s).1 ≡ (s.sigpending t x && (still x && not (before x))))
unfolding kills settle
switch-pending t process before still s x h lo hi =
    let w : within 31 1 x ≡ true = ground arith in
    elim (Bool-cases (ltb_ℤ (pos 0) (s.sigpendcnt t))) [
      | inl i ↦ (
        rw i (
            kill_loop-has 31 1 x (s.sigpending t) process
            ∙ ap (λ b. b && (s.sigpending t x && not (process x))) w),
        rw i (
            settle_loop-pending t before still x 31 1 (s, [])
            ∙ ap (λ b. s.sigpending t x && (not b || still x)) w),
        rw i (settle_loop-gone t before still x 31 1 (s, []) ∙ ground arith),
      )
      | inr i ↦ let e = none_pending t x s h w i in (rw (i, e) refl, rw (i, e) refl, rw (i, e) refl)
    ]
