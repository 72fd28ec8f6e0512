-- ===== src/High/Timeouts.antt =====
-- `pth_select_ev`: when it waits, and what a timeout does.
use pth.Base.{◌≡◌, refl, ◌≢◌, Bool, true, false, some, arith, Bool-cases, inl, inr}
use pth.Base.Int.{ℤ, pos, ◌-ℤ◌, ltb_ℤ, eqb_ℤ}
use pth.Time
use pth.Time.{Time, time}
use pth.Event.{Status, pending, occurred, failed}
use pth.High.Select.{
  returns, Sets, all_zeroed, polled, Waited, bad_timeout, cut_timeout, after_wait, select_polled,
  select_valid, select_ev, fd_setsize, is_failed,
}

-- A timeout of zero never waits.
pub select-immediate :
    (nfd : ℤ) (extra : Bool) (rc : ℤ) (left : Sets) (w : Waited) (f : Sets)
    → ltb_ℤ fd_setsize nfd ≡ false
    → eqb_ℤ nfd (pos 0) ≡ false
    → select_ev nfd (some (time (pos 0) (pos 0))) extra (polled rc left) w f ≡ (returns rc, left)
unfolding select_ev bad_timeout cut_timeout select_valid select_polled Time.cmp Time.to_int ◌-ℤ◌
select-immediate nfd extra rc left w f small some_fds = ground (arith, small, some_fds)

-- After a wait the timeout wins over descriptors that are ready.
pub after_wait-timeout :
    (extra : Bool) (w : Waited)
    → w.timer ≡ occurred
    → w.select ≢ failed
    → after_wait true extra w ≡ (returns (pos 0), all_zeroed w.sets)
unfolding after_wait
after_wait-timeout extra w t n = elim (Bool-cases (is_failed w.select)) [
  | inl q ↦ absurd (n (failed_of w.select q))
  | inr q ↦ rw (q, t) refl
]
  where
    failed_of : (s : Status) → is_failed s ≡ true → s ≡ failed
    failed_of pending q = absurd (cc)
    failed_of occurred q = absurd (cc)
    failed_of failed q = refl
