-- ===== src/High/Select.antt =====
-- `pth_select_ev`.
use pth.Base.{ℕ, Bool, true, false, not, ◌&&◌, ◌||◌, Option, none, some, if◌then◌else◌}
use pth.Base.Int.{ℤ, pos, ltb_ℤ, leb_ℤ, eqb_ℤ}
use pth.Time
use pth.Time.{Time, time, million}
use pth.Util.{FdSet}
use pth.Event.{Status, occurred, failed}

pub data Errno : Type 0 where
  eintr ebadf einval : Errno
  other : ℕ → Errno

pub data Ret : Type 0 where
  returns : ℤ → Ret
  fails : Errno → Ret

-- The sets of the caller, `none` for the null pointer.
pub record Sets : Type 0 where
  pub rfds : Option FdSet
  pub wfds : Option FdSet
  pub efds : Option FdSet

abbrev pub zeroed : Option FdSet → Option FdSet
zeroed none = none
zeroed (some f) = some (λ x. false)

abbrev pub all_zeroed : Sets → Sets
all_zeroed f = record { rfds = zeroed f.rfds; wfds = zeroed f.wfds; efds = zeroed f.efds }

-- FD_SETSIZE
abbrev pub fd_setsize : ℤ
fd_setsize = pos 1024

-- What the poll gives: an error, or a number of descriptors and the sets that are left.
pub data Polled : Type 0 where
  poll_error : Errno → Polled
  polled : ℤ → Sets → Polled

-- How the wait ends: the states of the events of the descriptors and of the timeout, and the number and
-- the sets that the scheduler has stored for the first.
pub record Waited : Type 0 where
  pub select : Status
  pub timer : Status
  pub stored : ℤ
  pub sets : Sets

-- 31 days
abbrev pub max_timeout : ℤ
max_timeout = pos 2678400

unfoldable pub bad_timeout : Option Time → Bool
bad_timeout none = false
bad_timeout (some t) =
    ltb_ℤ t.tv_sec (pos 0) || (ltb_ℤ t.tv_usec (pos 0) || leb_ℤ (pos million) t.tv_usec)

unfoldable pub cut_timeout : Option Time → Option Time
cut_timeout none = none
cut_timeout (some t) =
    if ltb_ℤ max_timeout t.tv_sec then some (time max_timeout t.tv_usec) else some t

abbrev pub is_occurred : Status → Bool
is_occurred occurred = true
is_occurred s = false

abbrev pub is_failed : Status → Bool
is_failed failed = true
is_failed s = false

-- The sleep without descriptors; a short one is left to the system, a long one can be ended by an extra
-- event.
unfoldable pub plain_delay : Time → (extra : Bool) → Waited → Sets → Ret × Sets
plain_delay t extra w f =
    if eqb_ℤ t.tv_sec (pos 0) && leb_ℤ t.tv_usec (pos 10000)
    then (returns (pos 0), all_zeroed f)
    else (if extra && not (is_occurred w.timer)
        then (fails eintr, f)
        else (returns (pos 0), all_zeroed f))

-- What the end of the wait means.
unfoldable pub after_wait : (timeout extra : Bool) → Waited → Ret × Sets
after_wait timeout extra w =
    if is_failed w.select
    then (fails ebadf, w.sets)
    else (if timeout && is_occurred w.timer
        then (returns (pos 0), all_zeroed w.sets)
        else (if extra && not (is_occurred w.select)
            then (fails eintr, w.sets)
            else (returns w.stored, w.sets)))

abbrev pub is_some : Option Time → Bool
is_some none = false
is_some (some t) = true

abbrev pub is_none : Option FdSet → Bool
is_none none = true
is_none (some f) = false

-- The poll comes first: what it finds at once is passed on, and with a timeout of zero also that it
-- finds nothing.
unfoldable pub select_polled : Option Time → (extra : Bool) → Polled → Waited → Sets → Ret × Sets
unfolding after_wait
select_polled timeout extra (poll_error e) w f = (fails e, f)
select_polled timeout extra (polled rc left) w f =
    if ltb_ℤ (pos 0) rc || (elim timeout [
      | none ↦ false
      | some t ↦ eqb_ℤ (Time.cmp t (time (pos 0) (pos 0))) (pos 0)
    ])
    then (returns rc, left)
    else after_wait (is_some timeout) extra w

unfoldable pub select_valid :
    (nfd : ℤ) → Option Time → (extra : Bool) → Polled → Waited → Sets → Ret × Sets
unfolding plain_delay select_polled
select_valid nfd none extra p w f = select_polled none extra p w f
select_valid nfd (some t) extra p w f =
    if eqb_ℤ nfd (pos 0) && (is_none f.rfds && (is_none f.wfds && is_none f.efds))
    then plain_delay t extra w f
    else select_polled (some t) extra p w f

unfoldable pub select_ev :
    (nfd : ℤ) → Option Time → (extra : Bool) → Polled → Waited → Sets → Ret × Sets
unfolding bad_timeout cut_timeout select_valid
select_ev nfd timeout extra p w f =
    if ltb_ℤ fd_setsize nfd || bad_timeout timeout
    then (fails einval, f)
    else select_valid nfd (cut_timeout timeout) extra p w f
