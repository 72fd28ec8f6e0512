-- ===== src/High/Sleep.antt =====
-- `pth_nanosleep`, `pth_usleep` and `pth_sleep`, with the wait ending at the time `later`.
use pth.Base.{
  ℕ, ◌*◌, ◌+◌, ◌/◌, ◌%◌, Bool, false, ◌&&◌, ◌||◌, Option, none, some, ◌==◌, if◌then◌else◌,
}
use pth.Base.Int.{ℤ, pos, negsuc, ltb_ℤ, eqb_ℤ, pos_part}
use pth.Time
use pth.Time.{Time, time, million}

pub data Ret : Type 0 where
  slept : Ret
  efault einval enomem : Ret
  -- The seconds that `pth_sleep` returns without an event.
  left : ℕ → Ret

-- The result, the time of the event that the thread waits for, and what is stored as the rest.
pub record Slept : Type 0 where
  pub ret : Ret
  pub until : Option Time
  pub rest : Option (ℤ × ℤ)

abbrev pub at_once : Ret → Slept
at_once r = record { ret = r; until = none; rest = none }

-- `room` tells whether the event could be made, `wants` whether the rest is asked for.
unfoldable pub thousandfold : ℤ → ℤ
thousandfold (pos n) = pos (n * 1000)
thousandfold (negsuc n) = negsuc (n * 1000 + 999)

unfoldable pub sleep_until :
    (room : Bool) → (failure : Ret) → (wants : Bool) → (now later offset : Time) → Slept
unfolding thousandfold
sleep_until room failure wants now later offset =
    let until = Time.add now offset in
    let over = Time.sub until later in
    if room
    then record {
      ret = slept;
      until = some until;
      rest = if wants then some (over.tv_sec, thousandfold over.tv_usec) else none;
    }
    else at_once failure

-- The request is `none` for the null pointer.
unfoldable pub nanosleep :
    (room : Bool) → Option (ℤ × ℤ) → (wants : Bool) → (now later : Time) → Slept
unfolding sleep_until
nanosleep room none wants now later = at_once efault
nanosleep room (some (sec, nsec)) wants now later =
    if ltb_ℤ nsec (pos 0) || ltb_ℤ (pos 1000000000) nsec
    then at_once einval
    else (if eqb_ℤ sec (pos 0) && eqb_ℤ nsec (pos 0)
        then at_once slept
        else sleep_until room enomem wants now later (time sec (pos (pos_part nsec / 1000))))

unfoldable pub usleep : (room : Bool) → (usec : ℕ) → (now later : Time) → Slept
unfolding sleep_until
usleep room usec now later =
    if usec == 0
    then at_once slept
    else sleep_until room enomem false now later
        (time (pos (usec / million)) (pos (usec % million)))

unfoldable pub sleep : (room : Bool) → (sec : ℕ) → (now later : Time) → Slept
unfolding sleep_until
sleep room sec now later =
    if sec == 0
    then at_once slept
    else sleep_until room (left sec) false now later (time (pos sec) (pos 0))
