-- ===== src/Time/Examples.antt =====
-- The laws of time values at concrete ones.
use pth.Base.{◌≡◌, arith}
use pth.Base.Int.{pos}
use pth.Time.{time, add, sub, IsNormal}
use pth.Time.Laws.{sub-add, sub-IsNormal}

early : IsNormal (time (pos 1) (pos 600000))
early = record { nonneg = omega arith; small = omega arith }

late : IsNormal (time (pos 2) (pos 700000))
late = record { nonneg = omega arith; small = omega arith }

sub-add_example :
    sub (add (time (pos 1) (pos 600000)) (time (pos 2) (pos 700000))) (time (pos 2) (pos 700000))
    ≡ time (pos 1) (pos 600000)
sub-add_example = sub-add (time (pos 1) (pos 600000)) (time (pos 2) (pos 700000)) early late

sub-IsNormal_example : IsNormal (sub (time (pos 2) (pos 700000)) (time (pos 1) (pos 600000)))
sub-IsNormal_example =
    sub-IsNormal (time (pos 2) (pos 700000)) (time (pos 1) (pos 600000)) late early
