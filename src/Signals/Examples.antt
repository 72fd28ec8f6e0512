-- ===== src/Signals/Examples.antt =====
-- Runs with signals: thread 2 waits for a condition variable, 3 runs, and signals 10 and 12 are raised.
use pth.Base.{
  ℕ, ◌≡◌, refl, Bool, false, not, ◌&&◌, Option, none, some, [], ◌∷◌, ◌==◌, arith, has, ltb,
  if◌then◌else◌,
}
use pth.Base.Int.{pos, ◌+ℤ◌}
use pth.Manager.{State, SigSet, sigadd}
use pth.Manager.Examples.{signaled_once, quiet}
use pth.Manager.Round.{round}
use pth.Signals.{raise, note, kills, settle, nsig}
use pth.Signals.Count.{AllCounted, number, count}
use pth.Signals.Runs.{raises, passes, returns, Steps, stop, step, Steps-AllCounted}
use pth.Signals.Around.{switch-pending}

-- Signals 1 to 31 have their default action, except for 5, which is ignored.
abbrev actions : ℕ → Option Bool
actions n = if ltb n nsig then some (n == 5) else none

abbrev no_signals : SigSet
no_signals n = false

signaled_once-AllCounted : AllCounted signaled_once
unfolding number count
signaled_once-AllCounted u = refl

abbrev two_raised : State
two_raised =
    (raise actions 2 (pos 12)
      (raise actions 2 (pos 10) (raise actions 2 (pos 10) signaled_once).1).1).1

raised_twice : two_raised.sigpendcnt 2 ≡ pos 2
unfolding raise note ◌+ℤ◌
raised_twice = refl

killed : kills 2 (sigadd 12 no_signals) two_raised ≡ 10 ∷ []
unfolding kills raise note ◌+ℤ◌
killed = refl

abbrev after_all : State
after_all = (settle 2 no_signals (sigadd 12 no_signals) (round 7 false quiet two_raised).1).0

two_raised-Steps : Steps signaled_once two_raised
two_raised-Steps =
    step (raises actions 2 (pos 10) refl)
      (step (raises actions 2 (pos 10) refl) (step (raises actions 2 (pos 12) refl) stop))

Steps-AllCounted_example : AllCounted after_all
Steps-AllCounted_example =
    Steps-AllCounted
      (step (raises actions 2 (pos 10) refl) (
        step (raises actions 2 (pos 10) refl) (
          step (raises actions 2 (pos 12) refl) (
            step (passes 7 false quiet)
              (step (returns 2 no_signals (sigadd 12 no_signals)) stop)))))
      signaled_once-AllCounted

switch-pending_example :
    (has 10 (kills 2 no_signals two_raised) ≡ (two_raised.sigpending 2 10 && not (no_signals 10)))
    × ((settle 2 no_signals (sigadd 12 no_signals) two_raised).0.sigpending 2 10
        ≡ (two_raised.sigpending 2 10 && sigadd 12 no_signals 10))
    × (has 10 (settle 2 no_signals (sigadd 12 no_signals) two_raised).1
        ≡ (two_raised.sigpending 2 10 && (sigadd 12 no_signals 10 && not (no_signals 10))))
switch-pending_example =
    switch-pending 2 no_signals no_signals (sigadd 12 no_signals) two_raised 10
      (Steps-AllCounted two_raised-Steps signaled_once-AllCounted) (omega arith) (omega arith)
