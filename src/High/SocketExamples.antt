-- ===== src/High/SocketExamples.antt =====
-- Runs of the calls on sockets and of the sleeping calls.
use pth.Base.{ℕ, ◌≡◌, ◌≢◌, refl, Bool, true, false, some, [], ◌∷◌}
use pth.Base.Int.{pos, negsuc, ◌+ℤ◌, ◌-ℤ◌}
use pth.Time
use pth.Time.{Time, time}
use pth.Util.{fd_valid}
use pth.Event.{pending, occurred, failed}
use pth.High.{blocking}
use pth.High.Connect.{
  eintr, eagain, einprogress, other, gives, refuses, returns, fails, stuck, done, accept_ev,
  connect_ev,
}
use pth.High.Accept.{accept-deaf, accept-IsRestored}
use pth.High.Sleep.{nanosleep}

abbrev every_fd : ℕ → Bool
every_fd x = true

refused_connection :
    (connect_ev every_fd
      (pos 4)
      blocking
      (refuses eintr ∷ refuses einprogress ∷ [])
      true
      false
      []
      eintr
      (some 111)).ret
    ≡ fails (other 111)
unfolding connect_ev fd_valid
refused_connection = refl

-- The rest of a sleep that has ended is negative.
slept_rest :
    (nanosleep true
      (some (pos 2, pos 500000))
      true
      (time (pos 10) (pos 0))
      (time (pos 12) (pos 700))).rest
    ≡ some (negsuc 0, pos 999800000)
unfolding nanosleep Time.add Time.sub ◌+ℤ◌ ◌-ℤ◌
slept_rest = refl

-- The extra event ends the second wait, which is without it.
accept-deaf_example :
    let run =
      accept_ev every_fd
        (pos 4)
        blocking
        (refuses eagain ∷ refuses eagain ∷ gives 9 ∷ [])
        true
        true in
    (run (occurred ∷ pending ∷ []) ≡ run (occurred ∷ []))
    × (run (pending ∷ pending ∷ []) ≡ done (fails eintr) blocking)
    × (run (failed ∷ pending ∷ []) ≡ done (fails eintr) blocking)
unfolding fd_valid
accept-deaf_example =
    accept-deaf every_fd (pos 4) (refuses eagain ∷ gives 9 ∷ []) (pending ∷ []) [] refl refl

accept-IsRestored_example :
    let r = accept_ev every_fd (pos 4) blocking (refuses eagain ∷ gives 9 ∷ []) true false [] in
    (r.ret ≢ stuck → r.mode ≡ blocking) × ((n : ℕ) → r.ret ≡ returns n → r.new_mode ≡ some blocking)
accept-IsRestored_example =
    accept-IsRestored every_fd (pos 4) (refuses eagain ∷ gives 9 ∷ []) false [] blocking (λ e. cc)
