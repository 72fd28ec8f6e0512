-- ===== src/Clean/Order.antt =====
-- `pth_cleanup_popall`: the order in which handlers run.
use pth.Base.{◌≡◌, Bool, List, [], ◌∷◌, Ptr}
use pth.Clean.{Handler, State, set_cleanups, run_handler}

module _ {ℓ} {W : Type ℓ} (call : Handler → State W → State W) where
  -- The handlers run in the order of the list, each when those before it have been taken off.
  abbrev pub run_all : Ptr → (execute : Bool) → List Handler → State W → State W
  run_all t execute [] s = s
  run_all t execute (h ∷ hs) s =
      run_all t execute hs (run_handler call execute h (set_cleanups t hs s))

  -- A handler neither pushes nor pops handlers.
  abbrev pub KeepsHandlers : Type ℓ
  KeepsHandlers = (h : Handler) (s : State W) → (call h s).cleanups ≡ s.cleanups
