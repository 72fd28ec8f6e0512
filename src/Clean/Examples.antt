-- ===== src/Clean/Examples.antt =====
-- The order of handlers for two handlers that write their arguments to a list.
use pth.Base.{◌≡◌, refl, true, List, [], ◌∷◌, Ptr, update}
use pth.Clean.{Handler, State}
use pth.Clean.Order.{run_all}

abbrev writes : Handler → State (List Ptr) → State (List Ptr)
writes h s = record s { rest = h.arg ∷ s.rest }

abbrev handlers : List Handler
handlers = record { func = 1; arg = 11 } ∷ record { func = 2; arg = 22 } ∷ []

abbrev two_handlers : State (List Ptr)
two_handlers = record { current = 10; cleanups = update (λ _. []) 10 handlers; rest = [] }

-- The handler pushed last has run first.
run_all_test : (run_all writes 10 true handlers two_handlers).rest ≡ 22 ∷ 11 ∷ []
run_all_test = refl
