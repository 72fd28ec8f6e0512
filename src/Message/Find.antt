-- ===== src/Message/Find.antt =====
-- `pth_msgport_find`: the search for a port by its name.
use pth.Base.{ℕ, List, [], ◌∷◌, Ptr, null, if◌then◌else◌}
use pth.Ring
use pth.Message.{State, is_named}

-- The first of the ports that has the name.
abbrev pub first_named : List ℕ → State → List Ptr → Ptr
first_named name s [] = null
first_named name s (x ∷ xs) = if is_named name x s then x else first_named name s xs
