-- ===== src/Clean.antt =====
-- src/pth_clean.c: the stack of cleanup handlers that each thread has. A handler is code of the
-- application: a function of the state, which may push handlers itself. `W` is what else the handlers
-- act on.
pub mod Order
mod Examples
use pth.Base.{
  ℕ, zero, suc, Bool, true, false, Option, none, some, List, [], ◌∷◌, ◌==◌, if◌then◌else◌, Ptr,
  null, update,
}

pub record Handler : Type 0 where
  pub func : Ptr
  pub arg : Ptr

pub record State {ℓ} (W : Type ℓ) : Type ℓ where
  pub current : Ptr
  pub cleanups : Ptr → List Handler
  pub rest : W

abbrev pub set_cleanups {ℓ} : {W : Type ℓ} → Ptr → List Handler → State W → State W
set_cleanups t hs s = record s { cleanups = update s.cleanups t hs }

pub data Pushed : Type 0 where
  pushed einval enomem : Pushed

-- `room` tells whether `malloc` finds memory for the handler.
unfoldable pub push {ℓ} :
    {W : Type ℓ} → (room : Bool) → (func arg : Ptr) → State W → Pushed × State W
push room func arg s =
    if func == null
    then (einval, s)
    else (if room
        then (
          pushed,
          set_cleanups s.current (record { func = func; arg = arg } ∷ s.cleanups s.current) s,
        )
        else (enomem, s))

module _ {ℓ} {W : Type ℓ} (call : Handler → State W → State W) where
  abbrev pub run_handler : (execute : Bool) → Handler → State W → State W
  run_handler execute h s = if execute then call h s else s

  unfoldable pub pop : (execute : Bool) → State W → Bool × State W
  pop execute s = elim (s.cleanups s.current) [
    | [] ↦ (false, s)
    | h ∷ hs ↦ (true, run_handler execute h (set_cleanups s.current hs s))
  ]

  -- The `while` loop; `none` without fuel.
  unfoldable pub popall : ℕ → Ptr → (execute : Bool) → State W → Option (State W)
  popall zero t execute s = none
  popall (suc k) t execute s = elim (s.cleanups t) [
    | [] ↦ some s
    | h ∷ hs ↦ popall k t execute (run_handler execute h (set_cleanups t hs s))
  ]
