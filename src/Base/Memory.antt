-- ===== src/Base/Memory.antt =====
-- Addresses, and one field of all structures of a kind as a function of the address.
use Prim.Native.Nat.{ℕ}
use pth.Base.Tests.{◌==◌, if◌then◌else◌}

abbrev pub Ptr : Type 0
Ptr = ℕ

abbrev pub null : Ptr
null = 0

-- `p->field = v`
abbrev pub update {ℓ} : {A : Type ℓ} → (Ptr → A) → Ptr → A → Ptr → A
update f p v q = if p == q then v else f q
