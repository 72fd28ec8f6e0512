-- ===== src/Message.antt =====
-- src/pth_msg.c: message ports. A port is a node of the ring of all ports and, at the same address,
-- the ring of the messages that are pending on it. A name is the list of its characters.
pub mod Find
pub mod Fifo
mod Examples
use pth.Base.{
  ℕ, zero, suc, Bool, true, false, ◌&&◌, Option, none, some, List, [], ◌∷◌, ◌==◌, if◌then◌else◌,
  Ptr, null, update,
}
use pth.Ring

pub record State : Type 0 where
  pub current : Ptr
  pub rings : Ring.Mem
  pub all_ports : Ptr
  pub mp_name : Ptr → Option (List ℕ)
  pub mp_tid : Ptr → Ptr
  pub m_replyport : Ptr → Ptr
  pub freed : List Ptr

-- `strcmp` finds no difference.
abbrev pub same_name : List ℕ → List ℕ → Bool
same_name [] [] = true
same_name (a ∷ as1) (b ∷ bs) = (a == b) && same_name as1 bs
same_name _ _ = false

-- `mp` is what `malloc` gives, which may be null.
unfoldable pub create : Ptr → Option (List ℕ) → State → Ptr × State
create mp name s = if mp == null then (null, s) else (
  mp,
  record s {
    mp_name = update s.mp_name mp name;
    mp_tid = update s.mp_tid mp s.current;
    rings = Ring.append s.all_ports mp (Ring.init mp s.rings);
  },
)

-- `none` is the error EINVAL.
unfoldable pub pending : Ptr → State → Option ℕ
pending mp s = if mp == null then none else Ring.elements mp s.rings

unfoldable pub put : Ptr → Ptr → State → Bool × State
put mp m s =
    if mp == null then (false, s) else (true, record s { rings = Ring.append mp m s.rings })

unfoldable pub get : Ptr → State → Ptr × State
get mp s =
    if mp == null
    then (null, s)
    else (let r = Ring.pop mp s.rings in (r.0, record s { rings = r.1 }))

unfoldable pub reply : Ptr → State → Bool × State
unfolding put
reply m s = if m == null then (false, s) else put (s.m_replyport m) m s

-- The loop of `pth_msgport_destroy`; `none` without fuel.
unfoldable pub reply_all : ℕ → Ptr → State → Option State
unfolding get reply
reply_all zero mp s = none
reply_all (suc k) mp s =
    let r = get mp s in
    elim (r.0 == null) [ true ↦ some r.1 | false ↦ reply_all k mp (reply r.0 r.1).1 ]

unfoldable pub destroy : ℕ → Ptr → State → Option State
unfolding reply_all
destroy fuel mp s = if mp == null then some s else (elim (reply_all fuel mp s) [
  | none ↦ none
  | some s' ↦
      some (record s' { rings = Ring.delete s'.all_ports mp s'.rings; freed = mp ∷ s'.freed })
])

-- A port that has a name and the name that is looked for.
unfoldable pub is_named : List ℕ → Ptr → State → Bool
is_named name mp s = elim (s.mp_name mp) [ none ↦ false | some n ↦ same_name n name ]

-- The loop of `pth_msgport_find` from the port `mp` on, `mpf` being the first; `none` without fuel.
unfoldable pub find_loop : ℕ → List ℕ → (mpf mp : Ptr) → State → Option Ptr
unfolding is_named
find_loop zero name mpf mp s = none
find_loop (suc k) name mpf mp s = elim (mp == null) [
  | true ↦ some null
  | false ↦ elim (is_named name mp s) [
    | true ↦ some mp
    | false ↦
        let next = Ring.next s.all_ports mp s.rings in
        elim (next == mpf) [ true ↦ some null | false ↦ find_loop k name mpf next s ]
  ]
]

-- The name is a list of characters, or null.
unfoldable pub find : ℕ → Option (List ℕ) → State → Option Ptr
unfolding find_loop
find fuel none s = some null
find fuel (some name) s =
    find_loop fuel name (Ring.first s.all_ports s.rings) (Ring.first s.all_ports s.rings) s
