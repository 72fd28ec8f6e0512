-- ===== src/Event/Cycles.antt =====
-- The calls on cycles of events: `pth_event_concat`, `pth_event_isolate`, `pth_event_walk`,
-- `pth_event_free`, and the loops of `pth_wait`.
use pth.Base.{
  ℕ, zero, suc, ◌+◌, Bool, true, false, not, ◌&&◌, Option, none, some, List, [], ◌∷◌, ◌==◌,
  if◌then◌else◌, Ptr, null,
}
use pth.Event.{Status, pending, occurred, Mem, bit, set_next, set_prev, set_status, free_event}

-- The loop over the rings to be attached, behind the event `evc`.
unfoldable pub attach : (evc : Ptr) → List Ptr → Mem → Ptr × Mem
attach evc [] m = (evc, m)
attach evc (evn ∷ rings) m =
    let m1 = set_next evc evn m in attach (m1.links.prev evn) rings (set_prev evn evc m1)

unfoldable pub concat : Ptr → List Ptr → Mem → Ptr × Mem
unfolding attach
concat evf rings m =
    if evf == null
    then (null, m)
    else (let evl = m.links.next evf in
        let r = attach evf rings m in (evf, set_prev evl r.0 (set_next r.0 evl r.1)))

-- An event that is not alone is bypassed, and linked to itself.
unfoldable pub isolate : Ptr → Mem → Ptr × Mem
isolate e m =
    if e == null
    then (null, m)
    else (if (m.links.next e == e) && (m.links.prev e == e)
        then (null, m)
        else (let m1 = set_next (m.links.prev e) (m.links.next e) m in
            let m2 = set_prev (m1.links.next e) (m1.links.prev e) m1 in
            (m.links.next e, set_next e e (set_prev e e m2))))

abbrev pub is_occurred : Status → Bool
is_occurred occurred = true
is_occurred _ = false

abbrev pub is_pending : Status → Bool
is_pending pending = true
is_pending _ = false

-- One step of the walk; `none` is the error EINVAL.
unfoldable pub walk_step : ℕ → Ptr → Mem → Option Ptr
walk_step direction e m =
    if bit 1 direction
    then some (m.links.next e)
    else (if bit 2 direction then some (m.links.prev e) else none)

pub data Walked : Type 0 where
  at : Ptr → Walked
  invalid : Walked
  endless : Walked

-- The loop, which comes to `endless` when the fuel runs out.
unfoldable pub walk_loop : ℕ → ℕ → Ptr → Mem → Walked
unfolding walk_step
walk_loop zero direction e m = endless
walk_loop (suc k) direction e m = elim (walk_step direction e m) [
  | none ↦ invalid
  | some e' ↦ elim (bit 11 direction && not (is_occurred (m.ev_status e'))) [
    | true ↦ walk_loop k direction e' m
    | false ↦ at e'
  ]
]

unfoldable pub walk : ℕ → ℕ → Ptr → Mem → Walked
unfolding walk_loop
walk fuel direction e m = if e == null then invalid else walk_loop fuel direction e m

unfoldable pub free_this : Ptr → Mem → Mem
free_this e m =
    let m1 = set_next (m.links.prev e) (m.links.next e) m in
    free_event e (set_prev (m1.links.next e) (m1.links.prev e) m1)

-- The loop from `evc` on; `none` without fuel. A freed event is not read again.
unfoldable pub free_loop : ℕ → (e evc : Ptr) → Mem → Option Mem
free_loop zero e evc m = none
free_loop (suc k) e evc m =
    let evn = m.links.next evc in
    let m1 = free_event evc m in elim (evn == e) [ true ↦ some m1 | false ↦ free_loop k e evn m1 ]

-- `none` without fuel; the Boolean is the result.
unfoldable pub free : ℕ → (all : Bool) → Ptr → Mem → Option (Bool × Mem)
unfolding free_this free_loop
free fuel all e m =
    if e == null
    then some (false, m)
    else (if all
        then (elim (free_loop fuel e e m) [ none ↦ none | some m' ↦ some (true, m') ])
        else some (true, free_this e m))

-- The first loop of `pth_wait`, from `ev` on: all events are pending again.
unfoldable pub mark_loop : ℕ → (ring ev : Ptr) → Mem → Option Mem
mark_loop zero ring ev m = none
mark_loop (suc k) ring ev m =
    let m1 = set_status ev pending m in
    elim (m1.links.next ev == ring) [
      | true ↦ some m1
      | false ↦ mark_loop k ring (m1.links.next ev) m1
    ]

-- The last loop of `pth_wait`: the number of events that are not pending.
unfoldable pub count_loop : ℕ → (ring ev : Ptr) → ℕ → Mem → Option ℕ
count_loop zero ring ev n m = none
count_loop (suc k) ring ev n m =
    let n' = if not (is_pending (m.ev_status ev)) then n + 1 else n in
    elim (m.links.next ev == ring) [
      | true ↦ some n'
      | false ↦ count_loop k ring (m.links.next ev) n' m
    ]

-- What the scheduler and the other threads have done when the thread runs again: the events, whether
-- its cancellation is requested, and whether it allows it.
pub record Woken : Type 0 where
  pub mem : Mem
  pub cancelreq : Bool
  pub enabled : Bool

-- `pth_wait` gives -1 or a number, or the thread ends at its cancellation point.
pub data Waited : Type 0 where
  refused : Waited
  counted : ℕ → Waited
  exits : Waited

-- What follows the wait: the cancellation point, and the count.
unfoldable pub after_wait : ℕ → Ptr → Woken → Option (Waited × Mem)
unfolding count_loop
after_wait fuel ring k =
    if k.cancelreq && k.enabled
    then some (exits, k.mem)
    else (elim (count_loop fuel ring ring 0 k.mem) [
      | none ↦ none
      | some n ↦ some (counted n, k.mem)
    ])

-- `pth_wait`; `none` without fuel.
unfoldable pub wait : ℕ → (others : Mem → Woken) → Ptr → Mem → Option (Waited × Mem)
unfolding mark_loop after_wait
wait fuel others ring m =
    if ring == null then some (refused, m) else (elim (mark_loop fuel ring ring m) [
      | none ↦ none
      | some m1 ↦ after_wait fuel ring (others m1)
    ])
