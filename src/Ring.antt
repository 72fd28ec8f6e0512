-- ===== src/Ring.antt =====
-- src/pth_ring.c, and the ring macros of src/pth_p.h. A ring is a struct in memory with a hook and a
-- count; its nodes are linked in a cycle. Memory is the link fields of all nodes and the two fields
-- of all rings, each as a function of an address, so that several rings live side by side.
pub mod Count
pub mod Insert
pub mod Beside
pub mod Remove
pub mod Search
pub mod Frame
pub mod Next
mod Examples
use pth.Base.{
  ℕ, zero, suc, ◌+◌, ◌-◌, ◌%◌, ◌≡◌, ◌≢◌, Bool, true, false, ◌&&◌, ◌||◌, Option, none, some, List,
  [], ◌∷◌, ◌==◌, if◌then◌else◌, Ptr, null, update, length, has, Distinct,
}
use pth.Cycle.{Links, Linked}

pub record Mem : Type 0 where
  pub rn_next : Ptr → Ptr
  pub rn_prev : Ptr → Ptr
  pub r_hook : Ptr → Ptr
  pub r_nodes : Ptr → ℕ

-- `unsigned int` counts modulo this.
abbrev pub uint_mod : ℕ
uint_mod = 4294967296

abbrev pub set_next : Ptr → Ptr → Mem → Mem
set_next n v m = record m { rn_next = update m.rn_next n v }

abbrev pub set_prev : Ptr → Ptr → Mem → Mem
set_prev n v m = record m { rn_prev = update m.rn_prev n v }

abbrev pub set_hook : Ptr → Ptr → Mem → Mem
set_hook r v m = record m { r_hook = update m.r_hook r v }

-- `r->r_nodes++` and `r->r_nodes--`
abbrev pub count_up : Ptr → Mem → Mem
count_up r m = record m { r_nodes = update m.r_nodes r ((m.r_nodes r + 1) % uint_mod) }

abbrev pub count_down : Ptr → Mem → Mem
count_down r m = record m { r_nodes = update m.r_nodes r ((m.r_nodes r + uint_mod - 1) % uint_mod) }

unfoldable pub init : Ptr → Mem → Mem
init r m =
    if r == null
    then m
    else record m { r_hook = update m.r_hook r null; r_nodes = update m.r_nodes r 0 }

-- `none` is the -1 for a ring that is not there.
unfoldable pub elements : Ptr → Mem → Option ℕ
elements r m = if r == null then none else some (m.r_nodes r)

unfoldable pub first : Ptr → Mem → Ptr
first r m = if r == null then null else m.r_hook r

unfoldable pub last : Ptr → Mem → Ptr
last r m = if r == null then null else (if m.r_hook r == null then null else m.rn_prev (m.r_hook r))

unfoldable pub next : Ptr → Ptr → Mem → Ptr
next r rn m =
    if r == null || rn == null
    then null
    else (if m.rn_next rn == m.r_hook r then null else m.rn_next rn)

unfoldable pub prev : Ptr → Ptr → Mem → Ptr
prev r rn m =
    if r == null || rn == null
    then null
    else (if m.rn_prev rn == m.rn_prev (m.r_hook r) then null else m.rn_prev rn)

-- `rn2->rn_prev->rn_next = rn2; rn2->rn_next->rn_prev = rn2;`
unfoldable pub close_links : Ptr → Mem → Mem
close_links rn m = let m1 = set_next (m.rn_prev rn) rn m in set_prev (m1.rn_next rn) rn m1

unfoldable pub insert_after : Ptr → Ptr → Ptr → Mem → Mem
unfolding close_links
insert_after r rn1 rn2 m =
    if r == null || rn1 == null || rn2 == null
    then m
    else (let m1 = set_prev rn2 rn1 m in
        let m2 = set_next rn2 (m1.rn_next rn1) m1 in count_up r (close_links rn2 m2))

unfoldable pub insert_before : Ptr → Ptr → Ptr → Mem → Mem
unfolding close_links
insert_before r rn1 rn2 m =
    if r == null || rn1 == null || rn2 == null
    then m
    else (let m1 = set_next rn2 rn1 m in
        let m2 = set_prev rn2 (m1.rn_prev rn1) m1 in count_up r (close_links rn2 m2))

-- The `else` branch of `pth_ring_delete`.
unfoldable pub unlink : Ptr → Ptr → Mem → Mem
unlink r rn m =
    let m1 = if m.r_hook r == rn then set_hook r (m.rn_next rn) m else m in
    let m2 = set_next (m1.rn_prev rn) (m1.rn_next rn) m1 in
    set_prev (m2.rn_next rn) (m2.rn_prev rn) m2

unfoldable pub delete : Ptr → Ptr → Mem → Mem
unfolding unlink
delete r rn m =
    if r == null || rn == null
    then m
    else (count_down r (
        if m.r_hook r == rn && (m.rn_prev rn == rn && m.rn_next rn == rn)
        then set_hook r null m
        else unlink r rn m))

-- The branch of `pth_ring_prepend` and `pth_ring_append` for an empty ring.
unfoldable pub insert_first : Ptr → Ptr → Mem → Mem
insert_first r rn m = set_prev rn rn (set_next rn rn (set_hook r rn m))

unfoldable pub prepend : Ptr → Ptr → Mem → Mem
unfolding insert_first
prepend r rn m =
    if r == null || rn == null
    then m
    else (count_up r (
        if m.r_hook r == null
        then insert_first r rn m
        else (let m1 = set_next rn (m.r_hook r) m in
            let m2 = set_prev rn (m1.rn_prev (m1.r_hook r)) m1 in
            let m3 = set_prev (m2.rn_next rn) rn m2 in
            let m4 = set_next (m3.rn_prev rn) rn m3 in set_hook r rn m4)))

unfoldable pub append : Ptr → Ptr → Mem → Mem
unfolding insert_first
append r rn m =
    if r == null || rn == null
    then m
    else (count_up r (
        if m.r_hook r == null
        then insert_first r rn m
        else (let m1 = set_next rn (m.r_hook r) m in
            let m2 = set_prev rn (m1.rn_prev (m1.r_hook r)) m1 in
            let m3 = set_prev (m2.rn_next rn) rn m2 in set_next (m3.rn_prev rn) rn m3)))

-- The macros that name `append` and `prepend` for a ring used as a set, a stack and a queue.
abbrev pub insert : Ptr → Ptr → Mem → Mem
insert = append

abbrev pub push : Ptr → Ptr → Mem → Mem
push = prepend

abbrev pub enqueue : Ptr → Ptr → Mem → Mem
enqueue = prepend

unfoldable pub pop : Ptr → Mem → Ptr × Mem
unfolding first
pop r m = let rn = first r m in if rn == null then (rn, m) else (rn, delete r rn m)

unfoldable pub dequeue : Ptr → Mem → Ptr × Mem
unfolding last
dequeue r m = let rn = last r m in if rn == null then (rn, m) else (rn, delete r rn m)

unfoldable pub favorite : Ptr → Ptr → Mem → Bool × Mem
favorite r rn m =
    if r == null
    then (false, m)
    else (if m.r_hook r == null
        then (false, m)
        else (if m.r_hook r == rn then (true, m) else (true, prepend r rn (delete r rn m))))

-- The `do` loop of `pth_ring_contains` from `rn` on; `none` if the fuel runs out.
unfoldable pub contains_loop : ℕ → Ptr → Ptr → Ptr → Mem → Option Bool
contains_loop zero r rns rn m = none
contains_loop (suc k) r rns rn m = elim (rn == rns) [
  | true ↦ some true
  | false ↦ elim (m.rn_next rn == m.r_hook r) [
    | true ↦ some false
    | false ↦ contains_loop k r rns (m.rn_next rn) m
  ]
]

-- `none` is the error EINVAL; the count of nodes is fuel enough.
pub data Contains : Type 0 where
  einval out_of_fuel : Contains
  found : Bool → Contains

unfoldable pub contains : ℕ → Ptr → Ptr → Mem → Contains
unfolding contains_loop
contains fuel r rns m =
    if r == null || rns == null
    then einval
    else (if m.r_hook r == null
        then found false
        else (elim (contains_loop fuel r rns (m.r_hook r) m) [
          | none ↦ out_of_fuel
          | some b ↦ found b
        ]))

abbrev pub links : Mem → Links
links m = record { next = m.rn_next; prev = m.rn_prev }

abbrev pub Shape : Ptr → Mem → List Ptr → Type 0
Shape r m [] = m.r_hook r ≡ null
Shape r m (x ∷ xs) = (m.r_hook r ≡ x) × Linked (links m) x xs x

-- The ring at `r` holds the nodes `xs`, from its hook on in the order of `next`.
pub record IsRing (r : Ptr) (m : Mem) (xs : List Ptr) : Type 0 where
  pub ne_null : r ≢ null
  pub count : m.r_nodes r ≡ length xs % uint_mod
  pub nodes_ne_null : has null xs ≡ false
  pub distinct : Distinct xs
  pub shape : Shape r m xs
