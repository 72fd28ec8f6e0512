-- ===== src/Pqueue.antt =====
-- src/pth_pqueue.c: thread priority queues. The threads of a queue are linked in a cycle from the
-- head on. The head stores its priority, every other thread the difference to the one before it.
-- Memory is the queue fields of all threads and the two fields of all queues. An `int` is an
-- integer: priorities are a few units, so that the differences do not leave the range of `int`.
pub mod Spec
pub mod Stored
pub mod Loop
pub mod Count
pub mod Follow
pub mod Insert
pub mod Remove
pub mod Order
pub mod Refine
pub mod Search
pub mod Runs
mod Examples
use pth.Base.{
  ℕ, zero, suc, ◌≡◌, ◌≢◌, Bool, true, false, not, ◌&&◌, ◌||◌, Option, none, some, List, [], ◌∷◌,
  ◌==◌, if◌then◌else◌, Ptr, null, update, length, has, Distinct,
}
use pth.Base.Int.{ℤ, pos, negsuc, ◌+ℤ◌, ◌-ℤ◌, ltb_ℤ, leb_ℤ, eqb_ℤ, pos_part}
use Spec.{Entry, threads}
use pth.Cycle.{Links, Cyclic}

pub record Mem : Type 0 where
  pub q_next : Ptr → Ptr
  pub q_prev : Ptr → Ptr
  pub q_prio : Ptr → ℤ
  pub q_head : Ptr → Ptr
  pub q_num : Ptr → ℤ

abbrev pub prio_max : ℤ
prio_max = pos 5

abbrev pub prio_std : ℤ
prio_std = pos 0

abbrev pub prio_min : ℤ
prio_min = negsuc 4

abbrev pub set_next : Ptr → Ptr → Mem → Mem
set_next t v m = record m { q_next = update m.q_next t v }

abbrev pub set_prev : Ptr → Ptr → Mem → Mem
set_prev t v m = record m { q_prev = update m.q_prev t v }

abbrev pub set_prio : Ptr → ℤ → Mem → Mem
set_prio t v m = record m { q_prio = update m.q_prio t v }

abbrev pub set_head : Ptr → Ptr → Mem → Mem
set_head q v m = record m { q_head = update m.q_head q v }

abbrev pub set_num : Ptr → ℤ → Mem → Mem
set_num q v m = record m { q_num = update m.q_num q v }

unfoldable pub init : Ptr → Mem → Mem
init q m = if q == null then m else set_num q (pos 0) (set_head q null m)

-- `t->q_prev->q_next = t; t->q_next->q_prev = t;`
unfoldable pub close_links : Ptr → Mem → Mem
close_links t m = let m1 = set_next (m.q_prev t) t m in set_prev (m1.q_next t) t m1

-- "add as first element"
unfoldable pub insert_first : Ptr → ℤ → Ptr → Mem → Mem
insert_first q prio t m = set_head q t (set_prio t prio (set_next t t (set_prev t t m)))

-- "add as new head of queue"
unfoldable pub insert_head : Ptr → ℤ → Ptr → Mem → Mem
unfolding close_links
insert_head q prio t m =
    let m1 = set_prev t (m.q_prev (m.q_head q)) m in
    let m2 = set_next t (m1.q_head q) m1 in
    let m3 = set_prio t prio (close_links t m2) in
    let m4 = set_prio (m3.q_next t) (prio -ℤ m3.q_prio (m3.q_next t)) m3 in set_head q t m4

-- The loop of `pth_pqueue_insert` over the thread `c` and its priority `p`; `none` without fuel.
unfoldable pub insert_loop : ℕ → Ptr → ℤ → Ptr → ℤ → Mem → Option (Ptr × ℤ)
insert_loop zero q prio c p m = none
insert_loop (suc k) q prio c p m =
    elim (leb_ℤ prio (p -ℤ m.q_prio (m.q_next c)) && not (m.q_next c == m.q_head q)) [
      | true ↦ insert_loop k q prio (m.q_next c) (p -ℤ m.q_prio (m.q_next c)) m
      | false ↦ some (c, p)
    ]

-- "insert after elements with greater or equal priority", once the loop has ended at `c`
unfoldable pub insert_behind : Ptr → ℤ → Ptr → ℤ → Ptr → Mem → Mem
unfolding close_links
insert_behind q prio c p t m =
    let m1 = set_prev t c m in
    let m2 = set_next t (m1.q_next c) m1 in
    let m3 = set_prio t (p -ℤ prio) (close_links t m2) in
    if m3.q_next t == m3.q_head q
    then m3
    else set_prio (m3.q_next t) (m3.q_prio (m3.q_next t) -ℤ m3.q_prio t) m3

unfoldable pub num_up : Ptr → Mem → Mem
num_up q m = set_num q (m.q_num q +ℤ pos 1) m

-- The count of the queue is the fuel of the loop; `none` if it does not suffice.
unfoldable pub insert : Ptr → ℤ → Ptr → Mem → Option Mem
unfolding num_up
insert q prio t m =
    if q == null
    then some m
    else (if m.q_head q == null || eqb_ℤ (m.q_num q) (pos 0)
        then some (num_up q (insert_first q prio t m))
        else (if ltb_ℤ (m.q_prio (m.q_head q)) prio
            then some (num_up q (insert_head q prio t m))
            else (elim (insert_loop (pos_part (m.q_num q)) q prio (m.q_head q)
                (m.q_prio (m.q_head q)) m) [
                  | none ↦ none
                  | some (c, p) ↦ some (num_up q (insert_behind q prio c p t m))
                ])))

-- "remove the last element and make queue empty"
unfoldable pub remove_only : Ptr → Ptr → Mem → Mem
remove_only q t m =
    set_num q (pos 0) (set_head q null (set_prio t (pos 0) (set_prev t null (set_next t null m))))

-- `t->q_prev->q_next = t->q_next; t->q_next->q_prev = t->q_prev;`
unfoldable pub bypass : Ptr → Mem → Mem
bypass t m =
    let m1 = set_next (m.q_prev t) (m.q_next t) m in set_prev (m1.q_next t) (m1.q_prev t) m1

-- "remove head of queue"
unfoldable pub remove_head : Ptr → Ptr → Mem → Mem
unfolding bypass
remove_head q t m =
    let m1 = bypass t m in
    let m2 = set_prio (m1.q_next t) (m1.q_prio t -ℤ m1.q_prio (m1.q_next t)) m1 in
    let m3 = set_head q (m2.q_next t) (set_prio t (pos 0) m2) in set_num q (m3.q_num q -ℤ pos 1) m3

unfoldable pub delmax : Ptr → Mem → Ptr × Mem
delmax q m =
    if q == null
    then (null, m)
    else (if m.q_head q == null
        then (null, m)
        else (if m.q_next (m.q_head q) == m.q_head q
            then (m.q_head q, remove_only q (m.q_head q) m)
            else (m.q_head q, remove_head q (m.q_head q) m)))

-- The last branch of `pth_pqueue_delete`, for a thread behind the head.
unfoldable pub remove_inner : Ptr → Ptr → Mem → Mem
unfolding bypass
remove_inner q t m =
    let m1 = bypass t m in
    let m2 =
      if m1.q_next t == m1.q_head q
      then m1
      else set_prio (m1.q_next t) (m1.q_prio (m1.q_next t) +ℤ m1.q_prio t) m1 in
    let m3 = set_prio t (pos 0) m2 in set_num q (m3.q_num q -ℤ pos 1) m3

unfoldable pub delete : Ptr → Ptr → Mem → Mem
delete q t m =
    if q == null
    then m
    else (if m.q_head q == null
        then m
        else (if m.q_head q == t
            then (if m.q_next t == t then remove_only q t m else remove_head q t m)
            else remove_inner q t m))

unfoldable pub favorite_prio : Ptr → Mem → ℤ
favorite_prio q m = if m.q_head q == null then prio_max else m.q_prio (m.q_head q) +ℤ pos 1

unfoldable pub favorite : Ptr → Ptr → Mem → Option (Bool × Mem)
unfolding favorite_prio
favorite q t m =
    if q == null
    then some (false, m)
    else (if m.q_head q == null || eqb_ℤ (m.q_num q) (pos 0)
        then some (false, m)
        else (if eqb_ℤ (m.q_num q) (pos 1)
            then some (true, m)
            else (let m1 = delete q t m in
                elim (insert q (favorite_prio q m1) t m1) [
                  | none ↦ none
                  | some m2 ↦ some (true, m2)
                ])))

unfoldable pub increase : Ptr → Mem → Mem
increase q m =
    if q == null
    then m
    else (if m.q_head q == null
        then m
        else set_prio (m.q_head q) (m.q_prio (m.q_head q) +ℤ pos 1) m)

unfoldable pub elements : Ptr → Mem → ℤ
elements q m = if q == null then negsuc 0 else m.q_num q

unfoldable pub head : Ptr → Mem → Ptr
head q m = if q == null then null else m.q_head q

unfoldable pub tail : Ptr → Mem → Ptr
tail q m = if q == null then null else (if m.q_head q == null then null else m.q_prev (m.q_head q))

pub data Direction : Type 0 where
  walk_next walk_prev : Direction

unfoldable pub walk : Ptr → Ptr → Direction → Mem → Ptr
walk q t walk_prev m =
    if q == null || t == null then null else (if t == m.q_head q then null else m.q_prev t)
walk q t walk_next m =
    if q == null || t == null then null else (if m.q_next t == m.q_head q then null else m.q_next t)

-- The `for` loop of `pth_pqueue_contains` from the thread `tc` on; `none` without fuel.
unfoldable pub contains_loop : ℕ → Ptr → Ptr → Ptr → Mem → Option Bool
unfolding walk
contains_loop zero q t tc m = none
contains_loop (suc k) q t tc m = elim (tc == null) [
  | true ↦ some false
  | false ↦ elim (tc == t) [
    | true ↦ some true
    | false ↦ contains_loop k q t (walk q tc walk_next m) m
  ]
]

unfoldable pub contains : ℕ → Ptr → Ptr → Mem → Option Bool
unfolding contains_loop head
contains fuel q t m = contains_loop fuel q t (head q m) m

abbrev pub links : Mem → Links
links m = record { next = m.q_next; prev = m.q_prev }

-- The stored priorities of the entries behind one of priority `p`.
abbrev pub Deltas : (Ptr → ℤ) → ℤ → List Entry → Type 0
Deltas f p [] = Unit {0}
Deltas f p (e ∷ xs) = (f e.0 ≡ p -ℤ e.1) × Deltas f e.1 xs

abbrev pub Stored : (Ptr → ℤ) → List Entry → Type 0
Stored f [] = Unit {0}
Stored f (e ∷ xs) = (f e.0 ≡ e.1) × Deltas f e.1 xs

abbrev pub first : List Entry → Ptr
first [] = null
first (e ∷ xs) = e.0

-- The queue at `q` holds the threads of `xs` in this order, at their priorities.
pub record IsQueue (q : Ptr) (m : Mem) (xs : List Entry) : Type 0 where
  pub ne_null : q ≢ null
  pub num : m.q_num q ≡ pos (length xs)
  pub head_first : m.q_head q ≡ first xs
  pub threads_ne_null : has null (threads xs) ≡ false
  pub distinct : Distinct (threads xs)
  pub cycle : Cyclic (links m) (threads xs)
  pub stored : Stored m.q_prio xs
