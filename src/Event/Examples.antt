-- ===== src/Event/Examples.antt =====
-- Tests of src/pth_event.c.
use pth.Base.{
  ℕ, Bool, Option, ◌≡◌, refl, true, false, none, some, [], ◌∷◌, ◌++◌, arith, Ptr, null,
  if◌then◌else◌, ◌==◌,
}
use pth.Base.Int.{pos}
use pth.Cycle.{Cyclic}
use pth.Data
use pth.Time.{time}
use pth.Event.{Mem, pending, occurred, on_fd, typeof}
use pth.Event.Make.{Given, event, kind, fail, ebadf, key_init, World, Ret, made, filled, pth_event}
use pth.Event.Cycles.{
  concat, isolate, walk, at, endless, wait, free, Woken, Waited, refused, exits, counted,
}
use pth.Event.Splice.{members}
use pth.Event.Concat.{concat-Cyclic, concat-isolate}
use pth.Event.Chain.{event-chained, outcome}
use pth.Event.Walk.{walk-occurred, any, done, first_done}
use pth.Event.Marks.{wait-counts, Marked, nonpending}
use pth.Event.Static.{static-reused}

-- The event 1 alone and the ring of 2 and 3, of which 3 has occurred.
abbrev swap : Ptr → Ptr
swap e = if e == 2 then 3 else (if e == 3 then 2 else e)

abbrev two_rings : Mem
two_rings = record {
  links = record { next = swap; prev = swap };
  ev_status = λ e. if e == 3 then occurred else pending;
  ev_args = λ e. on_fd (pos 0);
  ev_goal = λ e. 0;
  freed = [];
}

abbrev given : Given
given = record {
  fd = pos 5;
  n = 0;
  nfd = pos 0;
  rfds = 0;
  wfds = 0;
  efds = 0;
  sigs = 0;
  sig = 0;
  tv = time (pos 1) (pos 0);
  mp = 0;
  mutex = 0;
  cond = 0;
  tid = 9;
  func = 0;
  arg = 0;
}

-- PTH_EVENT_FD | PTH_UNTIL_FD_READABLE | PTH_MODE_CHAIN
abbrev fd_chained : ℕ
fd_chained = 2101250

-- PTH_EVENT_TID | PTH_UNTIL_TID_DEAD
abbrev tid_dead : ℕ
tid_dead = 262400

-- PTH_WALK_NEXT | PTH_UNTIL_OCCURRED
abbrev next_occurred : ℕ
next_occurred = 2050

walked : walk 5 next_occurred 2 two_rings ≡ at 3
unfolding walk
walked = refl

walks_on : walk 5 next_occurred 1 two_rings ≡ endless
unfolding walk
walks_on = refl

bad_fd : (event (λ x. false) fd_chained 1 2 given two_rings).0 ≡ fail ebadf
unfolding event
bad_fd = refl

tid_type : typeof 1 (event (λ x. true) tid_dead 1 0 given two_rings).1 ≡ some 260
unfolding event typeof
tid_type = refl

all_freed : free 3 true 2 two_rings ≡ some (true, record two_rings { freed = 3 ∷ 2 ∷ [] })
unfolding free
all_freed = refl

event-chained_example :
    let r = event (λ x. false) fd_chained 1 2 given two_rings in
    (r.0 ≡ outcome 1 (kind (λ x. false) fd_chained given))
    × Cyclic r.1.links (2 ∷ ((3 ∷ []) ++ 1 ∷ []))
    × (r.1.ev_status 1 ≡ pending)
event-chained_example =
    event-chained (λ x. false) fd_chained 1 2 (3 ∷ []) given two_rings refl (omega arith)
      (refl, (refl, tt)) refl ((refl, refl, (refl, refl)))

concat-Cyclic_example :
    let r = concat 1 (2 ∷ []) two_rings in
    (r.0 ≡ 1) × Cyclic r.1.links (1 ∷ (members ((2, 3 ∷ []) ∷ []) ++ []))
concat-Cyclic_example =
    concat-Cyclic 1 [] ((2, 3 ∷ []) ∷ []) two_rings (omega arith) (refl, (refl, (refl, tt)))
      (refl, refl) ((refl, refl, (refl, refl)), tt)

concat-isolate_example :
    let r = isolate 1 (concat 1 (2 ∷ []) two_rings).1 in
    (r.0 ≡ 2) × Cyclic r.1.links (1 ∷ []) × Cyclic r.1.links (2 ∷ 3 ∷ [])
concat-isolate_example =
    concat-isolate 1 2 (3 ∷ []) two_rings (omega arith) (refl, (refl, (refl, tt))) (refl, refl)
      (refl, refl, (refl, refl))

walk-occurred_example :
    walk 2 next_occurred 2 two_rings
    ≡ (if any (done two_rings) (2 ∷ 3 ∷ []) then at (first_done two_rings (3 ∷ []) 2) else endless)
walk-occurred_example =
    walk-occurred next_occurred 2 (3 ∷ []) two_rings 2 refl refl (omega arith)
      (refl, refl, (refl, refl)) (omega arith)

-- The thread is woken without a change of the events.
abbrev wakes : (cancelreq : Bool) → Mem → Woken
wakes c m = record { mem = m; cancelreq = c; enabled = true }

abbrev result_of : Option (Waited × Mem) → Waited
result_of none = refused
result_of (some r) = r.0

canceled_wait : result_of (wait 3 (wakes true) 2 two_rings) ≡ exits
unfolding wait
canceled_wait = refl

wait-counts_example :
    (m1 : Mem) × (Marked (2 ∷ 3 ∷ []) two_rings m1
      × (wait 3 (wakes false) 2 two_rings ≡ some (counted (nonpending 2 m1 (2 ∷ 3 ∷ [])), m1)))
wait-counts_example =
    wait-counts 3 (wakes false) 2 (3 ∷ []) two_rings (omega arith) (omega arith) (refl, (refl, tt))
      (refl, refl, (refl, refl)) (λ m. refl)

abbrev no_keys : Data.State
no_keys = record {
  current = 1;
  keytab = λ k. record { used = false; destructor = null };
  thread = λ t. record { data_value = none; data_count = pos 0 };
}

-- PTH_EVENT_FD | PTH_UNTIL_FD_READABLE | PTH_MODE_STATIC
abbrev fd_static : ℕ
fd_static = 4198402

abbrev fresh : World
fresh = record { key = key_init; keys = no_keys; mem = two_rings }

fd_accepted : kind (λ x. true) fd_static given ≡ filled (on_fd (pos 5)) 4096
unfolding kind
fd_accepted = refl

abbrev made_once : Ret × World
made_once = pth_event (λ x. true) fd_static 0 7 8 true 0 given fresh

abbrev made_again : Ret × World
made_again = pth_event (λ x. true) fd_static 0 9 8 true 0 given made_once.1

static-reused_example :
    (e : Ptr) × (made_once.0 ≡ made e)
    × (made_again.0 ≡ made e)
    × (made_once.1.key ≡ pos 0)
    × (made_again.1.key ≡ pos 0)
    × (made_again.1.keys ≡ made_once.1.keys)
    × (made_again.1.mem.ev_status e ≡ pending)
    × (made_again.1.mem.ev_args e ≡ on_fd (pos 5))
    × (made_again.1.mem.ev_goal e ≡ 4096)
static-reused_example =
    static-reused (λ x. true) 0 fd_static fd_static fresh 0 7 9 8 0 0 true given given
      (on_fd (pos 5)) (on_fd (pos 5)) 4096 4096 refl refl refl (omega arith)
      (λ j lo hi. absurd (omega arith)) refl (omega arith) fd_accepted fd_accepted
