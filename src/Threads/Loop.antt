-- ===== src/Threads/Loop.antt =====
-- `pth_scheduler` and `pth_sched_eventmanager`: threads that are made ready.
use pth.Base.{
  ◌≡◌, refl, ◌∙◌, Bool, true, false, ◌||◌, Option, none, some, List, [], ◌∷◌, arith, Ptr, update,
  if_intro, inl, has, Distinct, ne_of_has,
}
use pth.Base.Int.{ℤ}
use pth.Pqueue.Spec.{Entry, threads}
use pth.Threads.{ready, Queue, nq, rq, wq, State, delete, insert, set_state}
use pth.Threads.Scheduler.{ready_new, ready_all, wake, wake_all, manage}
use pth.Threads.Placed.{
  Placed, delete-Placed, insert-Placed, set_tcb-Placed, contains-place, place-ne-null,
}

-- A thread is made ready: taken out of its queue and put into the ready queue.
abbrev made_ready : Queue → ℤ → Ptr → State → State
made_ready q p t s = insert rq p t (set_state t ready (delete q t s))

abbrev readied : (Ptr → Option Queue) → Ptr → Ptr → Option Queue
readied place t = update (update place t none) t (some rq)

made_ready-Placed :
    (s : State) (place : Ptr → Option Queue) (h : Placed s place) (q : Queue) (p : ℤ) (t : Ptr)
    → place t ≡ some q
    → Placed (made_ready q p t s) (readied place t)
made_ready-Placed s place h q p t at =
    let out : update place t none t ≡ none = ground arith in
    insert-Placed (set_state t ready (delete q t s)) (update place t none)
      (set_tcb-Placed (delete q t s) (update place t none) (delete-Placed s place h q t at) t
        (record (s.tcb t) { state = ready }) (inl out))
      rq t p out (place-ne-null s place h q t at) (ground arith)

-- The threads of a list have their places in one queue.
abbrev AllAt : Queue → List Entry → (Ptr → Option Queue) → Type 0
AllAt q xs place = (a : Ptr) → has a (threads xs) ≡ true → place a ≡ some q

-- The places after some threads of `xs` have been made ready.
pub record After (s : State) (place : Ptr → Option Queue) (xs : List Entry) (s' : State)
    : Type 0 where
  pub places : Ptr → Option Queue
  pub placed : Placed s' places
  pub others : (a : Ptr) → has a (threads xs) ≡ false → places a ≡ place a
  pub same_current : s'.current ≡ s.current

pub ready_all-After :
    (s : State) (place : Ptr → Option Queue) (h : Placed s place) (xs : List Entry)
    → Distinct (threads xs)
    → AllAt nq xs place
    → After s place xs (ready_all xs s)
unfolding ready_all ready_new
ready_all-After s place h [] d all = record {
  places = place;
  placed = h;
  others = λ a out. refl;
  same_current = refl;
}
ready_all-After s place h (e ∷ xs) d all =
    let r = ready_all-After s place h xs d.1 (λ a i. all a (ground arith)) in
    let at = r.others e.0 d.0 ∙ all e.0 (ground arith) in
    record {
      places = readied r.places e.0;
      placed = made_ready-Placed (ready_all xs s) r.places r.placed nq _ e.0 at;
      others = λ a out. ground (arith, r.others a);
      same_current = r.same_current;
    }

wake-After :
    (occurred : Ptr → Bool) (s : State) (place : Ptr → Option Queue) (h : Placed s place)
    (e : Entry)
    → place e.0 ≡ some wq
    → After s place (e ∷ []) (wake occurred e.0 s)
unfolding wake
wake-After occurred s place h e at =
    if_intro (After s place (e ∷ [])) (occurred e.0 || (s.tcb e.0).cancelreq)
      (λ i. record {
        places = readied place e.0;
        placed = made_ready-Placed s place h wq _ e.0 at;
        others = λ a out. ground arith;
        same_current = refl;
      })
      (λ i. record { places = place; placed = h; others = λ a out. refl; same_current = refl })

wake_all-After :
    (occurred : Ptr → Bool) (s : State) (place : Ptr → Option Queue) (h : Placed s place)
    (xs : List Entry)
    → Distinct (threads xs)
    → AllAt wq xs place
    → After s place xs (wake_all occurred xs s)
unfolding wake_all wake
wake_all-After occurred s place h [] d all = record {
  places = place;
  placed = h;
  others = λ a out. refl;
  same_current = refl;
}
wake_all-After occurred s place h (e ∷ xs) d all =
    let one = wake-After occurred s place h e (all e.0 (ground arith)) in
    let rest = wake_all-After occurred (wake occurred e.0 s) one.places one.placed xs d.1 (λ a i.
      one.others a (ground (arith, ne_of_has e.0 a (threads xs) d.0 i)) ∙ all a (ground arith)) in
    record {
      places = rest.places;
      placed = rest.placed;
      others = λ a out. rest.others a (ground arith) ∙ one.others a (ground arith);
      same_current = rest.same_current ∙ one.same_current;
    }

pub manage-Placed :
    (rounds : List (Ptr → Bool)) (s : State) (place : Ptr → Option Queue)
    → Placed s place
    → (place' : Ptr → Option Queue) × (Placed (manage rounds s) place'
        × ((manage rounds s).current ≡ s.current))
unfolding manage
manage-Placed [] s place h = (place, (h, refl))
manage-Placed (occurred ∷ rounds) s place h =
    let one =
      wake_all-After occurred s place h (s.queue wq) (h.distinct wq)
        (λ a i. contains-place s place h wq a i) in
    let (place', (h', same)) =
      manage-Placed rounds (wake_all occurred (s.queue wq) s) one.places one.placed in
    (place', (h', same ∙ one.same_current))
