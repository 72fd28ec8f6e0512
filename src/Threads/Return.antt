-- ===== src/Threads/Return.antt =====
-- `pth_scheduler` from the return of a thread to the choice of the next, and the places of threads.
use pth.Base.{
  ℕ, ◌≡◌, refl, ◌≢◌, sym, subst, Bool, true, not, Option, none, some, List, [], ◌∷◌, ◌==◌, arith,
  if◌then◌else◌, Ptr, null, update, if_intro, ==_ne, ◌⊎◌, inl, inr, ==_self, ne_of_==_false, has,
  Distinct,
}
use pth.Base.Int.{ℤ}
use pth.Pqueue.Spec
use pth.Pqueue.Spec.{Entry, threads, IsSorted}
use pth.Pqueue.Order.{threads-increase, increase-IsSorted}
use pth.Threads.{
  ThreadState, scheduler, new, ready, waiting, dead, Queue, nq, rq, wq, dq, State, contains, delete,
  insert, prio_std, free, set_tcb, set_queue,
}
use pth.Threads.Scheduler.{ready_all, running, choose, dispatch, reap, park, requeue, return_from}
use pth.Threads.Placed.{
  Placed, Fits, is_at, delete-Placed, insert-Placed, set_tcb-Placed, contains-place, place-ne-null,
  Placed-ext, set_queue_intro,
}
use pth.Threads.Keep.{IsPlaced}
use pth.Threads.Loop.{ready_all-After, manage-Placed}

-- The states of a thread that runs or that has just stopped.
abbrev pub CanRun : ThreadState → Type 0
CanRun scheduler = scheduler ≡ ready
CanRun new = new ≡ ready
CanRun st = Unit {0}

-- The thread that runs is no null, is in no queue and is in a state to run.
pub record IsRunning (s : State) : Type 0 where
  pub is_placed : IsPlaced s
  pub some_current : s.current ≢ null
  pub can_run : CanRun (s.tcb s.current).state

-- The thread that the scheduler comes back from is in no queue, and if it is not gone, it is ready.
abbrev Settled : State → Type 0
Settled s = IsPlaced s × ((s.current ≡ null) ⊎ ((s.tcb s.current).state ≡ ready))

park-null : (s : State) → s.current ≡ null → park s ≡ s
unfolding park
park-null s e = rw (park, e) refl

park-ready : (s : State) → (s.tcb s.current).state ≡ ready → park s ≡ s
unfolding park
park-ready s e = rw (park, e) (if_intro (λ r. r ≡ s) (s.current == null) (λ i. refl) (λ i. refl))

abbrev parked : Queue → ℤ → State → State
parked q p s = record (insert q p s.current s) { current = null }

parked-Settled :
    (q : Queue) (p : ℤ) (s : State)
    → IsRunning s
    → Fits (some q) (s.tcb s.current).state
    → Settled (parked q p s)
parked-Settled q p s r fit =
    let (place, (h, here)) = r.is_placed in
    let h' = insert-Placed s place h q s.current p here r.some_current fit in
    (
      (
        _,
        (
          Placed-ext (insert q p s.current s) (parked q p s) _ (λ q. refl) (λ a f. f) h',
          h'.null_out,
        ),
      ),
      inl refl,
    )

freed-Settled : (s : State) → IsRunning s → Settled (record (free s.current s) { current = null })
freed-Settled s r =
    let (place, (h, here)) = r.is_placed in
    ((place, (Placed-ext s _ place (λ q. refl) (λ a f. f) h, h.null_out)), inl refl)

module _ (s : State) (r : IsRunning s) where
  reap-dead :
      (s.tcb s.current).state ≡ dead
      → reap s ≡ (
          if not (s.tcb s.current).joinable
          then record (free s.current s) { current = null }
          else parked dq prio_std s)
  unfolding reap
  reap-dead e =
      rw (reap, e)
        (if_intro
          (λ (z : State). record z { current = null } ≡ (
            if not (s.tcb s.current).joinable
            then record (free s.current s) { current = null }
            else parked dq prio_std s))
          (not (s.tcb s.current).joinable) (λ i. rw i refl) (λ i. rw i refl))

  reap-ready : (s.tcb s.current).state ≡ ready → reap s ≡ s
  unfolding reap
  reap-ready e = rw (reap, e) refl

  reap-waiting : (s.tcb s.current).state ≡ waiting → reap s ≡ s
  unfolding reap
  reap-waiting e = rw (reap, e) refl

  park-waiting : (s.tcb s.current).state ≡ waiting → park s ≡ parked wq (s.tcb s.current).prio s
  unfolding park
  park-waiting e = rw (park, ==_ne s.current null r.some_current, e) refl

  settle : (st : ThreadState) → (s.tcb s.current).state ≡ st → CanRun st → Settled (park (reap s))
  unfolding reap park
  settle dead e can =
      subst (λ z. Settled (park z)) (sym (reap-dead e))
        (if_intro (λ z. Settled (park z)) (not (s.tcb s.current).joinable)
          (λ i.
            subst Settled (sym (park-null (record (free s.current s) { current = null }) refl))
              (freed-Settled s r))
          (λ i.
            subst Settled (sym (park-null (parked dq prio_std s) refl))
              (parked-Settled dq prio_std s r (subst (Fits (some dq)) (sym e) refl))))
  settle waiting e can =
      subst (λ z. Settled (park z)) (sym (reap-waiting e))
        (subst Settled (sym (park-waiting e))
          (parked-Settled wq (s.tcb s.current).prio s r (subst (Fits (some wq)) (sym e) refl)))
  settle ready e can =
      subst (λ z. Settled (park z)) (sym (reap-ready e))
        (subst Settled (sym (park-ready s e)) (r.is_placed, inr e))
  settle scheduler e can = absurd cc
  settle new e can = absurd cc

  park-reap-Settled : Settled (park (reap s))
  park-reap-Settled = settle (s.tcb s.current).state refl r.can_run

-- Ageing moves no thread.
increase-Placed :
    (s : State) (place : Ptr → Option Queue)
    → Placed s place
    → Placed (set_queue rq (Spec.increase (s.queue rq)) s) place
increase-Placed s place h = record {
  spots = λ q a.
      set_queue_intro (λ r xs. has a (threads xs) ≡ is_at r (place a)) rq _ s
        (rw (threads-increase (s.queue rq)) (h.spots rq a)) (λ r i. h.spots r a) q;
  distinct =
      set_queue_intro (λ r xs. Distinct (threads xs)) rq _ s
        (rw (threads-increase (s.queue rq)) (h.distinct rq)) (λ r i. h.distinct r);
  sorted =
      set_queue_intro (λ r xs. IsSorted xs) rq _ s (increase-IsSorted (s.queue rq) (h.sorted rq))
        (λ r i. h.sorted r);
  fits = h.fits;
  null_out = h.null_out;
}

-- The places of some state of the scheduler, which has no running thread of its own.
abbrev pub IsScheduled : State → Type 0
IsScheduled s = (place : Ptr → Option Queue) × Placed s place

requeue-IsScheduled : (s : State) → Settled s → IsScheduled (requeue s)
unfolding requeue
requeue-IsScheduled s ((place, (h, here)), gone_or_ready) =
    let s' = set_queue rq (Spec.increase (s.queue rq)) s in
    let h' = increase-Placed s place h in
    if_intro IsScheduled (s.current == null) (λ i. (place, h'))
      (λ i.
        let sn = ne_of_==_false s.current null i in
        (
          _,
          insert-Placed s' place h' rq s.current (s.tcb s.current).prio here sn
              (elim gone_or_ready [ inl e ↦ absurd (sn e) | inr e ↦ e ]),
        ))

-- After a thread has come back, its place is that of its state.
return_from-IsScheduled :
    (rounds : List (Ptr → Bool)) (s : State) → IsRunning s → IsScheduled (return_from rounds s)
unfolding return_from
return_from-IsScheduled rounds s r =
    let (place, h) = requeue-IsScheduled (park (reap s)) (park-reap-Settled s r) in
    let (place', (h', same)) = manage-Placed rounds (requeue (park (reap s))) place h in
    (place', h')

delete-head : (e : Entry) (xs : List Entry) → Spec.delete e.0 (e ∷ xs) ≡ xs
unfolding Spec.delete
delete-head e xs = rw (==_self e.0) refl

-- The thread that is dispatched runs, ready and in no queue.
dispatched-IsRunning :
    (s : State) (place : Ptr → Option Queue) (e : Entry) (xs : List Entry) (n : ℕ)
    → Placed s place
    → s.queue rq ≡ e ∷ xs
    → IsRunning (record (set_queue rq xs (set_tcb e.0 (record (s.tcb e.0) { dispatches = n }) s)) {
      current = e.0;
    })
dispatched-IsRunning s place e xs n h eq =
    let i : contains rq e.0 s ≡ true = rw eq (ground arith) in
    let at = contains-place s place h rq e.0 i in
    let x = record (s.tcb e.0) { dispatches = n } in
    let out : update place e.0 none e.0 ≡ none = ground arith in
    let h' =
      set_tcb-Placed (delete rq e.0 s) (update place e.0 none) (delete-Placed s place h rq e.0 at)
        e.0 x (inl out) in
    let is_ready : (s.tcb e.0).state ≡ ready =
      subst (λ o. Fits o (s.tcb e.0).state) at (h.fits e.0) in
    record {
      is_placed = (
        update place e.0 none,
        (
          Placed-ext (set_tcb e.0 x (delete rq e.0 s)) _ (update place e.0 none)
              (set_queue_intro (λ r ys. ys ≡ (delete rq e.0 s).queue r) rq xs s
                (rw eq (sym (delete-head e xs))) (λ r j. rw j refl))
              (λ a f. f) h',
          out,
        ),
      );
      some_current = place-ne-null s place h rq e.0 at;
      can_run = rw (==_self e.0, is_ready) tt;
    }

some_inj : {x y : State} → some x ≡ some y → x ≡ y
some_inj e = cc

chosen-IsRunning :
    (s : State) (place : Ptr → Option Queue)
    → Placed s place
    → (s' : State) (xs : List Entry) → s.queue rq ≡ xs
    → (elim xs as (λ y. Option State) [ [] ↦ none | e ∷ ys ↦ some (running e ys s) ]) ≡ some s'
    → IsRunning s'
chosen-IsRunning s place h s' [] eq d = absurd cc
chosen-IsRunning s place h s' (e ∷ xs) eq d =
    subst IsRunning (some_inj d) (dispatched-IsRunning s place e xs _ h eq)

dispatch-IsRunning :
    (s : State) (place : Ptr → Option Queue)
    → Placed s place
    → (s' : State) → dispatch s ≡ some s'
    → IsRunning s'
unfolding dispatch choose
dispatch-IsRunning s place h s' d =
    let a =
      ready_all-After s place h (s.queue nq) (h.distinct nq)
        (λ u i. contains-place s place h nq u i) in
    chosen-IsRunning (ready_all (s.queue nq) s) a.places a.placed s' _ refl d

-- A state in which a thread comes back leads to one in which the chosen thread runs.
pub switch-IsRunning :
    (rounds : List (Ptr → Bool)) (s s' : State)
    → IsRunning s
    → dispatch (return_from rounds s) ≡ some s'
    → IsRunning s'
switch-IsRunning rounds s s' r e =
    let (place, h) = return_from-IsScheduled rounds s r in
    dispatch-IsRunning (return_from rounds s) place h s' e
