-- ===== src/Threads/Keep.antt =====
-- `pth_suspend`, `pth_resume`, `pth_yield` and `pth_cancel`, and the places of threads.
use pth.Base.{
  ◌≡◌, refl, ◌≢◌, ◌∙◌, sym, ap, subst, true, not, ◌&&◌, ◌||◌, Option, none, some, List, [], ◌∷◌,
  ◌==◌, arith, Ptr, null, update, if_intro, Option-intro, if◌then◌else◌, inl, inr,
}
use pth.Base.Int.{ℤ}
use pth.Pqueue.Spec
use pth.Pqueue.Spec.{Entry}
use pth.Threads.{
  einval, eperm, esrch, canceled, yes_ret, fail, ThreadState, scheduler, new, ready, waiting, dead,
  Ret, Queue, nq, rq, wq, sq, dq, State, Cleanup, contains, delete, insert, prio_std, free, set_tcb,
  set_queue,
}
use pth.Threads.Calls.{
  queue_of, suspend_from, suspend, resume_into, resume, bury, cancel_now, cancel_live, cancel,
  yield_queue, yield,
}
use pth.Threads.Placed.{
  Placed, Fits, delete-Placed, insert-Placed, set_tcb-Placed, contains-place, place-ne-null,
  Placed-ext, some_ne, set_queue_intro, same_queue_self,
}

-- Some places are those of the threads, and the running thread has none.
abbrev pub IsPlaced : State → Type 0
IsPlaced s = (place : Ptr → Option Queue) × (Placed s place × (place s.current ≡ none))

-- The queue of a state is one that the state fits, and so is the queue of suspended threads.
pub queue_of-Fits :
    (st : ThreadState) (q : Queue) → queue_of st ≡ some q → Fits (some q) st × Fits (some sq) st
unfolding queue_of
queue_of-Fits new q e = (subst (λ o. Fits o new) e refl, tt)
queue_of-Fits ready q e = (subst (λ o. Fits o ready) e refl, tt)
queue_of-Fits waiting q e = (subst (λ o. Fits o waiting) e refl, tt)
queue_of-Fits scheduler q e = absurd cc
queue_of-Fits dead q e = absurd cc

-- A suspended thread has a queue to go back to.
sq-queue_of :
    (st : ThreadState)
    → Fits (some sq) st
    → (q : Queue) × ((queue_of st ≡ some q) × Fits (some q) st)
unfolding queue_of
sq-queue_of new f = (nq, (refl, refl))
sq-queue_of ready f = (rq, (refl, refl))
sq-queue_of waiting f = (wq, (refl, refl))
sq-queue_of scheduler f = absurd cc
sq-queue_of dead f = absurd cc

module _ (s : State) (place : Ptr → Option Queue) (h : Placed s place)
    (here : place s.current ≡ none) where
  not_current : (q : Queue) (t : Ptr) → place t ≡ some q → t ≢ s.current
  not_current q t at e = some_ne (sym at ∙ ap place e ∙ here)

  -- A thread that is moved to another queue.
  move-IsPlaced :
      (q r : Queue) (p : ℤ) (t : Ptr)
      → place t ≡ some q
      → Fits (some r) (s.tcb t).state
      → IsPlaced (insert r p t (delete q t s))
  move-IsPlaced q r p t at fit = (
    _,
    (
      insert-Placed (delete q t s) (update place t none) (delete-Placed s place h q t at) r t p
          (ground arith) (place-ne-null s place h q t at) fit,
      ground (arith, not_current q t at, here),
    ),
  )

module _ (s : State) (c : IsPlaced s) where
  suspend_from-IsPlaced :
      (q : Queue) (t : Ptr) → queue_of (s.tcb t).state ≡ some q → IsPlaced (suspend_from q t s).1
  unfolding suspend_from
  suspend_from-IsPlaced q t e =
      if_intro (λ (r : Ret × State). IsPlaced r.1) (not (contains q t s)) (λ i. c)
        (λ i.
          let (place, (h, here)) = c in
          move-IsPlaced s place h here q sq prio_std t (contains-place s place h q t (ground arith))
            (queue_of-Fits (s.tcb t).state q e).1)

  pub suspend-IsPlaced : (t : Ptr) → IsPlaced (suspend t s).1
  unfolding suspend
  suspend-IsPlaced t =
      let P = λ (r : Ret × State). IsPlaced r.1 in
      if_intro P (t == null) (λ i. c)
        (λ i.
          if_intro P (t == s.sched || t == s.current) (λ i. c)
            (λ i.
              Option-intro
                (λ o. P (elim o [ none ↦ (fail eperm, s) | some q ↦ suspend_from q t s ]))
                (queue_of (s.tcb t).state) (λ e. c) (λ q e. suspend_from-IsPlaced q t e)))

  pub resume-IsPlaced : (t : Ptr) → IsPlaced (resume t s).1
  unfolding resume resume_into
  resume-IsPlaced t =
      let P = λ (r : Ret × State). IsPlaced r.1 in
      if_intro P (t == null) (λ i. c)
        (λ i.
          if_intro P (t == s.sched || t == s.current) (λ i. c)
            (λ i.
              if_intro P (not (contains sq t s)) (λ i. c)
                (λ i.
                  let (place, (h, here)) = c in
                  let at = contains-place s place h sq t (ground arith) in
                  let (q, (e, fit)) =
                    sq-queue_of (s.tcb t).state
                      (subst (λ o. Fits o (s.tcb t).state) at (h.fits t)) in
                  subst (λ o. IsPlaced (resume_into o t (delete sq t s))) (sym e)
                    (move-IsPlaced s place h here sq q prio_std t at fit))))

  favorite-of :
      (q : Queue) (t : Ptr)
      → contains q t s ≡ true
      → (xs : List Entry) → s.queue q ≡ xs
      → IsPlaced (set_queue q (Spec.favorite t xs) s)
  unfolding Spec.favorite
  favorite-of q t i [] e = (
    c.0,
    (
      Placed-ext s _ c.0 (set_queue_intro (λ r xs. xs ≡ s.queue r) q [] s (sym e) (λ r j. refl))
          (λ a f. f) c.1.0,
      c.1.1,
    ),
  )
  favorite-of q t i (x ∷ []) e = (
    c.0,
    (
      Placed-ext s _ c.0
          (set_queue_intro (λ r xs. xs ≡ s.queue r) q (x ∷ []) s (sym e) (λ r j. refl)) (λ a f. f)
          c.1.0,
      c.1.1,
    ),
  )
  favorite-of q t i (x ∷ y ∷ xs) e =
      let (place, (h, here)) = c in
      let at = contains-place s place h q t i in
      let p = Spec.favorite_prio (Spec.delete t (x ∷ y ∷ xs)) in
      let (place', (h', here')) =
        move-IsPlaced s place h here q q p t at
          (subst (λ o. Fits o (s.tcb t).state) at (h.fits t)) in
      (
        place',
        (
          Placed-ext (insert q p t (delete q t s)) _ place'
              (set_queue_intro (λ r ys. ys ≡ (insert q p t (delete q t s)).queue r) q _ s
                (rw (same_queue_self q, e) refl) (λ r j. rw j refl))
              (λ a f. f) h',
          here',
        ),
      )

  -- The favored thread stays in its queue.
  favorite-IsPlaced :
      (q : Queue) (t : Ptr)
      → contains q t s ≡ true
      → IsPlaced (set_queue q (Spec.favorite t (s.queue q)) s)
  favorite-IsPlaced q t i = favorite-of q t i (s.queue q) refl

  pub yield-IsPlaced : (t : Ptr) → IsPlaced (yield t s).1
  unfolding yield
  yield-IsPlaced t =
      let P = λ (r : Ret × State). IsPlaced r.1 in
      if_intro P (t == null) (λ i. c)
        (λ i.
          Option-intro
            (λ o. P (elim o [
              | none ↦ (fail einval, s)
              | some q ↦
                  if not (contains q t s)
                  then (fail einval, s)
                  else (yes_ret, set_queue q (Spec.favorite t (s.queue q)) s)
            ]))
            (yield_queue (s.tcb t).state) (λ e. c)
            (λ q e.
              if_intro P (not (contains q t s)) (λ i. c)
                (λ i. favorite-IsPlaced q t (ground arith))))

-- The code that runs when a thread is cleaned up acts on no thread.
abbrev pub IsQuiet : Cleanup → Type 0
IsQuiet cleanup = (t : Ptr) (s : State) → cleanup t s ≡ s

bury-IsPlaced :
    (s : State) (place : Ptr → Option Queue) (t : Ptr)
    → Placed s place
    → place s.current ≡ none
    → place t ≡ none
    → t ≢ null
    → t ≢ s.current
    → IsPlaced (bury t s)
unfolding bury
bury-IsPlaced s place t h here out tn other =
    if_intro IsPlaced (not (s.tcb t).joinable)
      (λ i. (place, (Placed-ext s (free t s) place (λ q. refl) (λ a f. f) h, here)))
      (λ i.
        let x = record (s.tcb t) { join_arg = canceled; state = dead } in
        (
          _,
          (
            insert-Placed (set_tcb t x s) place (set_tcb-Placed s place h t x (inl out)) dq t
                prio_std out tn (ground arith),
            ground (arith, here),
          ),
        ))

module _ (cleanup : Cleanup) (quiet : IsQuiet cleanup) where
  cancel_now-IsPlaced :
      (q : Queue) (t : Ptr) (s : State) → IsPlaced s → IsPlaced (cancel_now cleanup q t s).1
  unfolding cancel_now
  cancel_now-IsPlaced q t s c =
      if_intro (λ (r : Ret × State). IsPlaced r.1) (not (contains q t s)) (λ i. c)
        (λ i.
          let (place, (h, here)) = c in
          let at = contains-place s place h q t (ground arith) in
          let other = not_current s place h here q t at in
          subst (λ r. IsPlaced (bury t r)) (sym (quiet t (delete q t s)))
            (bury-IsPlaced (delete q t s) (update place t none) t (delete-Placed s place h q t at)
              (ground (arith, here, other)) (ground arith) (place-ne-null s place h q t at) other))

  cancel_live-IsPlaced : (t : Ptr) (s : State) → IsPlaced s → IsPlaced (cancel_live cleanup t s).1
  unfolding cancel_live
  cancel_live-IsPlaced t s (place, (h, here)) =
      let P = λ (r : Ret × State). IsPlaced r.1 in
      let x = record (s.tcb t) { cancelreq = true } in
      let s' = set_tcb t x s in
      let c : IsPlaced s' = (place, (set_tcb-Placed s place h t x (inr refl), here)) in
      if_intro P ((s'.tcb t).enabled && (s'.tcb t).asynchronous)
        (λ i.
          Option-intro
            (λ o. P (elim o [ none ↦ (fail esrch, s') | some q ↦ cancel_now cleanup q t s' ]))
            (queue_of (s'.tcb t).state) (λ e. c) (λ q e. cancel_now-IsPlaced q t s' c))
        (λ i. c)

  of_state :
      (t : Ptr) (s : State)
      → IsPlaced s
      → (st : ThreadState)
      → IsPlaced
          (elim st as (λ x. Ret × State) [ dead ↦ (fail eperm, s) | _ ↦ cancel_live cleanup t s ]).1
  of_state t s c dead = c
  of_state t s c scheduler = cancel_live-IsPlaced t s c
  of_state t s c new = cancel_live-IsPlaced t s c
  of_state t s c ready = cancel_live-IsPlaced t s c
  of_state t s c waiting = cancel_live-IsPlaced t s c

  pub cancel-IsPlaced : (t : Ptr) (s : State) → IsPlaced s → IsPlaced (cancel cleanup t s).1
  unfolding cancel
  cancel-IsPlaced t s c =
      let P = λ (r : Ret × State). IsPlaced r.1 in
      if_intro P (t == null) (λ i. c)
        (λ i. if_intro P (t == s.current) (λ i. c) (λ i. of_state t s c (s.tcb t).state))
