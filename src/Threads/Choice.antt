-- ===== src/Threads/Choice.antt =====
-- Which thread the scheduler chooses, and what a suspension, its end and a cancellation do.
use pth.Base.{
  ◌≡◌, refl, ◌≢◌, ◌∙◌, sym, ap, subst, true, false, Option, none, some, List, [], ◌∷◌, ◌==◌, arith,
  Ptr, null, update, ==_ne, ==_self, ==_iff, Bool-cases, inl, inr, suc, not, ◌&&◌, if◌then◌else◌,
  has, Distinct,
}
use pth.Pqueue.Spec
use pth.Base.Int.{ℤ, pos, ◌≤ℤ◌}
use pth.Pqueue.Spec.{Entry, threads, AtMost, IsSorted}
use pth.Pqueue.Order.{insert-favorite}
use pth.Threads.{
  State, ThreadState, Queue, nq, rq, wq, sq, same_queue, contains, delete, insert, set_tcb, ready,
  new, waiting, scheduler, dead, prio_std, Cleanup, Ret, yes_ret, fail, esrch,
}
use pth.Threads.Scheduler.{new_prio, ready_new, ready_all, running, choose, dispatch}
use pth.Threads.Calls.{queue_of, suspend, resume, cancel, cancel_live, cancel_now}
use pth.Threads.Placed.{Placed, Fits, place-ne-null, is_at, same_queue_self}
use pth.Threads.Keep.{queue_of-Fits}
use pth.Threads.Away.{suspend-moves, resume-moves, moved-Placed, queue_of-sq}

ready_all-favournew : (xs : List Entry) (s : State) → (ready_all xs s).favournew ≡ s.favournew
unfolding ready_all ready_new
ready_all-favournew [] s = refl
ready_all-favournew (e ∷ xs) s = ready_all-favournew xs s

choose-first :
    (s : State) (e : Entry) (xs : List Entry)
    → s.queue rq ≡ e ∷ xs
    → choose s ≡ some (running e xs s)
unfolding choose
choose-first s e xs eq = rw (choose, eq) refl

dispatch-choose :
    (s : State) (xs : List Entry) → s.queue nq ≡ xs → dispatch s ≡ choose (ready_all xs s)
unfolding dispatch
dispatch-choose s xs eq = ap (λ ys. choose (ready_all ys s)) eq

-- Favored, a new thread becomes the first of the ready queue.
ready_new-first :
    (t : Ptr) (s : State)
    → s.favournew ≡ true
    → (ready_new t s).queue rq ≡ (t, Spec.favorite_prio (s.queue rq)) ∷ s.queue rq
unfolding ready_new new_prio
ready_new-first t s favour = rw (favour, insert-favorite t (s.queue rq)) refl

-- If new threads are favored and there is one, the scheduler does not abort and the first thread
-- of the new queue is the next to run.
pub dispatch-newest :
    (s : State) (e : Entry) (xs : List Entry)
    → s.favournew ≡ true
    → s.queue nq ≡ e ∷ xs
    → (s' : State) × ((dispatch s ≡ some s') × (s'.current ≡ e.0))
unfolding ready_all
dispatch-newest s e xs favour eq =
    let r = ready_all xs s in
    let first = ready_new-first e.0 r (ready_all-favournew xs s ∙ favour) in
    (
      running (e.0, Spec.favorite_prio (r.queue rq)) (r.queue rq) (ready_new e.0 r),
      (dispatch-choose s (e ∷ xs) eq ∙ choose-first (ready_new e.0 r) _ _ first, refl),
    )

-- The priority of a thread in a queue.
abbrev pub prio_of : Ptr → List Entry → ℤ
prio_of t [] = pos 0
prio_of t (e ∷ xs) = if e.0 == t then e.1 else prio_of t xs

prio_of-AtMost :
    (p : ℤ) (t : Ptr) (xs : List Entry)
    → AtMost p xs
    → has t (threads xs) ≡ true
    → prio_of t xs ≤ℤ p
prio_of-AtMost p t [] h i = absurd cc
prio_of-AtMost p t (e ∷ xs) h i = elim (Bool-cases (e.0 == t)) [
  | inl q ↦ rw q h.0
  | inr q ↦ rw q (prio_of-AtMost p t xs h.1 (ground arith))
]

-- What a dispatch does: which thread runs, and what is left of the queues.
pub record Dispatched (s : State) : Type 0 where
  pub next : State
  pub dispatched : dispatch s ≡ some next
  pub was_ready : contains rq next.current s ≡ true
  pub highest :
      (u : Ptr)
      → contains rq u s ≡ true
      → prio_of u (s.queue rq) ≤ℤ prio_of next.current (s.queue rq)
  pub removed : (u : Ptr) → contains rq u next ≡ (contains rq u s && not (next.current == u))
  pub kept : (u : Ptr) → u ≢ next.current → prio_of u (next.queue rq) ≡ prio_of u (s.queue rq)
  pub others : (q : Queue) → same_queue rq q ≡ false → next.queue q ≡ s.queue q
  pub counted : (next.tcb next.current).dispatches ≡ suc (s.tcb next.current).dispatches

-- If the threads are in their places, none is new and some thread is ready, the scheduler takes a
-- ready thread than which no ready thread has a greater priority: that thread alone leaves the
-- ready queue, in which the others keep their priorities, it is the current thread, its dispatches
-- are one more, and all other queues stay as they are.
pub dispatch-highest :
    (s : State) (place : Ptr → Option Queue) (t : Ptr)
    → Placed s place
    → s.queue nq ≡ []
    → contains rq t s ≡ true
    → Dispatched s
unfolding ready_all
dispatch-highest s place t h no_new i = go (s.queue rq) refl i
  where
    go : (ys : List Entry) → s.queue rq ≡ ys → has t (threads ys) ≡ true → Dispatched s
    go [] eq j = absurd cc
    go (e ∷ xs) eq j =
        let sorted : IsSorted (e ∷ xs) = rw eq at (h.sorted rq) in
        let distinct : Distinct (threads (e ∷ xs)) = rw eq at (h.distinct rq) in
        let behind : (u : Ptr)
            → (e.0 == u) ≡ false
            → has u (threads (e ∷ xs)) ≡ true
            → has u (threads xs) ≡ true =
          λ u q k. ground arith in
        let out : (u : Ptr) → has u (threads xs) ≡ (has u (threads (e ∷ xs)) && not (e.0 == u)) =
          λ u. elim (Bool-cases (e.0 == u)) [
            | inl q ↦
                subst (λ a. has a (threads xs) ≡ (has a (threads (e ∷ xs)) && not (e.0 == a)))
                  ((==_iff e.0 u).0 q) (ground (arith, distinct.0))
            | inr q ↦ ground arith
          ] in
        record {
          next = running e xs s;
          dispatched = dispatch-choose s [] no_new ∙ choose-first s e xs eq;
          was_ready = rw eq (ground arith);
          highest = λ u k. rw eq (elim (Bool-cases (e.0 == u)) [
            | inl q ↦ rw (q, ==_self e.0) (omega arith)
            | inr q ↦
                rw (q, ==_self e.0) (prio_of-AtMost e.1 u xs sorted.0 (behind u q (rw eq at k)))
          ]);
          removed = λ u. rw eq (out u);
          kept = λ u n. rw eq (ground arith);
          others = λ q n. rw n refl;
          counted = ground arith;
        }

-- A thread with a request for its cancellation.
abbrev pub requested : Ptr → State → State
requested t s = set_tcb t (record (s.tcb t) { cancelreq = true }) s

module _ (s : State) (place : Ptr → Option Queue) (h : Placed s place) (t : Ptr) where
  not_found :
      (cleanup : Cleanup) (q : Queue)
      → contains q t s ≡ false
      → cancel_now cleanup q t (requested t s) ≡ (fail esrch, requested t s)
  unfolding cancel_now
  not_found cleanup q e = rw (cancel_now, e) refl

  module _ (cleanup : Cleanup) (at : place t ≡ some sq) (other : t ≢ s.current)
      (en : (s.tcb t).enabled ≡ true) (asy : (s.tcb t).asynchronous ≡ true) where
    live-suspended :
        (st : ThreadState)
        → (s.tcb t).state ≡ st
        → (q : Queue) → queue_of st ≡ some q
        → same_queue sq q ≡ false
        → {r : Ret × State} → (fail esrch, requested t s) ≡ r
        → cancel_live cleanup t s ≡ r
    unfolding cancel_live
    live-suspended st e q qe ne is =
        let there : contains q t s ≡ false = h.spots q t ∙ rw (at, ne) refl in
        rw (cancel_live, ==_self t, en, asy, e, qe) (not_found cleanup q there ∙ is)

    suspended_state :
        (st : ThreadState)
        → (s.tcb t).state ≡ st
        → Fits (some sq) st
        → {r : Ret × State} → (fail esrch, requested t s) ≡ r
        → cancel cleanup t s ≡ r
    unfolding cancel queue_of
    suspended_state new e f is =
        rw (cancel, ==_ne t null (place-ne-null s place h sq t at), ==_ne t s.current other, e)
          (live-suspended new e nq refl refl is)
    suspended_state ready e f is =
        rw (cancel, ==_ne t null (place-ne-null s place h sq t at), ==_ne t s.current other, e)
          (live-suspended ready e rq refl refl is)
    suspended_state waiting e f is =
        rw (cancel, ==_ne t null (place-ne-null s place h sq t at), ==_ne t s.current other, e)
          (live-suspended waiting e wq refl refl is)
    suspended_state scheduler e f is = absurd cc
    suspended_state dead e f is = absurd cc

    -- If the threads are in their places, the asynchronous cancellation of a suspended thread that
    -- allows it and is not the caller fails with ESRCH and leaves the thread suspended, only its
    -- request being noted.
    pub cancel-suspended : cancel cleanup t s ≡ (fail esrch, requested t s)
    cancel-suspended =
        suspended_state (s.tcb t).state refl (subst (λ o. Fits o (s.tcb t).state) at (h.fits t))
          refl

module _ (s : State) (place : Ptr → Option Queue) (h : Placed s place) (t : Ptr) (q : Queue) where
  is_at_back :
      (a : Ptr)
      → place t ≡ some q
      → same_queue q sq ≡ false
      → is_at sq (update (update (update (update place t none) t (some sq)) t none) t (some q) a)
        ≡ is_at sq (place a)
  is_at_back a at ne = elim (Bool-cases (t == a)) [
    | inl e ↦ rw (e, ne, ← (==_iff t a).0 e, at) (sym ne)
    | inr e ↦ rw e refl
  ]

  -- If the threads are in their places, a thread of the queue of its state, neither the running
  -- one nor the scheduler, that is suspended and resumed is back in that queue, at the standard
  -- priority whatever its own was, and the queue of suspended threads has the members that it had.
  pub suspend-resume :
      place t ≡ some q
      → queue_of (s.tcb t).state ≡ some q
      → t ≢ s.sched
      → t ≢ s.current
      → ((resume t (suspend t s).1).0 ≡ yes_ret)
        × ((resume t (suspend t s).1).1.queue q
            ≡ Spec.insert prio_std t (Spec.delete t (s.queue q)))
        × ((a : Ptr) → contains sq a (resume t (suspend t s).1).1 ≡ contains sq a s)
  suspend-resume at st ns nc =
      let (fit, fit_sq) = queue_of-Fits (s.tcb t).state q st in
      let (ne, ne') = queue_of-sq (s.tcb t).state q st in
      let s1 = insert sq prio_std t (delete q t s) in
      let place1 = update (update place t none) t (some sq) in
      let at1 : place1 t ≡ some sq = ground arith in
      let h1 = moved-Placed s place h t q sq at fit_sq in
      let h2 = moved-Placed s1 place1 h1 t sq q at1 fit in
      rw (suspend-moves s place h t q at st ns nc, resume-moves s1 place1 h1 t q at1 st ns nc)
        (
          refl,
          rw (same_queue_self q, ne') refl,
          λ a. h2.spots sq a ∙ is_at_back a at ne ∙ sym (h.spots sq a),
        )
