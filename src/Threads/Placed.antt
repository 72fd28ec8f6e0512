-- ===== src/Threads/Placed.antt =====
-- The queues of src/pth_sched.c and the states of src/pth_p.h: the place of each thread.
use pth.Base.{
  ◌≡◌, refl, ◌≢◌, Bool, true, false, Option, none, some, List, [], ◌∷◌, ◌==◌, arith, Ptr, null,
  update, has, Distinct, sym, ◌∙◌, ==_iff, ==_self, ==_ne, if_intro, ne_of_==_false, subst,
  Bool-cases, inl, inr, ◌⊎◌, ap,
}
use pth.Base.Int.{ℤ, ltb_ℤ}
use pth.Pqueue.Spec
use pth.Pqueue.Spec.{Entry, threads, IsSorted}
use pth.Pqueue.Order.{insert-IsSorted, delete-IsSorted, has-insert, has-delete, not-has-delete}
use pth.Threads.{
  ThreadState, new, ready, waiting, dead, Queue, nq, rq, wq, sq, dq, State, same_queue, contains,
  delete, insert, set_queue, set_tcb, Tcb,
}

abbrev pub is_at : Queue → Option Queue → Bool
is_at q none = false
is_at q (some q') = same_queue q' q

-- The states that a thread of a queue may be in; a suspended thread keeps the state it had.
abbrev pub Fits : Option Queue → ThreadState → Type 0
Fits none st = Unit {0}
Fits (some nq) st = st ≡ new
Fits (some rq) st = st ≡ ready
Fits (some wq) st = st ≡ waiting
Fits (some dq) st = st ≡ dead
Fits (some sq) new = Unit {0}
Fits (some sq) ready = Unit {0}
Fits (some sq) waiting = Unit {0}
Fits (some sq) st = st ≡ new

pub record Placed (s : State) (place : Ptr → Option Queue) : Type 0 where
  pub spots : (q : Queue) (t : Ptr) → contains q t s ≡ is_at q (place t)
  pub distinct : (q : Queue) → Distinct (threads (s.queue q))
  pub sorted : (q : Queue) → IsSorted (s.queue q)
  pub fits : (t : Ptr) → Fits (place t) (s.tcb t).state
  pub null_out : place null ≡ none

pub same_queue_self : (q : Queue) → same_queue q q ≡ true
same_queue_self nq = refl
same_queue_self rq = refl
same_queue_self wq = refl
same_queue_self sq = refl
same_queue_self dq = refl

Distinct-Spec-delete :
    (t : Ptr) (xs : List Entry) → Distinct (threads xs) → Distinct (threads (Spec.delete t xs))
unfolding Spec.delete
Distinct-Spec-delete t [] d = tt
Distinct-Spec-delete t (e ∷ xs) d =
    if_intro (λ (ys : List Entry). Distinct (threads ys)) (e.0 == t) (λ i. d.1)
      (λ i. (
        ground (arith, d.0, has-delete e.0 t xs (λ p. ne_of_==_false e.0 t i p)),
        Distinct-Spec-delete t xs d.1,
      ))

Distinct-Spec-insert :
    (p : ℤ) (t : Ptr) (xs : List Entry)
    → Distinct (threads xs)
    → has t (threads xs) ≡ false
    → Distinct (threads (Spec.insert p t xs))
unfolding Spec.insert
Distinct-Spec-insert p t [] d out = (refl, tt)
Distinct-Spec-insert p t (e ∷ xs) d out =
    if_intro (λ (ys : List Entry). Distinct (threads ys)) (ltb_ℤ e.1 p) (λ i. (out, d))
      (λ i. (
        ground (arith, d.0, has-insert e.0 p t xs, out),
        Distinct-Spec-insert p t xs d.1 (ground arith),
      ))

same_queue_sym : (q q' : Queue) → same_queue q q' ≡ true → q ≡ q'
same_queue_sym nq nq e = refl
same_queue_sym nq rq e = absurd cc
same_queue_sym nq wq e = absurd cc
same_queue_sym nq sq e = absurd cc
same_queue_sym nq dq e = absurd cc
same_queue_sym rq nq e = absurd cc
same_queue_sym rq rq e = refl
same_queue_sym rq wq e = absurd cc
same_queue_sym rq sq e = absurd cc
same_queue_sym rq dq e = absurd cc
same_queue_sym wq nq e = absurd cc
same_queue_sym wq rq e = absurd cc
same_queue_sym wq wq e = refl
same_queue_sym wq sq e = absurd cc
same_queue_sym wq dq e = absurd cc
same_queue_sym sq nq e = absurd cc
same_queue_sym sq rq e = absurd cc
same_queue_sym sq wq e = absurd cc
same_queue_sym sq sq e = refl
same_queue_sym sq dq e = absurd cc
same_queue_sym dq nq e = absurd cc
same_queue_sym dq rq e = absurd cc
same_queue_sym dq wq e = absurd cc
same_queue_sym dq sq e = absurd cc
same_queue_sym dq dq e = refl

-- What holds of the one queue and of the others holds of each queue after a write.
pub set_queue_intro {ℓ} :
    (P : Queue → List Entry → Type ℓ) (q : Queue) (xs : List Entry) (s : State)
    → P q xs
    → ((q' : Queue) → same_queue q q' ≡ false → P q' (s.queue q'))
    → (q' : Queue) → P q' ((set_queue q xs s).queue q')
set_queue_intro P q xs s here there q' = elim (Bool-cases (same_queue q q')) [
  | inl e ↦ rw e (subst (λ r. P r xs) (same_queue_sym q q' e) here)
  | inr e ↦ rw e (there q' e)
]

module _ (s : State) (place : Ptr → Option Queue) (h : Placed s place) (q : Queue) (t : Ptr) where
  delete-spots :
      place t ≡ some q
      → (a : Ptr) (q' : Queue) → contains q' a (delete q t s) ≡ is_at q' (update place t none a)
  delete-spots at a q' = elim (Bool-cases (t == a)) [
    | inl e ↦
        let p : t ≡ a = (==_iff t a).0 e in
        rw (e, ← p)
          (set_queue_intro (λ r xs. has t (threads xs) ≡ false) q _ s
            (not-has-delete t (s.queue q) (h.distinct q)) (λ r i. rw (h.spots r t, at, i) refl) q')
    | inr e ↦ rw e (
        set_queue_intro (λ r xs. has a (threads xs) ≡ is_at r (place a)) q _ s
          (has-delete a t (s.queue q) (λ p. ne_of_==_false t a e (sym p)) ∙ h.spots q a)
          (λ r i. h.spots r a) q')
  ]

  insert-spots :
      (p : ℤ)
      → place t ≡ none
      → (a : Ptr) (q' : Queue)
      → contains q' a (insert q p t s) ≡ is_at q' (update place t (some q) a)
  insert-spots p out a q' = elim (Bool-cases (t == a)) [
    | inl e ↦
        let i : t ≡ a = (==_iff t a).0 e in
        rw (e, ← i)
          (set_queue_intro (λ r xs. has t (threads xs) ≡ same_queue q r) q _ s
            (has-insert t p t (s.queue q) ∙ rw (==_self t, same_queue_self q) refl)
            (λ r j. rw (h.spots r t, out, j) refl) q')
    | inr e ↦ rw e (
        set_queue_intro (λ r xs. has a (threads xs) ≡ is_at r (place a)) q _ s
          (has-insert a p t (s.queue q)
            ∙ rw (==_ne a t (λ p. ne_of_==_false t a e (sym p))) (h.spots q a))
          (λ r i. h.spots r a) q')
  ]

  -- A thread that is taken out of its queue is in none.
  pub delete-Placed : place t ≡ some q → Placed (delete q t s) (update place t none)
  delete-Placed at = record {
    spots = λ q' a. delete-spots at a q';
    distinct =
        set_queue_intro (λ r xs. Distinct (threads xs)) q _ s
          (Distinct-Spec-delete t (s.queue q) (h.distinct q)) (λ r i. h.distinct r);
    sorted =
        set_queue_intro (λ r xs. IsSorted xs) q _ s (delete-IsSorted t (s.queue q) (h.sorted q))
          (λ r i. h.sorted r);
    fits = λ a. if_intro (λ o. Fits o (s.tcb a).state) (t == a) (λ i. tt) (λ i. h.fits a);
    null_out = ground (arith, h.null_out);
  }

  -- A thread that is in no queue may go into the queue that its state names.
  pub insert-Placed :
      (p : ℤ)
      → place t ≡ none
      → t ≢ null
      → Fits (some q) (s.tcb t).state
      → Placed (insert q p t s) (update place t (some q))
  insert-Placed p out tn fit = record {
    spots = λ q' a. insert-spots p out a q';
    distinct =
        set_queue_intro (λ r xs. Distinct (threads xs)) q _ s
          (Distinct-Spec-insert p t (s.queue q) (h.distinct q) (rw (h.spots q t, out) refl))
          (λ r i. h.distinct r);
    sorted =
        set_queue_intro (λ r xs. IsSorted xs) q _ s (insert-IsSorted p t (s.queue q) (h.sorted q))
          (λ r i. h.sorted r);
    fits = λ a.
        if_intro (λ o. Fits o (s.tcb a).state) (t == a)
          (λ i. subst (λ u. Fits (some q) (s.tcb u).state) ((==_iff t a).0 i) fit) (λ i. h.fits a);
    null_out = ground (arith, h.null_out);
  }

at_some : (o : Option Queue) (q : Queue) → is_at q o ≡ true → o ≡ some q
at_some none q e = absurd cc
at_some (some q') q e = ap some (same_queue_sym q' q e)

pub some_ne : {q : Queue} → some q ≢ none
some_ne e = cc

-- What the places do not depend on may change.
pub Placed-ext :
    (s s' : State) (place : Ptr → Option Queue)
    → ((q : Queue) → s'.queue q ≡ s.queue q)
    → ((t : Ptr) → Fits (place t) (s.tcb t).state → Fits (place t) (s'.tcb t).state)
    → Placed s place
    → Placed s' place
Placed-ext s s' place queues states h = record {
  spots = λ q t. ap (λ xs. has t (threads xs)) (queues q) ∙ h.spots q t;
  distinct = λ q. rw (queues q) (h.distinct q);
  sorted = λ q. rw (queues q) (h.sorted q);
  fits = λ t. states t (h.fits t);
  null_out = h.null_out;
}

module _ (s : State) (place : Ptr → Option Queue) (h : Placed s place) where
  -- A thread that is in a queue has its place there.
  pub contains-place : (q : Queue) (t : Ptr) → contains q t s ≡ true → place t ≡ some q
  contains-place q t i = at_some (place t) q (rw (← h.spots q t) i)

  pub place-contains : (q : Queue) (t : Ptr) → place t ≡ some q → contains q t s ≡ true
  place-contains q t i = h.spots q t ∙ rw (i, same_queue_self q) refl

  -- A thread that has a place is no null.
  pub place-ne-null : (q : Queue) (t : Ptr) → place t ≡ some q → t ≢ null
  place-ne-null q t i e = some_ne (sym i ∙ ap place e ∙ h.null_out)

  -- The control block of a thread in no queue may change, and one of a thread in a queue if its
  -- state stays.
  pub set_tcb-Placed :
      (t : Ptr) (x : Tcb)
      → (place t ≡ none) ⊎ (x.state ≡ (s.tcb t).state)
      → Placed (set_tcb t x s) place
  set_tcb-Placed t x (inl out) =
      Placed-ext s (set_tcb t x s) place (λ q. refl)
        (λ a f.
          if_intro (λ (y : Tcb). Fits (place a) y.state) (t == a)
            (λ i. subst (λ o. Fits o x.state) (sym out ∙ ap place ((==_iff t a).0 i)) tt) (λ i. f))
        h
  set_tcb-Placed t x (inr e) =
      Placed-ext s (set_tcb t x s) place (λ q. refl)
        (λ a f.
          if_intro (λ (y : Tcb). Fits (place a) y.state) (t == a)
            (λ i. subst (Fits (place a)) (sym (e ∙ ap (λ u. (s.tcb u).state) ((==_iff t a).0 i))) f)
            (λ i. f))
        h
