-- ===== src/Manager/Wakes.antt =====
-- The last loop: the threads that it makes ready are those with an event that is not pending.
use pth.Base.{
  ℕ, zero, suc, ◌≡◌, refl, ◌∙◌, sym, ap, Bool, true, false, not, ◌||◌, List, [], ◌∷◌, arith, Ptr,
  has, has-append, Distinct, Distinct-append, if_intro, subst,
}
use pth.Base.Int.{ℤ}
use pth.Event.{Args, on_fd, on_select, on_sigs, on_cond}
use pth.Event.Cycles.{is_pending}
use pth.Threads
use pth.Threads.Scheduler.{wake, wake_all}
use pth.Pqueue.Spec.{Entry}
use pth.Manager.{State, SigSet}
use pth.Manager.Late.{
  Found, recheck, late_fd, late_select, take_selected, late_sig, late_sigs, late_pending,
  clean_cond, late_event, late_ring, late_thread, late_all,
}
use pth.Manager.Once.{events_of}

-- Only the statuses of the events of `es` may differ, and no thread.
record Changes (es : List Ptr) (s s1 : State) : Type 0 where
  pub others : (u : Ptr) → has u es ≡ false → s1.events.ev_status u ≡ s.events.ev_status u
  pub ring : s1.ring ≡ s.ring
  pub threads : s1.threads ≡ s.threads

Changes-refl : (es : List Ptr) (s : State) → Changes es s s
Changes-refl es s = record { others = λ u out. refl; ring = refl; threads = refl }

Changes-trans :
    {es : List Ptr} {s s1 s2 : State} → Changes es s s1 → Changes es s1 s2 → Changes es s s2
Changes-trans h k = record {
  others = λ u out. k.others u out ∙ h.others u out;
  ring = k.ring ∙ h.ring;
  threads = k.threads ∙ h.threads;
}

module _ (f : Found) (e : Ptr) where
  recheck-Changes : (s : State) → Changes (e ∷ []) s (recheck f e s)
  unfolding recheck
  recheck-Changes s = record {
    others = λ u out. ground arith;
    ring = ground arith;
    threads = ground arith;
  }

  late_sig-Changes : (sigp : Ptr) (sig : ℕ) (s : State) → Changes (e ∷ []) s (late_sig e sigp sig s)
  unfolding late_sig
  late_sig-Changes sigp sig s = record {
    others = λ u out. ground arith;
    ring = ground arith;
    threads = ground arith;
  }

  late_sigs-Changes :
      (left sig : ℕ) (set : SigSet) (sigp : Ptr) (s : State)
      → Changes (e ∷ []) s (late_sigs left sig set e sigp s)
  unfolding late_sigs
  late_sigs-Changes zero sig set sigp s = Changes-refl (e ∷ []) s
  late_sigs-Changes (suc k) sig set sigp s =
      if_intro (λ r. Changes (e ∷ []) s (late_sigs k (suc sig) set e sigp r)) (set sig)
        (λ _.
          Changes-trans (late_sig-Changes sigp sig s)
            (late_sigs-Changes k (suc sig) set sigp (late_sig e sigp sig s)))
        (λ _. late_sigs-Changes k (suc sig) set sigp s)

  late_fd-Changes : (fd : ℤ) (goal : ℕ) (s : State) → Changes (e ∷ []) s (late_fd f e fd goal s)
  unfolding late_fd
  late_fd-Changes fd goal s =
      if_intro (Changes (e ∷ []) s) _
        (λ _. record { others = λ u out. ground arith; ring = refl; threads = refl })
        (λ _. recheck-Changes s)

  take_selected-Changes :
      (n : Ptr) (nfd : ℤ) (r w x : Ptr) (s : State)
      → Changes (e ∷ []) s (take_selected f e n nfd r w x s)
  unfolding take_selected
  take_selected-Changes n nfd r w x s = record {
    others = λ u out. ground arith;
    ring = ground arith;
    threads = ground arith;
  }

  late_select-Changes :
      (n : Ptr) (nfd : ℤ) (r w x : Ptr) (s : State)
      → Changes (e ∷ []) s (late_select f e n nfd r w x s)
  unfolding late_select
  late_select-Changes n nfd r w x s =
      if_intro (Changes (e ∷ []) s) {x = take_selected f e n nfd r w x s} _
        (λ _. take_selected-Changes n nfd r w x s) (λ _. recheck-Changes s)

  late_pending-Changes :
      (a : Args) (goal : ℕ) (s : State) → Changes (e ∷ []) s (late_pending f e a goal s)
  unfolding late_pending
  late_pending-Changes (on_fd fd) goal s = late_fd-Changes fd goal s
  late_pending-Changes (on_select n nfd r w x) goal s = late_select-Changes n nfd r w x s
  late_pending-Changes (on_sigs sigs sig) goal s = late_sigs-Changes 31 1 (s.sigs sigs) sig s
  late_pending-Changes a goal s = Changes-refl (e ∷ []) s

  clean_cond-Changes : (a : Args) (s : State) → Changes (e ∷ []) s (clean_cond a s)
  unfolding clean_cond
  clean_cond-Changes (on_cond c) s = record {
    others = λ u out. ground arith;
    ring = ground arith;
    threads = ground arith;
  }
  clean_cond-Changes a s = Changes-refl (e ∷ []) s

  late_event-Changes : (s : State) → Changes (e ∷ []) s (late_event f e s)
  unfolding late_event
  late_event-Changes s =
      if_intro (Changes (e ∷ []) s) (is_pending (s.events.ev_status e))
        (λ _. late_pending-Changes (s.events.ev_args e) (s.events.ev_goal e) s)
        (λ _. clean_cond-Changes (s.events.ev_args e) s)

-- Some event of a list is not pending.
abbrev pub any_done : State → List Ptr → Bool
any_done s [] = false
any_done s (e ∷ es) = not (is_pending (s.events.ev_status e)) || any_done s es

any_done-same :
    (es ys : List Ptr) (s s1 : State)
    → Changes es s s1
    → ((u : Ptr) → has u ys ≡ true → has u es ≡ false)
    → any_done s1 ys ≡ any_done s ys
any_done-same es [] s s1 h apart = refl
any_done-same es (y ∷ ys) s s1 h apart = rw (h.others y (apart y (ground arith))) (
    ap (λ b. not (is_pending (s.events.ev_status y)) || b)
      (any_done-same es ys s s1 h (λ u i. apart u (ground arith))))

Changes-more :
    (es ys : List Ptr) (s s1 : State)
    → ((u : Ptr) → has u ys ≡ false → has u es ≡ false)
    → Changes es s s1
    → Changes ys s s1
Changes-more es ys s s1 sub h = record {
  others = λ u out. h.others u (sub u out);
  ring = h.ring;
  threads = h.threads;
}

module _ (f : Found) where
  late_ring-Changes :
      (es : List Ptr) (s : State) (any : Bool) → Changes es s (late_ring f es (s, any)).0
  unfolding late_ring
  late_ring-Changes [] s any = Changes-refl [] s
  late_ring-Changes (e ∷ es) s any =
      Changes-trans
        (Changes-more (e ∷ []) (e ∷ es) s (late_event f e s) (λ u out. ground arith)
          (late_event-Changes f e s))
        (Changes-more es (e ∷ es) (late_event f e s) _ (λ u out. ground arith)
          (late_ring-Changes es (late_event f e s) _))

  late_ring-any :
      (es : List Ptr) (s : State) (any : Bool)
      → Distinct es
      → (late_ring f es (s, any)).1 ≡ (any_done (late_ring f es (s, any)).0 es || any)
  unfolding late_ring
  late_ring-any [] s any d = refl
  late_ring-any (e ∷ es) s any d =
      let s1 = late_event f e s in
      let this = not (is_pending (s1.events.ev_status e)) in
      let r = late_ring f es (s1, (this || any)) in
      let same = (late_ring-Changes es s1 (this || any)).others e d.0 in
      late_ring-any es s1 (this || any) d.1 ∙ rw same (ground arith)

or_false : (b : Bool) → (b || false) ≡ b
or_false true = refl
or_false false = refl

wake-same :
    (o o' : Ptr → Bool) (t : Ptr) (s : Threads.State) → o t ≡ o' t → wake o t s ≡ wake o' t s
unfolding wake
wake-same o o' t s h = rw h refl

-- The list of the threads is fixed, and so is the function at its members.
wake_all-same :
    (o : Ptr → Bool) (x : Entry) (xs : List Entry) (s s1 : Threads.State)
    → wake o x.0 s ≡ s1
    → wake_all o (x ∷ xs) s ≡ wake_all o xs s1
unfolding wake_all
wake_all-same o x xs s s1 h = ap (wake_all o xs) h

module _ (f : Found) where
  -- What a scan of the last loop leaves outside the events of its threads.
  record Later (es : List Ptr) (s s1 : State) : Type 0 where
    pub others : (u : Ptr) → has u es ≡ false → s1.events.ev_status u ≡ s.events.ev_status u
    pub ring : s1.ring ≡ s.ring

  late_thread-Later : (t : Ptr) (s : State) → Later (s.ring t) s (late_thread f t s)
  unfolding late_thread
  late_thread-Later t s =
      let h = late_ring-Changes f (s.ring t) s false in record { others = h.others; ring = h.ring }

  late_all-Later : (xs : List Entry) (s : State) → Later (events_of s.ring xs) s (late_all f xs s)
  unfolding late_all
  late_all-Later [] s = record { others = λ u out. refl; ring = refl }
  late_all-Later (x ∷ xs) s =
      let s1 = late_thread f x.0 s in
      let h = late_thread-Later x.0 s in
      let k : Later (events_of s.ring xs) s1 (late_all f xs s1) =
        subst (λ g. Later (events_of g xs) s1 (late_all f xs s1)) h.ring (late_all-Later xs s1) in
      record {
        others = λ u out.
            let e = has-append u (s.ring x.0) (events_of s.ring xs) in
            k.others u (ground (arith, e)) ∙ h.others u (ground (arith, e));
        ring = k.ring ∙ h.ring;
      }

  any_done-Later :
      (es ys : List Ptr) (s s1 : State)
      → Later es s s1
      → ((u : Ptr) → has u ys ≡ true → has u es ≡ false)
      → any_done s1 ys ≡ any_done s ys
  any_done-Later es [] s s1 h apart = refl
  any_done-Later es (y ∷ ys) s s1 h apart = rw (h.others y (apart y (ground arith))) (
      ap (λ b. not (is_pending (s.events.ev_status y)) || b)
        (any_done-Later es ys s s1 h (λ u i. apart u (ground arith))))

  -- The thread is made ready if one of its events is not pending now.
  late_thread-wake :
      (o : Ptr → Bool) (t : Ptr) (s : State)
      → Distinct (s.ring t)
      → o t ≡ any_done (late_thread f t s) (s.ring t)
      → wake o t s.threads ≡ (late_thread f t s).threads
  unfolding late_thread
  late_thread-wake o t s d h =
      let r = late_ring f (s.ring t) (s, false) in
      let e : o t ≡ r.1 = h ∙ sym (late_ring-any f (s.ring t) s false d ∙ or_false _) in
      wake-same o (λ _. r.1) t s.threads e
      ∙ ap (wake (λ _. r.1) t) (sym (late_ring-Changes f (s.ring t) s false).threads)

  pub late_all-wakes :
      (xs : List Entry) (s : State)
      → Distinct (events_of s.ring xs)
      → (late_all f xs s).threads
        ≡ wake_all (λ t. any_done (late_all f xs s) (s.ring t)) xs s.threads
  unfolding late_all
  late_all-wakes [] s d = unfold wake_all in refl
  late_all-wakes (x ∷ xs) s d =
      let (d1, d2, apart) = Distinct-append (s.ring x.0) (events_of s.ring xs) d in
      let s1 = late_thread f x.0 s in
      let last = late_all f xs s1 in
      let o = λ (g : Ptr → List Ptr) (t : Ptr). any_done last (g t) in
      let same = (late_thread-Later x.0 s).ring in
      let d' = subst (λ g. Distinct (events_of g xs)) (sym same) d2 in
      let ih : last.threads ≡ wake_all (o s.ring) xs s1.threads =
        subst (λ g. last.threads ≡ wake_all (o g) xs s1.threads) same (late_all-wakes xs s1 d') in
      let later : Later (events_of s.ring xs) s1 last =
        subst (λ g. Later (events_of g xs) s1 last) same (late_all-Later xs s1) in
      let now =
        late_thread-wake (o s.ring) x.0 s d1
          (any_done-Later (events_of s.ring xs) (s.ring x.0) s1 last later apart) in
      ih ∙ sym (wake_all-same (o s.ring) x xs s.threads s1.threads now)
