-- ===== src/Signals/Pass.antt =====
-- A pass of the event manager and the count of pending signals.
use pth.Base.{
  ℕ, zero, suc, ◌≡◌, ◌∙◌, sym, ap, Bool, true, false, not, ◌||◌, Option, none, some, List, [], ◌∷◌,
  ◌==◌, arith, Ptr, null, if_intro,
}
use pth.Base.Int.{ℤ, pos, ltb_ℤ}
use pth.Time
use pth.Time.{Time}
use pth.Event.{Args, on_fd, on_select, on_sigs, on_time, on_msg, on_mutex, on_cond, on_tid, on_func}
use pth.Event.Cycles.{is_pending}
use pth.Pqueue.Spec.{Entry}
use pth.Manager.{SigSet, State, Polls}
use pth.Manager.Scan.{scan_args, tag, scan_cond, scan_event, scan_ring, scan_thread, scan_all}
use pth.Manager.Late.{
  Found, recheck, late_fd, take_selected, late_select, late_sig, late_sigs, late_pending,
  clean_cond, late_event, late_ring, late_thread, late_all,
}
use pth.Util.{fd_set}
use pth.Threads.{wq}
use pth.Manager.Scan.{max_ℤ}
use pth.Manager.Round.{
  Env, round, elapsed, start_signals, start_polls, choose_delay, found, without_pipe,
}
use pth.Signals.Count.{AllCounted, number, scan_sigs-AllCounted}

-- Where the signals of threads are not touched.
record SameSignals (s s1 : State) : Type 0 where
  pub pending : s1.sigpending ≡ s.sigpending
  pub cnt : s1.sigpendcnt ≡ s.sigpendcnt

same-AllCounted : {s s1 : State} → SameSignals s s1 → AllCounted s → AllCounted s1
same-AllCounted p h u = ap (λ g. g u) p.cnt ∙ h u ∙ ap (λ g. pos (number (g u))) (sym p.pending)

scan_cond-SameSignals : (c : Ptr) (s : State) → SameSignals s (scan_cond c s).0
unfolding scan_cond
scan_cond-SameSignals c s = record { pending = ground arith; cnt = ground arith }

module _ (func : Ptr → Ptr → Bool) (now : Time) where
  scan_args-AllCounted :
      (t e : Ptr) (a : Args) (goal : ℕ) (s : State) (p : Polls)
      → AllCounted s
      → AllCounted (scan_args func now t e a goal s p).0.0
  unfolding scan_args
  scan_args-AllCounted t e (on_fd fd) goal s p h = h
  scan_args-AllCounted t e (on_select n nfd r w x) goal s p h = h
  scan_args-AllCounted t e (on_sigs sigs sig) goal s p h =
      scan_sigs-AllCounted t sig 31 1 (s.sigs sigs) (s, false) (omega arith) (omega arith) h
  scan_args-AllCounted t e (on_time tv) goal s p h =
      if_intro (λ (r : (State × Bool) × Polls). AllCounted r.0.0) (ltb_ℤ (Time.cmp tv now) (pos 0))
        (λ _. h) (λ _. h)
  scan_args-AllCounted t e (on_msg mp) goal s p h = h
  scan_args-AllCounted t e (on_mutex mutex) goal s p h = h
  scan_args-AllCounted t e (on_cond cond) goal s p h =
      same-AllCounted (scan_cond-SameSignals cond s) h
  scan_args-AllCounted t e (on_tid tid) goal s p h = h
  scan_args-AllCounted t e (on_func f arg tv) goal s p h =
      if_intro (λ (r : (State × Bool) × Polls). AllCounted r.0.0) (func f arg) (λ _. h) (λ _. h)

  tag-AllCounted :
      (e : Ptr) (r : (State × Bool) × Polls) → AllCounted r.0.0 → AllCounted (tag e r).0
  unfolding tag
  tag-AllCounted e ((s, true), p) h = h
  tag-AllCounted e ((s, false), p) h = h

  scan_ring-AllCounted :
      (t : Ptr) (es : List Ptr) (r : State × Polls)
      → AllCounted r.0
      → AllCounted (scan_ring func now t es r).0
  unfolding scan_ring scan_event
  scan_ring-AllCounted t [] r h = h
  scan_ring-AllCounted t (e ∷ es) (s, p) h =
      if_intro (λ x. AllCounted (scan_ring func now t es x).0) (is_pending (s.events.ev_status e))
        (λ _. scan_ring-AllCounted t es _ (
          tag-AllCounted e _
            (scan_args-AllCounted t e (s.events.ev_args e) (s.events.ev_goal e) s p h)))
        (λ _. scan_ring-AllCounted t es (s, p) h)

  scan_all-AllCounted :
      (xs : List Entry) (r : State × Polls) → AllCounted r.0 → AllCounted (scan_all func now xs r).0
  unfolding scan_all scan_thread
  scan_all-AllCounted [] r h = h
  scan_all-AllCounted (x ∷ xs) (s, p) h =
      scan_all-AllCounted xs _ (scan_ring-AllCounted x.0 (s.ring x.0) _ h)

module _ (f : Found) where
  late_fd-SameSignals :
      (e : Ptr) (fd : ℤ) (goal : ℕ) (s : State) → SameSignals s (late_fd f e fd goal s)
  unfolding late_fd recheck
  late_fd-SameSignals e fd goal s = record { pending = ground arith; cnt = ground arith }

  late_select-SameSignals :
      (e n : Ptr) (nfd : ℤ) (r w x : Ptr) (s : State)
      → SameSignals s (late_select f e n nfd r w x s)
  unfolding late_select recheck take_selected
  late_select-SameSignals e n nfd r w x s = record { pending = ground arith; cnt = ground arith }

  late_sigs-AllCounted :
      (left sig : ℕ) (set : SigSet) (e sigp : Ptr) (s : State)
      → AllCounted s
      → AllCounted (late_sigs left sig set e sigp s)
  unfolding late_sigs late_sig
  late_sigs-AllCounted zero sig set e sigp s h = h
  late_sigs-AllCounted (suc k) sig set e sigp s h =
      let P = λ (s1 : State). AllCounted (late_sigs k (suc sig) set e sigp s1) in
      let go =
        λ (s1 : State) (i : AllCounted s1). late_sigs-AllCounted k (suc sig) set e sigp s1 i in
      if_intro P (set sig)
        (λ _.
          if_intro P (s.pth_sigraised sig)
            (λ _. go _ (if_intro AllCounted (not (sigp == null)) (λ _. h) (λ _. h))) (λ _. go s h))
        (λ _. go s h)

  late_pending-AllCounted :
      (e : Ptr) (a : Args) (goal : ℕ) (s : State)
      → AllCounted s
      → AllCounted (late_pending f e a goal s)
  unfolding late_pending
  late_pending-AllCounted e (on_fd fd) goal s h =
      same-AllCounted (late_fd-SameSignals e fd goal s) h
  late_pending-AllCounted e (on_select n nfd r w x) goal s h =
      same-AllCounted (late_select-SameSignals e n nfd r w x s) h
  late_pending-AllCounted e (on_sigs sigs sig) goal s h =
      late_sigs-AllCounted 31 1 (s.sigs sigs) e sig s h
  late_pending-AllCounted e (on_time tv) goal s h = h
  late_pending-AllCounted e (on_msg mp) goal s h = h
  late_pending-AllCounted e (on_mutex mutex) goal s h = h
  late_pending-AllCounted e (on_cond cond) goal s h = h
  late_pending-AllCounted e (on_tid tid) goal s h = h
  late_pending-AllCounted e (on_func g arg tv) goal s h = h

  clean_cond-SameSignals : (c : Ptr) (s : State) → SameSignals s (clean_cond (on_cond c) s)
  unfolding clean_cond
  clean_cond-SameSignals c s = record { pending = ground arith; cnt = ground arith }

  clean_cond-AllCounted : (a : Args) (s : State) → AllCounted s → AllCounted (clean_cond a s)
  unfolding clean_cond
  clean_cond-AllCounted (on_fd fd) s h = h
  clean_cond-AllCounted (on_select n nfd r w x) s h = h
  clean_cond-AllCounted (on_sigs sigs sig) s h = h
  clean_cond-AllCounted (on_time tv) s h = h
  clean_cond-AllCounted (on_msg mp) s h = h
  clean_cond-AllCounted (on_mutex mutex) s h = h
  clean_cond-AllCounted (on_cond c) s h = same-AllCounted (clean_cond-SameSignals c s) h
  clean_cond-AllCounted (on_tid tid) s h = h
  clean_cond-AllCounted (on_func g arg tv) s h = h

  late_ring-AllCounted :
      (es : List Ptr) (r : State × Bool) → AllCounted r.0 → AllCounted (late_ring f es r).0
  unfolding late_ring late_event
  late_ring-AllCounted [] r h = h
  late_ring-AllCounted (e ∷ es) (s, any) h = late_ring-AllCounted es _ (
      if_intro AllCounted (is_pending (s.events.ev_status e))
        (λ _. late_pending-AllCounted e (s.events.ev_args e) (s.events.ev_goal e) s h)
        (λ _. clean_cond-AllCounted (s.events.ev_args e) s h))

  late_all-AllCounted : (xs : List Entry) (s : State) → AllCounted s → AllCounted (late_all f xs s)
  unfolding late_all late_thread
  late_all-AllCounted [] s h = h
  late_all-AllCounted (x ∷ xs) s h =
      late_all-AllCounted xs _ (late_ring-AllCounted (s.ring x.0) (s, false) h)

elapsed-SameSignals :
    (dopoll : Bool) (rc : ℤ) (timer : Ptr × Ptr × Time) (s : State)
    → SameSignals s (elapsed dopoll rc (some timer) s).1
unfolding elapsed
elapsed-SameSignals dopoll rc (t, e, v) s = record { pending = ground arith; cnt = ground arith }

elapsed-AllCounted :
    (dopoll : Bool) (rc : ℤ) (timer : Option (Ptr × Ptr × Time)) (s : State)
    → AllCounted s
    → AllCounted (elapsed dopoll rc timer s).1
unfolding elapsed
elapsed-AllCounted dopoll rc none s h = h
elapsed-AllCounted dopoll rc (some (t, e, v)) s h =
    same-AllCounted (elapsed-SameSignals dopoll rc (t, e, v) s) h

pub round-AllCounted :
    (pipe : ℕ) (dopoll : Bool) (env : Env) (s : State)
    → AllCounted s
    → AllCounted (round pipe dopoll env s).1
unfolding round start_signals
round-AllCounted pipe dopoll env s h =
    let scanned =
      scan_all env.func env.now (s.threads.queue wq)
        (start_signals env.pending_signals s, start_polls) in
    let p = scanned.1 in
    let poll = dopoll || p.any_occurred in
    let x =
      env.select (choose_delay poll env.now p.nexttimer) (max_ℤ p.fdmax (pos pipe))
        (fd_set pipe p.rfds) p.wfds p.efds in
    let s1 = record scanned.0 { pth_sigraised = x.raised } in
    let t = elapsed poll x.rc p.nexttimer s1 in
    late_all-AllCounted (found (without_pipe pipe poll x) env.recheck_fails) (t.1.threads.queue wq)
      t.1
      (elapsed-AllCounted poll x.rc p.nexttimer s1 (
        scan_all-AllCounted env.func env.now (s.threads.queue wq)
          (start_signals env.pending_signals s, start_polls) h))
