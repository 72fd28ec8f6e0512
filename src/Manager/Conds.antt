-- ===== src/Manager/Conds.antt =====
-- Condition variables in the scan of one event.
use pth.Base.{
  ℕ, zero, suc, ◌≡◌, refl, ◌≢◌, ◌∙◌, ap, Bool, true, false, not, ◌&&◌, ◌||◌, arith, ◌==◌,
  if◌then◌else◌, Ptr, if_intro, Bool-cases, inl, inr, ltb,
}
use pth.Base.Int.{pos, ltb_ℤ}
use pth.Time
use pth.Time.{Time}
use pth.Event.{
  occurred, Args, on_fd, on_select, on_sigs, on_time, on_msg, on_mutex, on_cond, on_tid, on_func,
}
use pth.Event.Cycles.{is_pending}
use pth.Manager.{State, Polls, SigSet}
use pth.Manager.Scan.{
  scan_event, scan_args, tag, scan_sigs, scan_sig_thread, scan_sig_process, scan_cond, scan_tid,
  next_timer,
}

-- An event waits for the condition variable `c`.
abbrev pub is_cond : Ptr → Args → Bool
is_cond c (on_cond d) = c == d
is_cond c _ = false

abbrev pub waits_for : Ptr → State → Ptr → Bool
waits_for c s e = is_pending (s.events.ev_status e) && is_cond c (s.events.ev_args e)

-- The parts of the state that signals do not touch.
record Same (s s1 : State) : Type 0 where
  pub same_events : s1.events ≡ s.events
  pub same_cond : s1.cond ≡ s.cond
  pub same_ring : s1.ring ≡ s.ring
  pub same_threads : s1.threads ≡ s.threads

Same-refl : (s : State) → Same s s
Same-refl s = record { same_events = refl; same_cond = refl; same_ring = refl; same_threads = refl }

scan_sig_thread-Same :
    (t sigp : Ptr) (sig : ℕ) (s : State) (b : Bool) → Same s (scan_sig_thread t sigp sig (s, b)).0
unfolding scan_sig_thread
scan_sig_thread-Same t sigp sig s b = ground arith

scan_sig_process-Same :
    (sigp : Ptr) (sig : ℕ) (s : State) (b : Bool) → Same s (scan_sig_process sigp sig (s, b)).0
unfolding scan_sig_process
scan_sig_process-Same sigp sig s b = ground arith

Same-trans : {s s1 s2 : State} → Same s s1 → Same s1 s2 → Same s s2
Same-trans h k = record {
  same_events = k.same_events ∙ h.same_events;
  same_cond = k.same_cond ∙ h.same_cond;
  same_ring = k.same_ring ∙ h.same_ring;
  same_threads = k.same_threads ∙ h.same_threads;
}

scan_sigs-Same :
    (left sig : ℕ) (set : SigSet) (t sigp : Ptr) (s : State) (b : Bool)
    → Same s (scan_sigs left sig set t sigp (s, b)).0
unfolding scan_sigs
scan_sigs-Same zero sig set t sigp s b = Same-refl s
scan_sigs-Same (suc k) sig set t sigp s b =
    let a = scan_sig_thread t sigp sig (s, b) in
    let both = scan_sig_process sigp sig a in
    let h =
      Same-trans (scan_sig_thread-Same t sigp sig s b) (scan_sig_process-Same sigp sig a.0 a.1) in
    if_intro (λ r. Same s (scan_sigs k (suc sig) set t sigp r).0) (set sig)
      (λ _. Same-trans h (scan_sigs-Same k (suc sig) set t sigp both.0 both.1))
      (λ _. scan_sigs-Same k (suc sig) set t sigp s b)

-- One event: `waiting` tells whether it waits for `c`.
pub record Step (c e : Ptr) (waiting : Bool) (s s1 : State) : Type 0 where
  pub others : (u : Ptr) → u ≢ e → s1.events.ev_status u ≡ s.events.ev_status u
  pub args : (u : Ptr) → s1.events.ev_args u ≡ s.events.ev_args u
  pub ring : s1.ring ≡ s.ring
  pub threads : s1.threads ≡ s.threads
  pub signaled : (s1.cond c).signaled ≡ (s.cond c).signaled
  pub broadcast : (s1.cond c).broadcast ≡ (s.cond c).broadcast
  pub handled :
      (s.cond c).signaled ≡ true
      → (s.cond c).broadcast ≡ false
      → (s1.cond c).handled ≡ ((s.cond c).handled || waiting)
  pub status :
      (s.cond c).signaled ≡ true
      → (s.cond c).broadcast ≡ false
      → waiting ≡ true
      → s1.events.ev_status e ≡ (if (s.cond c).handled then s.events.ev_status e else occurred)

-- An event that does not wait for `c` leaves the condition variable alone.
Step-Same :
    (c e : Ptr) (b : Bool) (s s1 : State) (p : Polls)
    → Same s s1
    → Step c e false s (tag e ((s1, b), p)).0
unfolding tag
Step-Same c e true s s1 p h = record {
  others = λ u ne. ground (arith, ap (λ x. x.ev_status u) h.same_events);
  args = λ u. ap (λ x. x.ev_args u) h.same_events;
  ring = h.same_ring;
  threads = h.same_threads;
  signaled = ap (λ x. (x c).signaled) h.same_cond;
  broadcast = ap (λ x. (x c).broadcast) h.same_cond;
  handled = λ p q. ground (arith, ap (λ x. (x c).handled) h.same_cond);
  status = λ p q r. absurd (cc);
}
Step-Same c e false s s1 p h = record {
  others = λ u ne. ap (λ x. x.ev_status u) h.same_events;
  args = λ u. ap (λ x. x.ev_args u) h.same_events;
  ring = h.same_ring;
  threads = h.same_threads;
  signaled = ap (λ x. (x c).signaled) h.same_cond;
  broadcast = ap (λ x. (x c).broadcast) h.same_cond;
  handled = λ p q. ground (arith, ap (λ x. (x c).handled) h.same_cond);
  status = λ p q r. absurd (cc);
}

scan_cond-Step :
    (c d e : Ptr) (s : State) (p : Polls) → Step c e (c == d) s (tag e (scan_cond d s, p)).0
unfolding scan_cond tag
scan_cond-Step c d e s p = record {
  others = λ u ne. ground arith;
  args = λ u. ground arith;
  ring = ground arith;
  threads = ground arith;
  signaled = ground arith;
  broadcast = ground arith;
  handled = λ h k. ground arith;
  status = λ h k w. ground arith;
}

module _ (c : Ptr) (func : Ptr → Ptr → Bool) (now : Time) (t e : Ptr) (s : State) (p : Polls) where
  args-Step :
      (a : Args) (goal : ℕ) → Step c e (is_cond c a) s (tag e (scan_args func now t e a goal s p)).0
  unfolding scan_args
  args-Step (on_fd fd) goal = Step-Same c e false s s _ (Same-refl s)
  args-Step (on_select n nfd rfds wfds efds) goal = Step-Same c e false s s _ (Same-refl s)
  args-Step (on_sigs sigs sig) goal =
      let r = scan_sigs 31 1 (s.sigs sigs) t sig (s, false) in
      Step-Same c e r.1 s r.0 p (scan_sigs-Same 31 1 (s.sigs sigs) t sig s false)
  args-Step (on_time tv) goal =
      if_intro (λ r. Step c e false s (tag e r).0) (ltb_ℤ (Time.cmp tv now) (pos 0))
        (λ _. Step-Same c e true s s p (Same-refl s))
        (λ _. Step-Same c e false s s (next_timer t e tv p) (Same-refl s))
  args-Step (on_msg mp) goal = Step-Same c e (ltb 0 (s.elements mp)) s s p (Same-refl s)
  args-Step (on_mutex mutex) goal = Step-Same c e (not (s.locked mutex)) s s p (Same-refl s)
  args-Step (on_cond cond) goal = scan_cond-Step c cond e s p
  args-Step (on_tid tid) goal = Step-Same c e (scan_tid tid goal s) s s p (Same-refl s)
  args-Step (on_func f arg tv) goal =
      if_intro (λ r. Step c e false s (tag e r).0) (func f arg)
        (λ _. Step-Same c e true s s p (Same-refl s))
        (λ _. Step-Same c e false s s (next_timer t e (Time.add now tv) p) (Same-refl s))

  not_scanned : Step c e false s s
  not_scanned = record {
    others = λ u ne. refl;
    args = λ u. refl;
    ring = refl;
    threads = refl;
    signaled = refl;
    broadcast = refl;
    handled = λ h k. ground arith;
    status = λ h k w. absurd (cc);
  }

  pub scan_event-Step : Step c e (waits_for c s e) s (scan_event func now t e (s, p)).0
  unfolding scan_event
  scan_event-Step = elim (Bool-cases (is_pending (s.events.ev_status e))) [
    | inl h ↦ rw h (args-Step (s.events.ev_args e) (s.events.ev_goal e))
    | inr h ↦ rw h not_scanned
  ]
