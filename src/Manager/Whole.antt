-- ===== src/Manager/Whole.antt =====
-- A whole round of the event manager, seen from the threads.
use pth.Base.{
  ◌≡◌, refl, ◌∙◌, sym, ap, ℕ, Bool, ◌||◌, Option, none, some, Ptr, Distinct, subst, arith,
}
use pth.Base.Int.{ℤ, pos}
use pth.Time.{Time}
use pth.Util.{fd_set}
use pth.Threads.{wq}
use pth.Threads.Scheduler.{wake_all}
use pth.Manager.{State}
use pth.Manager.Scan.{scan_all, max_ℤ}
use pth.Manager.Late.{Found, late_all}
use pth.Manager.Round.{
  Env, round, elapsed, start_signals, start_polls, found, without_pipe, choose_delay,
}
use pth.Manager.Once.{events_of, scan_all-Scanned}
use pth.Manager.Wakes.{any_done, late_all-wakes}

-- The threads and the rings of events are those of `s`.
abbrev Alike : State → State → Type 0
Alike s s1 = (s1.threads ≡ s.threads) × (s1.ring ≡ s.ring)

elapsed-Alike :
    (dopoll : Bool) (rc : ℤ) (timer : Option (Ptr × Ptr × Time)) (s : State)
    → Alike s (elapsed dopoll rc timer s).1
unfolding elapsed
elapsed-Alike dopoll rc none s = (refl, refl)
elapsed-Alike dopoll rc (some (t, e, v)) s = (ground arith, ground arith)

late_all-Alike :
    (f : Found) (s s1 : State)
    → Distinct (events_of s.ring (s.threads.queue wq))
    → Alike s s1
    → let last = late_all f (s1.threads.queue wq) s1 in
      last.threads ≡ wake_all (λ t. any_done last (s.ring t)) (s.threads.queue wq) s.threads
late_all-Alike f s s1 d (h, k) =
    let last = late_all f (s1.threads.queue wq) s1 in
    let d1 : Distinct (events_of s1.ring (s1.threads.queue wq)) =
      subst (λ g. Distinct (events_of g (s1.threads.queue wq))) (sym k)
        (subst (λ th. Distinct (events_of s.ring (th.queue wq))) (sym h) d) in
    late_all-wakes f (s1.threads.queue wq) s1 d1
    ∙ ap (λ th. wake_all (λ t. any_done last (s1.ring t)) (th.queue wq) th) h
    ∙ ap (λ g. wake_all (λ t. any_done last (g t)) (s.threads.queue wq) s.threads) k

-- If no event stands twice in the rings of the waiting threads, one pass of the event manager
-- changes the threads and their queues exactly as wake_all, the abstract event manager of the
-- scheduler, does for the threads one of whose events is not pending after the pass, whatever the
-- system, the functions of the application and the signals do.
pub round-wakes :
    (pipe : ℕ) (dopoll : Bool) (env : Env) (s : State)
    → Distinct (events_of s.ring (s.threads.queue wq))
    → let last = (round pipe dopoll env s).1 in
      last.threads ≡ wake_all (λ t. any_done last (s.ring t)) (s.threads.queue wq) s.threads
unfolding round start_signals
round-wakes pipe dopoll env s d =
    let s0 = start_signals env.pending_signals s in
    let scanned = scan_all env.func env.now (s.threads.queue wq) (s0, start_polls) in
    let h = scan_all-Scanned 0 env.func env.now (s.threads.queue wq) s0 start_polls d in
    let p = scanned.1 in
    let poll = dopoll || p.any_occurred in
    let x =
      env.select (choose_delay poll env.now p.nexttimer) (max_ℤ p.fdmax (pos pipe))
        (fd_set pipe p.rfds) p.wfds p.efds in
    let s1 = record scanned.0 { pth_sigraised = x.raised } in
    let (th, rg) = elapsed-Alike poll x.rc p.nexttimer s1 in
    late_all-Alike (found (without_pipe pipe poll x) env.recheck_fails) s
      (elapsed poll x.rc p.nexttimer s1).1 d (th ∙ h.threads, rg ∙ h.ring)
