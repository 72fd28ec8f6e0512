-- ===== src/Manager/Examples.antt =====
-- Tests of the event manager.
use pth.Base.{◌*◌, ◌≡◌, refl, Bool, true, false, none, [], ◌∷◌, ◌==◌, if◌then◌else◌, Ptr, null}
use pth.Base.Int.{pos, ◌+ℤ◌}
use pth.Pqueue.Spec
use pth.Pqueue.Spec.{Entry}
use pth.Time.{time}
use pth.Event.{pending, occurred, on_cond, on_fd}
use pth.Threads
use pth.Threads.{Queue, wq, rq, waiting, ready}
use pth.Threads.Scheduler.{wake_all, wake}
use pth.Manager.{State}
use pth.Manager.Scan.{scan_all}
use pth.Manager.Round.{Env, round, start_polls}
use pth.Manager.Signals.{first_waiting}
use pth.Manager.Once.{signal-one, events_of}
use pth.Manager.Whole.{round-wakes}
use pth.Manager.Wakes.{any_done}

-- The threads 1 and 2 wait for the condition variable 50 by the events 10 and 20, the thread 3 for the
-- descriptor 7 by the event 30.
abbrev waiters : Threads.State
waiters = record {
  sched = 100;
  current = 100;
  main = 1;
  favournew = true;
  tcb = λ t. record {
    prio = pos 0;
    dispatches = 0;
    state = waiting;
    joinable = true;
    join_arg = null;
    cancelreq = false;
    enabled = true;
    asynchronous = false;
  };
  queue = λ q. elim q [ wq ↦ (1, pos 0) ∷ (2, pos 0) ∷ (3, pos 0) ∷ [] | _ ↦ [] ];
  freed = [];
}

abbrev pub signaled_once : State
signaled_once = record {
  threads = waiters;
  events = record {
    links = record { next = λ e. e; prev = λ e. e };
    ev_status = λ e. pending;
    ev_args = λ e. if e == 30 then on_fd (pos 7) else on_cond 50;
    ev_goal = λ e. if e == 30 then 4096 else 2048;
    freed = [];
  };
  ring = λ t. (10 * t) ∷ [];
  elements = λ p. 0;
  locked = λ p. false;
  cond = λ c. record {
    cond_initialized = true;
    signaled = true;
    broadcast = false;
    handled = false;
    waiters = 2;
  };
  fds = λ p. none;
  out = λ p. 0;
  sigs = λ p n. false;
  sigpending = λ t n. false;
  sigpendcnt = λ t. pos 0;
  mctx_sigs = λ t n. true;
  pth_sigpending = λ n. false;
  pth_sigblock = λ n. true;
  pth_sigcatch = λ n. false;
  pth_sigraised = λ n. false;
}

-- The system finds no descriptor ready.
abbrev pub quiet : Env
quiet = record {
  now = time (pos 5) (pos 0);
  func = λ f a. false;
  pending_signals = λ n. false;
  select = λ d n r w e. record {
    rc = pos 0;
    r_left = λ x. false;
    w_left = λ x. false;
    e_left = λ x. false;
    raised = λ n. false;
  };
  recheck_fails = λ e. false;
}

abbrev never : Ptr → Ptr → Bool
never f a = false

one_ready : (round 3 false quiet signaled_once).1.threads.queue rq ≡ (1, pos 1) ∷ []
unfolding round wake Spec.insert ◌+ℤ◌
one_ready = refl

signal_gone : ((round 3 false quiet signaled_once).1.cond 50).signaled ≡ false
unfolding round
signal_gone = refl

signal-one_example :
    let s1 =
      (scan_all never (time (pos 5) (pos 0)) (waiters.queue wq) (signaled_once, start_polls)).0 in
    (s1.events.ev_status 20 ≡ (
      if first_waiting 50 signaled_once (events_of signaled_once.ring (waiters.queue wq)) 20
      then occurred
      else pending))
    × ((s1.cond 50).handled ≡ true)
signal-one_example =
    signal-one 50 never (time (pos 5) (pos 0)) (waiters.queue wq) signaled_once start_polls 20
      (refl, (refl, (refl, tt))) refl refl refl refl refl

round-wakes_example :
    let last = (round 3 false quiet signaled_once).1 in
    last.threads ≡ wake_all (λ t. any_done last (signaled_once.ring t)) (waiters.queue wq) waiters
round-wakes_example = round-wakes 3 false quiet signaled_once (refl, (refl, (refl, tt)))
