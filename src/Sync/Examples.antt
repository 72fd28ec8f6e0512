-- ===== src/Sync/Examples.antt =====
-- The theorems on mutexes in a state in which the thread 10 runs and holds the mutexes 1 and 2.
use pth.Base.{
  ℕ, ◌≡◌, refl, ◌≢◌, true, false, List, [], ◌∷◌, some, arith, ◌==◌, Bool-cases, inl, inr,
  if◌then◌else◌, Ptr, null, update,
}
use pth.Base.Int.{pos}
use pth.Ring
use pth.Ring.{IsRing}
use pth.Sync.{Mutex, State, Wake, eintr, yes_ret, fail, done}
use pth.Sync.Lock.{returns, unlock, start, release, acquire, releaseall}
use pth.Sync.Held.{Held}
use pth.Sync.Moves.{after, Consistent}
use pth.Sync.Runs.{
  none_left, and_next, schedules, starts, releases, Steps-Consistent, Steps-exclude,
}
use pth.Sync.Counted.{acquires}
use pth.Sync.Counted
use pth.Sync.Nested.{releases-acquires}
use pth.Sync.Waits.{Gets, acquire-Gets, acquire-interrupted}
use pth.Sync.Meet.{reach, headlight}
use pth.Sync.Headlight.{reach-no_headlight}
use pth.Sync.Releaseall.{releaseall-first-only}

abbrev free_mutex : Mutex
free_mutex = record { initialized = true; locked = false; owner = null; count = 0 }

abbrev taken_mutex : Mutex
taken_mutex = record { initialized = true; locked = true; owner = 10; count = 1 }

abbrev rings : Ring.Mem
rings = record {
  rn_next = update (update (λ _. null) 1 2) 2 1;
  rn_prev = update (update (λ _. null) 1 2) 2 1;
  r_hook = update (λ _. null) 10 1;
  r_nodes = update (λ _. 0) 10 2;
}

abbrev now : Ptr → State
now t = record {
  current = t;
  mutex = update (update (λ _. free_mutex) 1 taken_mutex) 2 taken_mutex;
  cond = λ _. record {
    cond_initialized = false;
    signaled = false;
    broadcast = false;
    handled = false;
    waiters = 0;
  };
  rwlock = λ _. record {
    rw_initialized = false;
    rw_writing = false;
    rw_readers = 0;
    rw_mutex_rd = null;
    rw_mutex_rw = null;
  };
  barrier = λ _. record {
    br_initialized = false;
    br_threshold = pos 0;
    br_count = pos 0;
    br_cycle = false;
    br_cond = null;
    br_mutex = null;
  };
  rings = rings;
}

abbrev held : Ptr → List Ptr
held t = if 10 == t then 1 ∷ 2 ∷ [] else []

held-IsRing : (t : Ptr) → t ≢ null → IsRing t rings (held t)
held-IsRing t tn = elim (Bool-cases (10 == t)) [
  | inl e ↦
      let p : 10 ≡ t = ground arith in
      rw (← p) (record {
        ne_null = omega arith;
        count = refl;
        nodes_ne_null = refl;
        distinct = (refl, (refl, tt));
        shape = (refl, (refl, refl, (refl, refl)));
      })
  | inr e ↦ rw e (record {
    ne_null = tn;
    count = ground arith;
    nodes_ne_null = refl;
    distinct = tt;
    shape = ground arith;
  })
]

now-Held : (t : Ptr) → t ≢ null → Held (now t) held
now-Held t tn = record {
  running = tn;
  rings = held-IsRing;
  owned = λ u m un. ground arith;
  free = λ m e. ground arith;
  taken = λ m e. ground arith;
}

Steps-Consistent_example : Consistent (after (start 3 false (record (now 20) { current = 10 })))
Steps-Consistent_example =
    Steps-Consistent (now 20) (after (start 3 false (record (now 20) { current = 10 })))
      (and_next (now 20) (now 10) _ tt (schedules 10 (omega arith))
        (and_next (now 10) _ _ tt (starts 3 false) (none_left _)))
      (held, now-Held 20 (omega arith))

Steps-exclude_example : ((release 1 (now 20)).1).mutex 1 ≡ taken_mutex
unfolding start
Steps-exclude_example =
    Steps-exclude 10 1 (now 20) (release 1 (now 20)).1 (refl, refl)
      (and_next (now 20) (now 20) _ (omega arith) (starts 1 false)
        (and_next (now 20) _ _ (omega arith) (releases 1) (none_left _)))

abbrev mine : ℕ → Mutex
mine n = record { initialized = true; locked = true; owner = 10; count = n }

releases-acquires_example :
    let up = acquires 3 5 (now 10) in
    (start 5 false (acquires 1 5 (now 10)) ≡ returns yes_ret (acquires 2 5 (now 10)))
    × ((acquires 2 5 (now 10)).mutex 5 ≡ mine 2)
    × ((Counted.releases 1 5 up).mutex 5 ≡ mine 2)
    × ((release 5 (Counted.releases 1 5 up)).0 ≡ yes_ret)
    × ((Counted.releases 3 5 up).mutex 5 ≡ free_mutex)
    × IsRing 10 (Counted.releases 3 5 up).rings (1 ∷ 2 ∷ [])
releases-acquires_example =
    releases-acquires (now 10) held (now-Held 10 (omega arith)) 5 (omega arith) 2 1 1 refl refl refl
      (omega arith)

abbrev nothing : Wake
nothing = record { others = λ s. s; pending = false }

abbrev timed_out : Wake
timed_out = record { others = λ s. s; pending = true }

-- The thread 10 lets the mutex 1 go while 20 waits.
abbrev let_go : Wake
let_go = record {
  others = λ s. record (release 1 (record s { current = 10 })).1 { current = 20 };
  pending = false;
}

let_go-Consistent : Consistent (let_go.others (now 20))
let_go-Consistent =
    Steps-Consistent (now 20) (let_go.others (now 20))
      (and_next (now 20) (now 10) _ tt (schedules 10 (omega arith)) (
        and_next (now 10) (release 1 (now 10)).1 _ tt (releases 1)
          (and_next (release 1 (now 10)).1 _ _ tt (schedules 20 (omega arith)) (none_left _))))
      (held, now-Held 20 (omega arith))

acquire-Gets_example :
    Gets 20 1 (acquire 1 false true (record { state = now 20; wakes = nothing ∷ let_go ∷ [] }))
unfolding release unlock
acquire-Gets_example =
    acquire-Gets 1 true (now 20) (nothing ∷ let_go ∷ []) (omega arith) refl
      (held, now-Held 20 (omega arith)) (inr (omega arith))
      (refl, (held, now-Held 20 (omega arith)), refl, (refl, let_go-Consistent, refl, refl))

acquire-interrupted_example :
    acquire 1 false true (record { state = now 20; wakes = nothing ∷ timed_out ∷ [] })
    ≡ done (fail eintr) (record { state = now 20; wakes = [] })
acquire-interrupted_example =
    acquire-interrupted 1 true (now 20) (omega arith) refl refl (omega arith) (nothing ∷ [])
      timed_out [] (refl, refl, tt) refl refl

releaseall-first-only_example :
    (releaseall 9 10 (now 10) ≡ some (unlock 1 (now 10)))
    × Held (unlock 1 (now 10)) (update held 10 (2 ∷ []))
releaseall-first-only_example =
    releaseall-first-only (now 10) held (now-Held 10 (omega arith)) 1 7 (2 ∷ []) refl refl refl

-- Two threads are to meet at the barrier 60, with the mutex 61 and the condition variable 62.
abbrev meeting : State
meeting = record (now 20) {
  barrier = update (now 20).barrier 60 (record {
    br_initialized = true;
    br_threshold = pos 2;
    br_count = pos 2;
    br_cycle = false;
    br_cond = 62;
    br_mutex = 61;
  });
  cond = update (now 20).cond 62 (record {
    cond_initialized = true;
    signaled = false;
    broadcast = false;
    handled = false;
    waiters = 0;
  });
}

-- The other thread arrives.
abbrev arrives : Wake
arrives = record {
  others = λ s. record s {
    barrier = update s.barrier 60 (record (s.barrier 60) { br_count = pos 2; br_cycle = true });
  };
  pending = false;
}

reach-no_headlight_example :
    reach 3 60 (record { state = meeting; wakes = arrives ∷ [] })
    ≢ done headlight (record { state = meeting; wakes = [] })
reach-no_headlight_example =
    reach-no_headlight 3 60 (record { state = meeting; wakes = arrives ∷ [] })
      (record { state = meeting; wakes = [] })
