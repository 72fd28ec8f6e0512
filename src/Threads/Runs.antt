-- ===== src/Threads/Runs.antt =====
-- The running thread's calls and the switches between threads, in any order.
use pth.Base.{◌≡◌, ◌≢◌, Bool, false, Option, some, List, Ptr}
use pth.Threads.{State, Cleanup, Queue, contains}
use pth.Threads.Calls.{suspend, resume, cancel, yield, spawn, Attr, start_wait, exit_thread}
use pth.Threads.Scheduler.{dispatch, return_from}
use pth.Threads.Placed.{Placed}

-- The thread that runs, and its state, are what they were.
abbrev SameCurrent : State → State → Type 0
SameCurrent s s' = (s'.current ≡ s.current) × ((s'.tcb s.current).state ≡ (s.tcb s.current).state)

-- A step of the running thread, or the switch to another.
pub data Step (cleanup : Cleanup) (s : State) : State → Type 0 where
  suspends : (t : Ptr) → Step cleanup s (suspend t s).1
  resumes : (t : Ptr) → Step cleanup s (resume t s).1
  cancels : (t : Ptr) → Step cleanup s (cancel cleanup t s).1
  yields : (t : Ptr) → Step cleanup s (yield t s).1
  spawns :
      (attr : Option Attr) (func t : Ptr) (context : Bool)
      → ((q : Queue) → contains q t s ≡ false)
      → t ≢ s.current
      → Step cleanup s (spawn attr func t context s).1
  waits : Step cleanup s (start_wait s)
  exits : (value : Ptr) → Step cleanup s (exit_thread value s)
  switches :
      (rounds : List (Ptr → Bool)) (s' : State)
      → dispatch (return_from rounds s) ≡ some s'
      → Step cleanup s s'

pub data Steps (cleanup : Cleanup) : State → State → Type 0 where
  none_left : (s : State) → Steps cleanup s s
  and_next : (s s' s'' : State) → Step cleanup s s' → Steps cleanup s' s'' → Steps cleanup s s''
