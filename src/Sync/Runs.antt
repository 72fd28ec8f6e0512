-- ===== src/Sync/Runs.antt =====
-- Threads that call on mutexes in turns: consistency, and the exclusion that a mutex is for.
use pth.Base.{◌≡◌, refl, ◌≢◌, ◌∙◌, ap, Bool, true, false, arith, Ptr, null}
use pth.Sync.{State}
use pth.Sync.Lock.{init, lock, unlock, start, resume, release}
use pth.Sync.Held.{init-Held}
use pth.Sync.Moves.{
  after, Moved, stays, locks, unlocks, recounts, start-Moved, resume-Moved, release-Moved,
  Consistent, Moved-Consistent,
}

-- The scheduler's choice of a thread, and what the running thread does before it waits or returns.
pub data Step (s : State) : State → Type 0 where
  schedules : (t : Ptr) → t ≢ null → Step s (record s { current = t })
  inits : (m : Ptr) → (s.mutex m).locked ≡ false → Step s (init m s).1
  starts : (m : Ptr) (tryonly : Bool) → Step s (after (start m tryonly s))
  resumes : (m : Ptr) (extra pending : Bool) → m ≢ null → Step s (after (resume m extra pending s))
  releases : (m : Ptr) → Step s (release m s).1

-- Steps, each of a thread that satisfies `May`.
pub data Steps (May : Ptr → Type 0) : State → State → Type 0 where
  none_left : (s : State) → Steps May s s
  and_next : (s s' s'' : State) → May s.current → Step s s' → Steps May s' s'' → Steps May s s''

Step-Consistent : (s s' : State) → Step s s' → Consistent s → Consistent s'
Step-Consistent s s' (schedules t tn) (h, H) =
    (h, record { running = tn; rings = H.rings; owned = H.owned; free = H.free; taken = H.taken })
Step-Consistent s s' (inits m e) (h, H) = (h, init-Held s h H m e)
Step-Consistent s s' (starts m tryonly) c = Moved-Consistent s s' (start-Moved m tryonly s) c
Step-Consistent s s' (resumes m extra pending mn) c =
    Moved-Consistent s s' (resume-Moved m extra pending s mn) c
Step-Consistent s s' (releases m) c = Moved-Consistent s s' (release-Moved m s) c

-- From a state in which the ring of every thread holds exactly the mutexes locked by it, the
-- running thread is no null and a free mutex has no owner and no count, every sequence of
-- scheduling choices and pieces of mutex calls leads to such a state, if only free mutexes are
-- initialized.
pub Steps-Consistent : (s s' : State) → Steps (λ t. Unit {0}) s s' → Consistent s → Consistent s'
Steps-Consistent s s' (none_left _) c = c
Steps-Consistent s s' (and_next _ s1 _ may step rest) c =
    Steps-Consistent s1 s' rest (Step-Consistent s s1 step c)

-- The mutex `m` is locked by the thread `t`.
abbrev pub LockedBy : Ptr → Ptr → State → Type 0
LockedBy t m s = ((s.mutex m).locked ≡ true) × ((s.mutex m).owner ≡ t)

module _ (t m : Ptr) where
  Moved-other :
      (s s' : State) → s.current ≢ t → LockedBy t m s → Moved s s' → s'.mutex m ≡ s.mutex m
  unfolding lock unlock
  Moved-other s s' other (locked, mine) stays = refl
  Moved-other s s' other (locked, mine) (locks a an free) = ground arith
  Moved-other s s' other (locked, mine) (unlocks a l owner) = ground arith
  Moved-other s s' other (locked, mine) (recounts a n l owner small) = ground arith

  Step-other : (s s' : State) → s.current ≢ t → LockedBy t m s → Step s s' → s'.mutex m ≡ s.mutex m
  unfolding init
  Step-other s s' other l (schedules u un) = refl
  Step-other s s' other l (inits a e) = ground arith
  Step-other s s' other l (starts a tryonly) = Moved-other s s' other l (start-Moved a tryonly s)
  Step-other s s' other l (resumes a extra pending an) =
      Moved-other s s' other l (resume-Moved a extra pending s an)
  Step-other s s' other l (releases a) = Moved-other s s' other l (release-Moved a s)

  -- As long as the thread that has locked a mutex takes no step, no sequence of scheduling choices
  -- and pieces of mutex calls of other threads changes the mutex, provided that pth_mutex_init is
  -- called only for mutexes that are not locked.
  pub Steps-exclude :
      (s s' : State) → LockedBy t m s → Steps (λ u. u ≢ t) s s' → s'.mutex m ≡ s.mutex m
  Steps-exclude s s' l (none_left _) = refl
  Steps-exclude s s' (locked, mine) (and_next _ s1 _ other step rest) =
      let e = Step-other s s1 other (locked, mine) step in
      Steps-exclude s1 s' (ap (λ x. x.locked) e ∙ locked, ap (λ x. x.owner) e ∙ mine) rest ∙ e
