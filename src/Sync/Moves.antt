-- ===== src/Sync/Moves.antt =====
-- The mutex calls of src/pth_sync.c: what a piece of a call may do to the state.
use pth.Base.{
  ℕ, ◌+◌, ◌-◌, ◌%◌, ◌<◌, ◌≡◌, ◌≢◌, Bool, true, false, ◌&&◌, not, List, arith, ◌==◌, leb, if_intro,
  Ptr, null, has-split,
}
use pth.Sync.{Ret, State, set_mutex, ulong_mod}
use pth.Sync.Lock.{Outcome, returns, waits, lock, unlock, start, resume, release}
use pth.Sync.Held.{Held, lock-Held, unlock-Held, recount-Held}

abbrev pub after : Outcome → State
after (returns r s) = s
after (waits s) = s

pub data Moved (s : State) : State → Type 0 where
  stays : Moved s s
  locks : (m : Ptr) → m ≢ null → (s.mutex m).locked ≡ false → Moved s (lock m s)
  unlocks :
      (m : Ptr) → (s.mutex m).locked ≡ true → (s.mutex m).owner ≡ s.current → Moved s (unlock m s)
  recounts :
      (m : Ptr) (n : ℕ)
      → (s.mutex m).locked ≡ true
      → (s.mutex m).owner ≡ s.current
      → n < ulong_mod
      → Moved s (set_mutex m (record (s.mutex m) { count = n }) s)

pub start-Moved : (m : Ptr) (tryonly : Bool) (s : State) → Moved s (after (start m tryonly s))
unfolding start
start-Moved m tryonly s =
    let P = λ (o : Outcome). Moved s (after o) in
    if_intro P (m == null) (λ e. stays)
      λ some_m.
        if_intro P (not (s.mutex m).initialized) (λ e. stays)
          λ e.
            if_intro P (not (s.mutex m).locked) (λ e. locks m (ground arith) (ground arith))
              λ locked.
                if_intro P (leb 1 (s.mutex m).count && (s.mutex m).owner == s.current)
                  (λ e. recounts m _ (ground arith) (ground arith) (omega arith))
                  λ e. if_intro P tryonly (λ e. stays) (λ e. stays)

pub resume-Moved :
    (m : Ptr) (extra pending : Bool) (s : State)
    → m ≢ null
    → Moved s (after (resume m extra pending s))
unfolding resume
resume-Moved m extra pending s mn =
    let P = λ (o : Outcome). Moved s (after o) in
    if_intro P (extra && pending) (λ e. stays)
      λ e. if_intro P (not (s.mutex m).locked) (λ e. locks m mn (ground arith)) (λ e. stays)

pub release-Moved : (m : Ptr) (s : State) → Moved s (release m s).1
unfolding release
release-Moved m s =
    let P = λ (r : Ret × State). Moved s r.1 in
    if_intro P (m == null) (λ e. stays)
      λ some_m.
        if_intro P (not (s.mutex m).initialized) (λ e. stays)
          λ e.
            if_intro P (not (s.mutex m).locked) (λ e. stays)
              λ locked.
                if_intro P (not ((s.mutex m).owner == s.current)) (λ e. stays)
                  λ mine.
                    if_intro P (leb (((s.mutex m).count + ulong_mod - 1) % ulong_mod) 0)
                      (λ e. unlocks m (ground arith) (ground arith))
                      λ e. recounts m _ (ground arith) (ground arith) (omega arith)

-- Some lists are the rings of the threads.
abbrev pub Consistent : State → Type 0
Consistent s = (h : Ptr → List Ptr) × Held s h

pub Moved-Consistent : (s s' : State) → Moved s s' → Consistent s → Consistent s'
Moved-Consistent s s' stays c = c
Moved-Consistent s s' (locks m mn e) (h, H) = (_, lock-Held s h H m mn e)
Moved-Consistent s s' (unlocks m locked mine) (h, H) =
    let (xs, (ys, e)) = has-split m (h s.current) (ground (arith, H.owned s.current m H.running)) in
    (_, unlock-Held s h H m xs ys e)
Moved-Consistent s s' (recounts m n locked mine small) (h, H) =
    (h, recount-Held s h H m n locked small)
