-- ===== src/Sync/Waits.antt =====
-- The wait of `pth_mutex_acquire`.
use pth.Base.{
  ◌≡◌, refl, ◌≢◌, ◌∙◌, sym, Bool, true, false, ◌&&◌, ◌⊎◌, inl, inr, List, [], ◌∷◌, ◌++◌, arith,
  ==_ne, Bool-cases, leb, Ptr, null,
}
use pth.Sync.{eintr, yes_ret, Ret, fail, State, Wake, Run, done}
use pth.Sync.Lock.{waits, lock, start, resume, wait_loop, acquire}
use pth.Sync.Moves.{Consistent, locks, Moved-Consistent}
use pth.Sync.Runs.{LockedBy}
use pth.Sync.Branches.{start-free}

true_ne_false : true ≢ false
true_ne_false e = cc

-- The state after the wake-ups `ws`.
abbrev pub pass : List Wake → State → State
pass [] s = s
pass (w ∷ ws) s = pass ws (w.others s)

-- Each of the wake-ups finds the mutex locked, and none is due to an extra event alone.
abbrev pub StillWaits : Ptr → Bool → State → List Wake → Type 0
StillWaits m extra s [] = Unit {0}
StillWaits m extra s (w ∷ ws) =
    (((w.others s).mutex m).locked ≡ true)
    × ((extra && w.pending) ≡ false)
    × StillWaits m extra (w.others s) ws

&&_false : (b : Bool) → (b && false) ≡ false
&&_false true = refl
&&_false false = refl

start-waits :
    (m : Ptr) (s : State)
    → m ≢ null
    → (s.mutex m).initialized ≡ true
    → (s.mutex m).locked ≡ true
    → (s.mutex m).owner ≢ s.current
    → start m false s ≡ waits s
unfolding start
start-waits m s mn init locked other =
    rw
      (
        ==_ne m null mn,
        init,
        locked,
        ==_ne (s.mutex m).owner s.current other,
        &&_false (leb 1 (s.mutex m).count),
      )
      refl

module _ (m : Ptr) (extra : Bool) where
  wait_loop-skip :
      (s : State) (ws rest : List Wake)
      → StillWaits m extra s ws
      → wait_loop m extra s (ws ++ rest) ≡ wait_loop m extra (pass ws s) rest
  unfolding wait_loop resume
  wait_loop-skip s [] rest h = refl
  wait_loop-skip s (w ∷ ws) rest (locked, quiet, h) =
      rw (wait_loop, resume, quiet, locked) (wait_loop-skip (w.others s) ws rest h)

  wait_loop-eintr :
      (s : State) (w : Wake) (rest : List Wake)
      → extra ≡ true
      → w.pending ≡ true
      → wait_loop m extra s (w ∷ rest)
        ≡ done (fail eintr) (record { state = w.others s; wakes = rest })
  unfolding wait_loop resume
  wait_loop-eintr s w rest own pending = rw (wait_loop, resume, own, pending) refl

  module _ (s : State) (mn : m ≢ null) (init : (s.mutex m).initialized ≡ true)
      (locked : (s.mutex m).locked ≡ true) (other : (s.mutex m).owner ≢ s.current) (ws : List Wake)
      (w : Wake) (rest : List Wake) (still : StillWaits m extra s ws) where
    -- A thread that waits for an initialized mutex of another with extra events, each wake-up
    -- finding it locked and none being due to an extra event alone, gets EINTR at the first
    -- wake-up at which the event for the mutex itself is still pending, so that an extra event has
    -- ended the wait, and changes nothing, even if the mutex is free then.
    pub acquire-interrupted :
        extra ≡ true
        → w.pending ≡ true
        → acquire m false extra (record { state = s; wakes = ws ++ w ∷ rest })
          ≡ done (fail eintr) (record { state = w.others (pass ws s); wakes = rest })
    unfolding acquire
    acquire-interrupted own pending =
        rw (acquire, start-waits m s mn init locked other)
          (wait_loop-skip s ws (w ∷ rest) still ∙ wait_loop-eintr (pass ws s) w rest own pending)

-- At each wake-up the caller runs, the state is consistent and the wake-up is not due to an extra event
-- alone; the last one finds the mutex free.
abbrev pub Frees : (c m : Ptr) → Bool → State → List Wake → Type 0
Frees c m extra s [] = (s.mutex m).locked ≡ false
Frees c m extra s (w ∷ ws) =
    ((w.others s).current ≡ c)
    × Consistent (w.others s)
    × ((extra && w.pending) ≡ false)
    × Frees c m extra (w.others s) ws

-- The call has returned TRUE, and the caller has the mutex, once and in its ring.
pub record Gets (c m : Ptr) (call : Run Ret) : Type 0 where
  pub final : State
  pub left : List Wake
  pub returned : call ≡ done yes_ret (record { state = final; wakes = left })
  pub running : final.current ≡ c
  pub held : LockedBy c m final
  pub once : (final.mutex m).count ≡ 1
  pub consistent : Consistent final

module _ (c m : Ptr) (extra : Bool) (mn : m ≢ null) where
  lock-Gets :
      (s : State) (ws : List Wake)
      → (s.mutex m).locked ≡ false
      → s.current ≡ c
      → Consistent s
      → Gets c m (done yes_ret (record { state = lock m s; wakes = ws }))
  unfolding lock
  lock-Gets s ws free run ok = record {
    final = lock m s;
    left = ws;
    returned = refl;
    running = run;
    held = (ground arith, ground (arith, run));
    once = ground arith;
    consistent = Moved-Consistent s (lock m s) (locks m mn free) ok;
  }

  wait_loop-Gets :
      (ws : List Wake) (s : State)
      → (s.mutex m).locked ≡ true
      → Frees c m extra s ws
      → Gets c m (wait_loop m extra s ws)
  unfolding wait_loop resume
  wait_loop-Gets [] s locked free = absurd (true_ne_false (sym locked ∙ free))
  wait_loop-Gets (w ∷ ws) s locked (run, ok, quiet, rest) =
      elim (Bool-cases ((w.others s).mutex m).locked) [
        | inl e ↦ rw (wait_loop, resume, quiet, e) (wait_loop-Gets ws (w.others s) e rest)
        | inr e ↦ rw (wait_loop, resume, quiet, e) (lock-Gets (w.others s) ws e run ok)
      ]

-- A thread that wants an initialized mutex in a consistent state, where nobody or another thread
-- has locked it, gets it: if at each wake-up the caller runs, the state is consistent and the
-- wake-up is not due to an extra event alone, and the last wake-up finds the mutex free (none is
-- needed if it is free at the call), pth_mutex_acquire returns TRUE, the mutex is locked by the
-- caller with a count of one, and the state is consistent, so that the mutex is in the ring of the
-- caller.
pub acquire-Gets :
    (m : Ptr) (extra : Bool) (s : State) (ws : List Wake)
    → m ≢ null
    → (s.mutex m).initialized ≡ true
    → Consistent s
    → (s.mutex m).locked ≡ false ⊎ (s.mutex m).owner ≢ s.current
    → Frees s.current m extra s ws
    → Gets s.current m (acquire m false extra (record { state = s; wakes = ws }))
unfolding acquire
acquire-Gets m extra s ws mn init ok other frees = elim (Bool-cases (s.mutex m).locked) [
  | inl e ↦
      rw (acquire, start-waits m s mn init e (owned other e))
        (wait_loop-Gets s.current m extra mn ws s e frees)
  | inr e ↦
      rw (acquire, start-free m s mn init false e) (lock-Gets s.current m extra mn s ws e refl ok)
]
  where
    owned :
        (s.mutex m).locked ≡ false ⊎ (s.mutex m).owner ≢ s.current
        → (s.mutex m).locked ≡ true
        → (s.mutex m).owner ≢ s.current
    owned (inl f) e = absurd (true_ne_false (sym e ∙ f))
    owned (inr o) e = o
