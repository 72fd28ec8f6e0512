-- ===== src/Signals/Runs.antt =====
-- Signals for threads through any sequence of `pth_raise`, passes of the event manager and switches.
use pth.Base.{
  ℕ, ◌<◌, ◌≡◌, ◌∙◌, sym, ap, Bool, false, ◌||◌, Option, none, some, ◌==◌, arith, if◌then◌else◌, Ptr,
  null, if_intro, Bool-cases, inl, inr, ==_iff, Option-intro,
}
use pth.Base.Int.{ℤ, pos, negsuc, ltb_ℤ, pos_part}
use pth.Threads.{Ret, yes_ret, fail, einval}
use pth.Threads.Calls.{yield}
use pth.Manager.{SigSet, State}
use pth.Manager.Round.{Env, round}
use pth.Signals.{note, raise, settle, nsig}
use pth.Signals.Count.{AllCounted, note-AllCounted, settle-AllCounted}
use pth.Signals.Pass.{round-AllCounted}

below_nsig :
    (action : ℕ → Option Bool) (sig : ℤ) (b : Bool)
    → action nsig ≡ none
    → ltb_ℤ (pos nsig) sig ≡ false
    → action (pos_part sig) ≡ some b
    → pos_part sig < nsig
below_nsig action sig b no_rt g e = elim (Bool-cases (pos_part sig == nsig)) [
  | inl i ↦
      absurd (none_ne_some (sym no_rt ∙ ap action (sym ((==_iff (pos_part sig) nsig).0 i)) ∙ e))
  | inr i ↦ small sig g i
]
  where
    none_ne_some : none ≡ some b → ⊥
    none_ne_some q = cc

    small : (x : ℤ) → ltb_ℤ (pos nsig) x ≡ false → (pos_part x == nsig) ≡ false → pos_part x < nsig
    small (pos n) p q = ground arith
    small (negsuc n) p q = omega arith

pub raise-AllCounted :
    (action : ℕ → Option Bool) (t : Ptr) (sig : ℤ) (s : State)
    → action nsig ≡ none
    → AllCounted s
    → AllCounted (raise action t sig s).1
unfolding raise
raise-AllCounted action t sig s no_rt h =
    let P = λ (r : Ret × State). AllCounted r.1 in
    if_intro P
      ((t == null) || ((t == s.threads.current) || (ltb_ℤ sig (pos 0) || ltb_ℤ (pos nsig) sig)))
      (λ _. h)
      (λ g.
        if_intro P (pos_part sig == 0) (λ _. h)
          (λ z.
            Option-intro
              (λ o. P (elim o [
                | none ↦ (fail einval, s)
                | some ignored ↦
                    if ignored
                    then (yes_ret, s)
                    else (let s1 = note t (pos_part sig) s in
                        (yes_ret, record s1 { threads = (yield t s1.threads).1 }))
              ]))
              (action (pos_part sig)) (λ e. h)
              (λ ignored e.
                if_intro P ignored (λ _. h)
                  (λ _.
                    note-AllCounted t (pos_part sig) s (ground arith)
                      (below_nsig action sig ignored no_rt (ground arith) e) h))))

-- What happens to signals: a call of `pth_raise`, a pass of the event manager, and the return of a
-- thread to the scheduler.
pub data Step : State → State → Type 0 where
  raises :
      (action : ℕ → Option Bool) (t : Ptr) (sig : ℤ) {s : State} (no_rt : action nsig ≡ none)
      → Step s (raise action t sig s).1
  passes : (pipe : ℕ) (dopoll : Bool) (env : Env) {s : State} → Step s (round pipe dopoll env s).1
  returns : (t : Ptr) (before still : SigSet) {s : State} → Step s (settle t before still s).0

pub data Steps : State → State → Type 0 where
  stop : {s : State} → Steps s s
  step : {s s1 s2 : State} → Step s s1 → Steps s1 s2 → Steps s s2

Step-AllCounted : {s s1 : State} → Step s s1 → AllCounted s → AllCounted s1
Step-AllCounted (raises action t sig no_rt) h = raise-AllCounted action t sig _ no_rt h
Step-AllCounted (passes pipe dopoll env) h = round-AllCounted pipe dopoll env _ h
Step-AllCounted (returns t before still) h = settle-AllCounted t before still _ h

-- If sigpendcnt of every thread is the number of its pending signals between 1 and 31, it stays so
-- whatever calls of pth_raise, passes of the event manager and switches back to the scheduler
-- follow, whatever the system, the application and the timing of signals do, as long as sigaction
-- refuses the number 32.
pub Steps-AllCounted : {s s1 : State} → Steps s s1 → AllCounted s → AllCounted s1
Steps-AllCounted stop h = h
Steps-AllCounted (step x xs) h = Steps-AllCounted xs (Step-AllCounted x h)
