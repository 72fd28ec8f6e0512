-- ===== src/Sync/Headlight.antt =====
-- `pth_barrier_reach`: its results.
use pth.Base.{
  ℕ, zero, suc, ◌≡◌, refl, ◌≢◌, Bool, true, false, not, ◌==◌, if_intro, subst, sym, ◌∙◌, Ptr, null,
}
use pth.Base.Int.{pos, eqb_ℤ, ◌-ℤ◌}
use pth.Sync.{
  Ret, yes_ret, fail, World, Run, done, asleep, Cmd, ◌>>=◌, ◌>>◌, pure, and_then, set_barrier,
}
use pth.Sync.Lock.{release_cmd}
use pth.Sync.Signal.{await}
use pth.Sync.Meet.{
  Reach, failed, reached, headlight, taillight, of_ret, same_cycle, reach_loop, reach_last,
  reach_wait, reach_locked, reach,
}

-- A run that does not return PTH_BARRIER_HEADLIGHT.
abbrev NoHeadlight : Run Reach → Type 0
NoHeadlight (done r w) = r ≢ headlight
NoHeadlight (asleep w) = Unit {0}

failed_ne : (e : _) → failed e ≢ headlight
failed_ne e p = cc

reached_ne : reached ≢ headlight
reached_ne p = cc

of_ret_ne : (r : Ret) → of_ret r taillight ≢ headlight
of_ret_ne (fail e) p = cc
of_ret_ne yes_ret p = cc

bind-NoHeadlight :
    {A : Type 0} (m : Run A) (k : A → Cmd Reach)
    → ((a : A) (w : World) → NoHeadlight (k a w))
    → NoHeadlight (and_then m k)
bind-NoHeadlight (done a w) k h = h a w
bind-NoHeadlight (asleep w) k h = tt

-- A call that only passes the result on.
pass-NoHeadlight :
    {A : Type 0} (m : Run Reach) (c : Cmd A)
    → NoHeadlight m
    → NoHeadlight (and_then m (λ rv. c >> pure rv))
pass-NoHeadlight (done r w) c h = bind-NoHeadlight (c w) (λ _. pure r) (λ a w1. h)
pass-NoHeadlight (asleep w) c h = tt

true_ne_false : true ≢ false
true_ne_false e = cc

module _ (b : Ptr) (cycle : Bool) where
  after_await :
      (k : ℕ)
      → ((w1 : World) → NoHeadlight (reach_loop k b cycle reached w1))
      → (r : Ret) (w : World)
      → NoHeadlight (
          (elim r as (λ x. Cmd Reach) [
            | fail e ↦ pure (failed e)
            | yes_ret ↦ reach_loop k b cycle reached
          ])
            w)
  after_await k rest (fail e) w = failed_ne e
  after_await k rest yes_ret w = rest w

  round-NoHeadlight :
      (k : ℕ) (rv : Reach) (w : World) (x : Bool)
      → (x ≡ false → rv ≢ headlight)
      → ((w1 : World) → NoHeadlight (reach_loop k b cycle reached w1))
      → NoHeadlight (elim x [
        | false ↦ done rv w
        | true ↦
            and_then
              (await (w.state.barrier b).br_cond (w.state.barrier b).br_mutex w)
              (λ r. elim r [ fail e ↦ pure (failed e) | yes_ret ↦ reach_loop k b cycle reached ])
      ])
  round-NoHeadlight k rv w false h rest = h refl
  round-NoHeadlight k rv w true h rest =
      bind-NoHeadlight (await (w.state.barrier b).br_cond (w.state.barrier b).br_mutex w) _
        (after_await k rest)

  reach_loop-NoHeadlight :
      (k : ℕ) (rv : Reach) (w : World)
      → (same_cycle cycle (w.state.barrier b).br_cycle ≡ false → rv ≢ headlight)
      → NoHeadlight (reach_loop k b cycle rv w)
  unfolding reach_loop
  reach_loop-NoHeadlight zero rv w h = tt
  reach_loop-NoHeadlight (suc k) rv w h =
      round-NoHeadlight k rv w (same_cycle cycle (w.state.barrier b).br_cycle) h
        (λ w1. reach_loop-NoHeadlight k reached w1 (λ e. reached_ne))

same_cycle_self : (c : Bool) → same_cycle c c ≡ true
same_cycle_self true = refl
same_cycle_self false = refl

reach_wait-NoHeadlight : (fuel : ℕ) (b : Ptr) (w : World) → NoHeadlight (reach_wait fuel b w)
unfolding reach_wait
reach_wait-NoHeadlight fuel b w =
    let c = (w.state.barrier b).br_cycle in
    reach_loop-NoHeadlight b c fuel _ w (λ e. absurd (true_ne_false (sym (same_cycle_self c) ∙ e)))

reach_last-NoHeadlight : (b : Ptr) (w : World) → NoHeadlight (reach_last b w)
unfolding reach_last
reach_last-NoHeadlight b w =
    bind-NoHeadlight _ (λ r. pure (of_ret r taillight)) (λ r w1. of_ret_ne r)

reach_locked-NoHeadlight : (fuel : ℕ) (b : Ptr) (w : World) → NoHeadlight (reach_locked fuel b w)
unfolding reach_locked
reach_locked-NoHeadlight fuel b w =
    let x = record (w.state.barrier b) { br_count = (w.state.barrier b).br_count -ℤ pos 1 } in
    let w1 = record w { state = set_barrier b x w.state } in
    if_intro (λ (c : Cmd Reach). NoHeadlight (c w1)) (eqb_ℤ (w1.state.barrier b).br_count (pos 0))
      (λ i. reach_last-NoHeadlight b w1) (λ i. reach_wait-NoHeadlight fuel b w1)

after_acquire :
    (fuel : ℕ) (b mutex : Ptr) (r : Ret) (w : World)
    → NoHeadlight (
        (elim r as (λ x. Cmd Reach) [
          | fail e ↦ pure (failed e)
          | yes_ret ↦ reach_locked fuel b >>= λ rv. release_cmd mutex >> pure rv
        ])
          w)
after_acquire fuel b mutex (fail e) w = failed_ne e
after_acquire fuel b mutex yes_ret w =
    pass-NoHeadlight (reach_locked fuel b w) (release_cmd mutex) (reach_locked-NoHeadlight fuel b w)

reach_of-NoHeadlight : (fuel : ℕ) (b : Ptr) (w : World) → NoHeadlight (reach fuel b w)
unfolding reach
reach_of-NoHeadlight fuel b w =
    let P = λ (c : Cmd Reach). NoHeadlight (c w) in
    if_intro P (b == null) (λ i. failed_ne _)
      (λ i.
        if_intro P (not (w.state.barrier b).br_initialized) (λ i. failed_ne _)
          (λ i. bind-NoHeadlight _ _ (after_acquire fuel b (w.state.barrier b).br_mutex)))

-- No call of pth_barrier_reach returns PTH_BARRIER_HEADLIGHT, whatever the state, the fuel and the
-- other threads do.
pub reach-no_headlight : (fuel : ℕ) (b : Ptr) (w w' : World) → reach fuel b w ≢ done headlight w'
reach-no_headlight fuel b w w' e = (subst NoHeadlight e (reach_of-NoHeadlight fuel b w)) refl
