-- ===== src/Sync/Meet.antt =====
-- Barriers. The state of cancellation, which a waiting thread disables and restores, is left out.
use pth.Base.{ℕ, zero, suc, Bool, true, false, not, ◌||◌, ◌==◌, if◌then◌else◌, Ptr, null}
use pth.Base.Int.{ℤ, pos, ◌-ℤ◌, eqb_ℤ, leb_ℤ}
use pth.Sync.{
  Errno, einval, Ret, yes_ret, fail, State, done, asleep, Cmd, ◌>>=◌, ◌>>◌, pure, and_then, modify,
  get_state, set_barrier,
}
use pth.Sync.Lock.{init, acquire, release_cmd}
use pth.Sync.Signal.{cond_init, await, notify}

pub data Reach : Type 0 where
  failed : Errno → Reach
  reached headlight taillight : Reach

abbrev pub of_ret : Ret → Reach → Reach
of_ret (fail e) ok = failed e
of_ret yes_ret ok = ok

unfoldable pub barrier_init : Ptr → ℤ → State → Ret × State
barrier_init b threshold s =
    if b == null || leb_ℤ threshold (pos 0)
    then (fail einval, s)
    else (let r = init (s.barrier b).br_mutex s in
        elim r.0 [
          | fail e ↦ (fail e, r.1)
          | yes_ret ↦
              let r1 = cond_init (s.barrier b).br_cond r.1 in
              elim r1.0 [
                | fail e ↦ (fail e, r1.1)
                | yes_ret ↦ (
                  yes_ret,
                  set_barrier b
                      (record (s.barrier b) {
                        br_initialized = true;
                        br_threshold = threshold;
                        br_count = threshold;
                        br_cycle = false;
                      })
                      r1.1,
                )
              ]
        ])

abbrev pub same_cycle : Bool → Bool → Bool
same_cycle true b = b
same_cycle false b = not b

-- The `while` loop, `rv` being what the call returns if it ends at once.
unfoldable pub reach_loop : ℕ → Ptr → (cycle : Bool) → (rv : Reach) → Cmd Reach
reach_loop zero b cycle rv w = asleep w
reach_loop (suc k) b cycle rv w = elim (same_cycle cycle (w.state.barrier b).br_cycle) [
  | false ↦ done rv w
  | true ↦
      and_then (await (w.state.barrier b).br_cond (w.state.barrier b).br_mutex w)
        (λ r. elim r [ fail e ↦ pure (failed e) | yes_ret ↦ reach_loop k b cycle reached ])
]

-- The branch of the last thread, and that of the others.
unfoldable pub reach_last : Ptr → Cmd Reach
reach_last b =
    modify (λ s.
      set_barrier b
        (record (s.barrier b) {
          br_cycle = not (s.barrier b).br_cycle;
          br_count = (s.barrier b).br_threshold;
        })
        s)
    >> get_state
    >>= λ s. notify (s.barrier b).br_cond true >>= λ r. pure (of_ret r taillight)

unfoldable pub reach_wait : ℕ → Ptr → Cmd Reach
unfolding reach_loop
reach_wait fuel b = get_state >>= λ s.
    reach_loop fuel b (s.barrier b).br_cycle
      (if eqb_ℤ (s.barrier b).br_threshold (s.barrier b).br_count then headlight else reached)

unfoldable pub reach_locked : ℕ → Ptr → Cmd Reach
unfolding reach_last reach_wait
reach_locked fuel b =
    modify
      (λ s. set_barrier b (record (s.barrier b) { br_count = (s.barrier b).br_count -ℤ pos 1 }) s)
    >> get_state
    >>= λ s. (if eqb_ℤ (s.barrier b).br_count (pos 0) then reach_last b else reach_wait fuel b)

unfoldable pub reach : ℕ → Ptr → Cmd Reach
unfolding reach_locked
reach fuel b = get_state >>= λ s.
    if b == null
    then pure (failed einval)
    else (if not (s.barrier b).br_initialized
        then pure (failed einval)
        else (acquire (s.barrier b).br_mutex false false >>= λ r. elim r [
          | fail e ↦ pure (failed e)
          | yes_ret ↦ reach_locked fuel b >>= λ rv. release_cmd (s.barrier b).br_mutex >> pure rv
        ]))
