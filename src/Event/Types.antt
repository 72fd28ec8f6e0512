-- ===== src/Event/Types.antt =====
-- `pth_event_typeof` for an event that waits for the state of a thread.
use Prim.Native.Nat.{bit_or}
use pth.Base.{
  ℕ, ◌<◌, ◌≡◌, refl, ◌≢◌, ◌∙◌, ap, Bool, true, false, some, arith, Ptr, null, ==_ne, ==_self, inl,
  inr, ◌⊎◌, if_intro,
}
use pth.Event.{Mem, Args, on_tid, bit, typeof, event_type, set_status, pending}
use pth.Event.Make.{Given, event, kind, link, tid_goal, fill, filled, finish, made}
use pth.Event.Chain.{event_lem, finish_lem}

-- The bits of the kinds of event that are tested first are clear.
abbrev pub OnlyTid : ℕ → Type 0
OnlyTid spec =
    (bit 1 spec ≡ false)
    × (bit 2 spec ≡ false)
    × (bit 3 spec ≡ false)
    × (bit 4 spec ≡ false)
    × (bit 5 spec ≡ false)
    × (bit 6 spec ≡ false)
    × (bit 7 spec ≡ false)
    × (bit 8 spec ≡ true)

kind_tid :
    (fcntl : ℕ → Bool) (spec : ℕ) (g : Given)
    → OnlyTid spec
    → kind fcntl spec g ≡ filled (on_tid g.tid) (tid_goal spec)
unfolding kind
kind_tid fcntl spec g (a1, a2, a3, a4, a5, a6, a7, a8) = rw (a1, a2, a3, a4, a5, a6, a7, a8) refl

tid_type_small :
    (goal : ℕ) → (goal ≡ 1) ⊎ (goal ≡ 2) ⊎ (goal ≡ 3) ⊎ (goal ≡ 4) → bit_or 256 goal < 512
tid_type_small goal (inl e) = rw e (omega arith)
tid_type_small goal (inr (inl e)) = rw e (omega arith)
tid_type_small goal (inr (inr (inl e))) = rw e (omega arith)
tid_type_small goal (inr (inr (inr e))) = rw e (omega arith)

abbrev Goal : ℕ → Type 0
Goal g = (g ≡ 1) ⊎ (g ≡ 2) ⊎ (g ≡ 3) ⊎ (g ≡ 4)

tid_goal-cases : (spec : ℕ) → Goal (tid_goal spec)
unfolding tid_goal
tid_goal-cases spec =
    if_intro Goal (bit 15 spec) (λ _. inl refl)
      (λ _.
        if_intro Goal (bit 16 spec) (λ _. inr (inl refl))
          (λ _.
            if_intro Goal (bit 17 spec) (λ _. inr (inr (inl refl)))
              (λ _. if_intro Goal (bit 18 spec) (λ _. inr (inr (inr refl))) (λ _. inr (inl refl)))))

typeof-filled :
    (e : Ptr) (a : Args) (goal : ℕ) (m : Mem)
    → e ≢ null
    → typeof e (fill e a goal m) ≡ some (bit_or (event_type a) goal)
unfolding typeof
typeof-filled e a goal m en = rw (==_ne e null en, ==_self e) refl

-- For a specification with PTH_EVENT_TID and no kind of event that is tested before it, pth_event
-- makes the event, and pth_event_typeof gives a number below 512 for it, which has none of the
-- bits PTH_UNTIL_TID_*.
pub event-tid_typeof :
    (fcntl : ℕ → Bool) (spec e ch : ℕ) (g : Given) (m : Mem)
    → e ≢ null
    → OnlyTid spec
    → let r = event fcntl spec e ch g m in
      (r.0 ≡ made e) × ((t : ℕ) × ((typeof e r.1 ≡ some t) × (t < 512)))
event-tid_typeof fcntl spec e ch g m en only =
    let m1 = set_status e pending (link spec ch e m) in
    let p : event fcntl spec e ch g m ≡ (made e, fill e (on_tid g.tid) (tid_goal spec) m1) =
      event_lem fcntl spec e ch g m en
      ∙ ap (λ k. finish e k m1) (kind_tid fcntl spec g only)
      ∙ finish_lem e (on_tid g.tid) (tid_goal spec) m1 in
    rw p (
      refl,
      (
        bit_or 256 (tid_goal spec),
        (
          typeof-filled e (on_tid g.tid) (tid_goal spec) m1 en,
          tid_type_small (tid_goal spec) (tid_goal-cases spec),
        ),
      ),
    )
