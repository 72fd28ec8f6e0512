-- ===== src/Signals/Count.antt =====
-- The count of pending signals of each thread is the number of them.
use pth.Base.{
  inl, inr, Bool-cases, ℕ, zero, suc, ◌+◌, ◌≤◌, ◌<◌, ◌≡◌, refl, ◌∙◌, sym, ap, Bool, true, false,
  not, List, [], ◌==◌, arith, if◌then◌else◌, Ptr, null, update, if_intro,
}
use pth.Base.Int.{ℤ, pos, ◌-ℤ◌, ◌+ℤ◌, ltb_ℤ, int_laws}
use pth.Manager.{SigSet, sigadd, sigdel, State}
use pth.Manager.Scan.{scan_sig_thread, scan_sig_process, scan_sigs}
use pth.Signals.{note, settle_one, settle_loop, settle, nsig}

unfoldable pub count : (left sig : ℕ) → SigSet → ℕ
count zero sig set = 0
count (suc k) sig set = (if set sig then 1 else 0) + count k (suc sig) set

-- A change below the range.
count-below :
    (left sig x : ℕ) (b : Bool) (set : SigSet)
    → x < sig
    → count left sig (λ y. if x == y then b else set y) ≡ count left sig set
unfolding count
count-below zero sig x b set h = refl
count-below (suc k) sig x b set h = ground (arith, count-below k (suc sig) x b set (omega arith))

count-change :
    (left sig x : ℕ) (b : Bool) (set : SigSet)
    → sig ≤ x
    → x < sig + left
    → count left sig (λ y. if x == y then b else set y) + (if set x then 1 else 0)
      ≡ count left sig set + (if b then 1 else 0)
unfolding count
count-change zero sig x b set lo hi = absurd (omega arith)
count-change (suc k) sig x b set lo hi = elim (Bool-cases (sig == x)) [
  | inl q ↦ ground (arith, count-below k (suc sig) x b set (ground arith))
  | inr q ↦ ground (arith, count-change k (suc sig) x b set (ground arith) (omega arith))
]

-- The signals that the loops look at.
unfoldable pub number : SigSet → ℕ
unfolding count
number set = count 31 1 set

number-sigadd :
    (x : ℕ) (set : SigSet)
    → 1 ≤ x
    → x < nsig
    → set x ≡ false
    → number (sigadd x set) ≡ suc (number set)
unfolding number
number-sigadd x set lo hi q = ground (arith, count-change 31 1 x true set lo (omega arith))

number-sigdel :
    (x : ℕ) (set : SigSet)
    → 1 ≤ x
    → x < nsig
    → set x ≡ true
    → suc (number (sigdel x set)) ≡ number set
unfolding number
number-sigdel x set lo hi q = ground (arith, count-change 31 1 x false set lo (omega arith))

pos_suc : (n : ℕ) → pos n +ℤ pos 1 ≡ pos (suc n)
pos_suc n = grind int_laws

pos_pred : (n : ℕ) → pos (suc n) -ℤ pos 1 ≡ pos n
pos_pred n = grind int_laws

abbrev pub Counted : (Ptr → SigSet) → (Ptr → ℤ) → Type 0
Counted pending cnt = (u : Ptr) → cnt u ≡ pos (number (pending u))

abbrev pub AllCounted : State → Type 0
AllCounted s = Counted s.sigpending s.sigpendcnt

Counted-update :
    (pending : Ptr → SigSet) (cnt : Ptr → ℤ) (t : Ptr) (set : SigSet) (n : ℤ)
    → Counted pending cnt
    → n ≡ pos (number set)
    → Counted (update pending t set) (update cnt t n)
Counted-update pending cnt t set n h q u = elim (Bool-cases (t == u)) [
  | inl i ↦ rw i q
  | inr i ↦ rw i (h u)
]

Counted-sigadd :
    (pending : Ptr → SigSet) (cnt : Ptr → ℤ) (t : Ptr) (x : ℕ)
    → 1 ≤ x
    → x < nsig
    → pending t x ≡ false
    → Counted pending cnt
    → Counted (update pending t (sigadd x (pending t))) (update cnt t (cnt t +ℤ pos 1))
Counted-sigadd pending cnt t x lo hi q h = Counted-update pending cnt t (sigadd x (pending t)) _ h (
    ap (λ n. n +ℤ pos 1) (h t)
    ∙ pos_suc (number (pending t))
    ∙ ap pos (sym (number-sigadd x (pending t) lo hi q)))

Counted-sigdel :
    (pending : Ptr → SigSet) (cnt : Ptr → ℤ) (t : Ptr) (x : ℕ)
    → 1 ≤ x
    → x < nsig
    → pending t x ≡ true
    → Counted pending cnt
    → Counted (update pending t (sigdel x (pending t))) (update cnt t (cnt t -ℤ pos 1))
Counted-sigdel pending cnt t x lo hi q h = Counted-update pending cnt t (sigdel x (pending t)) _ h (
    ap (λ n. n -ℤ pos 1) (h t ∙ ap pos (sym (number-sigdel x (pending t) lo hi q)))
    ∙ pos_pred (number (sigdel x (pending t))))

pub note-AllCounted :
    (t : Ptr) (sig : ℕ) (s : State)
    → 1 ≤ sig
    → sig < nsig
    → AllCounted s
    → AllCounted (note t sig s)
unfolding note
note-AllCounted t sig s lo hi h =
    if_intro AllCounted (not (s.sigpending t sig))
      (λ i. Counted-sigadd s.sigpending s.sigpendcnt t sig lo hi (ground arith) h) (λ i. h)

module _ (t : Ptr) (before still : SigSet) where
  settle_one-AllCounted :
      (sig : ℕ) (s : State) (gone : List ℕ)
      → 1 ≤ sig
      → sig < nsig
      → AllCounted s
      → AllCounted (settle_one t sig before still (s, gone)).0
  unfolding settle_one
  settle_one-AllCounted sig s gone lo hi h =
      let P = λ (r : State × List ℕ). AllCounted r.0 in
      if_intro P (s.sigpending t sig)
        (λ i.
          if_intro P (not (still sig))
            (λ _. Counted-sigdel s.sigpending s.sigpendcnt t sig lo hi i h)
            (λ _. if_intro P (not (before sig)) (λ _. h) (λ _. h)))
        (λ i. h)

  settle_loop-AllCounted :
      (left sig : ℕ) (r : State × List ℕ)
      → 1 ≤ sig
      → sig + left ≤ nsig
      → AllCounted r.0
      → AllCounted (settle_loop left sig t before still r).0
  unfolding settle_loop
  settle_loop-AllCounted zero sig r lo hi h = h
  settle_loop-AllCounted (suc k) sig r lo hi h =
      settle_loop-AllCounted k (suc sig) (settle_one t sig before still r) (omega arith)
        (omega arith) (settle_one-AllCounted sig r.0 r.1 lo (omega arith) h)

  pub settle-AllCounted : (s : State) → AllCounted s → AllCounted (settle t before still s).0
  unfolding settle
  settle-AllCounted s h =
      if_intro (λ (r : State × List ℕ). AllCounted r.0) (ltb_ℤ (pos 0) (s.sigpendcnt t))
        (λ _. settle_loop-AllCounted 31 1 (s, []) (omega arith) (omega arith) h) (λ _. h)

module _ (t sigp : Ptr) where
  scan_sig_thread-AllCounted :
      (sig : ℕ) (s : State) (this : Bool)
      → 1 ≤ sig
      → sig < nsig
      → AllCounted s
      → AllCounted (scan_sig_thread t sigp sig (s, this)).0
  unfolding scan_sig_thread
  scan_sig_thread-AllCounted sig s this lo hi h =
      if_intro (λ (r : State × Bool). AllCounted r.0) (s.sigpending t sig)
        (λ i. Counted-sigdel s.sigpending s.sigpendcnt t sig lo hi i h) (λ i. h)

  scan_sig_process-AllCounted :
      (sig : ℕ) (r : State × Bool) → AllCounted r.0 → AllCounted (scan_sig_process sigp sig r).0
  unfolding scan_sig_process
  scan_sig_process-AllCounted sig (s, this) h =
      if_intro (λ (r : State × Bool). AllCounted r.0) (s.pth_sigpending sig)
        (λ i. if_intro AllCounted (not (sigp == null)) (λ _. h) (λ _. h)) (λ i. h)

  pub scan_sigs-AllCounted :
      (left sig : ℕ) (set : SigSet) (r : State × Bool)
      → 1 ≤ sig
      → sig + left ≤ nsig
      → AllCounted r.0
      → AllCounted (scan_sigs left sig set t sigp r).0
  unfolding scan_sigs
  scan_sigs-AllCounted zero sig set r lo hi h = h
  scan_sigs-AllCounted (suc k) sig set r lo hi h =
      if_intro (λ x. AllCounted (scan_sigs k (suc sig) set t sigp x).0) (set sig)
        (λ i. scan_sigs-AllCounted k (suc sig) set _ (omega arith) (omega arith) (
          scan_sig_process-AllCounted sig (scan_sig_thread t sigp sig r)
            (scan_sig_thread-AllCounted sig r.0 r.1 lo (omega arith) h)))
        (λ i. scan_sigs-AllCounted k (suc sig) set r (omega arith) (omega arith) h)
