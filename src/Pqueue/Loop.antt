-- ===== src/Pqueue/Loop.antt =====
-- The loop of `pth_pqueue_insert` ends within the count of the queue, at the place that the
-- specification names.
use pth.Base.{
  ℕ, zero, suc, ◌<◌, ◌≡◌, refl, ◌≢◌, ap, inl, inr, true, false, Option, some, List, [], ◌∷◌, ◌++◌,
  arith, Ptr, has, length, Bool-cases, if◌then◌else◌,
}
use pth.Base.Int.{ℤ, ◌-ℤ◌, ltb_ℤ, leb_ℤ, sub_sub_self}
use pth.Cycle.{Linked}
use pth.Pqueue.Spec
use pth.Pqueue.Spec.{Entry, threads}
use pth.Pqueue.{Mem, Deltas, links, insert_loop}

-- Where the loop ends: behind `(c, p)`, which is where the specification puts the new entry.
pub record Stop (prio : ℤ) (t : Ptr) (xs : List Entry) (r : Option (Ptr × ℤ)) : Type 0 where
  pub pre : List Entry
  pub c : Ptr
  pub p : ℤ
  pub post : List Entry
  pub result : r ≡ some (c, p)
  pub before : xs ≡ pre ++ (c, p) ∷ post
  pub after : Spec.insert prio t xs ≡ pre ++ (c, p) ∷ (t, prio) ∷ post

Stop-cons :
    {prio : ℤ} {t : Ptr} {xs : List Entry} {r : Option (Ptr × ℤ)} (c : Ptr) (p : ℤ)
    → ltb_ℤ p prio ≡ false
    → Stop prio t xs r
    → Stop prio t ((c, p) ∷ xs) r
unfolding Spec.insert
Stop-cons c p high s = record {
  pre = (c, p) ∷ s.pre;
  c = s.c;
  p = s.p;
  post = s.post;
  result = s.result;
  before = ap (◌∷◌ (c, p)) s.before;
  after = rw high (ap (◌∷◌ (c, p)) s.after);
}

module _ (q h : Ptr) (prio : ℤ) (t : Ptr) (m : Mem) (hook : m.q_head q ≡ h) where
  -- One round, where the thread behind `c` is `u` of priority `d`.
  round :
      (k : ℕ) (c : Ptr) (p : ℤ) (u : Ptr) (d : ℤ)
      → m.q_next c ≡ u
      → p -ℤ m.q_prio u ≡ d
      → u ≢ h
      → insert_loop (suc k) q prio c p m
        ≡ (if leb_ℤ prio d then insert_loop k q prio u d m else some (c, p))
  unfolding insert_loop
  round k c p u d n e ne = ground arith

  pub insert_loop-Stop :
      (k : ℕ) (c : Ptr) (p : ℤ) (xs : List Entry)
      → length xs < k
      → has h (threads xs) ≡ false
      → Linked (links m) c (threads xs) h
      → Deltas m.q_prio p xs
      → ltb_ℤ p prio ≡ false
      → Stop prio t ((c, p) ∷ xs) (insert_loop k q prio c p m)
  unfolding insert_loop Spec.insert
  insert_loop-Stop zero c p xs fuel out l d high = absurd (omega arith)
  insert_loop-Stop (suc k) c p [] fuel out l d high = record {
    pre = [];
    c = c;
    p = p;
    post = [];
    result = ground arith;
    before = refl;
    after = rw high;
  }
  insert_loop-Stop (suc k) c p (e ∷ xs) fuel out l d high =
      let value : p -ℤ m.q_prio e.0 ≡ e.1 = rw d.0 (sub_sub_self p e.1) in
      rw (round k c p e.0 e.1 l.0 value (ground arith)) (elim (Bool-cases (ltb_ℤ e.1 prio)) [
        | inl low ↦
            let stop : leb_ℤ prio e.1 ≡ false = ground arith in
            rw stop (record {
              pre = [];
              c = c;
              p = p;
              post = e ∷ xs;
              result = refl;
              before = refl;
              after = rw (high, low);
            })
        | inr more ↦
            let go : leb_ℤ prio e.1 ≡ true = ground arith in
            rw go (
              Stop-cons c p high
                (insert_loop-Stop k e.0 e.1 xs (omega arith) (ground arith) l.2 d.1 more))
      ])
