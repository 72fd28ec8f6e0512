-- ===== src/Pqueue/Order.antt =====
-- The order of the specification's queues.
use pth.Base.{
  ◌≡◌, refl, ◌≢◌, inl, inr, true, false, ◌||◌, List, [], ◌∷◌, ◌++◌, arith, ◌==◌, Ptr, has, Distinct,
  Bool-cases, ap,
}
use pth.Base.Int.{ℤ, pos, ◌+ℤ◌, ◌≤ℤ◌, ltb_ℤ, int_laws, +ℤ_parts}
use pth.Pqueue.Spec.{
  Entry, threads, insert, delete, increase, favorite, favorite_prio, AtMost, IsSorted,
}

AtMost-insert :
    (b p : ℤ) (t : Ptr) (xs : List Entry) → AtMost b xs → p ≤ℤ b → AtMost b (insert p t xs)
unfolding insert
AtMost-insert b p t [] h k = (k, tt)
AtMost-insert b p t (e ∷ xs) h k = ground (arith, AtMost-insert b p t xs h.1 k)

AtMost-mono : (b c : ℤ) (xs : List Entry) → b ≤ℤ c → AtMost b xs → AtMost c xs
AtMost-mono b c [] h k = tt
AtMost-mono b c (e ∷ xs) h k = (omega arith, AtMost-mono b c xs h k.1)

-- An insertion keeps the priorities from rising along the queue.
pub insert-IsSorted : (p : ℤ) (t : Ptr) (xs : List Entry) → IsSorted xs → IsSorted (insert p t xs)
unfolding insert
insert-IsSorted p t [] h = (tt, tt)
insert-IsSorted p t (e ∷ xs) h = elim (Bool-cases (ltb_ℤ e.1 p)) [
  | inl low ↦ let le : e.1 ≤ℤ p = ground arith in rw low ((le, AtMost-mono e.1 p xs le h.0), h)
  | inr high ↦
      let le : p ≤ℤ e.1 = ground arith in
      rw high (AtMost-insert e.1 p t xs h.0 le, insert-IsSorted p t xs h.1)
]

AtMost-delete : (b : ℤ) (t : Ptr) (xs : List Entry) → AtMost b xs → AtMost b (delete t xs)
unfolding delete
AtMost-delete b t [] h = tt
AtMost-delete b t (e ∷ xs) h = ground (arith, AtMost-delete b t xs h.1)

pub delete-IsSorted : (t : Ptr) (xs : List Entry) → IsSorted xs → IsSorted (delete t xs)
unfolding delete
delete-IsSorted t [] h = tt
delete-IsSorted t (e ∷ xs) h = elim (Bool-cases (e.0 == t)) [
  | inl hit ↦ rw hit h.1
  | inr miss ↦ rw miss (AtMost-delete e.1 t xs h.0, delete-IsSorted t xs h.1)
]

pub favorite-IsSorted : (t : Ptr) (xs : List Entry) → IsSorted xs → IsSorted (favorite t xs)
unfolding favorite
favorite-IsSorted t [] h = h
favorite-IsSorted t (e ∷ []) h = h
favorite-IsSorted t (e ∷ e' ∷ xs) h =
    insert-IsSorted (favorite_prio (delete t (e ∷ e' ∷ xs))) t (delete t (e ∷ e' ∷ xs))
      (delete-IsSorted t (e ∷ e' ∷ xs) h)

AtMost-increase : (b : ℤ) (xs : List Entry) → AtMost b xs → AtMost (b +ℤ pos 1) (increase xs)
unfolding increase
AtMost-increase b [] h = tt
AtMost-increase b (e ∷ xs) h = (omega (int_laws, h.0), AtMost-increase b xs h.1)

pub increase-IsSorted : (xs : List Entry) → IsSorted xs → IsSorted (increase xs)
unfolding increase
increase-IsSorted [] h = tt
increase-IsSorted (e ∷ xs) h = (AtMost-increase e.1 xs h.0, increase-IsSorted xs h.1)

-- Inserted above the head, a thread becomes the head.
pub insert-favorite :
    (t : Ptr) (xs : List Entry) → insert (favorite_prio xs) t xs ≡ (t, favorite_prio xs) ∷ xs
unfolding insert favorite_prio
insert-favorite t [] = refl
insert-favorite t (e ∷ xs) =
    let above : ltb_ℤ e.1 (e.1 +ℤ pos 1) ≡ true = ground (arith, +ℤ_parts e.1 (pos 1)) in rw above

-- The threads of a queue after an insertion: the new one and the old ones.
pub has-insert :
    (a : Ptr) (p : ℤ) (t : Ptr) (xs : List Entry)
    → has a (threads (insert p t xs)) ≡ ((a == t) || has a (threads xs))
unfolding insert
has-insert a p t [] = refl
has-insert a p t (e ∷ xs) = ground (arith, has-insert a p t xs)

pub has-delete :
    (a t : Ptr) (xs : List Entry) → a ≢ t → has a (threads (delete t xs)) ≡ has a (threads xs)
unfolding delete
has-delete a t [] ne = refl
has-delete a t (e ∷ xs) ne = ground (arith, has-delete a t xs ne)

pub threads-increase : (xs : List Entry) → threads (increase xs) ≡ threads xs
unfolding increase
threads-increase [] = refl
threads-increase (e ∷ xs) = ap (◌∷◌ e.0) (threads-increase xs)

pub not-has-delete :
    (t : Ptr) (xs : List Entry) → Distinct (threads xs) → has t (threads (delete t xs)) ≡ false
unfolding delete
not-has-delete t [] d = refl
not-has-delete t (e ∷ xs) d = ground (arith, not-has-delete t xs d.1)

-- A thread in a queue stands in one place, around which its removal leaves the rest.
pub record Split (t : Ptr) (xs : List Entry) : Type 0 where
  pub pre : List Entry
  pub p : ℤ
  pub post : List Entry
  pub before : xs ≡ pre ++ (t, p) ∷ post
  pub after : delete t xs ≡ pre ++ post

Split-cons :
    {t : Ptr} {xs : List Entry} (e : Entry) → (e.0 == t) ≡ false → Split t xs → Split t (e ∷ xs)
unfolding delete
Split-cons e miss s = record {
  pre = e ∷ s.pre;
  p = s.p;
  post = s.post;
  before = ap (◌∷◌ e) s.before;
  after = rw miss (ap (◌∷◌ e) s.after);
}

pub split : (t : Ptr) (xs : List Entry) → has t (threads xs) ≡ true → Split t xs
unfolding delete
split t [] h = absurd (cc)
split t (e ∷ xs) h = elim (Bool-cases (e.0 == t)) [
  | inl hit ↦ record { pre = []; p = e.1; post = xs; before = ground arith; after = rw hit }
  | inr miss ↦ Split-cons e miss (split t xs (ground arith))
]
