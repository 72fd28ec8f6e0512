-- ===== src/Pqueue/Spec.antt =====
-- What a priority queue is: threads with their priorities, the greatest first and, among equals, the
-- one that came first. The scheduler is modelled over these queues.
use pth.Base.{List, [], ◌∷◌, ◌==◌, if◌then◌else◌, Ptr}
use pth.Base.Int.{ℤ, pos, ◌+ℤ◌, ◌≤ℤ◌, ltb_ℤ}

abbrev pub Entry : Type 0
Entry = Ptr × ℤ

abbrev pub thread : Entry → Ptr
thread e = e.0

abbrev pub prio : Entry → ℤ
prio e = e.1

abbrev pub threads : List Entry → List Ptr
threads [] = []
threads (e ∷ xs) = e.0 ∷ threads xs

-- Behind the entries of greater or equal priority.
unfoldable pub insert : ℤ → Ptr → List Entry → List Entry
insert p t [] = (t, p) ∷ []
insert p t (e ∷ xs) = if ltb_ℤ e.1 p then (t, p) ∷ e ∷ xs else e ∷ insert p t xs

unfoldable pub delete : Ptr → List Entry → List Entry
delete t [] = []
delete t (e ∷ xs) = if e.0 == t then xs else e ∷ delete t xs

unfoldable pub increase : List Entry → List Entry
increase [] = []
increase (e ∷ xs) = (e.0, e.1 +ℤ pos 1) ∷ increase xs

-- Priorities do not rise along the queue.
abbrev pub AtMost : ℤ → List Entry → Type 0
AtMost p [] = Unit {0}
AtMost p (e ∷ xs) = (e.1 ≤ℤ p) × AtMost p xs

abbrev pub IsSorted : List Entry → Type 0
IsSorted [] = Unit {0}
IsSorted (e ∷ xs) = AtMost e.1 xs × IsSorted xs

-- The priority that puts a thread in front of all.
unfoldable pub favorite_prio : List Entry → ℤ
favorite_prio [] = pos 5
favorite_prio (e ∷ xs) = e.1 +ℤ pos 1

-- A thread that is alone keeps its priority.
unfoldable pub favorite : Ptr → List Entry → List Entry
unfolding favorite_prio
favorite t [] = []
favorite t (e ∷ []) = e ∷ []
favorite t (e ∷ e' ∷ xs) =
    insert (favorite_prio (delete t (e ∷ e' ∷ xs))) t (delete t (e ∷ e' ∷ xs))
