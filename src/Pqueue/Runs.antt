-- ===== src/Pqueue/Runs.antt =====
-- Any sequence of calls on a queue, from its initialization on.
use pth.Base.{◌≡◌, refl, ◌≢◌, true, false, Option, none, some, List, [], ◌∷◌, arith, Ptr, null, has}
use pth.Base.Int.{ℤ}
use pth.Pqueue.Spec
use pth.Pqueue.Spec.{Entry, threads, IsSorted}
use pth.Pqueue.Order.{insert-IsSorted, delete-IsSorted, increase-IsSorted, favorite-IsSorted}
use pth.Pqueue.Remove.{delmax-IsQueue, delmax-nil}
use pth.Pqueue.Refine.{insert-Leaves, delete-Leaves, favorite-Leaves, increase-IsQueue}
use pth.Pqueue.{Mem, IsQueue, init, insert, delete, delmax, favorite, increase}

pub data Op : Type 0 where
  put : ℤ → Ptr → Op
  take : Op
  drop : Ptr → Op
  favor : Ptr → Op
  bump : Op

-- What the caller must see to: a thread goes in only from outside, and out only from inside.
abbrev pub Allowed : Op → List Entry → Type 0
Allowed (put p t) xs = (t ≢ null) × (has t (threads xs) ≡ false)
Allowed take xs = Unit {0}
Allowed (drop t) xs = has t (threads xs) ≡ true
Allowed (favor t) xs = has t (threads xs) ≡ true
Allowed bump xs = Unit {0}

unfoldable pub step : Ptr → Op → Mem → Option Mem
step q (put p t) m = insert q p t m
step q take m = some (delmax q m).1
step q (drop t) m = some (delete q t m)
step q (favor t) m = elim (favorite q t m) [ none ↦ none | some r ↦ some r.1 ]
step q bump m = some (increase q m)

abbrev pub tail_of : List Entry → List Entry
tail_of [] = []
tail_of (e ∷ xs) = xs

abbrev pub step_spec : Op → List Entry → List Entry
step_spec (put p t) xs = Spec.insert p t xs
step_spec take xs = tail_of xs
step_spec (drop t) xs = Spec.delete t xs
step_spec (favor t) xs = Spec.favorite t xs
step_spec bump xs = Spec.increase xs

unfoldable pub run : Ptr → List Op → Mem → Option Mem
run q [] m = some m
run q (o ∷ os) m = elim (step q o m) [ none ↦ none | some m' ↦ run q os m' ]

unfoldable pub run_spec : List Op → List Entry → List Entry
run_spec [] xs = xs
run_spec (o ∷ os) xs = run_spec os (step_spec o xs)

abbrev pub AllAllowed : List Op → List Entry → Type 0
AllAllowed [] xs = Unit {0}
AllAllowed (o ∷ os) xs = Allowed o xs × AllAllowed os (step_spec o xs)

-- The calls ended, and left a queue of these entries, whose priorities do not rise.
abbrev pub Holds : Ptr → Option Mem → List Entry → Type 0
Holds q r xs = (m : Mem) × (r ≡ some m) × IsQueue q m xs × IsSorted xs

step-Holds :
    (q : Ptr) (o : Op) (m : Mem) (xs : List Entry)
    → Allowed o xs
    → IsQueue q m xs
    → IsSorted xs
    → Holds q (step q o m) (step_spec o xs)
unfolding step
step-Holds q (put p t) m xs (tn, out) h s =
    let (m', ran, k) = insert-Leaves q t p m tn xs out h in (m', ran, k, insert-IsSorted p t xs s)
step-Holds q take m [] a h s = ((delmax q m).1, refl, rw (delmax-nil q m h) h, tt)
step-Holds q take m (e ∷ xs) a h s =
    ((delmax q m).1, refl, (delmax-IsQueue q e.0 e.1 m xs h).1, s.1)
step-Holds q (drop t) m xs a h s =
    (delete q t m, refl, delete-Leaves q t m xs a h, delete-IsSorted t xs s)
step-Holds q (favor t) m xs a h s =
    let (m', ran, k) = favorite-Leaves q t m xs a h in
    (m', rw (ran, step), k, favorite-IsSorted t xs s)
step-Holds q bump m xs a h s =
    (increase q m, refl, increase-IsQueue q m xs h, increase-IsSorted xs s)

run_from-Holds :
    (q : Ptr) (os : List Op) (m : Mem) (xs : List Entry)
    → AllAllowed os xs
    → IsQueue q m xs
    → IsSorted xs
    → Holds q (run q os m) (run_spec os xs)
unfolding run run_spec
run_from-Holds q [] m xs a h s = (m, refl, h, s)
run_from-Holds q (o ∷ os) m xs a h s =
    let (m', ran, h', s') = step-Holds q o m xs a.0 h s in
    rw (ran, run) (run_from-Holds q os m' (step_spec o xs) a.1 h' s')

init-IsQueue : (q : Ptr) (m : Mem) → q ≢ null → IsQueue q (init q m) []
unfolding init
init-IsQueue q m ne = record {
  ne_null = ne;
  num = ground arith;
  head_first = ground arith;
  threads_ne_null = refl;
  distinct = tt;
  cycle = tt;
  stored = tt;
}

-- Whatever sequence of insertions, removals, favorings and ageing calls is made on an initialized
-- queue, as long as a thread goes in only from outside and out only from inside, no call runs out
-- of fuel, the memory holds the entries that the sorted-list specification computes, and their
-- priorities do not rise along the queue.
pub run-Holds :
    (q : Ptr) (m : Mem) (os : List Op)
    → q ≢ null
    → AllAllowed os []
    → Holds q (run q os (init q m)) (run_spec os [])
run-Holds q m os ne a = run_from-Holds q os (init q m) [] a (init-IsQueue q m ne) tt
