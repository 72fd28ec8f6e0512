-- ===== src/Ring/Examples.antt =====
-- The theorems on rings at a ring of two nodes beside another ring, and runs of the operations.
use pth.Base.{◌≡◌, refl, List, [], ◌∷◌, arith, Ptr, null, update}
use pth.Ring.{Mem, IsRing, init, prepend, delete, pop, dequeue, insert_after, insert_before, first}
use pth.Ring.Insert.{prepend-IsRing}
use pth.Ring.Beside.{insert_after-IsRing}
use pth.Ring.Remove.{delete-IsRing}

abbrev empty : Mem
empty = record { rn_next = λ _. null; rn_prev = λ _. null; r_hook = λ _. null; r_nodes = λ _. 0 }

-- The ring at 100 holds the nodes 1 and 2, the ring at 200 holds the node 7.
abbrev two : Mem
two = record {
  rn_next = update (update (update (λ _. null) 1 2) 2 1) 7 7;
  rn_prev = update (update (update (λ _. null) 1 2) 2 1) 7 7;
  r_hook = update (update (λ _. null) 100 1) 200 7;
  r_nodes = update (update (λ _. 0) 100 2) 200 1;
}

abbrev nodes : List Ptr
nodes = 1 ∷ 2 ∷ []

two-IsRing : IsRing 100 two nodes
two-IsRing = record {
  ne_null = omega arith;
  count = refl;
  nodes_ne_null = refl;
  distinct = (refl, (refl, tt));
  shape = (refl, (refl, refl, (refl, refl)));
}

other-IsRing : IsRing 200 two (7 ∷ [])
other-IsRing = record {
  ne_null = omega arith;
  count = refl;
  nodes_ne_null = refl;
  distinct = (refl, tt);
  shape = (refl, (refl, refl));
}

prepend-IsRing_example : IsRing 100 (prepend 100 3 two) (3 ∷ 1 ∷ 2 ∷ [])
prepend-IsRing_example = prepend-IsRing two-IsRing (omega arith) refl

insert_after-IsRing_example : IsRing 100 (insert_after 100 1 3 two) (1 ∷ 3 ∷ 2 ∷ [])
insert_after-IsRing_example =
    insert_after-IsRing 100 3 1 two [] (2 ∷ []) two-IsRing (omega arith) refl

delete-IsRing_example : IsRing 100 (delete 100 1 two) (2 ∷ [])
delete-IsRing_example = delete-IsRing 100 1 two [] (2 ∷ []) two-IsRing

-- A run: two nodes go in, one comes out at each end.
run_stack : (pop 100 (prepend 100 2 (prepend 100 1 (init 100 empty)))).0 ≡ 2
unfolding pop prepend init delete
run_stack = refl

run_queue : (dequeue 100 (prepend 100 2 (prepend 100 1 (init 100 empty)))).0 ≡ 1
unfolding dequeue prepend init delete
run_queue = refl

-- Inserted before the hook, a node becomes the last one.
run_before_hook : first 100 (insert_before 100 1 3 two) ≡ 1
unfolding first insert_before
run_before_hook = refl
