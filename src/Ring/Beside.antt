-- ===== src/Ring/Beside.antt =====
-- `pth_ring_insert_after` and `pth_ring_insert_before`: a node put beside another.
use pth.Base.{
  ◌+◌, ◌%◌, ◌≡◌, ◌≢◌, false, List, [], ◌∷◌, ◌++◌, arith, Ptr, null, has, has-append, Distinct,
  Distinct-rotate, append_assoc, append-nil,
}
use pth.Cycle.{Cyclic-next-has, Linked, prev-last, Linked-rotate, Linked-split, Linked-join}
use pth.Cycle.Edit.{
  Inserted, Inserted-last, Inserted-open, InsertedAfter, InsertedAfter-Cyclic, last_ne,
}
use pth.Ring.Count.{IsRing-grow, member-ne-null}
use pth.Ring.{Mem, IsRing, Shape, links, insert_after, insert_before, uint_mod}

module _ (r u t : Ptr) (m : Mem) (ne : r ≢ null) (tn : t ≢ null) (un : u ≢ null) where
  insert_after-count : (insert_after r u t m).r_nodes r ≡ (m.r_nodes r + 1) % uint_mod
  unfolding insert_after
  insert_after-count = ground arith

  insert_after-hook : (insert_after r u t m).r_hook r ≡ m.r_hook r
  unfolding insert_after
  insert_after-hook = ground arith

  insert_before-count : (insert_before r u t m).r_nodes r ≡ (m.r_nodes r + 1) % uint_mod
  unfolding insert_before
  insert_before-count = ground arith

  insert_before-hook : (insert_before r u t m).r_hook r ≡ m.r_hook r
  unfolding insert_before
  insert_before-hook = ground arith

  insert_after-InsertedAfter :
      t ≢ u → t ≢ m.rn_next u → InsertedAfter (links m) (links (insert_after r u t m)) u t
  unfolding insert_after
  insert_after-InsertedAfter tu tnext = ground arith

  insert_before-Inserted :
      (xs : List Ptr)
      → has t (u ∷ xs) ≡ false
      → Linked (links m) u xs u
      → Inserted (links m) (links (insert_before r u t m)) u xs t
  unfolding insert_before
  insert_before-Inserted xs out h = ground (arith, last_ne t u xs, prev-last (links m) u xs u h)

  insert_after-Shape :
      (xs ys : List Ptr)
      → has t (xs ++ u ∷ ys) ≡ false
      → Distinct (xs ++ u ∷ ys)
      → Shape r m (xs ++ u ∷ ys)
      → Shape r (insert_after r u t m) (xs ++ u ∷ t ∷ ys)
  insert_after-Shape [] ys out d (hook, h) = (
    ground (arith, insert_after-hook),
    InsertedAfter-Cyclic (links m) (links (insert_after r u t m)) [] u t ys d out
        (insert_after-InsertedAfter (ground arith)
          (ground (arith, Cyclic-next-has (links m) [] u ys h)))
        h,
  )
  insert_after-Shape (x ∷ xs) ys out d (hook, h) = (
    ground (arith, insert_after-hook),
    InsertedAfter-Cyclic (links m) (links (insert_after r u t m)) (x ∷ xs) u t ys d out
        (insert_after-InsertedAfter (ground (arith, has-append t xs (u ∷ ys)))
          (ground (arith, Cyclic-next-has (links m) (x ∷ xs) u ys h)))
        h,
  )

  insert_before-Shape :
      (x : Ptr) (xs ys : List Ptr)
      → has t (x ∷ xs ++ u ∷ ys) ≡ false
      → Distinct (x ∷ xs ++ u ∷ ys)
      → Shape r m (x ∷ xs ++ u ∷ ys)
      → Shape r (insert_before r u t m) (x ∷ xs ++ t ∷ u ∷ ys)
  insert_before-Shape x xs ys out d (hook, h) =
      let out' : has t (u ∷ ys ++ x ∷ xs) ≡ false =
        ground (arith, has-append t xs (u ∷ ys), has-append t ys (x ∷ xs)) in
      let root = Linked-rotate (links m) x xs u ys h in
      let i = insert_before-Inserted (ys ++ x ∷ xs) out' root in
      let (back, front) = Linked-split (links (insert_before r u t m)) u ys x xs t (
        Inserted-open (links m) (links (insert_before r u t m)) u (ys ++ x ∷ xs) t
          (Distinct-rotate (x ∷ xs) (u ∷ ys) d) out' i root) in
      (
        ground (arith, insert_before-hook),
        Linked-join (links (insert_before r u t m)) x xs t (u ∷ ys) x front
            (i.next_t, i.prev_a, back),
      )

module _ (r t u : Ptr) (m : Mem) where
  -- A fresh node inserted after the node `u` of a ring follows `u`.
  pub insert_after-IsRing :
      (xs ys : List Ptr)
      → IsRing r m (xs ++ u ∷ ys)
      → t ≢ null
      → has t (xs ++ u ∷ ys) ≡ false
      → IsRing r (insert_after r u t m) (xs ++ u ∷ t ∷ ys)
  insert_after-IsRing xs ys h tn out = rw append_assoc at (
      IsRing-grow r t m (insert_after r u t m) (xs ++ u ∷ []) ys (rw append_assoc h) tn
        (rw append_assoc out) (insert_after-count r u t m h.ne_null tn un)
        (rw append_assoc (insert_after-Shape r u t m h.ne_null tn un xs ys out h.distinct h.shape)))
    where
      un : u ≢ null
      un = member-ne-null r u m xs ys h

  -- A fresh node inserted before a node that is not the hook goes in front of that node.
  pub insert_before-IsRing :
      (x : Ptr) (xs ys : List Ptr)
      → IsRing r m (x ∷ xs ++ u ∷ ys)
      → t ≢ null
      → has t (x ∷ xs ++ u ∷ ys) ≡ false
      → IsRing r (insert_before r u t m) (x ∷ xs ++ t ∷ u ∷ ys)
  insert_before-IsRing x xs ys h tn out =
      IsRing-grow r t m (insert_before r u t m) (x ∷ xs) (u ∷ ys) h tn out
        (insert_before-count r u t m h.ne_null tn un)
        (insert_before-Shape r u t m h.ne_null tn un x xs ys out h.distinct h.shape)
    where
      un : u ≢ null
      un = member-ne-null r u m (x ∷ xs) ys h

  -- Inserted before the hook itself, it becomes the last node: the hook does not move.
  pub insert_before-hook-IsRing :
      (ys : List Ptr)
      → IsRing r m (u ∷ ys)
      → t ≢ null
      → has t (u ∷ ys) ≡ false
      → IsRing r (insert_before r u t m) (u ∷ ys ++ t ∷ [])
  insert_before-hook-IsRing ys h tn out =
      IsRing-grow r t m (insert_before r u t m) (u ∷ ys) [] (rw append-nil h) tn (rw append-nil out)
        (insert_before-count r u t m h.ne_null tn un)
        (
          ground (arith, insert_before-hook r u t m h.ne_null tn un, h.shape.0),
          Inserted-last (links m) (links (insert_before r u t m)) u ys t h.distinct out
              (insert_before-Inserted r u t m h.ne_null tn un ys out h.shape.1) h.shape.1,
        )
    where
      un : u ≢ null
      un = member-ne-null r u m [] ys h
