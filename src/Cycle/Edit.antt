-- ===== src/Cycle/Edit.antt =====
-- A node put into a cycle and a node taken out of one, whatever writes bring about the new links.
use pth.Base.{
  ◌≡◌, refl, ◌≢◌, false, List, [], ◌∷◌, ◌++◌, arith, Ptr, has, has-append, Distinct,
  Distinct-rotate, append-nil,
}
use pth.Cycle.{
  Links, Linked, Cyclic, last_or, has-last_or, Linked-join, Linked-frame, Linked-retarget,
  Linked-rotate, prev-last,
}

pub last_ne : (t a : Ptr) (xs : List Ptr) → has t (a ∷ xs) ≡ false → t ≢ last_or a xs
last_ne t a xs h e = ground (arith, has-last_or a xs)

module _ (l : Links) where
  first_neighbours :
      (t y : Ptr) (zs : List Ptr)
      → has t (y ∷ zs) ≡ false
      → Linked l t (y ∷ zs) t
      → (l.next t ≢ t) × (l.prev t ≢ t)
  first_neighbours t y zs out h =
      (ground arith, ground (arith, last_ne t y zs out, prev-last l t (y ∷ zs) t h))

  -- A node of a cycle with others is not its own neighbour.
  pub Cyclic-neighbours :
      (xs : List Ptr) (t : Ptr) (ys : List Ptr)
      → Distinct (xs ++ t ∷ ys)
      → xs ++ ys ≢ []
      → Cyclic l (xs ++ t ∷ ys)
      → (l.next t ≢ t) × (l.prev t ≢ t)
  Cyclic-neighbours [] t [] d others h = absurd (others refl)
  Cyclic-neighbours [] t (y ∷ zs) d others h = first_neighbours t y zs d.0 h
  Cyclic-neighbours (x ∷ xs) t [] d others h =
      first_neighbours t x xs (Distinct-rotate (x ∷ xs) (t ∷ []) d).0 (Linked-rotate l x xs t [] h)
  Cyclic-neighbours (x ∷ xs) t (y ∷ zs) d others h =
      first_neighbours t y (zs ++ x ∷ xs) (Distinct-rotate (x ∷ xs) (t ∷ y ∷ zs) d).0
        (Linked-rotate l x xs t (y ∷ zs) h)

module _ (l l' : Links) where
  -- The links after `t` went between the last node of the cycle of `a` and `a` itself.
  pub record Inserted (a : Ptr) (xs : List Ptr) (t : Ptr) : Type 0 where
    pub next_t : l'.next t ≡ a
    pub prev_t : l'.prev t ≡ last_or a xs
    pub next_last : l'.next (last_or a xs) ≡ t
    pub prev_a : l'.prev a ≡ t
    pub next_same : (u : Ptr) → u ≢ t → u ≢ last_or a xs → l'.next u ≡ l.next u
    pub prev_same : (v : Ptr) → v ≢ t → v ≢ a → l'.prev v ≡ l.prev v

  -- The old nodes now lead to `t`.
  pub Inserted-open :
      (a : Ptr) (xs : List Ptr) (t : Ptr)
      → Distinct (a ∷ xs)
      → has t (a ∷ xs) ≡ false
      → Inserted a xs t
      → Linked l a xs a
      → Linked l' a xs t
  Inserted-open a xs t d out i h =
      Linked-retarget l l' a xs a t d (λ u ne m. i.next_same u (ground arith) ne)
        (λ v m. i.prev_same v (ground arith) (ground arith)) i.next_last i.prev_t h

  -- Seen from `a` the new node is the last, seen from itself it is the first.
  pub Inserted-last :
      (a : Ptr) (xs : List Ptr) (t : Ptr)
      → Distinct (a ∷ xs)
      → has t (a ∷ xs) ≡ false
      → Inserted a xs t
      → Linked l a xs a
      → Linked l' a (xs ++ t ∷ []) a
  Inserted-last a xs t d out i h =
      Linked-join l' a xs t [] a (Inserted-open a xs t d out i h) (i.next_t, i.prev_a)

  pub Inserted-first :
      (a : Ptr) (xs : List Ptr) (t : Ptr)
      → Distinct (a ∷ xs)
      → has t (a ∷ xs) ≡ false
      → Inserted a xs t
      → Linked l a xs a
      → Linked l' t (a ∷ xs) t
  Inserted-first a xs t d out i h = (i.next_t, i.prev_a, Inserted-open a xs t d out i h)

  -- The links after `t` went between `u` and the node that followed it.
  pub record InsertedAfter (u t : Ptr) : Type 0 where
    pub next_u : l'.next u ≡ t
    pub prev_t : l'.prev t ≡ u
    pub next_t : l'.next t ≡ l.next u
    pub prev_next : l'.prev (l.next u) ≡ t
    pub next_same : (v : Ptr) → v ≢ t → v ≢ u → l'.next v ≡ l.next v
    pub prev_same : (v : Ptr) → v ≢ t → v ≢ l.next u → l'.prev v ≡ l.prev v

  pub InsertedAfter-Linked :
      (u : Ptr) (xs : List Ptr) (t : Ptr)
      → Distinct (u ∷ xs)
      → has t (u ∷ xs) ≡ false
      → InsertedAfter u t
      → Linked l u xs u
      → Linked l' u (t ∷ xs) u
  InsertedAfter-Linked u [] t d out i h = ground arith
  InsertedAfter-Linked u (y ∷ ys) t d out i h = (
    i.next_u,
    i.prev_t,
    (
      ground arith,
      ground arith,
      Linked-frame l l' y ys u (λ v m. i.next_same v (ground arith) (ground arith))
          (λ v m.
            i.prev_same v (ground (arith, has-append v ys (u ∷ [])))
              (ground (arith, has-append v ys (u ∷ []))))
          h.2,
    ),
  )

  -- The links after the first node of the cycle `t`, `y`, `zs` was bypassed.
  pub record Removed (t y : Ptr) (zs : List Ptr) : Type 0 where
    pub next_last : l'.next (last_or y zs) ≡ y
    pub prev_y : l'.prev y ≡ last_or y zs
    pub next_same : (u : Ptr) → u ≢ last_or y zs → l'.next u ≡ l.next u
    pub prev_same : (v : Ptr) → v ≢ y → l'.prev v ≡ l.prev v

  pub Removed-Linked :
      (t y : Ptr) (zs : List Ptr)
      → Distinct (t ∷ y ∷ zs)
      → Removed t y zs
      → Linked l t (y ∷ zs) t
      → Linked l' y zs y
  Removed-Linked t y zs d r h =
      Linked-retarget l l' y zs t y d.1 (λ u ne m. r.next_same u ne)
        (λ v m. r.prev_same v (ground arith)) r.next_last r.prev_y h.2

  -- The links after `t` was bypassed.
  pub record Bypassed (t : Ptr) : Type 0 where
    pub next_prev : l'.next (l.prev t) ≡ l.next t
    pub prev_next : l'.prev (l.next t) ≡ l.prev t
    pub next_same : (u : Ptr) → u ≢ l.prev t → l'.next u ≡ l.next u
    pub prev_same : (v : Ptr) → v ≢ l.next t → l'.prev v ≡ l.prev v

  Bypassed-Removed :
      (t y : Ptr) (zs : List Ptr) → Linked l t (y ∷ zs) t → Bypassed t → Removed t y zs
  Bypassed-Removed t y zs h b =
      let p = prev-last l y zs t h.2 in
      record {
        next_last = ground (arith, b.next_prev);
        prev_y = ground (arith, b.prev_next);
        next_same = λ u ne. b.next_same u (ground arith);
        prev_same = λ v ne. b.prev_same v (ground arith);
      }

  Bypassed-Linked :
      (t y : Ptr) (zs : List Ptr)
      → Distinct (t ∷ y ∷ zs)
      → Bypassed t
      → Linked l t (y ∷ zs) t
      → Linked l' y zs y
  Bypassed-Linked t y zs d b h = Removed-Linked t y zs d (Bypassed-Removed t y zs h b) h

  -- A node put behind the node `u` of a cycle.
  pub InsertedAfter-Cyclic :
      (xs : List Ptr) (u t : Ptr) (ys : List Ptr)
      → Distinct (xs ++ u ∷ ys)
      → has t (xs ++ u ∷ ys) ≡ false
      → InsertedAfter u t
      → Cyclic l (xs ++ u ∷ ys)
      → Cyclic l' (xs ++ u ∷ t ∷ ys)
  InsertedAfter-Cyclic [] u t ys d out i h = InsertedAfter-Linked u ys t d out i h
  InsertedAfter-Cyclic (x ∷ xs) u t ys d out i h = Linked-rotate l' u (t ∷ ys) x xs (
      InsertedAfter-Linked u (ys ++ x ∷ xs) t (Distinct-rotate (x ∷ xs) (u ∷ ys) d)
        (ground (arith, has-append t xs (u ∷ ys), has-append t ys (x ∷ xs))) i
        (Linked-rotate l x xs u ys h))

  -- A node taken out of a cycle.
  pub Bypassed-Cyclic :
      (xs : List Ptr) (t : Ptr) (ys : List Ptr)
      → Distinct (xs ++ t ∷ ys)
      → Bypassed t
      → Cyclic l (xs ++ t ∷ ys)
      → Cyclic l' (xs ++ ys)
  Bypassed-Cyclic [] t [] d b h = tt
  Bypassed-Cyclic [] t (y ∷ zs) d b h = Bypassed-Linked t y zs d b h
  Bypassed-Cyclic (x ∷ xs) t [] d b h =
      rw append-nil (
        Bypassed-Linked t x xs (Distinct-rotate (x ∷ xs) (t ∷ []) d) b
          (Linked-rotate l x xs t [] h))
  Bypassed-Cyclic (x ∷ xs) t (y ∷ zs) d b h = Linked-rotate l' y zs x xs (
      Bypassed-Linked t y (zs ++ x ∷ xs) (Distinct-rotate (x ∷ xs) (t ∷ y ∷ zs) d) b
        (Linked-rotate l x xs t (y ∷ zs) h))
