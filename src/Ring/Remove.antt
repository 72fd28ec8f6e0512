-- ===== src/Ring/Remove.antt =====
-- Nodes taken out of a ring: `pth_ring_delete`, and what is built on it.
use pth.Base.{
  ◌+◌, ◌-◌, ◌%◌, ◌≡◌, refl, ◌≢◌, ◌∙◌, true, false, List, [], ◌∷◌, ◌++◌, arith, ◌==◌, if◌then◌else◌,
  ==_ne, Ptr, null, has-append, Distinct, Distinct-remove, append-nil,
}
use pth.Cycle.{Linked, last_or, last_or-snoc, prev-last}
use pth.Cycle.Edit.{Bypassed, Bypassed-Cyclic, Cyclic-neighbours}
use pth.Ring.Count.{IsRing-shrink, member-ne-null}
use pth.Ring.Insert.{prepend-IsRing}
use pth.Ring.{Mem, IsRing, Shape, links, delete, pop, dequeue, favorite, last, uint_mod}

module _ (r t : Ptr) (m : Mem) (ne : r ≢ null) (tn : t ≢ null) where
  delete-count : (delete r t m).r_nodes r ≡ (m.r_nodes r + uint_mod - 1) % uint_mod
  unfolding delete
  delete-count = ground arith

  delete-Bypassed : m.rn_next t ≢ t → m.rn_prev t ≢ t → Bypassed (links m) (links (delete r t m)) t
  unfolding delete
  delete-Bypassed other other' = ground arith

  delete-hook :
      m.rn_next t ≢ t
      → (delete r t m).r_hook r ≡ (if m.r_hook r == t then m.rn_next t else m.r_hook r)
  unfolding delete
  delete-hook other = ground arith

  delete-alone : m.r_hook r ≡ t → Linked (links m) t [] t → (delete r t m).r_hook r ≡ null
  unfolding delete
  delete-alone hook h = ground arith

  delete-Shape :
      (xs ys : List Ptr)
      → Distinct (xs ++ t ∷ ys)
      → Shape r m (xs ++ t ∷ ys)
      → Shape r (delete r t m) (xs ++ ys)
  delete-Shape [] [] d (hook, h) = delete-alone hook h
  delete-Shape [] (y ∷ zs) d (hook, h) =
      let (n, p) = Cyclic-neighbours (links m) [] t (y ∷ zs) d (λ e. cc) h in
      (
        ground (arith, delete-hook n),
        Bypassed-Cyclic (links m) (links (delete r t m)) [] t (y ∷ zs) d (delete-Bypassed n p) h,
      )
  delete-Shape (x ∷ xs) ys d (hook, h) =
      let (n, p) = Cyclic-neighbours (links m) (x ∷ xs) t ys d (λ e. cc) h in
      (
        ground (arith, delete-hook n, has-append x xs (t ∷ ys)),
        Bypassed-Cyclic (links m) (links (delete r t m)) (x ∷ xs) t ys d (delete-Bypassed n p) h,
      )

module _ (r t : Ptr) (m : Mem) where
  -- Deleting a node of a ring leaves the others in their order.
  pub delete-IsRing :
      (xs ys : List Ptr) → IsRing r m (xs ++ t ∷ ys) → IsRing r (delete r t m) (xs ++ ys)
  delete-IsRing xs ys h =
      let tn = member-ne-null r t m xs ys h in
      IsRing-shrink r t m (delete r t m) xs ys h (delete-count r t m h.ne_null tn)
        (delete-Shape r t m h.ne_null tn xs ys h.distinct h.shape)

  -- A pop takes the first node.
  pub pop-IsRing :
      (xs : List Ptr) → IsRing r m (t ∷ xs) → ((pop r m).0 ≡ t) × IsRing r (pop r m).1 xs
  unfolding pop
  pop-IsRing xs h =
      let e : m.r_hook r ≡ t = h.shape.0 in
      let rn : (r == null) ≡ false = ==_ne r null h.ne_null in
      let tn : (t == null) ≡ false = ==_ne t null (member-ne-null r t m [] xs h) in
      rw (rn, e, tn) (refl, delete-IsRing [] xs h)

  last_lem : (x : Ptr) (xs : List Ptr) → IsRing r m (x ∷ xs) → last r m ≡ last_or x xs
  unfolding last
  last_lem x xs h =
      ground (arith, h.ne_null, h.nodes_ne_null, h.shape.0, prev-last (links m) x xs x h.shape.1)

  last-snoc : (xs : List Ptr) → IsRing r m (xs ++ t ∷ []) → last r m ≡ t
  last-snoc [] h = last_lem t [] h
  last-snoc (x ∷ xs) h = last_lem x (xs ++ t ∷ []) h ∙ last_or-snoc x xs t

  -- A dequeue returns the last node of the ring and leaves the others.
  pub dequeue-IsRing :
      (xs : List Ptr)
      → IsRing r m (xs ++ t ∷ [])
      → ((dequeue r m).0 ≡ t) × IsRing r (dequeue r m).1 xs
  unfolding dequeue
  dequeue-IsRing xs h =
      let tn : (t == null) ≡ false = ==_ne t null (member-ne-null r t m xs [] h) in
      rw (last-snoc xs h, tn) (refl, rw append-nil at (delete-IsRing xs [] h))

  -- A pop or a dequeue of an empty ring finds nothing and changes nothing.
  pub pop-nil : IsRing r m [] → (pop r m ≡ (null, m)) × (dequeue r m ≡ (null, m))
  unfolding pop dequeue
  pop-nil h = ground arith

  -- Favoring a member that is not the hook returns TRUE and makes it the first node, the others
  -- keeping their order.
  pub favorite-IsRing :
      (x : Ptr) (xs ys : List Ptr)
      → IsRing r m (x ∷ xs ++ t ∷ ys)
      → ((favorite r t m).0 ≡ true) × IsRing r (favorite r t m).1 (t ∷ x ∷ xs ++ ys)
  unfolding favorite
  favorite-IsRing x xs ys h =
      let out = (Distinct-remove (x ∷ xs) t ys h.distinct).1 in
      let tn = member-ne-null r t m (x ∷ xs) ys h in
      let rn : (r == null) ≡ false = ==_ne r null h.ne_null in
      let some_hook : (m.r_hook r == null) ≡ false = ground (arith, h.shape.0, h.nodes_ne_null) in
      let not_hook : (m.r_hook r == t) ≡ false = ground (arith, h.shape.0, out) in
      rw (rn, some_hook, not_hook) (refl, prepend-IsRing (delete-IsRing (x ∷ xs) ys h) tn out)
