-- ===== src/Ring/Next.antt =====
-- `pth_ring_next` along a ring, as a loop over all its nodes uses it.
use pth.Base.{◌≡◌, List, [], ◌∷◌, ◌++◌, arith, Ptr, null, has-append}
use pth.Cycle.{Cyclic-next-inner, Cyclic-next-last}
use pth.Cycle.Edit.{Cyclic-neighbours}
use pth.Ring.Count.{member-ne-null}
use pth.Ring.{Mem, IsRing, links, next, delete}

module _ (r u : Ptr) (m : Mem) where
  -- The node behind a node that is not the last.
  pub next-inner :
      (xs : List Ptr) (y : Ptr) (ys : List Ptr) → IsRing r m (xs ++ u ∷ y ∷ ys) → next r u m ≡ y
  unfolding next
  next-inner [] y ys h =
      ground (arith, h.ne_null, h.nodes_ne_null, h.shape.0, h.distinct.0, h.shape.1.0)
  next-inner (x ∷ xs) y ys h = ground (
    arith,
    h.ne_null,
    member-ne-null r u m (x ∷ xs) (y ∷ ys) h,
    h.shape.0,
    h.distinct.0,
    has-append x xs (u ∷ y ∷ ys),
    Cyclic-next-inner (links m) (x ∷ xs) u y ys h.shape.1,
  )

  -- There is none behind the last.
  pub next-last : (xs : List Ptr) → IsRing r m (xs ++ u ∷ []) → next r u m ≡ null
  unfolding next
  next-last [] h = ground (arith, h.shape.0, h.shape.1.0)
  next-last (x ∷ xs) h = ground (arith, h.shape.0, Cyclic-next-last (links m) x xs u h.shape.1)

  -- What a loop that asks for the next node of a deleted one finds: nothing, if the node was the
  -- first of several, and the node itself, if it was alone.
  pub next-delete-first :
      (y : Ptr) (ys : List Ptr) → IsRing r m (u ∷ y ∷ ys) → next r u (delete r u m) ≡ null
  unfolding next delete
  next-delete-first y ys h =
      let (n, p) = Cyclic-neighbours (links m) [] u (y ∷ ys) h.distinct (λ e. cc) h.shape.1 in
      ground (arith, h.shape.0, h.shape.1.0)

  pub next-delete-alone : IsRing r m (u ∷ []) → next r u (delete r u m) ≡ u
  unfolding next delete
  next-delete-alone h = ground (arith, h.shape.0, h.shape.1, h.ne_null, h.nodes_ne_null)
