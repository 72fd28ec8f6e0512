-- ===== src/Ring/Count.antt =====
-- What every insertion into a ring and every deletion from one share: the count, and the nodes'
-- being distinct and no null.
use pth.Base.{
  ◌+◌, ◌-◌, ◌%◌, ◌≡◌, ◌≢◌, false, List, ◌∷◌, ◌++◌, arith, Ptr, null, has, has-append, length-append,
  Distinct-insert, Distinct-remove,
}
use pth.Ring.{Mem, IsRing, Shape, uint_mod}

module _ (r t : Ptr) (m : Mem) (xs ys : List Ptr) where
  -- A member of a ring is no null.
  pub member-ne-null : IsRing r m (xs ++ t ∷ ys) → t ≢ null
  member-ne-null h = ground (arith, has-append null xs (t ∷ ys), h.nodes_ne_null)

module _ (r t : Ptr) (m m' : Mem) (xs ys : List Ptr) where
  pub IsRing-grow :
      IsRing r m (xs ++ ys)
      → t ≢ null
      → has t (xs ++ ys) ≡ false
      → m'.r_nodes r ≡ (m.r_nodes r + 1) % uint_mod
      → Shape r m' (xs ++ t ∷ ys)
      → IsRing r m' (xs ++ t ∷ ys)
  IsRing-grow h tn out count shape = record {
    ne_null = h.ne_null;
    count = omega (arith, count, h.count, length-append xs ys, length-append xs (t ∷ ys));
    nodes_ne_null =
        ground (arith, has-append null xs ys, has-append null xs (t ∷ ys), h.nodes_ne_null);
    distinct = Distinct-insert xs t ys h.distinct out;
    shape = shape;
  }

  pub IsRing-shrink :
      IsRing r m (xs ++ t ∷ ys)
      → m'.r_nodes r ≡ (m.r_nodes r + uint_mod - 1) % uint_mod
      → Shape r m' (xs ++ ys)
      → IsRing r m' (xs ++ ys)
  IsRing-shrink h count shape = record {
    ne_null = h.ne_null;
    count = omega (arith, count, h.count, length-append xs ys, length-append xs (t ∷ ys));
    nodes_ne_null =
        ground (arith, has-append null xs ys, has-append null xs (t ∷ ys), h.nodes_ne_null);
    distinct = (Distinct-remove xs t ys h.distinct).0;
    shape = shape;
  }
