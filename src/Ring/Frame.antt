-- ===== src/Ring/Frame.antt =====
-- The rings that an operation is not about.
use pth.Base.{◌≡◌, ◌≢◌, true, false, List, [], ◌∷◌, ◌++◌, arith, Ptr, has, has-append}
use pth.Cycle.{
  Cyclic, Cyclic-next-has, Cyclic-prev-has, last_or, has-last_or, prev-last, Linked-frame,
}
use pth.Ring.{Mem, IsRing, Shape, links, append, delete}

-- Two lists of nodes with no node in common.
abbrev pub Disjoint : List Ptr → List Ptr → Type 0
Disjoint xs ys = (a : Ptr) → has a xs ≡ true → has a ys ≡ false

-- The fields of the ring at `s` and the links of the nodes `ys` are in `m'` what they are in `m`.
pub record Same (s : Ptr) (ys : List Ptr) (m m' : Mem) : Type 0 where
  pub hook : m'.r_hook s ≡ m.r_hook s
  pub count : m'.r_nodes s ≡ m.r_nodes s
  pub nexts : (u : Ptr) → has u ys ≡ true → m'.rn_next u ≡ m.rn_next u
  pub prevs : (u : Ptr) → has u ys ≡ true → m'.rn_prev u ≡ m.rn_prev u

Same-Shape : (s : Ptr) (m m' : Mem) (ys : List Ptr) → Same s ys m m' → Shape s m ys → Shape s m' ys
Same-Shape s m m' [] e h = ground (arith, e.hook)
Same-Shape s m m' (y ∷ ys) e (hook, h) = (
  ground (arith, e.hook),
  Linked-frame (links m) (links m') y ys y e.nexts
      (λ v i. e.prevs v (ground (arith, has-append v ys (y ∷ [])))) h,
)

pub Same-IsRing :
    (s : Ptr) (m m' : Mem) (ys : List Ptr) → Same s ys m m' → IsRing s m ys → IsRing s m' ys
Same-IsRing s m m' ys e h = record {
  ne_null = h.ne_null;
  count = ground (arith, e.count, h.count);
  nodes_ne_null = h.nodes_ne_null;
  distinct = h.distinct;
  shape = Same-Shape s m m' ys e h.shape;
}

pub Shape-Cyclic : (r : Ptr) (m : Mem) (xs : List Ptr) → Shape r m xs → Cyclic (links m) xs
Shape-Cyclic r m [] h = tt
Shape-Cyclic r m (x ∷ xs) h = h.1

module _ (r s t : Ptr) (m : Mem) (ys : List Ptr) (other : s ≢ r) (out : has t ys ≡ false) where
  append-Same : (xs : List Ptr) → IsRing r m xs → Disjoint xs ys → Same s ys m (append r t m)
  unfolding append
  append-Same [] h apart = record {
    hook = ground arith;
    count = ground arith;
    nexts = λ u i. ground arith;
    prevs = λ u i. ground arith;
  }
  append-Same (x ∷ xs) h apart =
      let l = prev-last (links m) x xs x h.shape.1 in
      let x_out : has x ys ≡ false = apart x (ground arith) in
      let last_out : has (last_or x xs) ys ≡ false = apart (last_or x xs) (has-last_or x xs) in
      record {
        hook = ground arith;
        count = ground arith;
        nexts = λ u i. ground (arith, h.shape.0);
        prevs = λ u i. ground (arith, h.shape.0);
      }

  -- Appending a node to one ring leaves any ring that shares no node with it, and does not hold
  -- the new node, as it was.
  pub append-other :
      (xs : List Ptr) → IsRing r m xs → IsRing s m ys → Disjoint xs ys → IsRing s (append r t m) ys
  append-other xs h k apart = Same-IsRing s m (append r t m) ys (append-Same xs h apart) k

  module _ (xs zs : List Ptr) (h : IsRing r m (xs ++ t ∷ zs)) where
    delete-Same : Disjoint (xs ++ t ∷ zs) ys → Same s ys m (delete r t m)
    unfolding delete
    delete-Same apart =
        let c = Shape-Cyclic r m (xs ++ t ∷ zs) h.shape in
        let n = apart (m.rn_next t) (Cyclic-next-has (links m) xs t zs c) in
        let p = apart (m.rn_prev t) (Cyclic-prev-has (links m) xs t zs c) in
        record {
          hook = ground arith;
          count = ground arith;
          nexts = λ u i. ground arith;
          prevs = λ u i. ground arith;
        }

    -- So does deleting one.
    pub delete-other : IsRing s m ys → Disjoint (xs ++ t ∷ zs) ys → IsRing s (delete r t m) ys
    delete-other k apart = Same-IsRing s m (delete r t m) ys (delete-Same apart) k
