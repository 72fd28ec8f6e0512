-- ===== src/Ring/Insert.antt =====
-- Nodes put into a ring: `pth_ring_append` and `pth_ring_prepend`.
use pth.Base.{
  ◌+◌, ◌%◌, ◌≡◌, ◌≢◌, false, List, [], ◌∷◌, ◌++◌, arith, Ptr, null, has, Distinct, append-nil,
}
use pth.Cycle.{Linked, prev-last}
use pth.Cycle.Edit.{Inserted, Inserted-last, Inserted-first, last_ne}
use pth.Ring.Count.{IsRing-grow}
use pth.Ring.{Mem, IsRing, Shape, links, append, prepend, uint_mod}

module _ (r x t : Ptr) (xs : List Ptr) (m : Mem) (ne : r ≢ null) (tn : t ≢ null) where
  append-Inserted :
      x ≢ null
      → m.r_hook r ≡ x
      → has t (x ∷ xs) ≡ false
      → Linked (links m) x xs x
      → Inserted (links m) (links (append r t m)) x xs t
  unfolding append
  append-Inserted xn hook out h = ground (arith, last_ne t x xs, prev-last (links m) x xs x h)

  prepend-Inserted :
      x ≢ null
      → m.r_hook r ≡ x
      → has t (x ∷ xs) ≡ false
      → Linked (links m) x xs x
      → Inserted (links m) (links (prepend r t m)) x xs t
  unfolding prepend
  prepend-Inserted xn hook out h = ground (arith, last_ne t x xs, prev-last (links m) x xs x h)

module _ (r t : Ptr) (m : Mem) (ne : r ≢ null) (tn : t ≢ null) where
  append-count : (append r t m).r_nodes r ≡ (m.r_nodes r + 1) % uint_mod
  unfolding append
  append-count = ground arith

  prepend-count : (prepend r t m).r_nodes r ≡ (m.r_nodes r + 1) % uint_mod
  unfolding prepend
  prepend-count = ground arith

  append-Shape :
      (xs : List Ptr)
      → has t xs ≡ false
      → has null xs ≡ false
      → Distinct xs
      → Shape r m xs
      → Shape r (append r t m) (xs ++ t ∷ [])
  unfolding append
  append-Shape [] out nn d h = ground arith
  append-Shape (x ∷ xs) out nn d (hook, h) = (
    ground arith,
    Inserted-last (links m) (links (append r t m)) x xs t d out
        (append-Inserted r x t xs m ne tn (ground arith) hook out h) h,
  )

  prepend-Shape :
      (xs : List Ptr)
      → has t xs ≡ false
      → has null xs ≡ false
      → Distinct xs
      → Shape r m xs
      → Shape r (prepend r t m) (t ∷ xs)
  unfolding prepend
  prepend-Shape [] out nn d h = ground arith
  prepend-Shape (x ∷ xs) out nn d (hook, h) = (
    ground arith,
    Inserted-first (links m) (links (prepend r t m)) x xs t d out
        (prepend-Inserted r x t xs m ne tn (ground arith) hook out h) h,
  )

-- Appending a fresh node that is not null makes it the last node of the ring.
pub append-IsRing :
    {r t : Ptr} {m : Mem} {xs : List Ptr}
    → IsRing r m xs
    → t ≢ null
    → has t xs ≡ false
    → IsRing r (append r t m) (xs ++ t ∷ [])
append-IsRing {r} {t} {m} {xs} h tn out =
    IsRing-grow r t m (append r t m) xs [] (rw append-nil h) tn (rw append-nil out)
      (append-count r t m h.ne_null tn)
      (append-Shape r t m h.ne_null tn xs out h.nodes_ne_null h.distinct h.shape)

-- Prepending a fresh node to a ring makes it the first node.
pub prepend-IsRing :
    {r t : Ptr} {m : Mem} {xs : List Ptr}
    → IsRing r m xs
    → t ≢ null
    → has t xs ≡ false
    → IsRing r (prepend r t m) (t ∷ xs)
prepend-IsRing {r} {t} {m} {xs} h tn out =
    IsRing-grow r t m (prepend r t m) [] xs h tn out (prepend-count r t m h.ne_null tn)
      (prepend-Shape r t m h.ne_null tn xs out h.nodes_ne_null h.distinct h.shape)
