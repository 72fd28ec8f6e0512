-- ===== src/Ring/Search.antt =====
-- `pth_ring_contains` decides membership, and its loop ends within the count of nodes.
use pth.Base.{
  ℕ, zero, suc, ◌+◌, ◌<◌, ◌≡◌, ◌≢◌, false, some, List, [], ◌∷◌, arith, Ptr, null, has, length,
}
use pth.Cycle.{Linked}
use pth.Ring.{Mem, IsRing, links, contains, contains_loop, found}

module _ (r h rns : Ptr) (m : Mem) (hook : m.r_hook r ≡ h) where
  -- From the node `a` on, behind which the nodes `xs` are left up to the hook.
  contains_loop-some :
      (k : ℕ) (a : Ptr) (xs : List Ptr)
      → length xs < k
      → has h xs ≡ false
      → Linked (links m) a xs h
      → contains_loop k r rns a m ≡ some (has rns (a ∷ xs))
  unfolding contains_loop
  contains_loop-some zero a xs fuel out l = absurd (omega arith)
  contains_loop-some (suc k) a [] fuel out l = ground arith
  contains_loop-some (suc k) a (x ∷ xs) fuel out (n, p, l) =
      ground (arith, contains_loop-some k x xs (omega arith) (ground arith) l)

-- With the count of nodes as fuel the search of pth_ring_contains ends, and finds the nodes of the
-- ring and no other.
pub contains-found :
    (r rns fuel : ℕ) (m : Mem) (xs : List Ptr)
    → IsRing r m xs
    → rns ≢ null
    → length xs < fuel + 1
    → contains fuel r rns m ≡ found (has rns xs)
unfolding contains
contains-found r rns fuel m [] h ne enough = ground (arith, h.ne_null, h.shape)
contains-found r rns fuel m (x ∷ xs) h ne enough = ground (
  arith,
  h.ne_null,
  h.shape.0,
  h.nodes_ne_null,
  contains_loop-some r x rns m h.shape.0 fuel x xs (omega arith) h.distinct.0 h.shape.1,
)
