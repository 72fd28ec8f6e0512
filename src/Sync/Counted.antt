-- ===== src/Sync/Counted.antt =====
-- How the count of a mutex follows the acquisitions and releases of its owner.
use pth.Base.{
  ℕ, zero, suc, ◌+◌, ◌<◌, ◌≡◌, ◌≢◌, refl, sym, ◌∙◌, true, false, arith, ==_self, subst, Ptr, null,
}
use pth.Ring
use pth.Ring.{IsRing}
use pth.Sync.{State, ulong_mod}
use pth.Sync.Lock.{unlock, start, release}
use pth.Sync.Moves.{after}
use pth.Sync.Branches.{start-again, release-last, release-again}

abbrev pub acquires : ℕ → Ptr → State → State
acquires zero m s = s
acquires (suc k) m s = acquires k m (after (start m false s))

abbrev pub releases : ℕ → Ptr → State → State
releases zero m s = s
releases (suc k) m s = releases k m (release m s).1

-- The running thread `c` has locked `m` `n` times.
pub record Nested (c m : Ptr) (rings : Ring.Mem) (n : ℕ) (s : State) : Type 0 where
  pub initialized : (s.mutex m).initialized ≡ true
  pub locked : (s.mutex m).locked ≡ true
  pub owner : (s.mutex m).owner ≡ c
  pub count : (s.mutex m).count ≡ n
  pub current : s.current ≡ c
  pub same_rings : s.rings ≡ rings

pub Nested-mutex :
    {c m : Ptr} {rings : Ring.Mem} {n : ℕ} {s : State}
    → Nested c m rings n s
    → s.mutex m ≡ record { initialized = true; locked = true; owner = c; count = n }
Nested-mutex h = λ i. record {
  initialized = h.initialized i;
  locked = h.locked i;
  owner = h.owner i;
  count = h.count i;
}

module _ (c m : Ptr) (rings : Ring.Mem) (mn : m ≢ null) where
  start-Nested :
      (n : ℕ) (s : State)
      → suc (suc n) < ulong_mod
      → Nested c m rings (suc n) s
      → Nested c m rings (suc (suc n)) (after (start m false s))
  start-Nested n s small h =
      rw
        (start-again m s mn h.initialized false (h.locked, h.owner ∙ sym h.current)
          (omega (arith, h.count)))
        (record {
          initialized = ground (arith, h.initialized);
          locked = ground (arith, h.locked);
          owner = ground (arith, h.owner);
          count = ground (arith, h.count);
          current = h.current;
          same_rings = h.same_rings;
        })

  release-Nested :
      (n : ℕ) (s : State)
      → suc (suc n) < ulong_mod
      → Nested c m rings (suc (suc n)) s
      → Nested c m rings (suc n) (release m s).1
  release-Nested n s small h =
      rw
        (release-again m s mn h.initialized n (h.locked, h.owner ∙ sym h.current) h.count
          (omega arith))
        (record {
          initialized = ground (arith, h.initialized);
          locked = ground (arith, h.locked);
          owner = ground (arith, h.owner);
          count = ground arith;
          current = h.current;
          same_rings = h.same_rings;
        })

  pub acquires-Nested :
      (k n : ℕ) {total : ℕ} (s : State)
      → total ≡ suc (n + k)
      → total < ulong_mod
      → Nested c m rings (suc n) s
      → Nested c m rings total (acquires k m s)
  acquires-Nested zero n s e small h = subst (λ i. Nested c m rings i s) (omega arith) h
  acquires-Nested (suc k) n s e small h =
      acquires-Nested k (suc n) (after (start m false s)) (omega arith) small
        (start-Nested n s (omega arith) h)

  pub releases-Nested :
      (k n : ℕ) {total : ℕ} (s : State)
      → total ≡ suc (n + k)
      → total < ulong_mod
      → Nested c m rings total s
      → Nested c m rings (suc n) (releases k m s)
  releases-Nested zero n s e small h = subst (λ i. Nested c m rings i s) (omega arith) h
  releases-Nested (suc k) n s e small h =
      releases-Nested k n (release m s).1 refl (omega arith)
        (release-Nested (n + k) s (omega arith) (subst (λ i. Nested c m rings i s) (omega arith) h))

  -- The release that ends the nest.
  pub release-Nested-last :
      (s : State)
      → Nested c m rings 1 s
      → (((release m s).1.mutex m)
          ≡ record { initialized = true; locked = false; owner = null; count = 0 })
        × ((release m s).1.rings ≡ Ring.delete c m rings)
  unfolding unlock
  release-Nested-last s h =
      rw (release-last m s mn h.initialized (h.locked, h.owner ∙ sym h.current) h.count)
        (rw (==_self m, h.initialized) refl, rw (h.current, h.same_rings) refl)
