-- ===== src/Sync/Nested.antt =====
-- A thread that locks a mutex several times and releases it as often.
use pth.Base.{
  ℕ, zero, suc, ◌+◌, ◌<◌, ◌≡◌, ◌≢◌, refl, sym, ap, ◌∙◌, true, false, [], ◌∷◌, arith, List, ◌++◌,
  Ptr, null, append-nil,
}
use pth.Ring.{IsRing}
use pth.Ring.Insert.{append-IsRing}
use pth.Ring.Remove.{delete-IsRing}
use pth.Sync.{State, ulong_mod, yes_ret}
use pth.Sync.Lock.{returns, lock, start, release}
use pth.Sync.Held.{Held}
use pth.Sync.Moves.{after}
use pth.Sync.Branches.{start-free, start-again, release-last, release-again}
use pth.Sync.Counted.{
  acquires, releases, Nested, Nested-mutex, acquires-Nested, releases-Nested, release-Nested-last,
}

module _ (s : State) (h : Ptr → List Ptr) (H : Held s h) (m : Ptr) (mn : m ≢ null) where
  lock-Nested :
      (s.mutex m).initialized ≡ true
      → (s.mutex m).locked ≡ false
      → Nested s.current m (lock m s).rings 1 (after (start m false s))
  unfolding lock
  lock-Nested init free = rw (start-free m s mn init false free) (record {
    initialized = ground arith;
    locked = ground arith;
    owner = ground arith;
    count = ground arith;
    current = refl;
    same_rings = refl;
  })

  lock-members :
      (s.mutex m).locked ≡ false → IsRing s.current (lock m s).rings (h s.current ++ m ∷ [])
  unfolding lock
  lock-members free =
      append-IsRing (H.rings s.current H.running) mn (ground (arith, H.owned s.current m H.running))

  free_mutex :
      (s.mutex m).initialized ≡ true
      → (s.mutex m).locked ≡ false
      → s.mutex m ≡ record { initialized = true; locked = false; owner = null; count = 0 }
  free_mutex init free =
      let (owner, count) = H.free m free in
      λ i. record { initialized = init i; locked = free i; owner = owner i; count = count i }

  releases_snoc : (k : ℕ) (s : State) → releases (suc k) m s ≡ (release m (releases k m s)).1
  releases_snoc zero s = refl
  releases_snoc (suc k) s = releases_snoc k (release m s).1

  acquires_snoc :
      (k : ℕ) (s : State) → acquires (suc k) m s ≡ after (start m false (acquires k m s))
  acquires_snoc zero s = refl
  acquires_snoc (suc k) s = acquires_snoc k (after (start m false s))

  -- The first acquisitions of the free mutex.
  acquires-Nested-first :
      (j : ℕ)
      → (s.mutex m).initialized ≡ true
      → (s.mutex m).locked ≡ false
      → suc j < ulong_mod
      → Nested s.current m (lock m s).rings (suc j) (acquires (suc j) m s)
  acquires-Nested-first j init free small =
      acquires-Nested s.current m (lock m s).rings mn j 0 _ (omega arith) small
        (lock-Nested init free)

  start-returns :
      (j : ℕ)
      → (s.mutex m).initialized ≡ true
      → (s.mutex m).locked ≡ false
      → suc j < ulong_mod
      → start m false (acquires j m s) ≡ returns yes_ret (acquires (suc j) m s)
  start-returns zero init free small =
      let e = start-free m s mn init false free in e ∙ ap (returns yes_ret) (sym (ap after e))
  start-returns (suc j) init free small =
      let n = acquires-Nested-first j init free (omega arith) in
      let e =
        start-again m (acquires (suc j) m s) mn n.initialized false
          (n.locked, n.owner ∙ sym n.current) (omega (arith, n.count)) in
      e ∙ ap (returns yes_ret) (sym (acquires_snoc (suc j) s ∙ ap after e))

  -- What is left after `j` of the releases that follow.
  releases-Nested-first :
      (k j n : ℕ)
      → n + j ≡ k
      → (s.mutex m).initialized ≡ true
      → (s.mutex m).locked ≡ false
      → suc k < ulong_mod
      → Nested s.current m (lock m s).rings (suc n) (releases j m (acquires (suc k) m s))
  releases-Nested-first k j n e init free small =
      releases-Nested s.current m (lock m s).rings mn j n _ (omega (arith, e)) small
        (acquires-Nested-first k init free small)

  release-yes :
      (n : ℕ) (u : State)
      → suc n < ulong_mod
      → Nested s.current m (lock m s).rings (suc n) u
      → (release m u).0 ≡ yes_ret
  release-yes zero u small h =
      ap (λ r. r.0) (release-last m u mn h.initialized (h.locked, h.owner ∙ sym h.current) h.count)
  release-yes (suc n) u small h =
      ap (λ r. r.0)
        (release-again m u mn h.initialized n (h.locked, h.owner ∙ sym h.current) h.count
          (omega arith))

  -- In a consistent state, if the running thread acquires a free initialized mutex k + 1 times and
  -- then releases it as often, k + 1 being below the bound of the count, every acquisition and
  -- every release returns TRUE, the caller owns the mutex with the count j + 1 after j + 1
  -- acquisitions, it still owns it with the count k + 1 - j after j releases, j at most k, and
  -- after the last release the mutex and the ring of the caller are as they were.
  pub releases-acquires :
      (k j n : ℕ)
      → n + j ≡ k
      → (s.mutex m).initialized ≡ true
      → (s.mutex m).locked ≡ false
      → suc k < ulong_mod
      → let up = acquires (suc k) m s in
        (start m false (acquires j m s) ≡ returns yes_ret (acquires (suc j) m s))
        × ((acquires (suc j) m s).mutex m
            ≡ record { initialized = true; locked = true; owner = s.current; count = suc j })
        × ((releases j m up).mutex m
            ≡ record { initialized = true; locked = true; owner = s.current; count = suc n })
        × ((release m (releases j m up)).0 ≡ yes_ret)
        × ((releases (suc k) m up).mutex m ≡ s.mutex m)
        × IsRing s.current (releases (suc k) m up).rings (h s.current)
  releases-acquires k j n e init free small =
      let a = acquires-Nested-first j init free (omega (arith, e)) in
      let r = releases-Nested-first k j n e init free small in
      let one = releases-Nested-first k k 0 (omega arith) init free small in
      let (x, d) = release-Nested-last s.current m (lock m s).rings mn _ one in
      (
        start-returns j init free (omega (arith, e)),
        Nested-mutex a,
        Nested-mutex r,
        release-yes n _ (omega (arith, e)) r,
        rw (releases_snoc k (acquires (suc k) m s)) (x ∙ sym (free_mutex init free)),
        rw (releases_snoc k (acquires (suc k) m s), d, ← append-nil (h s.current))
            (delete-IsRing s.current m (lock m s).rings (h s.current) [] (lock-members free)),
      )
