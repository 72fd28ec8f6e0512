-- ===== src/Sync/Held.antt =====
-- What the mutexes and the rings of the threads have to do with each other.
use pth.Base.{
  ◌≡◌, ◌≢◌, ap, ℕ, ◌<◌, true, false, ◌&&◌, List, [], ◌∷◌, ◌++◌, arith, ◌==◌, ==_self, Bool-cases,
  inl, inr, Ptr, null, update, has, has-append, Distinct-remove,
}
use pth.Ring.{IsRing}
use pth.Ring.Insert.{append-IsRing}
use pth.Ring.Remove.{delete-IsRing}
use pth.Ring.Frame.{Disjoint, append-other, delete-other}
use pth.Sync.{State, set_mutex, ulong_mod}
use pth.Sync.Lock.{init, lock, unlock}

-- The ring of a thread `t` is `h t`, the mutexes that are locked by it.
pub record Held (s : State) (h : Ptr → List Ptr) : Type 0 where
  pub running : s.current ≢ null
  pub rings : (t : Ptr) → t ≢ null → IsRing t s.rings (h t)
  pub owned :
      (t m : Ptr) → t ≢ null → has m (h t) ≡ ((s.mutex m).locked && ((s.mutex m).owner == t))
  pub free :
      (m : Ptr) → (s.mutex m).locked ≡ false → ((s.mutex m).owner ≡ null) × ((s.mutex m).count ≡ 0)
  pub taken :
      (m : Ptr)
      → (s.mutex m).locked ≡ true
      → ((s.mutex m).owner ≢ null) × ((s.mutex m).count < ulong_mod)

module _ (s : State) (h : Ptr → List Ptr) (H : Held s h) where
  -- A mutex is in the ring of one thread at most.
  pub Held-Disjoint : (t t' : Ptr) → t ≢ null → t' ≢ null → t ≢ t' → Disjoint (h t) (h t')
  Held-Disjoint t t' tn tn' apart a i = ground (arith, H.owned t a tn, H.owned t' a tn', i)

  module _ (m : Ptr) (mn : m ≢ null) (unlocked : (s.mutex m).locked ≡ false) where
    abbrev after_lock : Ptr → List Ptr
    after_lock = update h s.current (h s.current ++ m ∷ [])

    lock-rings : (t : Ptr) → t ≢ null → IsRing t (lock m s).rings (after_lock t)
    unfolding lock
    lock-rings t tn = elim (Bool-cases (s.current == t)) [
      | inl e ↦
          let p : s.current ≡ t = ground arith in
          rw (← p, ==_self s.current)
            (append-IsRing (H.rings s.current H.running) mn
              (ground (arith, H.owned s.current m H.running)))
      | inr e ↦ rw e (
          append-other s.current t m s.rings (h t) (ground arith) (ground (arith, H.owned t m tn))
            (h s.current) (H.rings s.current H.running) (H.rings t tn)
            (Held-Disjoint s.current t H.running tn (ground arith)))
    ]

    pub lock-Held : Held (lock m s) (update h s.current (h s.current ++ m ∷ []))
    unfolding lock
    lock-Held = record {
      running = H.running;
      rings = lock-rings;
      owned = λ t a tn. ground (arith, H.owned t a tn, has-append a (h s.current) (m ∷ []));
      free = λ a e. ground (arith, H.free a);
      taken = λ a e. ground (arith, H.taken a, H.running);
    }

  module _ (m : Ptr) (xs ys : List Ptr) (e : h s.current ≡ xs ++ m ∷ ys) where
    unlock-members : IsRing s.current s.rings (xs ++ m ∷ ys)
    unlock-members = rw (← e) (H.rings s.current H.running)

    unlock-out : has m (xs ++ ys) ≡ false
    unlock-out = (Distinct-remove xs m ys unlock-members.distinct).1

    unlock-mine : ((s.mutex m).locked && ((s.mutex m).owner == s.current)) ≡ true
    unlock-mine =
        ground (arith, H.owned s.current m H.running, ap (has m) e, has-append m xs (m ∷ ys))

    unlock-rings :
        (t : Ptr) → t ≢ null → IsRing t (unlock m s).rings (update h s.current (xs ++ ys) t)
    unfolding unlock
    unlock-rings t tn = elim (Bool-cases (s.current == t)) [
      | inl same ↦
          let p : s.current ≡ t = ground arith in
          rw (← p, ==_self s.current) (delete-IsRing s.current m s.rings xs ys unlock-members)
      | inr differs ↦ rw differs (
          delete-other s.current t m s.rings (h t) (ground arith)
            (ground (arith, H.owned t m tn, unlock-mine)) xs ys unlock-members (H.rings t tn)
            (rw (← e) (Held-Disjoint s.current t H.running tn (ground arith))))
    ]

    unlock-owned :
        (t a : Ptr)
        → t ≢ null
        → has a (update h s.current (xs ++ ys) t)
          ≡ (((unlock m s).mutex a).locked && (((unlock m s).mutex a).owner == t))
    unfolding unlock
    unlock-owned t a tn = ground (
      arith,
      H.owned t a tn,
      H.owned s.current a H.running,
      ap (has a) e,
      unlock-out,
      unlock-mine,
      has-append a xs ys,
      has-append a xs (m ∷ ys),
    )

    pub unlock-Held : Held (unlock m s) (update h s.current (xs ++ ys))
    unfolding unlock
    unlock-Held = record {
      running = H.running;
      rings = unlock-rings;
      owned = unlock-owned;
      free = λ a e. ground (arith, H.free a);
      taken = λ a e. ground (arith, H.taken a);
    }

  -- The number of times that a mutex is locked may change.
  pub recount-Held :
      (m n : ℕ)
      → (s.mutex m).locked ≡ true
      → n < ulong_mod
      → Held (set_mutex m (record (s.mutex m) { count = n }) s) h
  recount-Held m n locked small = record {
    running = H.running;
    rings = H.rings;
    owned = λ t a tn. ground (arith, H.owned t a tn);
    free = λ a e. ground (arith, H.free a);
    taken = λ a e. ground (arith, H.taken a);
  }

  -- A mutex that nobody holds may be initialized.
  pub init-Held : (m : Ptr) → (s.mutex m).locked ≡ false → Held (init m s).1 h
  unfolding init
  init-Held m unlocked = elim (Bool-cases (m == null)) [
    | inl e ↦ rw e H
    | inr e ↦ rw e (record {
      running = H.running;
      rings = H.rings;
      owned = λ t a tn. ground (arith, H.owned t a tn);
      free = λ a i. ground (arith, H.free a);
      taken = λ a i. ground (arith, H.taken a);
    })
  ]
