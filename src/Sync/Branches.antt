-- ===== src/Sync/Branches.antt =====
-- The branches of pth_mutex_acquire and pth_mutex_release that a thread takes on a mutex which is free
-- or its own.
use pth.Base.{
  ℕ, suc, ◌+◌, ◌-◌, ◌%◌, ◌≤◌, ◌<◌, ◌≡◌, ◌≢◌, refl, Bool, true, false, arith, ==_self, ==_ne, le→leb,
  leb, Ptr, null,
}
use pth.Sync.{State, ulong_mod, yes_ret, set_mutex}
use pth.Sync.Lock.{returns, lock, unlock, start, release}
use pth.Sync.Runs.{LockedBy}

-- The branches of a call that a thread takes on a mutex which it may lock or has locked.
module _ (m : Ptr) (s : State) (mn : m ≢ null) (init : (s.mutex m).initialized ≡ true) where
  pub start-free :
      (tryonly : Bool) → (s.mutex m).locked ≡ false → start m tryonly s ≡ returns yes_ret (lock m s)
  unfolding start
  start-free tryonly e = rw (==_ne m null mn, init, e) refl

  pub start-again :
      (tryonly : Bool)
      → LockedBy s.current m s
      → 1 ≤ (s.mutex m).count
      → start m tryonly s
        ≡ returns yes_ret
            (set_mutex m (record (s.mutex m) { count = ((s.mutex m).count + 1) % ulong_mod }) s)
  unfolding start
  start-again tryonly (locked, mine) pos =
      rw (==_ne m null mn, init, locked, le→leb 1 (s.mutex m).count pos, mine, ==_self s.current)
        refl

  pub release-last :
      LockedBy s.current m s → (s.mutex m).count ≡ 1 → release m s ≡ (yes_ret, unlock m s)
  unfolding release
  release-last (locked, mine) e =
      rw (==_ne m null mn, init, locked, mine, ==_self s.current, e) refl

  leb-suc-zero : (n : ℕ) → leb (suc n) 0 ≡ false
  leb-suc-zero n = ground arith

  pub release-again :
      (n : ℕ)
      → LockedBy s.current m s
      → (s.mutex m).count ≡ suc (suc n)
      → n + 2 < ulong_mod
      → release m s ≡ (yes_ret, set_mutex m (record (s.mutex m) { count = suc n }) s)
  unfolding release
  release-again n (locked, mine) e small =
      let left : (suc (suc n) + ulong_mod - 1) % ulong_mod ≡ suc n = omega arith in
      rw (==_ne m null mn, init, locked, mine, ==_self s.current, e, left, leb-suc-zero n) refl
