-- ===== src/Sync/Releaseall.antt =====
-- `pth_mutex_releaseall`: what becomes of the mutexes of a thread that ends.
use pth.Base.{
  ℕ, zero, suc, ◌+◌, ◌≡◌, refl, ◌≢◌, ◌∙◌, sym, true, false, some, List, [], ◌∷◌, ◌++◌, length,
  arith, ==_ne, ==_self, subst, ap, has, has-append, ◌==◌, ◌&&◌, not, ◌≤◌, if_intro, Ptr, null,
  update, append_assoc,
}
use pth.Ring
use pth.Ring.{IsRing}
use pth.Ring.Next.{next-inner, next-last, next-delete-first, next-delete-alone}
use pth.Ring.Count.{member-ne-null}
use pth.Sync.{State, Ret}
use pth.Sync.Lock.{unlock, release, releaseall, releaseall_loop}
use pth.Sync.Held.{Held, unlock-Held}
use pth.Sync.Branches.{release-last}
use pth.Sync.Runs.{LockedBy}

-- A round of the loop after which there is a next node, and the last round.
module _ (k : ℕ) (t a m : Ptr) (s s' : State) (mn : m ≢ null) (e : (release m s).1 ≡ s') where
  loop-next :
      (n : Ptr)
      → Ring.next t m s'.rings ≡ n
      → n ≢ a
      → releaseall_loop (suc k) t a m s ≡ releaseall_loop k t a n s'
  unfolding releaseall_loop
  loop-next n next other =
      rw (releaseall_loop, ==_ne m null mn)
        (subst
          (λ z.
            (elim (Ring.next t m z.rings == a) [
              | true ↦ some z
              | false ↦ releaseall_loop k t a (Ring.next t m z.rings) z
            ])
            ≡ releaseall_loop k t a n s')
          (sym e) (rw (next, ==_ne n a other) (ap (λ r. releaseall_loop k t a r s') next)))

  loop-back : Ring.next t m s'.rings ≡ a → releaseall_loop (suc k) t a m s ≡ some s'
  unfolding releaseall_loop
  loop-back next =
      rw (releaseall_loop, ==_ne m null mn)
        (subst
          (λ z.
            (elim (Ring.next t m z.rings == a) [
              | true ↦ some z
              | false ↦ releaseall_loop k t a (Ring.next t m z.rings) z
            ])
            ≡ some s')
          (sym e) (rw (next, ==_self a) refl))

loop-null : (k : ℕ) (t a : Ptr) (s : State) → releaseall_loop (suc k) t a null s ≡ some s
unfolding releaseall_loop
loop-null k t a s = refl

module _ (s : State) (h : Ptr → List Ptr) (H : Held s h) (t : Ptr) (tn : t ≢ null) where
  ring : (xs : List Ptr) → h t ≡ xs → IsRing t s.rings xs
  ring xs e = rw (← e) (H.rings t tn)

  first_lem : (a : Ptr) (xs : List Ptr) → h t ≡ a ∷ xs → Ring.first t s.rings ≡ a
  unfolding Ring.first
  first_lem a xs e = rw (==_ne t null tn) (ring (a ∷ xs) e).shape.0

  first-null : h t ≡ [] → Ring.first t s.rings ≡ null
  unfolding Ring.first
  first-null e = rw (==_ne t null tn) (ring [] e).shape

  mine : (m : Ptr) (xs ys : List Ptr) → h t ≡ xs ++ m ∷ ys → LockedBy t m s
  mine m xs ys e =
      let b : ((s.mutex m).locked && ((s.mutex m).owner == t)) ≡ true =
        ground (arith, H.owned t m tn, ap (has m) e, has-append m xs (m ∷ ys)) in
      (ground arith, ground arith)

  -- The release of a mutex of another thread fails.
  release-foreign : s.current ≢ t → (m : Ptr) → LockedBy t m s → (release m s).1 ≡ s
  unfolding release
  release-foreign other m (locked, owner) =
      let P = λ (r : Ret × State). r.1 ≡ s in
      if_intro P (m == null) (λ e. refl)
        λ e.
          if_intro P (not (s.mutex m).initialized) (λ e. refl)
            λ e.
              if_intro P (not (s.mutex m).locked) (λ e. refl)
                λ e.
                  if_intro P (not ((s.mutex m).owner == s.current)) (λ e. refl)
                    λ e. absurd (ground arith)

  foreign_loop :
      s.current ≢ t
      → (fuel : ℕ) (a m : Ptr) (xs ys : List Ptr) → h t ≡ xs ++ m ∷ ys
      → a ≢ null
      → has a ys ≡ false
      → length ys + 2 ≤ fuel
      → releaseall_loop fuel t a m s ≡ some s
  unfolding releaseall_loop
  foreign_loop other zero a m xs ys e an out enough = absurd (omega arith)
  foreign_loop other (suc zero) a m xs ys e an out enough = absurd (omega arith)
  foreign_loop other (suc (suc k)) a m xs [] e an out enough =
      loop-next (suc k) t a m s s (member-ne-null t m s.rings xs [] (ring _ e))
        (release-foreign other m (mine m xs [] e)) null (next-last t m s.rings xs (ring _ e))
        (λ p. an (sym p))
      ∙ loop-null k t a s
  foreign_loop other (suc (suc k)) a m xs (y ∷ ys) e an out enough =
      loop-next (suc k) t a m s s (member-ne-null t m s.rings xs (y ∷ ys) (ring _ e))
        (release-foreign other m (mine m xs (y ∷ ys) e)) y
        (next-inner t m s.rings xs y ys (ring _ e)) (ground arith)
      ∙ foreign_loop other (suc k) a y (xs ++ m ∷ []) ys
          (e ∙ sym (append_assoc xs (m ∷ []) (y ∷ ys))) an (ground arith) (omega arith)

  releaseall-loop :
      (fuel : ℕ) (a : Ptr)
      → Ring.first t s.rings ≡ a
      → releaseall fuel t s ≡ releaseall_loop fuel t a a s
  unfolding releaseall
  releaseall-loop fuel a e = rw (==_ne t null tn) (ap (λ r. releaseall_loop fuel t r r s) e)

  -- In a consistent state, when another thread calls pth_mutex_releaseall for a thread, two rounds
  -- more than its mutexes are fuel enough, and no mutex is released.
  pub releaseall-foreign :
      (xs : List Ptr) (fuel : ℕ)
      → h t ≡ xs
      → s.current ≢ t
      → length xs + 2 ≤ fuel
      → releaseall fuel t s ≡ some s
  releaseall-foreign xs zero e other enough = absurd (omega arith)
  releaseall-foreign [] (suc k) e other enough =
      releaseall-loop (suc k) null (first-null e) ∙ loop-null k t null s
  releaseall-foreign (a ∷ xs) (suc k) e other enough =
      releaseall-loop (suc k) a (first_lem a xs e)
      ∙ foreign_loop other (suc k) a a [] xs e (member-ne-null t a s.rings [] xs (ring _ e))
          (ring _ e).distinct.0 (omega arith)

module _ (s : State) (h : Ptr → List Ptr) (H : Held s h) (a : Ptr) (k : ℕ) where
  first_loop :
      (xs : List Ptr)
      → IsRing s.current s.rings (a ∷ xs)
      → (release a s).1 ≡ unlock a s
      → releaseall_loop (suc (suc k)) s.current a a s ≡ some (unlock a s)
  unfolding unlock
  first_loop [] i r =
      loop-back (suc k) s.current a a s (unlock a s) (member-ne-null s.current a s.rings [] [] i) r
        (next-delete-alone s.current a s.rings i)
  first_loop (b ∷ bs) i r =
      let an = member-ne-null s.current a s.rings [] (b ∷ bs) i in
      loop-next (suc k) s.current a a s (unlock a s) an r null
        (next-delete-first s.current a s.rings b bs i) (λ p. an (sym p))
      ∙ loop-null k s.current a (unlock a s)

  -- In a consistent state, when the current thread calls pth_mutex_releaseall on itself and holds
  -- its first mutex, which is initialized, once, the loop ends after that mutex: all the others
  -- stay locked and in the ring.
  pub releaseall-first-only :
      (xs : List Ptr)
      → h s.current ≡ a ∷ xs
      → (s.mutex a).initialized ≡ true
      → (s.mutex a).count ≡ 1
      → (releaseall (suc (suc k)) s.current s ≡ some (unlock a s))
        × Held (unlock a s) (update h s.current xs)
  releaseall-first-only xs e init once =
      let an = member-ne-null s.current a s.rings [] xs (ring s h H s.current H.running _ e) in
      let l = mine s h H s.current H.running a [] xs e in
      (
        releaseall-loop s h H s.current H.running (suc (suc k)) a
              (first_lem s h H s.current H.running a xs e)
            ∙ first_loop xs (ring s h H s.current H.running _ e)
                (ap (λ r. r.1) (release-last a s an init l once)),
        unlock-Held s h H a [] xs e,
      )
