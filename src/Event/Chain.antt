-- ===== src/Event/Chain.antt =====
-- `pth_event`, `pth_event_isolate` and `pth_event_free`: events put into a cycle and taken out of it.
use pth.Base.{
  ℕ, ◌≡◌, refl, ◌≢◌, Bool, true, false, List, [], ◌∷◌, ◌++◌, arith, Ptr, null, has, has-append,
  Distinct, ==_ne, Distinct-remove, ne_of_has,
}
use pth.Cycle.{Links, Linked-frame, Cyclic, prev-last}
use pth.Cycle.Edit.{Inserted, Inserted-last, Bypassed, Bypassed-Cyclic, Cyclic-neighbours, last_ne}
use pth.Event.{pending, Args, Mem, bit, set_next, set_prev, set_status}
use pth.Event.Make.{Given, Kind, refused, filled, Ret, made, fail, link, kind, event, finish, fill}
use pth.Event.Cycles.{isolate, free_this}

module _ (spec ch e : ℕ) (xs : List Ptr) (m : Mem) (chained : bit 21 spec ≡ true) where
  link-Inserted :
      has e (ch ∷ xs) ≡ false
      → Cyclic m.links (ch ∷ xs)
      → Inserted m.links (link spec ch e m).links ch xs e
  unfolding link
  link-Inserted out h =
      rw chained (ground (arith, last_ne e ch xs out, prev-last m.links ch xs ch h))

finish-links : (e : Ptr) (k : Kind) (m : Mem) → (finish e k m).1.links ≡ m.links
unfolding finish
finish-links e (refused x) m = refl
finish-links e (filled a goal) m = refl

finish-status : (e : Ptr) (k : Kind) (m : Mem) → (finish e k m).1.ev_status ≡ m.ev_status
unfolding finish
finish-status e (refused x) m = refl
finish-status e (filled a goal) m = refl

pub finish_lem :
    (e : Ptr) (a : Args) (goal : ℕ) (m : Mem)
    → finish e (filled a goal) m ≡ (made e, fill e a goal m)
unfolding finish
finish_lem e a goal m = refl

-- The result of the call for a kind of event.
abbrev pub outcome : Ptr → Kind → Ret
outcome e (refused x) = fail x
outcome e (filled a goal) = made e

finish-outcome : (e : Ptr) (k : Kind) (m : Mem) → (finish e k m).0 ≡ outcome e k
unfolding finish
finish-outcome e (refused x) m = refl
finish-outcome e (filled a goal) m = refl

pub event_lem :
    (fcntl : ℕ → Bool) (spec e ch : Ptr) (g : Given) (m : Mem)
    → e ≢ null
    → event fcntl spec e ch g m
      ≡ finish e (kind fcntl spec g) (set_status e pending (link spec ch e m))
unfolding event
event_lem fcntl spec e ch g m en = rw (==_ne e null en) refl

-- With PTH_MODE_CHAIN pth_event puts a fresh event that is not null at the end of the given ring
-- and marks it as pending, also where it refuses the kind of event and returns an error.
pub event-chained :
    (fcntl : ℕ → Bool) (spec e ch : ℕ) (xs : List Ptr) (g : Given) (m : Mem)
    → bit 21 spec ≡ true
    → e ≢ null
    → Distinct (ch ∷ xs)
    → has e (ch ∷ xs) ≡ false
    → Cyclic m.links (ch ∷ xs)
    → let r = event fcntl spec e ch g m in
      (r.0 ≡ outcome e (kind fcntl spec g))
      × Cyclic r.1.links (ch ∷ (xs ++ e ∷ []))
      × (r.1.ev_status e ≡ pending)
event-chained fcntl spec e ch xs g m chained en d out h =
    let k = kind fcntl spec g in
    let m1 = set_status e pending (link spec ch e m) in
    rw
      (
        event_lem fcntl spec e ch g m en,
        finish-outcome e k m1,
        finish-links e k m1,
        finish-status e k m1,
      )
      (
        refl,
        Inserted-last m.links (link spec ch e m).links ch xs e d out
            (link-Inserted spec ch e xs m chained out h) h,
        ground arith,
      )

pub Cyclic-frame :
    (l l' : Links) (xs : List Ptr)
    → ((u : Ptr) → has u xs ≡ true → (l'.next u ≡ l.next u) × (l'.prev u ≡ l.prev u))
    → Cyclic l xs
    → Cyclic l' xs
Cyclic-frame l l' [] same h = tt
Cyclic-frame l l' (x ∷ xs) same h =
    Linked-frame l l' x xs x (λ u i. (same u i).0)
      (λ v i. (same v (ground (arith, has-append v xs (x ∷ [])))).1) h

-- The writes that take an event out of its cycle.
abbrev bypass : Ptr → Mem → Mem
bypass e m =
    let m1 = set_next (m.links.prev e) (m.links.next e) m in
    set_prev (m1.links.next e) (m1.links.prev e) m1

module _ (e : Ptr) (m : Mem) where
  bypass-Bypassed : m.links.next e ≢ e → m.links.prev e ≢ e → Bypassed m.links (bypass e m).links e
  bypass-Bypassed n p = ground arith

  bypass-Cyclic :
      (xs ys : List Ptr)
      → Distinct (xs ++ e ∷ ys)
      → xs ++ ys ≢ []
      → Cyclic m.links (xs ++ e ∷ ys)
      → Cyclic (bypass e m).links (xs ++ ys)
  bypass-Cyclic xs ys d others h =
      let (n, p) = Cyclic-neighbours m.links xs e ys d others h in
      Bypassed-Cyclic m.links (bypass e m).links xs e ys d (bypass-Bypassed n p) h

  isolate-other :
      e ≢ null
      → m.links.next e ≢ e
      → isolate e m ≡ (m.links.next e, set_next e e (set_prev e e (bypass e m)))
  unfolding isolate
  isolate-other en n = rw (==_ne e null en, ==_ne (m.links.next e) e n) refl

  pub isolate-Cyclic :
      (xs ys : List Ptr)
      → e ≢ null
      → Distinct (xs ++ e ∷ ys)
      → xs ++ ys ≢ []
      → Cyclic m.links (xs ++ e ∷ ys)
      → ((isolate e m).0 ≡ m.links.next e)
        × Cyclic (isolate e m).1.links (xs ++ ys)
        × Cyclic (isolate e m).1.links (e ∷ [])
  isolate-Cyclic xs ys en d others h =
      let (n, p) = Cyclic-neighbours m.links xs e ys d others h in
      let out = (Distinct-remove xs e ys d).1 in
      rw (isolate-other en n) (
        refl,
        Cyclic-frame (bypass e m).links (set_next e e (set_prev e e (bypass e m))).links (xs ++ ys)
            (λ u i. let ne = ne_of_has e u (xs ++ ys) out i in (ground arith, ground arith))
            (bypass-Cyclic xs ys d others h),
        (ground arith, ground arith),
      )

  isolate-alone : e ≢ null → Cyclic m.links (e ∷ []) → isolate e m ≡ (null, m)
  unfolding isolate
  isolate-alone en h = rw (==_ne e null en, h.0, h.1) (ground arith)

  pub free_this-Cyclic :
      (xs ys : List Ptr)
      → Distinct (xs ++ e ∷ ys)
      → Cyclic m.links (xs ++ e ∷ ys)
      → Cyclic (free_this e m).links (xs ++ ys)
  unfolding free_this
  free_this-Cyclic [] [] d h = tt
  free_this-Cyclic [] (y ∷ ys) d h = bypass-Cyclic [] (y ∷ ys) d (λ q. cc) h
  free_this-Cyclic (x ∷ xs) ys d h = bypass-Cyclic (x ∷ xs) ys d (λ q. cc) h
