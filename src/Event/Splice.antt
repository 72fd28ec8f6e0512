-- ===== src/Event/Splice.antt =====
-- One round of `pth_event_concat`: a ring of events put behind those that are joined already.
use pth.Base.{
  ◌≡◌, refl, ◌≢◌, sym, true, false, List, [], ◌∷◌, ◌++◌, arith, Ptr, has, has-append, Distinct,
  Distinct-append, ne_of_has, Bool-cases, inl, inr, ◌==◌,
}
use pth.Cycle.{
  Links, Linked, Cyclic, last_or, has-last_or, Linked-join, Linked-frame, Linked-retarget,
}
use pth.Event.{Mem, set_next, set_prev}

-- A ring as its first event and the others.
abbrev pub Ring : Type 0
Ring = Ptr × List Ptr

abbrev pub heads : List Ring → List Ptr
heads [] = []
heads (r ∷ rs) = r.0 ∷ heads rs

abbrev pub members : List Ring → List Ptr
members [] = []
members (r ∷ rs) = r.0 ∷ r.1 ++ members rs

abbrev pub AllCyclic : Links → List Ring → Type 0
AllCyclic l [] = Unit {0}
AllCyclic l (r ∷ rs) = Cyclic l (r.0 ∷ r.1) × AllCyclic l rs

abbrev pub head_or : Ptr → List Ptr → Ptr
head_or a [] = a
head_or a (x ∷ xs) = x

-- The way from the first of `xs` back to `f`.
abbrev pub Back : Links → List Ptr → Ptr → Type 0
Back l [] f = Unit {0}
Back l (x ∷ xs) f = Linked l x xs f

-- The last two writes of `pth_event_concat`.
abbrev pub close : Ptr → Ptr → Mem → Mem
close evc evl m = set_prev evl evc (set_next evc evl m)

pub last_or-append :
    (a : Ptr) (xs : List Ptr) (e : Ptr) (ys : List Ptr) → last_or a (xs ++ e ∷ ys) ≡ last_or e ys
last_or-append a [] e ys = refl
last_or-append a (x ∷ xs) e ys = last_or-append x xs e ys

AllCyclic-frame :
    (l l' : Links) (rs : List Ring)
    → ((u : Ptr) → has u (members rs) ≡ true → (l'.next u ≡ l.next u) × (l'.prev u ≡ l.prev u))
    → AllCyclic l rs
    → AllCyclic l' rs
AllCyclic-frame l l' [] same h = tt
AllCyclic-frame l l' (r ∷ rs) same h = (
  Linked-frame l l' r.0 r.1 r.0 (λ u i. (same u (ground (arith, has-append u r.1 (members rs)))).0)
      (λ v i.
        (same v (ground (arith, has-append v r.1 (members rs), has-append v r.1 (r.0 ∷ [])))).1)
      h.0,
  AllCyclic-frame l l' rs (λ u i. same u (ground (arith, has-append u r.1 (members rs)))) h.1,
)

head_or-has : (f : Ptr) (xs : List Ptr) → has (head_or f xs) (f ∷ xs) ≡ true
head_or-has f [] = ground arith
head_or-has f (x ∷ xs) = ground arith

-- The events put together so far, those of the next ring, those of the other rings, and the rest of
-- the first ring.
pub record Apart (f e : Ptr) (done ys rest xs : List Ptr) : Type 0 where
  pub df : Distinct (f ∷ done)
  pub de : Distinct (e ∷ ys)
  pub dfx : Distinct (f ∷ xs)
  pub fe : (u : Ptr) → has u (f ∷ done) ≡ true → has u (e ∷ ys) ≡ false
  pub fr : (u : Ptr) → has u (f ∷ done) ≡ true → has u rest ≡ false
  pub fx : (u : Ptr) → has u done ≡ true → has u (f ∷ xs) ≡ false
  pub er : (u : Ptr) → has u (e ∷ ys) ≡ true → has u rest ≡ false
  pub ex : (u : Ptr) → has u (e ∷ ys) ≡ true → has u (f ∷ xs) ≡ false

module _ (f e : Ptr) (done ys rest xs : List Ptr) where
  pub apart : Distinct ((f ∷ done) ++ ((e ∷ ys) ++ (rest ++ xs))) → Apart f e done ys rest xs
  apart d =
      let (df, d1, a1) = Distinct-append (f ∷ done) ((e ∷ ys) ++ (rest ++ xs)) d in
      let (de, d2, a2) = Distinct-append (e ∷ ys) (rest ++ xs) d1 in
      let (dr, dx, a3) = Distinct-append rest xs d2 in
      record {
        df = df;
        de = de;
        dfx = (ground (arith, a1 f, has-append f ys (rest ++ xs), has-append f rest xs), dx);
        fe = λ u i. ground (arith, a1 u i, has-append u ys (rest ++ xs));
        fr = λ u i. ground (arith, a1 u i, has-append u ys (rest ++ xs), has-append u rest xs);
        fx = λ u i. ground (
          arith,
          a1 u (ground arith),
          has-append u ys (rest ++ xs),
          has-append u rest xs,
          ne_of_has f u done df.0 i,
        );
        er = λ u i. ground (arith, a2 u i, has-append u rest xs);
        ex = λ u i. ground (
          arith,
          a2 u i,
          has-append u rest xs,
          a1 f (ground arith),
          has-append f ys (rest ++ xs),
          ne_of_has f u (e ∷ ys),
        );
      }

  module _ (m : Mem) (p : Apart f e done ys rest xs) where
    abbrev pub evc : Ptr
    evc = last_or f done

    abbrev pub evc' : Ptr
    evc' = last_or e ys

    abbrev pub evl : Ptr
    evl = head_or f xs

    abbrev pub attached : Mem
    attached = set_prev e evc (set_next evc e m)

    last_apart : (u : Ptr) → has u (f ∷ done) ≡ true → u ≢ evc'
    last_apart u i = ne_of_has u evc' (e ∷ ys) (p.fe u i) (has-last_or e ys)

    head_apart : (u : Ptr) → has u (e ∷ ys) ≡ true → u ≢ evl
    head_apart u i = ne_of_has u evl (f ∷ xs) (p.ex u i) (head_or-has f xs)

    ring_apart : (u : Ptr) → has u (e ∷ ys) ≡ true → u ≢ evc
    ring_apart u i q = ne_of_has evc u (e ∷ ys) (p.fe evc (has-last_or f done)) i (sym q)

    step_front :
        Linked (close evc evl m).links f done evl → Linked (close evc' evl attached).links f done e
    step_front h =
        Linked-retarget (close evc evl m).links (close evc' evl attached).links f done evl e p.df
          (λ u ne i. ground (arith, last_apart u i))
          (λ v i.
            ground (
              arith,
              p.fe v (ground arith),
              ne_of_has v evl (f ∷ xs) (p.fx v i) (head_or-has f xs),
            ))
          (ground (arith, last_apart evc (has-last_or f done)))
          (ground (arith, head_apart e (ground arith))) h

    step_ring : Linked m.links e ys e → Linked (close evc' evl attached).links e ys evl
    step_ring h =
        Linked-retarget m.links (close evc' evl attached).links e ys e evl p.de
          (λ u ne i. ground (arith, ring_apart u i))
          (λ v i. ground (arith, head_apart v (ground arith), p.de.0, ne_of_has e v ys p.de.0 i))
          (ground arith) (ground arith) h

    pub step_joined :
        Linked (close evc evl m).links f done evl
        → Linked m.links e ys e
        → Linked (close evc' evl attached).links f (done ++ e ∷ ys) evl
    step_joined h k =
        Linked-join (close evc' evl attached).links f done e ys evl (step_front h) (step_ring k)

    outside : (u : Ptr) → has u (f ∷ done) ≡ true → has u xs ≡ false
    outside u i = elim (Bool-cases (u == f)) [
      | inl q ↦ ground (arith, p.dfx.0)
      | inr q ↦ ground (arith, p.fx u)
    ]

pub step-Back :
    (f e : Ptr) (done ys rest xs : List Ptr) (m : Mem) (p : Apart f e done ys rest xs)
    → Back (close (evc f e done ys rest xs m p) (evl f e done ys rest xs m p) m).links xs f
    → Back
        (close
          (evc' f e done ys rest xs m p)
          (evl f e done ys rest xs m p)
          (attached f e done ys rest xs m p)).links
        xs
        f
step-Back f e done ys rest [] m p h = tt
step-Back f e done ys rest (x ∷ xs) m p h =
    let out = λ (u : Ptr). outside f e done ys rest (x ∷ xs) m p u in
    Linked-frame (close (last_or f done) x m).links
      (close (last_or e ys) x (attached f e done ys rest (x ∷ xs) m p)).links x xs f
      (λ u i. ground (
        arith,
        ne_of_has (last_or f done) u (x ∷ xs) (out (last_or f done) (has-last_or f done)) i,
        ne_of_has (last_or e ys) u (f ∷ x ∷ xs) (p.ex (last_or e ys) (has-last_or e ys)),
      ))
      (λ v i. ground (
        arith,
        has-append v xs (f ∷ []),
        p.ex e (ground arith),
        p.dfx.0,
        ne_of_has x v xs p.dfx.1.0,
        ne_of_has e v (f ∷ x ∷ xs) (p.ex e (ground arith)),
      ))
      h

pub step_rest :
    (f e : Ptr) (done ys : List Ptr) (rs : List Ring) (xs : List Ptr) (m : Mem)
    (p : Apart f e done ys (members rs) xs)
    → AllCyclic m.links rs
    → AllCyclic (attached f e done ys (members rs) xs m p).links rs
step_rest f e done ys rs xs m p =
    AllCyclic-frame m.links (attached f e done ys (members rs) xs m p).links rs (λ u i. (
      ground (
        arith,
        ne_of_has (last_or f done) u (members rs) (p.fr (last_or f done) (has-last_or f done)) i,
      ),
      ground (arith, ne_of_has e u (members rs) (p.er e (ground arith)) i),
    ))
