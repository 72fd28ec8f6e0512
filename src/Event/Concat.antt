-- ===== src/Event/Concat.antt =====
-- `pth_event_concat`: rings of events put together.
use pth.Base.{
  ◌≡◌, refl, ◌≢◌, ◌∙◌, sym, subst, List, [], ◌∷◌, ◌++◌, arith, Ptr, null, has-append, Distinct,
  Distinct-append, append_assoc, append-nil, ==_ne,
}
use pth.Cycle.{Linked, Cyclic, last_or, prev-last, Linked-join, Linked-frame}
use pth.Event.{Mem, set_next, set_prev}
use pth.Event.Cycles.{attach, concat, isolate}
use pth.Event.Chain.{isolate-Cyclic}
use pth.Event.Splice.{
  Ring, heads, members, AllCyclic, head_or, Back, close, last_or-append, apart, step_joined,
  step-Back, step_rest,
}

-- The events so far, the way back and the rings that are still to come.
record Joined (f : Ptr) (done : List Ptr) (rs : List Ring) (xs : List Ptr) (evc : Ptr) (m : Mem)
    : Type 0 where
  pub is_last : evc ≡ last_or f done
  pub front : Linked (close evc (head_or f xs) m).links f done (head_or f xs)
  pub back : Back (close evc (head_or f xs) m).links xs f
  pub others : AllCyclic m.links rs

attach-step :
    (f e : Ptr) (done ys : List Ptr) (rs : List Ring) (xs : List Ptr) (m : Mem)
    → Distinct ((f ∷ done) ++ ((e ∷ ys) ++ (members rs ++ xs)))
    → Joined f done ((e, ys) ∷ rs) xs (last_or f done) m
    → Joined f
        (done ++ e ∷ ys)
        rs
        xs
        (last_or e ys)
        (set_prev e (last_or f done) (set_next (last_or f done) e m))
attach-step f e done ys rs xs m d j =
    let p = apart f e done ys (members rs) xs d in
    record {
      is_last = sym (last_or-append f done e ys);
      front = step_joined f e done ys (members rs) xs m p j.front j.others.0;
      back = step-Back f e done ys (members rs) xs m p j.back;
      others = step_rest f e done ys rs xs m p j.others.1;
    }

attach-next :
    (f e : Ptr) (done ys : List Ptr) (rs : List Ring) (xs : List Ptr) (evc : Ptr) (m : Mem)
    → Distinct ((f ∷ done) ++ ((e ∷ ys) ++ (members rs ++ xs)))
    → Joined f done ((e, ys) ∷ rs) xs evc m
    → Joined f (done ++ e ∷ ys) rs xs (m.links.prev e) (set_prev e evc (set_next evc e m))
attach-next f e done ys rs xs evc m d j =
    rw (j.is_last, prev-last m.links e ys e j.others.0)
      (attach-step f e done ys rs xs m d (rw j.is_last at j))

attach-Joined :
    (f : Ptr) (xs : List Ptr) (rs : List Ring) (done : List Ptr) (evc : Ptr) (m : Mem)
    → Distinct ((f ∷ done) ++ (members rs ++ xs))
    → Joined f done rs xs evc m
    → let r = attach evc (heads rs) m in Joined f (done ++ members rs) [] xs r.0 r.1
unfolding attach
attach-Joined f xs [] done evc m d j = rw append-nil j
attach-Joined f xs ((e, ys) ∷ rs) done evc m d j =
    let d' : Distinct ((f ∷ done) ++ ((e ∷ ys) ++ (members rs ++ xs))) = rw append_assoc at d in
    rw append_assoc at (
      attach-Joined f xs rs (done ++ e ∷ ys) (m.links.prev e) (set_prev e evc (set_next evc e m))
        (rw append_assoc d') (attach-next f e done ys rs xs evc m d' j))

next-head_or :
    (f : Ptr) (xs : List Ptr) (m : Mem) → Cyclic m.links (f ∷ xs) → m.links.next f ≡ head_or f xs
next-head_or f [] m h = h.0
next-head_or f (x ∷ xs) m h = h.0

start-Back :
    (f : Ptr) (xs : List Ptr) (m : Mem)
    → Distinct (f ∷ xs)
    → Cyclic m.links (f ∷ xs)
    → Back (close f (head_or f xs) m).links xs f
start-Back f [] m d h = tt
start-Back f (x ∷ xs) m d h =
    Linked-frame m.links (close f x m).links x xs f (λ u i. ground arith) (λ v i. ground arith) h.2

Joined-Cyclic :
    (f : Ptr) (done xs : List Ptr) (evc : Ptr) (m : Mem)
    → Joined f done [] xs evc m
    → Cyclic (close evc (head_or f xs) m).links (f ∷ (done ++ xs))
Joined-Cyclic f done [] evc m j = rw append-nil j.front
Joined-Cyclic f done (x ∷ xs) evc m j =
    Linked-join (close evc x m).links f done x xs f j.front j.back

pub concat-Cyclic :
    (f : Ptr) (xs : List Ptr) (rs : List Ring) (m : Mem)
    → f ≢ null
    → Distinct (f ∷ (members rs ++ xs))
    → Cyclic m.links (f ∷ xs)
    → AllCyclic m.links rs
    → let r = concat f (heads rs) m in (r.0 ≡ f) × Cyclic r.1.links (f ∷ (members rs ++ xs))
unfolding concat
concat-Cyclic f xs rs m fn d h all =
    let (df, d1, a1) = Distinct-append (f ∷ members rs) xs d in
    let dfx : Distinct (f ∷ xs) = (ground (arith, has-append f (members rs) xs), d1) in
    rw (==_ne f null fn, next-head_or f xs m h)
      (
        refl,
        Joined-Cyclic f (members rs) xs (attach f (heads rs) m).0 (attach f (heads rs) m).1 (
            attach-Joined f xs rs [] f m d record {
              is_last = refl;
              front = (ground arith, ground arith);
              back = start-Back f xs m dfx h;
              others = all;
            }),
      )

twice-nil : (xs : List Ptr) → ((xs ++ []) ++ []) ≡ xs
twice-nil xs = append-nil (xs ++ []) ∙ append-nil xs

-- An event that is alone, concatenated with a ring of other events by pth_event_concat and then
-- isolated by pth_event_isolate, is alone again; the ring is as it was and its first event is the
-- result of the isolation.
pub concat-isolate :
    (f e : Ptr) (ys : List Ptr) (m : Mem)
    → f ≢ null
    → Distinct (f ∷ e ∷ ys)
    → Cyclic m.links (f ∷ [])
    → Cyclic m.links (e ∷ ys)
    → let r = isolate f (concat f (e ∷ []) m).1 in
      (r.0 ≡ e) × Cyclic r.1.links (f ∷ []) × Cyclic r.1.links (e ∷ ys)
concat-isolate f e ys m fn d h k =
    let joined =
      (concat-Cyclic f [] ((e, ys) ∷ []) m fn
        (subst (λ l. Distinct (f ∷ l)) (sym (twice-nil (e ∷ ys))) d) h (k, tt)).1 in
    let ring : Cyclic (concat f (e ∷ []) m).1.links (f ∷ e ∷ ys) =
      subst (λ l. Cyclic (concat f (e ∷ []) m).1.links (f ∷ l)) (twice-nil (e ∷ ys)) joined in
    let (r, rest, alone) =
      isolate-Cyclic f (concat f (e ∷ []) m).1 [] (e ∷ ys) fn d (λ q. cc) ring in
    (r ∙ ring.0, alone, rest)
