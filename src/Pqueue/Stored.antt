-- ===== src/Pqueue/Stored.antt =====
-- The stored differences of priorities, through the writes of the queue operations.
use pth.Base.{
  ◌≡◌, ◌≢◌, ◌∙◌, true, false, List, [], ◌∷◌, ◌++◌, arith, Ptr, null, has, has-append, Distinct,
}
use pth.Base.Int.{ℤ, ◌+ℤ◌, ◌-ℤ◌, sub_sub_shared, sub_add_sub}
use pth.Pqueue.Spec.{Entry, threads}
use pth.Pqueue.{Deltas, Stored, first}

pub threads-append : (xs ys : List Entry) → threads (xs ++ ys) ≡ threads xs ++ threads ys
threads-append [] ys = cc
threads-append (e ∷ xs) ys = cc (threads-append xs ys)

-- Membership in a queue that is given in two parts.
pub has-threads :
    (a : Ptr) (xs ys : List Entry) → has a (threads (xs ++ ys)) ≡ (has a (threads xs ++ threads ys))
has-threads a xs ys = rw (threads-append xs ys)

ne_first : (u : Ptr) (xs : List Entry) → has u (threads xs) ≡ false → u ≢ null → u ≢ first xs
ne_first u [] out nn e = nn e
ne_first u (x ∷ xs) out nn e = ground arith

module _ (f g : Ptr → ℤ) where
  pub Deltas-frame :
      (p : ℤ) (xs : List Entry)
      → ((u : Ptr) → has u (threads xs) ≡ true → g u ≡ f u)
      → Deltas f p xs
      → Deltas g p xs
  Deltas-frame p [] same h = tt
  Deltas-frame p (e ∷ xs) same h =
      (same e.0 (ground arith) ∙ h.0, Deltas-frame e.1 xs (λ u i. same u (ground arith)) h.1)

  -- The entry that follows the new one stores its difference to the new one.
  abbrev pub NextLowered : Ptr → List Entry → Type 0
  NextLowered t [] = Unit {0}
  NextLowered t (e ∷ xs) = g e.0 ≡ f e.0 -ℤ g t

  module _ (t : Ptr) (prio : ℤ) where
    Deltas-behind :
        (p : ℤ) (post : List Entry)
        → g t ≡ p -ℤ prio
        → NextLowered t post
        → ((u : Ptr) → u ≢ t → u ≢ first post → g u ≡ f u)
        → has t (threads post) ≡ false
        → Distinct (threads post)
        → Deltas f p post
        → Deltas g p ((t, prio) ∷ post)
    Deltas-behind p [] gt low same out d h = (gt, tt)
    Deltas-behind p (e ∷ xs) gt low same out d h = (
      gt,
      (
        rw (low, h.0, gt) (sub_sub_shared p e.1 prio),
        Deltas-frame e.1 xs (λ u i. same u (ground arith) (ground arith)) h.1,
      ),
    )

    -- The new entry stands behind `(c, p)`, somewhere behind an entry of priority `p₀`.
    Deltas-insert :
        (p₀ : ℤ) (pre : List Entry) (c : Ptr) (p : ℤ) (post : List Entry)
        → g t ≡ p -ℤ prio
        → NextLowered t post
        → ((u : Ptr) → u ≢ t → u ≢ first post → g u ≡ f u)
        → has t (threads (pre ++ (c, p) ∷ post)) ≡ false
        → has null (threads (pre ++ (c, p) ∷ post)) ≡ false
        → Distinct (threads (pre ++ (c, p) ∷ post))
        → Deltas f p₀ (pre ++ (c, p) ∷ post)
        → Deltas g p₀ (pre ++ (c, p) ∷ (t, prio) ∷ post)
    Deltas-insert p₀ [] c p post gt low same out nn d h = (
      same c (ground arith) (ne_first c post d.0 (ground arith)) ∙ h.0,
      Deltas-behind p post gt low same (ground arith) d.1 h.1,
    )
    Deltas-insert p₀ (e ∷ pre) c p post gt low same out nn d h = (
      same e.0 (ground arith) (
            ne_first e.0 post
              (ground (
                arith,
                has-threads e.0 pre ((c, p) ∷ post),
                has-append e.0 (threads pre) (c ∷ threads post),
              ))
              (ground arith))
          ∙ h.0,
      Deltas-insert e.1 pre c p post gt low same (ground arith) (ground arith) d.1 h.1,
    )

    pub Stored-insert :
        (pre : List Entry) (c : Ptr) (p : ℤ) (post : List Entry)
        → g t ≡ p -ℤ prio
        → NextLowered t post
        → ((u : Ptr) → u ≢ t → u ≢ first post → g u ≡ f u)
        → has t (threads (pre ++ (c, p) ∷ post)) ≡ false
        → has null (threads (pre ++ (c, p) ∷ post)) ≡ false
        → Distinct (threads (pre ++ (c, p) ∷ post))
        → Stored f (pre ++ (c, p) ∷ post)
        → Stored g (pre ++ (c, p) ∷ (t, prio) ∷ post)
    Stored-insert [] c p post gt low same out nn d h = (
      same c (ground arith) (ne_first c post d.0 (ground arith)) ∙ h.0,
      Deltas-behind p post gt low same (ground arith) d.1 h.1,
    )
    Stored-insert (e ∷ pre) c p post gt low same out nn d h = (
      same e.0 (ground arith) (
            ne_first e.0 post
              (ground (
                arith,
                has-threads e.0 pre ((c, p) ∷ post),
                has-append e.0 (threads pre) (c ∷ threads post),
              ))
              (ground arith))
          ∙ h.0,
      Deltas-insert e.1 pre c p post gt low same (ground arith) (ground arith) d.1 h.1,
    )

module _ (f g : Ptr → ℤ) where
  -- The entry that followed the removed one stores its difference to the one before that.
  abbrev pub NextRaised : Ptr → List Entry → Type 0
  NextRaised t [] = Unit {0}
  NextRaised t (e ∷ xs) = g e.0 ≡ f e.0 +ℤ f t

  module _ (t : Ptr) (p : ℤ) (post : List Entry) where
    Deltas-bypass :
        (p₀ : ℤ)
        → NextRaised t post
        → ((u : Ptr) → u ≢ t → u ≢ first post → g u ≡ f u)
        → Distinct (t ∷ threads post)
        → Deltas f p₀ ((t, p) ∷ post)
        → Deltas g p₀ post
    Deltas-bypass p₀ raised same d h = bypass post raised same d h
      where
        bypass :
            (post : List Entry)
            → NextRaised t post
            → ((u : Ptr) → u ≢ t → u ≢ first post → g u ≡ f u)
            → Distinct (t ∷ threads post)
            → Deltas f p₀ ((t, p) ∷ post)
            → Deltas g p₀ post
        bypass [] raised same d h = tt
        bypass (e ∷ xs) raised same d h = (
          rw (raised, h.1.0, h.0) (sub_add_sub p e.1 p₀),
          Deltas-frame f g e.1 xs (λ u i. same u (ground arith) (ground arith)) h.1.1,
        )

    Deltas-remove :
        (p₀ : ℤ) (pre : List Entry)
        → NextRaised t post
        → ((u : Ptr) → u ≢ t → u ≢ first post → g u ≡ f u)
        → has null (threads (pre ++ (t, p) ∷ post)) ≡ false
        → Distinct (threads (pre ++ (t, p) ∷ post))
        → Deltas f p₀ (pre ++ (t, p) ∷ post)
        → Deltas g p₀ (pre ++ post)
    Deltas-remove p₀ [] raised same nn d h = Deltas-bypass p₀ raised same d h
    Deltas-remove p₀ (e ∷ pre) raised same nn d h = (
      same e.0
            (ground (
              arith,
              has-threads e.0 pre ((t, p) ∷ post),
              has-append e.0 (threads pre) (t ∷ threads post),
            ))
            (ne_first e.0 post
              (ground (
                arith,
                has-threads e.0 pre ((t, p) ∷ post),
                has-append e.0 (threads pre) (t ∷ threads post),
              ))
              (ground arith))
          ∙ h.0,
      Deltas-remove e.1 pre raised same (ground arith) d.1 h.1,
    )

    -- An entry behind the head `e` is removed.
    pub Stored-remove :
        (e : Entry) (pre : List Entry)
        → NextRaised t post
        → ((u : Ptr) → u ≢ t → u ≢ first post → g u ≡ f u)
        → has null (threads (e ∷ pre ++ (t, p) ∷ post)) ≡ false
        → Distinct (threads (e ∷ pre ++ (t, p) ∷ post))
        → Stored f (e ∷ pre ++ (t, p) ∷ post)
        → Stored g (e ∷ pre ++ post)
    Stored-remove e pre raised same nn d h = (
      same e.0
            (ground (
              arith,
              has-threads e.0 pre ((t, p) ∷ post),
              has-append e.0 (threads pre) (t ∷ threads post),
            ))
            (ne_first e.0 post
              (ground (
                arith,
                has-threads e.0 pre ((t, p) ∷ post),
                has-append e.0 (threads pre) (t ∷ threads post),
              ))
              (ground arith))
          ∙ h.0,
      Deltas-remove e.1 pre raised same (ground arith) d.1 h.1,
    )
