-- ===== src/Cycle.antt =====
-- Doubly linked cycles, as the rings of pth_ring.c and the queues of pth_pqueue.c lay them out.
pub mod Edit
use pth.Base.{◌≡◌, refl, ◌≢◌, ◌∙◌, true, List, [], ◌∷◌, ◌++◌, arith, Ptr, has, has-append, Distinct}

-- The link fields of all nodes, as functions of a node's address.
pub record Links : Type 0 where
  pub next : Ptr → Ptr
  pub prev : Ptr → Ptr

-- From `a` the links lead through `xs` to `b`, and back.
abbrev pub Linked : Links → Ptr → List Ptr → Ptr → Type 0
Linked l a [] b = (l.next a ≡ b) × (l.prev b ≡ a)
Linked l a (x ∷ xs) b = (l.next a ≡ x) × (l.prev x ≡ a) × Linked l x xs b

-- The nodes of a cycle, from any of them on.
abbrev pub Cyclic : Links → List Ptr → Type 0
Cyclic l [] = Unit {0}
Cyclic l (x ∷ xs) = Linked l x xs x

abbrev pub last_or : Ptr → List Ptr → Ptr
last_or a [] = a
last_or a (x ∷ xs) = last_or x xs

module _ (l : Links) where
  pub Linked-join :
      (a : Ptr) (xs : List Ptr) (b : Ptr) (ys : List Ptr) (c : Ptr)
      → Linked l a xs b
      → Linked l b ys c
      → Linked l a (xs ++ b ∷ ys) c
  Linked-join a [] b ys c h k = (h.0, h.1, k)
  Linked-join a (x ∷ xs) b ys c h k = (h.0, h.1, Linked-join x xs b ys c h.2 k)

  pub Linked-split :
      (a : Ptr) (xs : List Ptr) (b : Ptr) (ys : List Ptr) (c : Ptr)
      → Linked l a (xs ++ b ∷ ys) c
      → Linked l a xs b × Linked l b ys c
  Linked-split a [] b ys c h = ((h.0, h.1), h.2)
  Linked-split a (x ∷ xs) b ys c h =
      let (front, back) = Linked-split x xs b ys c h.2 in ((h.0, h.1, front), back)

  -- A cycle may be read from any of its nodes.
  pub Linked-rotate :
      (a : Ptr) (xs : List Ptr) (b : Ptr) (ys : List Ptr)
      → Linked l a (xs ++ b ∷ ys) a
      → Linked l b (ys ++ a ∷ xs) b
  Linked-rotate a xs b ys h =
      let (front, back) = Linked-split a xs b ys a h in Linked-join b ys a xs b back front

  pub prev-last : (a : Ptr) (xs : List Ptr) (b : Ptr) → Linked l a xs b → l.prev b ≡ last_or a xs
  prev-last a [] b h = h.1
  prev-last a (x ∷ xs) b h = prev-last x xs b h.2

  pub next-last : (a : Ptr) (xs : List Ptr) (b : Ptr) → Linked l a xs b → l.next (last_or a xs) ≡ b
  next-last a [] b h = h.0
  next-last a (x ∷ xs) b h = next-last x xs b h.2

module _ (l : Links) where
  pub next-has :
      (a : Ptr) (xs : List Ptr) (b u : Ptr)
      → Linked l a xs b
      → has u (a ∷ xs) ≡ true
      → has (l.next u) (xs ++ b ∷ []) ≡ true
  next-has a [] b u h i = ground arith
  next-has a (x ∷ xs) b u h i = ground (arith, next-has x xs b u h.2)

  -- The successor of a node of a cycle is a node of it.
  pub Cyclic-next-has :
      (xs : List Ptr) (u : Ptr) (ys : List Ptr)
      → Cyclic l (xs ++ u ∷ ys)
      → has (l.next u) (xs ++ u ∷ ys) ≡ true
  Cyclic-next-has [] u ys h = ground (arith, next-has u ys u u h, has-append (l.next u) ys (u ∷ []))
  Cyclic-next-has (x ∷ xs) u ys h = ground (
    arith,
    next-has x (xs ++ u ∷ ys) x u h,
    has-append u xs (u ∷ ys),
    has-append (l.next u) (xs ++ u ∷ ys) (x ∷ []),
  )

pub last_or-snoc : (a : Ptr) (xs : List Ptr) (t : Ptr) → last_or a (xs ++ t ∷ []) ≡ t
last_or-snoc a [] t = refl
last_or-snoc a (x ∷ xs) t = last_or-snoc x xs t

pub has-last_or : (a : Ptr) (xs : List Ptr) → has (last_or a xs) (a ∷ xs) ≡ true
has-last_or a [] = ground arith
has-last_or a (x ∷ xs) = ground (arith, has-last_or x xs)

module _ (l l' : Links) where
  -- A path survives any change that spares its own links.
  pub Linked-frame :
      (a : Ptr) (xs : List Ptr) (b : Ptr)
      → ((u : Ptr) → has u (a ∷ xs) ≡ true → l'.next u ≡ l.next u)
      → ((v : Ptr) → has v (xs ++ b ∷ []) ≡ true → l'.prev v ≡ l.prev v)
      → Linked l a xs b
      → Linked l' a xs b
  Linked-frame a [] b same_next same_prev h =
      (same_next a (ground arith) ∙ h.0, same_prev b (ground arith) ∙ h.1)
  Linked-frame a (x ∷ xs) b same_next same_prev h = (
    same_next a (ground arith) ∙ h.0,
    same_prev x (ground arith) ∙ h.1,
    Linked-frame x xs b (λ u i. same_next u (ground arith)) (λ v i. same_prev v (ground arith)) h.2,
  )

  -- A path whose last link is moved to another end.
  pub Linked-retarget :
      (a : Ptr) (xs : List Ptr) (b c : Ptr)
      → Distinct (a ∷ xs)
      → ((u : Ptr) → u ≢ last_or a xs → has u (a ∷ xs) ≡ true → l'.next u ≡ l.next u)
      → ((v : Ptr) → has v xs ≡ true → l'.prev v ≡ l.prev v)
      → l'.next (last_or a xs) ≡ c
      → l'.prev c ≡ last_or a xs
      → Linked l a xs b
      → Linked l' a xs c
  Linked-retarget a [] b c d same_next same_prev n p h = (n, p)
  Linked-retarget a (x ∷ xs) b c d same_next same_prev n p h = (
    same_next a (λ e. ground (arith, has-last_or x xs)) (ground arith) ∙ h.0,
    same_prev x (ground arith) ∙ h.1,
    Linked-retarget x xs b c d.1 (λ u ne i. same_next u ne (ground arith))
        (λ v i. same_prev v (ground arith)) n p h.2,
  )

module _ (l : Links) where
  pub Cyclic-next-inner :
      (xs : List Ptr) (u y : Ptr) (ys : List Ptr) → Cyclic l (xs ++ u ∷ y ∷ ys) → l.next u ≡ y
  Cyclic-next-inner [] u y ys h = h.0
  Cyclic-next-inner (x ∷ xs) u y ys h = (Linked-split l x xs u (y ∷ ys) x h).1.0

  -- The last node leads back to the first.
  pub Cyclic-next-last :
      (x : Ptr) (xs : List Ptr) (u : Ptr) → Cyclic l (x ∷ xs ++ u ∷ []) → l.next u ≡ x
  Cyclic-next-last x xs u h = (Linked-split l x xs u [] x h).1.0

module _ (l : Links) where
  -- So is its predecessor.
  pub Cyclic-prev-has :
      (xs : List Ptr) (u : Ptr) (ys : List Ptr)
      → Cyclic l (xs ++ u ∷ ys)
      → has (l.prev u) (xs ++ u ∷ ys) ≡ true
  Cyclic-prev-has [] u ys h = ground (arith, prev-last l u ys u h, has-last_or u ys)
  Cyclic-prev-has (x ∷ xs) u ys h =
      let e = prev-last l u (ys ++ x ∷ xs) u (Linked-rotate l x xs u ys h) in
      ground (
        arith,
        e,
        has-last_or u (ys ++ x ∷ xs),
        has-append (l.prev u) ys (x ∷ xs),
        has-append (l.prev u) xs (u ∷ ys),
      )
