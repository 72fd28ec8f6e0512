-- ===== src/Pqueue/Search.antt =====
-- `pth_pqueue_contains`, `pth_pqueue_tail` and `pth_pqueue_walk` on a queue.
use pth.Base.{
  ℕ, zero, suc, ◌+◌, ◌<◌, ◌≡◌, refl, ◌≢◌, ◌∙◌, false, some, List, [], ◌∷◌, ◌++◌, arith, Ptr, null,
  has, length,
}
use pth.Cycle.{Linked, prev-last, last_or}
use pth.Pqueue.Spec.{Entry, threads}
use pth.Pqueue.Follow.{next_last, next_inner}
use pth.Pqueue.Remove.{member-ne-null}
use pth.Pqueue.{Mem, IsQueue, links, contains, contains_loop, head, tail, walk, walk_next}

module _ (q h t : Ptr) (m : Mem) (ne : q ≢ null) (hook : m.q_head q ≡ h) where
  -- From the thread `c` on, behind which the threads `xs` are left up to the head.
  contains_loop-some :
      (k : ℕ) (c : Ptr) (xs : List Ptr)
      → length xs + 1 < k
      → has null (c ∷ xs) ≡ false
      → has h xs ≡ false
      → Linked (links m) c xs h
      → contains_loop k q t c m ≡ some (has t (c ∷ xs))
  unfolding contains_loop
  contains_loop-some zero c xs fuel nn out l = absurd (omega arith)
  contains_loop-some (suc zero) c xs fuel nn out l = absurd (omega arith)
  contains_loop-some (suc (suc k)) c [] fuel nn out l = ground arith
  contains_loop-some (suc (suc k)) c (x ∷ xs) fuel nn out (n, p, l) =
      ground (arith, contains_loop-some (suc k) x xs (omega arith) (ground arith) (ground arith) l)

contains_start :
    (q t h : Ptr) (fuel : ℕ) (m : Mem)
    → q ≢ null
    → m.q_head q ≡ h
    → contains fuel q t m ≡ contains_loop fuel q t h m
unfolding contains head
contains_start q t h fuel m ne hook = ground arith

contains_loop_end :
    (q t : Ptr) (fuel : ℕ) (m : Mem) → contains_loop (suc fuel) q t null m ≡ some false
unfolding contains_loop
contains_loop_end q t fuel m = refl

-- With more fuel than threads the search of pth_pqueue_contains ends, and finds the threads of the
-- queue and no other.
pub contains-some :
    (q t : Ptr) (fuel : ℕ) (m : Mem) (xs : List Entry)
    → IsQueue q m xs
    → length (threads xs) < fuel
    → contains fuel q t m ≡ some (has t (threads xs))
contains-some q t zero m xs h enough = absurd (omega arith)
contains-some q t (suc fuel) m [] h enough =
    contains_start q t null (suc fuel) m h.ne_null h.head_first ∙ contains_loop_end q t fuel m
contains-some q t (suc fuel) m (e ∷ xs) h enough =
    contains_start q t e.0 (suc fuel) m h.ne_null h.head_first
    ∙ contains_loop-some q e.0 t m h.ne_null h.head_first (suc fuel) e.0 (threads xs) (omega arith)
        h.threads_ne_null h.distinct.0 h.cycle

-- The tail is the last thread; walking on from a thread leads to the next one, and from the last one
-- nowhere.
pub tail-last :
    (q : Ptr) (m : Mem) (e : Entry) (xs : List Entry)
    → IsQueue q m (e ∷ xs)
    → tail q m ≡ last_or e.0 (threads xs)
unfolding tail
tail-last q m e xs h = ground (
  arith,
  h.ne_null,
  h.head_first,
  h.threads_ne_null,
  prev-last (links m) e.0 (threads xs) e.0 h.cycle,
)

pub walk-inner :
    (q : Ptr) (m : Mem) (pre : List Entry) (a b : Entry) (post : List Entry)
    → IsQueue q m (pre ++ a ∷ b ∷ post)
    → walk q a.0 walk_next m ≡ b.0
unfolding walk
walk-inner q m pre a b post h =
    let (n, inner) = next_inner q m pre a.0 a.1 b post h in
    let an : a.0 ≢ null = member-ne-null q a.0 a.1 m pre (b ∷ post) h in ground (arith, h.ne_null)

pub walk-end :
    (q : Ptr) (m : Mem) (pre : List Entry) (a : Entry)
    → IsQueue q m (pre ++ a ∷ [])
    → walk q a.0 walk_next m ≡ null
unfolding walk
walk-end q m pre a h = ground (arith, h.ne_null, next_last q m pre a.0 a.1 h)
