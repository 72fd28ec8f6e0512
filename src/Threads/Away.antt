-- ===== src/Threads/Away.antt =====
-- `pth_suspend` and `pth_resume` on a thread that is in the queue of its state.
use pth.Base.{◌≡◌, refl, ◌≢◌, subst, false, Option, none, some, arith, Ptr, null, update, ==_ne}
use pth.Threads.{
  State, ThreadState, Queue, sq, same_queue, delete, insert, ready, new, waiting, scheduler, dead,
  prio_std, yes_ret,
}
use pth.Threads.Calls.{queue_of, suspend, suspend_from, resume, resume_into}
use pth.Threads.Placed.{Placed, Fits, place-contains, place-ne-null, insert-Placed, delete-Placed}

-- The thread `t` can be suspended: it is in the queue of its state.
module _ (s : State) (place : Ptr → Option Queue) (h : Placed s place) (t : Ptr) (q : Queue) where
  pub suspend-moves :
      place t ≡ some q
      → queue_of (s.tcb t).state ≡ some q
      → t ≢ s.sched
      → t ≢ s.current
      → suspend t s ≡ (yes_ret, insert sq prio_std t (delete q t s))
  unfolding suspend suspend_from
  suspend-moves at st ns nc =
      rw
        (
          suspend,
          ==_ne t null (place-ne-null s place h q t at),
          ==_ne t s.sched ns,
          ==_ne t s.current nc,
          st,
          suspend_from,
          place-contains s place h q t at,
        )
        refl

  pub resume-moves :
      place t ≡ some sq
      → queue_of (s.tcb t).state ≡ some q
      → t ≢ s.sched
      → t ≢ s.current
      → resume t s ≡ (yes_ret, insert q prio_std t (delete sq t s))
  unfolding resume resume_into
  resume-moves at st ns nc =
      rw
        (
          resume,
          ==_ne t null (place-ne-null s place h sq t at),
          ==_ne t s.sched ns,
          ==_ne t s.current nc,
          place-contains s place h sq t at,
          st,
        )
        refl

  pub moved-Placed :
      (r : Queue)
      → place t ≡ some q
      → Fits (some r) (s.tcb t).state
      → Placed (insert r prio_std t (delete q t s)) (update (update place t none) t (some r))
  moved-Placed r at fit =
      insert-Placed (delete q t s) (update place t none) (delete-Placed s place h q t at) r t
        prio_std (ground arith) (place-ne-null s place h q t at) fit

abbrev Apart : Option Queue → Type 0
Apart none = Unit {0}
Apart (some q) = (same_queue q sq ≡ false) × (same_queue sq q ≡ false)

-- A thread that can be suspended is in none but the first three queues.
pub queue_of-sq :
    (st : ThreadState) (q : Queue)
    → queue_of st ≡ some q
    → (same_queue q sq ≡ false) × (same_queue sq q ≡ false)
unfolding queue_of
queue_of-sq new q e = subst (λ o. Apart o) e (refl, refl)
queue_of-sq ready q e = subst (λ o. Apart o) e (refl, refl)
queue_of-sq waiting q e = subst (λ o. Apart o) e (refl, refl)
queue_of-sq scheduler q e = absurd cc
queue_of-sq dead q e = absurd cc
