-- ===== src/Threads/Joined.antt =====
-- `pth_join` of a thread that has ended.
use pth.Base.{
  ◌≡◌, refl, ◌≢◌, subst, true, false, Option, none, some, ==_ne, Ptr, null, update, ◌==◌,
}
use pth.Threads.{State, Queue, dq, dead, yes_ret, delete, free}
use pth.Threads.Ends.{join, join_dead, is_dead, get_threads, all_threads}
use pth.Threads.Placed.{Placed, Placed-ext, Fits, place-ne-null, delete-Placed}

module _ (s : State) (place : Ptr → Option Queue) (h : Placed s place) (t : Ptr) where
  -- If the threads are in their places and there are other threads, joining a joinable thread of
  -- the dead queue that is not the caller does not wait: it returns TRUE and the value that the
  -- thread has ended with, frees the thread and takes it out of the queue, and the other threads
  -- keep their places.
  pub join-ended :
      (others : State → State)
      → place t ≡ some dq
      → t ≢ s.current
      → (s.tcb t).joinable ≡ true
      → (get_threads all_threads s == 1) ≡ false
      → (join others t s ≡ (yes_ret, ((s.tcb t).join_arg, free t (delete dq t s))))
        × Placed (free t (delete dq t s)) (update place t none)
  unfolding join join_dead
  join-ended others at nc joinable several =
      let tn = place-ne-null s place h dq t at in
      let ended : (s.tcb t).state ≡ dead = subst (λ o. Fits o (s.tcb t).state) at (h.fits t) in
      let d : is_dead t s ≡ true = rw (is_dead, ended) refl in
      (
        rw
            (
              join,
              ==_ne t s.current nc,
              ==_ne t null tn,
              joinable,
              several,
              d,
              join_dead,
              ==_ne t null tn,
              d,
              ==_ne t null tn,
            )
            refl,
        Placed-ext (delete dq t s) _ (update place t none) (λ q. refl) (λ a f. f)
            (delete-Placed s place h dq t at),
      )
