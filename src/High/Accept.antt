-- ===== src/High/Accept.antt =====
-- `pth_accept_ev`: extra events, and the modes of the sockets.
use pth.Base.{
  ℕ, ◌≡◌, refl, ◌≢◌, ◌∙◌, sym, ap, if◌then◌else◌, Bool, true, false, not, ◌&&◌, some, List, [], ◌∷◌,
  arith, if_intro,
}
use pth.Base.Int.{ℤ}
use pth.Util.{fd_valid}
use pth.Event.{Status, pending, occurred, failed}
use pth.High.{Mode, blocking, nonblocking, bad_mode}
use pth.High.Connect.{
  Errno, eintr, ebadf, eagain, einprogress, enomem, other, Answer, gives, refuses, returns, fails,
  stuck, Done, done, accept_loop, accept_ev, outcome, is_nonblocking,
}

-- The ends of waits that are due to the socket.
abbrev pub own : List Status → List Status
own [] = []
own (pending ∷ hs) = own hs
own (occurred ∷ hs) = occurred ∷ own hs
own (failed ∷ hs) = failed ∷ own hs

outcome-own :
    (hs : List Status)
    → ((outcome false (own hs)).0 ≡ (outcome false hs).0)
      × ((outcome false (own hs)).1 ≡ own (outcome false hs).1)
unfolding outcome
outcome-own [] = (refl, refl)
outcome-own (pending ∷ hs) = outcome-own hs
outcome-own (occurred ∷ hs) = (refl, refl)
outcome-own (failed ∷ hs) = (refl, refl)

-- Once the event is isolated the extra events do not matter.
accept_loop-deaf :
    (as1 : List Answer) (room extra : Bool) (hs : List Status) (mode : Mode)
    → accept_loop as1 room extra false (own hs) mode ≡ accept_loop as1 room extra false hs mode
unfolding accept_loop
accept_loop-deaf [] room extra hs mode = refl
accept_loop-deaf (gives n ∷ as1) room extra hs mode = refl
accept_loop-deaf (refuses eagain ∷ as1) room true hs mode =
    ap
      (λ (b : Bool).
        if is_nonblocking mode
        then done (fails eagain) mode
        else (if not b
            then done (fails eintr) mode
            else accept_loop as1 room true false (outcome false (own hs)).1 mode))
      (outcome-own hs).0
    ∙ ap
        (λ (r : Done).
          if is_nonblocking mode
          then done (fails eagain) mode
          else (if not (outcome false hs).0 then done (fails eintr) mode else r))
        (ap (λ ks. accept_loop as1 room true false ks mode) (outcome-own hs).1
          ∙ accept_loop-deaf as1 room true (outcome false hs).1 mode)
accept_loop-deaf (refuses eagain ∷ as1) room false hs mode =
    ap (λ (r : Done). if is_nonblocking mode then done (fails eagain) mode else r)
      (ap (λ ks. accept_loop as1 room false false ks mode) (outcome-own hs).1
        ∙ accept_loop-deaf as1 room false (outcome false hs).1 mode)
accept_loop-deaf (refuses eintr ∷ as1) room extra hs mode = refl
accept_loop-deaf (refuses ebadf ∷ as1) room extra hs mode = refl
accept_loop-deaf (refuses einprogress ∷ as1) room extra hs mode = refl
accept_loop-deaf (refuses enomem ∷ as1) room extra hs mode = refl
accept_loop-deaf (refuses (other n) ∷ as1) room extra hs mode = refl

-- On a valid blocking socket whose first accept finds no connection, with extra events: if the
-- event of the socket is pending after the first wait, or has failed, pth_accept_ev fails with
-- EINTR and the socket is blocking again; if it has occurred, the result depends on the later
-- waits only by how the socket itself ends them, so that no extra event ends one.
pub accept-deaf :
    (fcntl : ℕ → Bool) (s : ℤ) (as1 : List Answer) (hs hs' : List Status)
    → fd_valid fcntl s ≡ true
    → own hs ≡ own hs'
    → let run = accept_ev fcntl s blocking (refuses eagain ∷ as1) true true in
      (run (occurred ∷ hs) ≡ run (occurred ∷ hs'))
      × (run (pending ∷ hs) ≡ done (fails eintr) blocking)
      × (run (failed ∷ hs) ≡ done (fails eintr) blocking)
unfolding accept_ev accept_loop
accept-deaf fcntl s as1 hs hs' v same =
    let later =
      sym (accept_loop-deaf as1 true true hs blocking)
      ∙ ap (λ ks. accept_loop as1 true true false ks blocking) same
      ∙ accept_loop-deaf as1 true true hs' blocking in
    (rw v later, rw v refl, rw v refl)

-- A call that returns leaves the mode of the socket and gives it to the new descriptor.
abbrev IsRestored : Mode → Done → Type 0
IsRestored mode r =
    (r.ret ≢ stuck → r.mode ≡ mode) × ((n : ℕ) → r.ret ≡ returns n → r.new_mode ≡ some mode)

fails-IsRestored : (e : Errno) (mode : Mode) → IsRestored mode (done (fails e) mode)
fails-IsRestored e mode = (λ h. refl, λ n h. absurd (cc))

accept_loop-IsRestored :
    (as1 : List Answer) (extra fresh : Bool) (hs : List Status) (mode : Mode)
    → IsRestored mode (accept_loop as1 true extra fresh hs mode)
unfolding accept_loop
accept_loop-IsRestored [] extra fresh hs mode = (λ h. absurd (h refl), λ n h. absurd (cc))
accept_loop-IsRestored (gives n ∷ as1) extra fresh hs mode = (λ h. refl, λ m h. refl)
accept_loop-IsRestored (refuses eagain ∷ as1) extra fresh hs mode =
    let next = outcome (extra && fresh) hs in
    let P = IsRestored mode in
    let rest = accept_loop as1 true extra false next.1 mode in
    if_intro P (is_nonblocking mode) (λ _. fails-IsRestored eagain mode)
      (λ _.
        if_intro P (fresh && not true) (λ i. absurd (ground arith))
          (λ _.
            if_intro P (extra && not next.0) (λ _. fails-IsRestored eintr mode)
              (λ _. accept_loop-IsRestored as1 extra false next.1 mode)))
accept_loop-IsRestored (refuses eintr ∷ as1) extra fresh hs mode = fails-IsRestored eintr mode
accept_loop-IsRestored (refuses ebadf ∷ as1) extra fresh hs mode = fails-IsRestored ebadf mode
accept_loop-IsRestored (refuses einprogress ∷ as1) extra fresh hs mode =
    fails-IsRestored einprogress mode
accept_loop-IsRestored (refuses enomem ∷ as1) extra fresh hs mode = fails-IsRestored enomem mode
accept_loop-IsRestored (refuses (other n) ∷ as1) extra fresh hs mode =
    fails-IsRestored (other n) mode

-- If the event can be made and the mode of the socket can be read, pth_accept_ev, when it returns,
-- leaves the socket in the mode it was in, and a descriptor that it returns has that mode too, for
-- all answers of the system and all waits.
pub accept-IsRestored :
    (fcntl : ℕ → Bool) (s : ℤ) (as1 : List Answer) (extra : Bool) (hs : List Status) (mode : Mode)
    → mode ≢ bad_mode
    → IsRestored mode (accept_ev fcntl s mode as1 true extra hs)
unfolding accept_ev
accept-IsRestored fcntl s as1 extra hs bad_mode h = absurd (h refl)
accept-IsRestored fcntl s as1 extra hs blocking h =
    if_intro (IsRestored blocking) (not (fd_valid fcntl s)) (λ _. fails-IsRestored ebadf blocking)
      (λ _. accept_loop-IsRestored as1 extra true hs blocking)
accept-IsRestored fcntl s as1 extra hs nonblocking h =
    if_intro (IsRestored nonblocking) (not (fd_valid fcntl s))
      (λ _. fails-IsRestored ebadf nonblocking)
      (λ _. accept_loop-IsRestored as1 extra true hs nonblocking)
