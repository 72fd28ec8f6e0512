-- ===== src/Manager/Round.antt =====
-- A whole run of the event manager: the scan, the poll and the last loop, again as long as the timer
-- of a function has elapsed.
use pth.Base.{
  ℕ, Bool, true, false, not, ◌&&◌, ◌||◌, Option, none, some, List, [], ◌∷◌, if◌then◌else◌, Ptr,
}
use pth.Base.Int.{ℤ, pos, negsuc, ◌-ℤ◌, ltb_ℤ, leb_ℤ, eqb_ℤ}
use pth.Time
use pth.Time.{Time}
use pth.Util.{FdSet, fd_set, fd_clr}
use pth.Event.{occurred, Args, on_func}
use pth.Threads.{wq}
use pth.Manager.{SigSet, State, Polls, set_status}
use pth.Manager.Scan.{scan_all, max_ℤ}
use pth.Manager.Late.{Found, late_all}

pub data Delay : Type 0 where
  at_once : Delay
  within : Time → Delay
  forever : Delay

-- What `select` gives, with the signals that the handler notes while it waits.
pub record Selected : Type 0 where
  pub rc : ℤ
  pub r_left : FdSet
  pub w_left : FdSet
  pub e_left : FdSet
  pub raised : SigSet

-- What the system and the application do in one round.
pub record Env : Type 0 where
  pub now : Time
  pub func : Ptr → Ptr → Bool
  pub pending_signals : SigSet
  pub select : Delay → (fdmax : ℤ) → (rfds wfds efds : FdSet) → Selected
  pub recheck_fails : Ptr → Bool

abbrev no_fds : FdSet
no_fds x = false

abbrev pub start_polls : Polls
start_polls = record {
  rfds = no_fds;
  wfds = no_fds;
  efds = no_fds;
  fdmax = negsuc 0;
  nexttimer = none;
  any_occurred = false;
}

-- The signal sets at the start of a round.
unfoldable pub start_signals : SigSet → State → State
start_signals sigpending s = record s {
  pth_sigpending = sigpending;
  pth_sigblock = λ _. true;
  pth_sigcatch = λ _. false;
  pth_sigraised = λ _. false;
}

unfoldable pub choose_delay : (dopoll : Bool) → Time → Option (Ptr × Ptr × Time) → Delay
choose_delay dopoll now timer =
    if dopoll
    then at_once
    else (elim timer [ none ↦ forever | some (t, e, v) ↦ within (Time.sub v now) ])

abbrev is_func : Args → Bool
is_func (on_func f arg tv) = true
is_func _ = false

-- The timer has elapsed: its event occurs, or a function is to be asked again.
unfoldable pub elapsed : (dopoll : Bool) → ℤ → Option (Ptr × Ptr × Time) → State → Bool × State
elapsed dopoll rc none s = (false, s)
elapsed dopoll rc (some (t, e, v)) s =
    if not dopoll && eqb_ℤ rc (pos 0)
    then (if is_func (s.events.ev_args e) then (true, s) else (false, set_status e occurred s))
    else (false, s)

-- The read end of the signal pipe does not count.
unfoldable pub without_pipe : (pipe : ℕ) → (dopoll : Bool) → Selected → Selected
without_pipe pipe dopoll x =
    if not dopoll && (ltb_ℤ (pos 0) x.rc && x.r_left pipe)
    then record x { rc = x.rc -ℤ pos 1; r_left = fd_clr pipe x.r_left }
    else x

-- Without descriptors that are ready the sets are emptied.
unfoldable pub found : Selected → (Ptr → Bool) → Found
found x fails =
    if leb_ℤ x.rc (pos 0)
    then record {
      rfds = no_fds;
      wfds = no_fds;
      efds = no_fds;
      rc_negative = ltb_ℤ x.rc (pos 0);
      recheck_fails = fails;
    }
    else record {
      rfds = x.r_left;
      wfds = x.w_left;
      efds = x.e_left;
      rc_negative = false;
      recheck_fails = fails;
    }

-- One pass from `loop_entry` on: whether it has to be repeated, and the state.
unfoldable pub round : (pipe : ℕ) → (dopoll : Bool) → Env → State → Bool × State
unfolding start_signals choose_delay elapsed without_pipe found scan_all late_all
round pipe dopoll env s =
    let scanned =
      scan_all env.func env.now (s.threads.queue wq)
        (start_signals env.pending_signals s, start_polls) in
    let p = scanned.1 in
    let poll = dopoll || p.any_occurred in
    let x =
      env.select (choose_delay poll env.now p.nexttimer) (max_ℤ p.fdmax (pos pipe))
        (fd_set pipe p.rfds) p.wfds p.efds in
    let s1 = record scanned.0 { pth_sigraised = x.raised } in
    let t = elapsed poll x.rc p.nexttimer s1 in
    (t.0, late_all (found (without_pipe pipe poll x) env.recheck_fails) (t.1.threads.queue wq) t.1)

-- `none` if another round is wanted and there is none.
unfoldable pub manage : (pipe : ℕ) → (dopoll : Bool) → List Env → State → Option State
unfolding round
manage pipe dopoll [] s = none
manage pipe dopoll (env ∷ envs) s =
    let r = round pipe dopoll env s in
    elim r.0 [ true ↦ manage pipe dopoll envs r.1 | false ↦ some r.1 ]
