-- ===== src/Event/Make.antt =====
-- `pth_event`: where an event is allocated, how it is linked and what it waits for.
use pth.Base.{ℕ, ◌+◌, Bool, false, not, ◌&&◌, ◌==◌, if◌then◌else◌, Ptr, null, update}
use pth.Base.Int.{ℤ, negsuc, pos, eqb_ℤ}
use pth.Time.{Time}
use pth.Data
use pth.Util.{fd_valid}
use pth.Event.{
  pending, Args, on_fd, on_select, on_sigs, on_time, on_msg, on_mutex, on_cond, on_tid, on_func,
  Mem, bit, mask, set_next, set_prev, set_status,
}

-- What `va_arg` gives for the kind of event.
pub record Given : Type 0 where
  pub fd : ℤ
  pub n : Ptr
  pub nfd : ℤ
  pub rfds : Ptr
  pub wfds : Ptr
  pub efds : Ptr
  pub sigs : Ptr
  pub sig : Ptr
  pub tv : Time
  pub mp : Ptr
  pub mutex : Ptr
  pub cond : Ptr
  pub tid : Ptr
  pub func : Ptr
  pub arg : Ptr

pub data Errno : Type 0 where
  ebadf einval enomem : Errno

abbrev pub key_init : ℤ
key_init = negsuc 0

-- `new` is what `malloc` gives. The value of the key is the event of the current thread; with none,
-- the new event becomes the value.
unfoldable pub cached : (new : Ptr) → (room : Bool) → ℤ → Data.State → Ptr × Data.State
cached new room key s =
    let e = (Data.getdata key s).1 in
    if e == null then (new, (Data.setdata room key new s).1) else (e, s)

-- PTH_MODE_STATIC: the event, and the key that it is kept under.
unfoldable pub static_event :
    (new destructor : Ptr) → (room : Bool) → ℤ → Data.State → Ptr × (ℤ × Data.State)
unfolding cached
static_event new destructor room key s =
    if eqb_ℤ key key_init
    then (let made = Data.create false destructor s in
        let r = cached new room (pos made.1.0) made.1.1 in (r.0, (pos made.1.0, r.1)))
    else (let r = cached new room key s in (r.0, (key, r.1)))

-- The structure that is filled, among the one supplied, the static one and a new one.
unfoldable pub choose : ℕ → (supplied static new : Ptr) → Ptr
choose spec supplied static new =
    if bit 20 spec then supplied else (if bit 22 spec then static else new)

-- A cycle of its own, or the end of the cycle of `ch`.
unfoldable pub link : ℕ → (ch e : Ptr) → Mem → Mem
link spec ch e m =
    if bit 21 spec
    then (let m1 = set_next e ch (set_prev e (m.links.prev ch) m) in
        let m2 = set_next (m1.links.prev e) e m1 in set_prev (m2.links.next e) e m2)
    else set_next e e (set_prev e e m)

-- The state of a thread that PTH_UNTIL_TID_* waits for.
unfoldable pub tid_goal : ℕ → ℕ
tid_goal spec =
    if bit 15 spec
    then 1
    else (if bit 16 spec then 2 else (if bit 17 spec then 3 else (if bit 18 spec then 4 else 2)))

pub data Kind : Type 0 where
  refused : Errno → Kind
  filled : Args → (goal : ℕ) → Kind

-- What `spec` says of the kind of event: its values and its goal.
unfoldable pub kind : (fcntl : ℕ → Bool) → ℕ → Given → Kind
unfolding fd_valid tid_goal
kind fcntl spec g =
    if bit 1 spec
    then (if not (fd_valid fcntl g.fd)
        then refused ebadf
        else filled (on_fd g.fd) ((mask 12 spec + mask 13 spec) + mask 14 spec))
    else (if bit 2 spec
        then filled (on_select g.n g.nfd g.rfds g.wfds g.efds) (mask 11 spec)
        else (if bit 3 spec
            then filled (on_sigs g.sigs g.sig) (mask 11 spec)
            else (if bit 4 spec
                then filled (on_time g.tv) (mask 11 spec)
                else (if bit 5 spec
                    then filled (on_msg g.mp) (mask 11 spec)
                    else (if bit 6 spec
                        then filled (on_mutex g.mutex) (mask 11 spec)
                        else (if bit 7 spec
                            then filled (on_cond g.cond) (mask 11 spec)
                            else (if bit 8 spec
                                then filled (on_tid g.tid) (tid_goal spec)
                                else (if bit 9 spec
                                    then filled (on_func g.func g.arg g.tv) (mask 11 spec)
                                    else refused einval))))))))

pub data Ret : Type 0 where
  made : Ptr → Ret
  fail : Errno → Ret

abbrev pub fill : Ptr → Args → ℕ → Mem → Mem
fill e a goal m = record m { ev_args = update m.ev_args e a; ev_goal = update m.ev_goal e goal }

unfoldable pub finish : Ptr → Kind → Mem → Ret × Mem
finish e (refused x) m = (fail x, m)
finish e (filled a goal) m = (made e, fill e a goal m)

-- The event that `choose` gives is linked, marked as pending and filled; on an error its links and
-- its mark have been written.
unfoldable pub event : (fcntl : ℕ → Bool) → ℕ → (e ch : Ptr) → Given → Mem → Ret × Mem
unfolding link kind finish
event fcntl spec e ch g m =
    if e == null
    then (fail enomem, m)
    else finish e (kind fcntl spec g) (set_status e pending (link spec ch e m))

-- The variable that holds the key of the call site, the keys, and the events.
pub record World : Type 0 where
  pub key : ℤ
  pub keys : Data.State
  pub mem : Mem

-- The structure is found, and with PTH_MODE_STATIC alone the key may be created.
unfoldable pub pick : ℕ → (supplied new destructor : Ptr) → (room : Bool) → World → Ptr × World
unfolding static_event choose
pick spec supplied new destructor room w =
    let r = static_event new destructor room w.key w.keys in
    if not (bit 20 spec) && bit 22 spec
    then (r.0, record w { key = r.1.0; keys = r.1.1 })
    else (choose spec supplied null new, w)

-- The whole of `pth_event`.
unfoldable pub pth_event :
    (fcntl : ℕ → Bool)
    → (spec : ℕ) → (supplied new destructor : Ptr) → (room : Bool) → (ch : Ptr) → Given
    → World
    → Ret × World
unfolding pick event
pth_event fcntl spec supplied new destructor room ch g w =
    let p = pick spec supplied new destructor room w in
    let r = event fcntl spec p.0 ch g p.1.mem in (r.0, record p.1 { mem = r.1 })
