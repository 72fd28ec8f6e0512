-- ===== src/Attr.antt =====
-- src/pth_attr.c: attribute objects, bound to a thread or free-standing.
pub mod View
mod Examples
use pth.Base.{
  ℕ, Bool, true, false, not, ◌||◌, List, [], ◌∷◌, ◌==◌, if◌then◌else◌, Ptr, null, update,
}
use pth.Base.Int.{ℤ, pos}
use pth.Time.{Time, time}
use pth.Util.{cpystrn}
use pth.Threads.{ThreadState}

pub data Errno : Type 0 where
  einval enomem eperm eacces : Errno

pub data Ret : Type 0 where
  done : Ret
  fail : Errno → Ret

pub record Attr : Type 0 where
  pub a_tid : Ptr
  pub a_prio : ℤ
  pub a_dispatches : ℤ
  pub a_name : List ℕ
  pub a_joinable : ℤ
  pub a_cancelstate : ℕ
  pub a_stacksize : ℕ
  pub a_stackaddr : Ptr

-- The fields of a thread control block that the attributes show.
pub record Tcb : Type 0 where
  pub prio : ℤ
  pub name : List ℕ
  pub dispatches : ℤ
  pub state : ThreadState
  pub spawned : Time
  pub lastran : Time
  pub running : Time
  pub events : Ptr
  pub stack : Ptr
  pub stacksize : ℕ
  pub start_func : Ptr
  pub start_arg : Ptr
  pub joinable : ℤ
  pub cancelstate : ℕ

pub record State : Type 0 where
  pub attr : Ptr → Attr
  pub tcb : Ptr → Tcb
  pub freed : List Ptr

-- PTH_ATTR_*; `attr_other` is every number that is none of them.
pub data Op : Type 0 where
  attr_prio attr_name attr_joinable attr_cancel_state attr_stack_size attr_stack_addr : Op
  attr_dispatches attr_time_spawn attr_time_last attr_time_ran attr_start_func : Op
  attr_start_arg attr_state attr_events attr_bound attr_other : Op

-- What `va_arg` gives of each type. The size of `int` is not cut.
pub record Given : Type 0 where
  pub int : ℤ
  pub unsigned : ℕ
  pub chars : List ℕ
  pub addr : Ptr

-- A name is given out as its address: within the object, or within the thread.
pub data Name : Type 0 where
  name_of_attr name_of_thread : Ptr → Name

pub data Out : Type 0 where
  int_out : ℤ → Out
  unsigned_out : ℕ → Out
  addr_out : Ptr → Out
  name_out : Name → Out
  time_out : Time → Out
  state_out : ThreadState → Out

pub data Got : Type 0 where
  got : Out → Got
  refused : Errno → Got

-- PTH_TCB_NAMELEN
abbrev pub namelen : ℕ
namelen = 40

-- "unknown"
abbrev pub unknown : List ℕ
unknown = 117 ∷ 110 ∷ 107 ∷ 110 ∷ 111 ∷ 119 ∷ 110 ∷ []

-- PTH_CANCEL_DEFAULT
abbrev pub cancel_default : ℕ
cancel_default = 9

abbrev pub zero_time : Time
zero_time = time (pos 0) (pos 0)

abbrev pub set_attr : Ptr → Attr → State → State
set_attr a x s = record s { attr = update s.attr a x }

abbrev pub set_tcb : Ptr → Tcb → State → State
set_tcb t x s = record s { tcb = update s.tcb t x }

unfoldable pub init : Ptr → State → Ret × State
unfolding cpystrn
init a s =
    if a == null
    then (fail einval, s)
    else (if not ((s.attr a).a_tid == null) then (fail eperm, s) else (
      done,
      set_attr a
          (record (s.attr a) {
            a_prio = pos 0;
            a_name = cpystrn unknown namelen;
            a_dispatches = pos 0;
            a_joinable = pos 1;
            a_cancelstate = cancel_default;
            a_stacksize = 65536;
            a_stackaddr = null;
          })
          s,
    ))

-- `room` is what `malloc` gives.
unfoldable pub new : (room : Ptr) → State → (Ptr × Ret) × State
unfolding init
new room s =
    if room == null
    then ((null, fail enomem), s)
    else ((room, done), (init room (set_attr room (record (s.attr room) { a_tid = null }) s)).1)

unfoldable pub of_thread : (room t : Ptr) → State → (Ptr × Ret) × State
of_thread room t s =
    if t == null
    then ((null, fail einval), s)
    else (if room == null
        then ((null, fail enomem), s)
        else ((room, done), set_attr room (record (s.attr room) { a_tid = t }) s))

unfoldable pub destroy : Ptr → State → Ret × State
destroy a s = if a == null then (fail einval, s) else (done, record s { freed = a ∷ s.freed })

-- `pth_attr_ctrl` with PTH_ATTR_SET on an object, and `t` the thread that it is bound to.
unfoldable pub set_in : Op → Given → (a t : Ptr) → State → Ret × State
unfolding cpystrn
set_in attr_prio g a t s = (
  done,
  if not (t == null)
      then set_tcb t (record (s.tcb t) { prio = g.int }) s
      else set_attr a (record (s.attr a) { a_prio = g.int }) s,
)
set_in attr_name g a t s = (
  done,
  if not (t == null)
      then set_tcb t (record (s.tcb t) { name = cpystrn g.chars namelen }) s
      else set_attr a (record (s.attr a) { a_name = cpystrn g.chars namelen }) s,
)
set_in attr_dispatches g a t s = (
  done,
  if not (t == null)
      then set_tcb t (record (s.tcb t) { dispatches = g.int }) s
      else set_attr a (record (s.attr a) { a_dispatches = g.int }) s,
)
set_in attr_joinable g a t s = (
  done,
  if not (t == null)
      then set_tcb t (record (s.tcb t) { joinable = g.int }) s
      else set_attr a (record (s.attr a) { a_joinable = g.int }) s,
)
set_in attr_cancel_state g a t s = (
  done,
  if not (t == null)
      then set_tcb t (record (s.tcb t) { cancelstate = g.unsigned }) s
      else set_attr a (record (s.attr a) { a_cancelstate = g.unsigned }) s,
)
set_in attr_stack_size g a t s =
    if not (t == null)
    then (fail eperm, s)
    else (done, set_attr a (record (s.attr a) { a_stacksize = g.unsigned }) s)
set_in attr_stack_addr g a t s =
    if not (t == null)
    then (fail eperm, s)
    else (done, set_attr a (record (s.attr a) { a_stackaddr = g.addr }) s)
set_in attr_time_spawn g a t s = (fail eperm, s)
set_in attr_time_last g a t s = (fail eperm, s)
set_in attr_time_ran g a t s = (fail eperm, s)
set_in attr_start_func g a t s = (fail eperm, s)
set_in attr_start_arg g a t s = (fail eperm, s)
set_in attr_state g a t s = (fail eperm, s)
set_in attr_events g a t s = (fail eperm, s)
set_in attr_bound g a t s = (fail eperm, s)
set_in attr_other g a t s = (fail einval, s)

unfoldable pub set : Op → Given → Ptr → State → Ret × State
unfolding set_in
set op g a s = if a == null then (fail einval, s) else set_in op g a (s.attr a).a_tid s

-- `pth_attr_ctrl` with PTH_ATTR_GET.
unfoldable pub get_in : Op → (a t : Ptr) → State → Got
get_in attr_prio a t s =
    got (int_out (if not (t == null) then (s.tcb t).prio else (s.attr a).a_prio))
get_in attr_name a t s =
    got (name_out (if not (t == null) then name_of_thread t else name_of_attr a))
get_in attr_dispatches a t s =
    got (int_out (if not (t == null) then (s.tcb t).dispatches else (s.attr a).a_dispatches))
get_in attr_joinable a t s =
    got (int_out (if not (t == null) then (s.tcb t).joinable else (s.attr a).a_joinable))
get_in attr_cancel_state a t s =
    got (unsigned_out (if not (t == null) then (s.tcb t).cancelstate else (s.attr a).a_cancelstate))
get_in attr_stack_size a t s =
    got (unsigned_out (if not (t == null) then (s.tcb t).stacksize else (s.attr a).a_stacksize))
get_in attr_stack_addr a t s =
    got (addr_out (if not (t == null) then (s.tcb t).stack else (s.attr a).a_stackaddr))
get_in attr_time_spawn a t s =
    got (time_out (if not (t == null) then (s.tcb t).spawned else zero_time))
get_in attr_time_last a t s =
    got (time_out (if not (t == null) then (s.tcb t).lastran else zero_time))
get_in attr_time_ran a t s =
    got (time_out (if not (t == null) then (s.tcb t).running else zero_time))
get_in attr_start_func a t s =
    if t == null then refused eacces else got (addr_out (s.tcb t).start_func)
get_in attr_start_arg a t s =
    if t == null then refused eacces else got (addr_out (s.tcb t).start_arg)
get_in attr_state a t s = if t == null then refused eacces else got (state_out (s.tcb t).state)
get_in attr_events a t s = if t == null then refused eacces else got (addr_out (s.tcb t).events)
get_in attr_bound a t s = got (int_out (if not (t == null) then pos 1 else pos 0))
get_in attr_other a t s = refused einval

unfoldable pub get : Op → Ptr → State → Got
unfolding get_in
get op a s = if a == null then refused einval else get_in op a (s.attr a).a_tid s
