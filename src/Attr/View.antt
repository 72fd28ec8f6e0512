-- ===== src/Attr/View.antt =====
-- `pth_attr_set` and `pth_attr_get`: an attribute object is a view of a place, its own or that of its
-- thread.
use pth.Base.{ℕ, ◌≡◌, ◌≢◌, Bool, true, not, List, arith, ◌==◌, if◌then◌else◌, Ptr, null}
use pth.Base.Int.{ℤ}
use pth.Util.{cpystrn}
use pth.Attr.{
  State, Op, attr_prio, attr_name, attr_joinable, attr_cancel_state, attr_stack_size,
  attr_stack_addr, attr_dispatches, attr_time_spawn, attr_time_last, attr_time_ran, attr_start_func,
  attr_start_arg, attr_state, attr_events, attr_bound, attr_other, Errno, einval, eperm, Given, Ret,
  done, fail, namelen, set_in, set, get_in, get, Got, got, refused, int_out, unsigned_out, addr_out,
  name_out, time_out, state_out, name_of_attr, name_of_thread,
}

-- The values that can be set, in the place that an object shows.
pub record View : Type 0 where
  pub prio : ℤ
  pub name : List ℕ
  pub dispatches : ℤ
  pub joinable : ℤ
  pub cancelstate : ℕ
  pub stacksize : ℕ
  pub stack : Ptr

abbrev pub view_at : (a t : Ptr) → State → View
view_at a t s = record {
  prio = if not (t == null) then (s.tcb t).prio else (s.attr a).a_prio;
  name = if not (t == null) then (s.tcb t).name else (s.attr a).a_name;
  dispatches = if not (t == null) then (s.tcb t).dispatches else (s.attr a).a_dispatches;
  joinable = if not (t == null) then (s.tcb t).joinable else (s.attr a).a_joinable;
  cancelstate = if not (t == null) then (s.tcb t).cancelstate else (s.attr a).a_cancelstate;
  stacksize = if not (t == null) then (s.tcb t).stacksize else (s.attr a).a_stacksize;
  stack = if not (t == null) then (s.tcb t).stack else (s.attr a).a_stackaddr;
}

abbrev pub view : Ptr → State → View
view a s = view_at a (s.attr a).a_tid s

-- Setting a value, as a function of what is shown.
abbrev pub put : Op → Given → View → View
put attr_prio g v = record v { prio = g.int }
put attr_name g v = record v { name = cpystrn g.chars namelen }
put attr_dispatches g v = record v { dispatches = g.int }
put attr_joinable g v = record v { joinable = g.int }
put attr_cancel_state g v = record v { cancelstate = g.unsigned }
put attr_stack_size g v = record v { stacksize = g.unsigned }
put attr_stack_addr g v = record v { stack = g.addr }
put op g v = v

abbrev pub same_place : (a b : Ptr) → State → Bool
same_place a b s = if (s.attr a).a_tid == null then b == a else (s.attr b).a_tid == (s.attr a).a_tid

-- If pth_attr_set succeeds on an object, every object that shows the same place, which is the
-- thread that the object is bound to or the object itself, shows the new value of that attribute
-- and the old ones of all others, and every other object shows what it did.
pub set-view :
    (op : Op) (g : Given) (a : Ptr) (s : State) (b : Ptr)
    → (set op g a s).0 ≡ done
    → view b (set op g a s).1 ≡ (if same_place a b s then put op g (view b s) else view b s)
unfolding set set_in
set-view attr_prio g a s b h = ground arith
set-view attr_name g a s b h = ground arith
set-view attr_joinable g a s b h = ground arith
set-view attr_cancel_state g a s b h = ground arith
set-view attr_stack_size g a s b h = ground arith
set-view attr_stack_addr g a s b h = ground arith
set-view attr_dispatches g a s b h = ground arith
set-view attr_time_spawn g a s b h = ground arith
set-view attr_time_last g a s b h = ground arith
set-view attr_time_ran g a s b h = ground arith
set-view attr_start_func g a s b h = ground arith
set-view attr_start_arg g a s b h = ground arith
set-view attr_state g a s b h = ground arith
set-view attr_events g a s b h = ground arith
set-view attr_bound g a s b h = ground arith
set-view attr_other g a s b h = ground arith

-- What the caller of a get sees; a name is read where the address points to.
pub data Seen : Type 0 where
  seen_int : ℤ → Seen
  seen_unsigned : ℕ → Seen
  seen_addr : Ptr → Seen
  seen_chars : List ℕ → Seen
  seen_other : Seen

abbrev pub seen : Got → State → Seen
seen (got (int_out i)) s = seen_int i
seen (got (unsigned_out i)) s = seen_unsigned i
seen (got (addr_out p)) s = seen_addr p
seen (got (name_out (name_of_attr a))) s = seen_chars (s.attr a).a_name
seen (got (name_out (name_of_thread t))) s = seen_chars (s.tcb t).name
seen (got (time_out t)) s = seen_other
seen (got (state_out t)) s = seen_other
seen (refused e) s = seen_other

abbrev pub asked : Op → Given → Seen
asked attr_prio g = seen_int g.int
asked attr_name g = seen_chars (cpystrn g.chars namelen)
asked attr_dispatches g = seen_int g.int
asked attr_joinable g = seen_int g.int
asked attr_cancel_state g = seen_unsigned g.unsigned
asked attr_stack_size g = seen_unsigned g.unsigned
asked attr_stack_addr g = seen_addr g.addr
asked op g = seen_other

-- If pth_attr_set succeeds on an object, pth_attr_get of the same attribute gives the value that
-- was set, a name cut to 39 characters, through every object that is not null and shows the same
-- place.
pub set-get :
    (op : Op) (g : Given) (a : Ptr) (s : State) (b : Ptr)
    → (set op g a s).0 ≡ done
    → b ≢ null
    → same_place a b s ≡ true
    → let s1 = (set op g a s).1 in seen (get op b s1) s1 ≡ asked op g
unfolding set set_in get get_in
set-get attr_prio g a s b h n q = ground arith
set-get attr_name g a s b h n q = ground arith
set-get attr_joinable g a s b h n q = ground arith
set-get attr_cancel_state g a s b h n q = ground arith
set-get attr_stack_size g a s b h n q = ground arith
set-get attr_stack_addr g a s b h n q = ground arith
set-get attr_dispatches g a s b h n q = ground arith
set-get attr_time_spawn g a s b h n q = ground arith
set-get attr_time_last g a s b h n q = ground arith
set-get attr_time_ran g a s b h n q = ground arith
set-get attr_start_func g a s b h n q = ground arith
set-get attr_start_arg g a s b h n q = ground arith
set-get attr_state g a s b h n q = ground arith
set-get attr_events g a s b h n q = ground arith
set-get attr_bound g a s b h n q = ground arith
set-get attr_other g a s b h n q = ground arith

-- The result for each attribute of an object that is there.
abbrev pub verdict : Op → (bound : Bool) → Ret
verdict attr_prio bound = done
verdict attr_name bound = done
verdict attr_dispatches bound = done
verdict attr_joinable bound = done
verdict attr_cancel_state bound = done
verdict attr_stack_size bound = if bound then fail eperm else done
verdict attr_stack_addr bound = if bound then fail eperm else done
verdict attr_other bound = fail einval
verdict op bound = fail eperm

-- pth_attr_set fails with EINVAL without an object or for an unknown attribute, with EPERM for the
-- stack of a bound object and for every attribute that is neither the priority, the name, the
-- count of dispatches, the joinability, the cancellation state nor the stack, and else succeeds;
-- where it fails it changes nothing.
pub set-refused :
    (op : Op) (g : Given) (a : Ptr) (s : State)
    → ((set op g a s).0
        ≡ (if a == null then fail einval else verdict op (not ((s.attr a).a_tid == null))))
      × ((e : Errno) → (set op g a s).0 ≡ fail e → (set op g a s).1 ≡ s)
unfolding set set_in
set-refused attr_prio g a s = (ground arith, λ e h. ground arith)
set-refused attr_name g a s = (ground arith, λ e h. ground arith)
set-refused attr_joinable g a s = (ground arith, λ e h. ground arith)
set-refused attr_cancel_state g a s = (ground arith, λ e h. ground arith)
set-refused attr_stack_size g a s = (ground arith, λ e h. ground arith)
set-refused attr_stack_addr g a s = (ground arith, λ e h. ground arith)
set-refused attr_dispatches g a s = (ground arith, λ e h. ground arith)
set-refused attr_time_spawn g a s = (ground arith, λ e h. ground arith)
set-refused attr_time_last g a s = (ground arith, λ e h. ground arith)
set-refused attr_time_ran g a s = (ground arith, λ e h. ground arith)
set-refused attr_start_func g a s = (ground arith, λ e h. ground arith)
set-refused attr_start_arg g a s = (ground arith, λ e h. ground arith)
set-refused attr_state g a s = (ground arith, λ e h. ground arith)
set-refused attr_events g a s = (ground arith, λ e h. ground arith)
set-refused attr_bound g a s = (ground arith, λ e h. ground arith)
set-refused attr_other g a s = (ground arith, λ e h. ground arith)
