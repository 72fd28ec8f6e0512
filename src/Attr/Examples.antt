-- ===== src/Attr/Examples.antt =====
-- Runs of the calls on attribute objects: 10 and 11 are bound to the thread 5, 12 stands for itself.
use pth.Base.{◌≡◌, refl, arith, true, [], ◌∷◌, ◌==◌, if◌then◌else◌, Ptr, null}
use pth.Base.Int.{pos}
use pth.Threads
use pth.Util.{cpy_loop, cpystrn}
use pth.Attr.{
  State, Attr, Tcb, attr_prio, attr_name, attr_stack_size, attr_state, Given, Errno, einval, eacces,
  fail, set, get, new, refused, zero_time,
}
use pth.Attr.View.{view, put, same_place, seen, asked, verdict, set-view, set-get, set-refused}

abbrev some_attr : Ptr → Attr
some_attr t = record {
  a_tid = t;
  a_prio = pos 1;
  a_dispatches = pos 0;
  a_name = 97 ∷ 0 ∷ [];
  a_joinable = pos 1;
  a_cancelstate = 9;
  a_stacksize = 65536;
  a_stackaddr = null;
}

abbrev thread_five : Tcb
thread_five = record {
  prio = pos 2;
  name = 98 ∷ 0 ∷ [];
  dispatches = pos 7;
  state = Threads.ready;
  spawned = zero_time;
  lastran = zero_time;
  running = zero_time;
  events = null;
  stack = 4096;
  stacksize = 8192;
  start_func = 300;
  start_arg = 301;
  joinable = pos 0;
  cancelstate = 9;
}

abbrev three_objects : State
three_objects = record {
  attr = λ a. some_attr (if a == 12 then null else 5);
  tcb = λ t. thread_five;
  freed = [];
}

abbrev asks : Given
asks = record { int = pos 4; unsigned = 1000; chars = 104 ∷ 105 ∷ 0 ∷ 120 ∷ []; addr = 500 }

unbound_state : get attr_state 12 three_objects ≡ refused eacces
unfolding get
unbound_state = refl

new_name :
    ((new 12 three_objects).1.attr 12).a_name ≡ 117 ∷ 110 ∷ 107 ∷ 110 ∷ 111 ∷ 119 ∷ 110 ∷ 0 ∷ []
unfolding new cpystrn cpy_loop
new_name = refl

set-view_example : view 11 (set attr_prio asks 10 three_objects).1 ≡ (
    if same_place 10 11 three_objects
    then put attr_prio asks (view 11 three_objects)
    else view 11 three_objects)
unfolding set
set-view_example = set-view attr_prio asks 10 three_objects 11 refl

set-get_example :
    let s1 = (set attr_name asks 10 three_objects).1 in
    seen (get attr_name 11 s1) s1 ≡ asked attr_name asks
unfolding set
set-get_example = set-get attr_name asks 10 three_objects 11 refl (omega arith) refl

set-refused_example :
    ((set attr_stack_size asks 10 three_objects).0
      ≡ (if 10 == null then fail einval else verdict attr_stack_size true))
    × ((e : Errno)
        → (set attr_stack_size asks 10 three_objects).0 ≡ fail e
        → (set attr_stack_size asks 10 three_objects).1 ≡ three_objects)
set-refused_example = set-refused attr_stack_size asks 10 three_objects
