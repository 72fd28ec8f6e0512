-- ===== src/Message/Examples.antt =====
-- The theorems on message ports at two ports with names.
use pth.Base.{◌≡◌, refl, none, some, [], ◌∷◌, arith, null, update}
use pth.Ring.{IsRing}
use pth.Message.{State}
use pth.Message.Fifo.{get_all, put_all, get_all-put_all}

-- The ring at 100 holds the ports 1 and 2, and no message is pending on the port 1.
abbrev two_ports : State
two_ports = record {
  current = 10;
  rings = record {
    rn_next = update (update (λ _. null) 1 2) 2 1;
    rn_prev = update (update (λ _. null) 1 2) 2 1;
    r_hook = update (λ _. null) 100 1;
    r_nodes = update (λ _. 0) 100 2;
  };
  all_ports = 100;
  mp_name = update (update (λ _. none) 1 (some (7 ∷ []))) 2 (some (8 ∷ 9 ∷ []));
  mp_tid = λ _. 10;
  m_replyport = λ _. null;
  freed = [];
}

queue-IsRing : IsRing 1 two_ports.rings []
queue-IsRing = record {
  ne_null = omega arith;
  count = refl;
  nodes_ne_null = refl;
  distinct = tt;
  shape = refl;
}

get_all-put_all_example : get_all 3 1 (put_all 1 (30 ∷ 31 ∷ 32 ∷ []) two_ports) ≡ 30 ∷ 31 ∷ 32 ∷ []
get_all-put_all_example =
    get_all-put_all 1 (30 ∷ 31 ∷ 32 ∷ []) two_ports queue-IsRing refl (refl, (refl, (refl, tt)))
