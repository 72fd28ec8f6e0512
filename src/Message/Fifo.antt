-- ===== src/Message/Fifo.antt =====
-- `pth_msgport_put` and `pth_msgport_get`: the order of the messages of a port.
use pth.Base.{
  ℕ, zero, suc, ◌≡◌, refl, ◌≢◌, false, List, [], ◌∷◌, ◌++◌, arith, ==_ne, Ptr, null, has,
  has-append, length, Distinct, Distinct-remove, append_assoc, append-nil,
}
use pth.Ring.{IsRing}
use pth.Ring.Insert.{append-IsRing}
use pth.Ring.Remove.{pop-IsRing}
use pth.Message.{State, put, get}

abbrev pub put_all : Ptr → List Ptr → State → State
put_all mp [] s = s
put_all mp (m ∷ ms) s = put_all mp ms (put mp m s).1

-- What `n` calls of `pth_msgport_get` return.
abbrev pub get_all : ℕ → Ptr → State → List Ptr
get_all zero mp s = []
get_all (suc n) mp s = (get mp s).0 ∷ get_all n mp (get mp s).1

put-IsRing :
    (mp m : Ptr) (xs : List Ptr) (s : State)
    → IsRing mp s.rings xs
    → m ≢ null
    → has m xs ≡ false
    → IsRing mp (put mp m s).1.rings (xs ++ m ∷ [])
unfolding put
put-IsRing mp m xs s h mn out = rw (==_ne mp null h.ne_null) (append-IsRing h mn out)

get-IsRing :
    (mp m : Ptr) (xs : List Ptr) (s : State)
    → IsRing mp s.rings (m ∷ xs)
    → ((get mp s).0 ≡ m) × IsRing mp (get mp s).1.rings xs
unfolding get
get-IsRing mp m xs s h = rw (==_ne mp null h.ne_null) (pop-IsRing mp m s.rings xs h)

Distinct-front :
    (xs : List Ptr) (m : Ptr) (ms : List Ptr) → Distinct (xs ++ m ∷ ms) → has m xs ≡ false
Distinct-front xs m ms d = ground (arith, (Distinct-remove xs m ms d).1, has-append m xs ms)

put_all-IsRing :
    (mp : Ptr) (ms xs : List Ptr) (s : State)
    → IsRing mp s.rings xs
    → has null ms ≡ false
    → Distinct (xs ++ ms)
    → IsRing mp (put_all mp ms s).rings (xs ++ ms)
put_all-IsRing mp [] xs s h nn d = rw append-nil h
put_all-IsRing mp (m ∷ ms) xs s h nn d = rw append_assoc at (
    put_all-IsRing mp ms (xs ++ m ∷ []) (put mp m s).1
      (put-IsRing mp m xs s h (ground arith) (Distinct-front xs m ms d)) (ground arith)
      (rw append_assoc d))

get_all-IsRing :
    (mp : Ptr) (xs : List Ptr) (s : State) → IsRing mp s.rings xs → get_all (length xs) mp s ≡ xs
get_all-IsRing mp [] s h = refl
get_all-IsRing mp (x ∷ xs) s h =
    let (e, h') = get-IsRing mp x xs s h in λ i. e i ∷ get_all-IsRing mp xs (get mp s).1 h' i

-- Distinct messages that are put on an empty port are returned by as many calls of pth_msgport_get
-- in the order in which they were put.
pub get_all-put_all :
    (mp : Ptr) (ms : List Ptr) (s : State)
    → IsRing mp s.rings []
    → has null ms ≡ false
    → Distinct ms
    → get_all (length ms) mp (put_all mp ms s) ≡ ms
get_all-put_all mp ms s h nn d =
    get_all-IsRing mp ms (put_all mp ms s) (put_all-IsRing mp ms [] s h nn d)
