-- ===== src/Data/Examples.antt =====
-- The theorems on keys at a table whose keys 0 and 1 are used.
use pth.Base.{ℕ, ◌≡◌, refl, true, false, none, some, [], ◌∷◌, arith, null, update, ltb}
use pth.Base.Int.{pos}
use pth.Data.{State, setdata, value_of}
use pth.Data.Keys.{setdata-getdata}
use pth.Data.Count.{AllCounted, creates, sets, run, run-AllCounted}

-- The first `n` keys are used.
abbrev table : ℕ → State
table n = record {
  current = 10;
  keytab = λ k. record { used = ltb k n; destructor = null };
  thread = λ t. record { data_value = none; data_count = pos 0 };
}

setdata-getdata_example : value_of 10 1 (setdata true (pos 1) 99 (table 2)).1 ≡ 99
unfolding setdata
setdata-getdata_example = setdata-getdata 1 (table 2) (omega arith) refl true 99 refl 1 10

-- The thread 10 has the value 99 for the key 1.
abbrev valued : State
valued = record (table 2) {
  thread = λ t. record { data_value = some (update (λ _. null) 1 99); data_count = pos 1 };
}

run-AllCounted_example :
    AllCounted (run (creates false 77 ∷ sets true (pos 1) 99 ∷ sets true (pos 1) 0 ∷ []) (table 2))
run-AllCounted_example =
    run-AllCounted (creates false 77 ∷ sets true (pos 1) 99 ∷ sets true (pos 1) 0 ∷ []) (table 2)
      (λ t. refl)
