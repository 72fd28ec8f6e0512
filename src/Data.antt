-- ===== src/Data.antt =====
-- src/pth_data.c: keys for data that each thread has its own value for. The key table is a function
-- of the key; a thread has no values, or a value for each key.
pub mod Keys
pub mod Count
mod Examples
use pth.Base.{
  ℕ, zero, suc, Bool, true, false, not, Option, none, some, ◌==◌, ltb, if◌then◌else◌, Ptr, null,
  update,
}
use pth.Base.Int.{ℤ, pos, negsuc, ◌+ℤ◌, ◌-ℤ◌, ltb_ℤ, eqb_ℤ}

pub data Ret : Type 0 where
  yes_ret einval enoent enomem eagain : Ret

abbrev pub key_max : ℕ
key_max = 256

abbrev pub destructor_iterations : ℕ
destructor_iterations = 4

pub record KeyEntry : Type 0 where
  pub used : Bool
  pub destructor : Ptr

-- The fields of a thread that this file keeps.
pub record Values : Type 0 where
  pub data_value : Option (ℕ → Ptr)
  pub data_count : ℤ

pub record State : Type 0 where
  pub current : Ptr
  pub keytab : ℕ → KeyEntry
  pub thread : Ptr → Values

abbrev pub set_values : Ptr → Values → State → State
set_values t v s = record s { thread = update s.thread t v }

-- `key < 0 || key >= PTH_KEY_MAX`, and the index otherwise.
abbrev pub index : ℤ → Option ℕ
index (negsuc n) = none
index (pos n) = if ltb n key_max then some n else none

-- The loop of `pth_key_create` from `key` on, with the number of keys left as fuel; its result is
-- the key on return, too.
unfoldable pub create_loop : (left key : ℕ) → Ptr → State → Ret × (ℕ × State)
create_loop zero key func s = (eagain, (key, s))
create_loop (suc k) key func s = elim (s.keytab key).used [
  | true ↦ create_loop k (suc key) func s
  | false ↦ (
    yes_ret,
    (key, record s { keytab = update s.keytab key (record { used = true; destructor = func }) }),
  )
]

unfoldable pub create : (is_null : Bool) → Ptr → State → Ret × (ℕ × State)
unfolding create_loop
create is_null func s = if is_null then (einval, (0, s)) else create_loop key_max 0 func s

unfoldable pub delete : ℤ → State → Ret × State
delete key s = elim (index key) [
  | none ↦ (einval, s)
  | some k ↦
      if not (s.keytab k).used
      then (enoent, s)
      else (yes_ret, record s { keytab = update s.keytab k (record (s.keytab k) { used = false }) })
]

-- The write to a value, and the count.
unfoldable pub put : ℕ → Ptr → (ℕ → Ptr) → ℤ → Values
put k value f n = record {
  data_value = some (update f k value);
  data_count =
      if f k == null
      then (if not (value == null) then n +ℤ pos 1 else n)
      else (if value == null then n -ℤ pos 1 else n);
}

-- `room` tells whether `calloc` finds memory for the values.
unfoldable pub set_index : (room : Bool) → ℕ → Ptr → State → Ret × State
unfolding put
set_index room k value s =
    if not (s.keytab k).used then (enoent, s) else (elim (s.thread s.current).data_value [
      | none ↦
          if room
          then (
            yes_ret,
            set_values s.current (put k value (λ _. null) (s.thread s.current).data_count) s,
          )
          else (enomem, s)
      | some f ↦ (yes_ret, set_values s.current (put k value f (s.thread s.current).data_count) s)
    ])

unfoldable pub setdata : (room : Bool) → ℤ → Ptr → State → Ret × State
unfolding set_index
setdata room key value s = elim (index key) [
  | none ↦ (einval, s)
  | some k ↦ set_index room k value s
]

-- The value, and the error if there is one.
unfoldable pub getdata : ℤ → State → Ret × Ptr
getdata key s = elim (index key) [
  | none ↦ (einval, null)
  | some k ↦
      if not (s.keytab k).used then (enoent, null) else (elim (s.thread s.current).data_value [
        | none ↦ (yes_ret, null)
        | some f ↦ (yes_ret, f k)
      ])
]

module _ (t : Ptr) where
  abbrev pub count_of : State → ℤ
  count_of s = (s.thread t).data_count

  abbrev pub value_of : ℕ → State → Ptr
  value_of k s = elim (s.thread t).data_value [ none ↦ null | some f ↦ f k ]

  -- A value that goes to its destructor.
  unfoldable pub take_out : ℕ → State → State
  take_out k s =
      set_values t
        (record {
          data_value = elim (s.thread t).data_value [
            | none ↦ none
            | some f ↦ some (update f k null)
          ];
          data_count = count_of s -ℤ pos 1;
        })
        s

-- A destructor is code of the application: a function of its address, the value and the state.
module _ (call : Ptr → Ptr → State → State) (t : Ptr) where
  -- The body of the inner loop up to its break.
  unfoldable pub destroy_key : ℕ → State → State
  unfolding take_out
  destroy_key k s =
      if ltb_ℤ (pos 0) (count_of t s)
      then (if (s.keytab k).used
          then (if not (value_of t k s == null)
              then (if not ((s.keytab k).destructor == null)
                  then call (s.keytab k).destructor (value_of t k s) (take_out t k s)
                  else take_out t k s)
              else s)
          else s)
      else s

  unfoldable pub destroy_pass : (left key : ℕ) → State → State
  unfolding destroy_key
  destroy_pass zero key s = s
  destroy_pass (suc k) key s =
      let s' = destroy_key key s in
      let rest = destroy_pass k (suc key) s' in if eqb_ℤ (count_of t s') (pos 0) then s' else rest

  unfoldable pub destroy_passes : ℕ → State → State
  unfolding destroy_pass
  destroy_passes zero s = s
  destroy_passes (suc i) s =
      let s' = destroy_pass key_max 0 s in
      let rest = destroy_passes i s' in if eqb_ℤ (count_of t s') (pos 0) then s' else rest

  unfoldable pub destroydata : State → State
  unfolding destroy_passes
  destroydata s = if t == null then s else (elim (s.thread t).data_value [
    | none ↦ s
    | some f ↦
        let s' = destroy_passes destructor_iterations s in
        set_values t (record (s'.thread t) { data_value = none }) s'
  ])
