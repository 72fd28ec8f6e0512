-- ===== src/Data/Keys.antt =====
-- The key table: which key a new key is, and what a key's value is.
use pth.Base.{
  ℕ, zero, suc, ◌+◌, ◌≤◌, ◌<◌, ◌≡◌, refl, ◌∙◌, Bool, true, false, some, arith, ◌==◌, if◌then◌else◌,
  Ptr, update, lt→ltb, Bool-cases, Option-cases, inl, inr, subst, sym, ap, ◌&&◌,
}
use pth.Base.Int.{pos}
use pth.Data.{
  State, yes_ret, eagain, key_max, create_loop, create, delete, setdata, set_index, getdata, put,
  value_of, index,
}

-- All keys from `a` up to but not including `b` are used.
abbrev pub AllUsed : ℕ → ℕ → State → Type 0
AllUsed a b s = (j : ℕ) → a ≤ j → j < b → (s.keytab j).used ≡ true

abbrev pub take_key : ℕ → Ptr → State → State
take_key k func s = record s {
  keytab = update s.keytab k (record { used = true; destructor = func });
}

create_loop-first :
    (left key k : ℕ) (func : Ptr) (s : State)
    → key ≤ k
    → k < key + left
    → AllUsed key k s
    → (s.keytab k).used ≡ false
    → create_loop left key func s ≡ (yes_ret, (k, take_key k func s))
unfolding create_loop
create_loop-first zero key k func s lo hi all free = absurd (omega arith)
create_loop-first (suc left) key k func s lo hi all free = elim (Bool-cases (key == k)) [
  | inl e ↦
      let p : k ≡ key = ground arith in
      subst (λ j. create_loop (suc left) key func s ≡ (yes_ret, (j, take_key j func s))) (sym p)
        (rw (create_loop, subst (λ j. (s.keytab j).used ≡ false) p free) refl)
  | inr e ↦
      rw (create_loop, all key (omega arith) (ground arith))
        (create_loop-first left (suc key) k func s (ground arith) (omega arith)
          (λ j jl jh. all j (omega arith) jh) free)
]

create_loop-full :
    (left key : ℕ) (func : Ptr) (s : State)
    → AllUsed key (key + left) s
    → create_loop left key func s ≡ (eagain, (key + left, s))
unfolding create_loop
create_loop-full zero key func s all = ground arith
create_loop-full (suc left) key func s all =
    rw (create_loop, all key (omega arith) (omega arith))
      (create_loop-full left (suc key) func s (λ j jl jh. all j (omega arith) (omega arith))
        ∙ ap (λ n. (eagain, (n, s))) (omega arith))

module _ (func : Ptr) (s : State) where
  -- If some key is unused, pth_key_create succeeds and gives the smallest unused one, with the
  -- destructor that is given.
  pub create-first :
      (k : ℕ)
      → k < key_max
      → AllUsed 0 k s
      → (s.keytab k).used ≡ false
      → create false func s ≡ (yes_ret, (k, take_key k func s))
  unfolding create
  create-first k small all free =
      create_loop-first key_max 0 k func s (omega arith) (omega arith) all free

  -- If all keys are used, there is none.
  create-full : AllUsed 0 key_max s → create false func s ≡ (eagain, (key_max, s))
  unfolding create
  create-full all = create_loop-full key_max 0 func s all

module _ (k : ℕ) (s : State) (small : k < key_max) (used : (s.keytab k).used ≡ true) where
  index_lem : index (pos k) ≡ some k
  index_lem = rw (lt→ltb k key_max small) refl

  abbrev dropped : State
  dropped = record s { keytab = update s.keytab k (record (s.keytab k) { used = false }) }

  delete_lem : delete (pos k) s ≡ (yes_ret, dropped)
  unfolding delete
  delete_lem = rw (delete, lt→ltb k key_max small, used) refl

  getdata_lem : getdata (pos k) s ≡ (yes_ret, value_of s.current k s)
  unfolding getdata
  getdata_lem = elim (Option-cases (s.thread s.current).data_value) [
    | inl e ↦ ground arith
    | inr (f, e) ↦ ground arith
  ]

  -- After a successful pth_key_setdata of a used key in range, the value is that of the key in the
  -- current thread, and no other value of any thread has changed.
  pub setdata-getdata :
      (room : Bool) (value : Ptr)
      → (setdata room (pos k) value s).0 ≡ yes_ret
      → (j : ℕ) (t : Ptr)
      → value_of t j (setdata room (pos k) value s).1
        ≡ (if (s.current == t) && (k == j) then value else value_of t j s)
  unfolding setdata set_index put
  setdata-getdata room value ok j t = elim (Option-cases (s.thread s.current).data_value) [
    | inl e ↦ ground arith
    | inr (f, e) ↦ ground arith
  ]

-- If all smaller keys are used, a key that is deleted and created anew is the same key, and
-- pth_key_getdata gives for it the value that was set before.
pub delete-create-stale :
    (k : ℕ) (func : Ptr) (s : State)
    → k < key_max
    → AllUsed 0 k s
    → (s.keytab k).used ≡ true
    → ((create false func (delete (pos k) s).1).0 ≡ yes_ret)
      × ((create false func (delete (pos k) s).1).1.0 ≡ k)
      × (getdata (pos k) (create false func (delete (pos k) s).1).1.1 ≡ getdata (pos k) s)
delete-create-stale k func s small all used =
    let d = dropped k s small used in
    let e = create-first func d k small (λ j lo hi. ground (arith, all j lo hi)) (ground arith) in
    let i : ((take_key k func d).keytab k).used ≡ true = ground arith in
    rw (delete_lem k s small used, e)
      (refl, refl, getdata_lem k (take_key k func d) small i ∙ sym (getdata_lem k s small used))
