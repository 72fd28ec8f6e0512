-- ===== src/Data/Count.antt =====
-- The count that each thread keeps of its values.
use pth.Base.{
  ℕ, zero, suc, ◌+◌, ◌<◌, ◌≡◌, refl, Bool, true, false, Option, none, some, List, [], ◌∷◌, arith,
  ◌==◌, if◌then◌else◌, ltb, Ptr, null, update, not, if_intro, subst, sym, Option-cases, inl, inr,
  Bool-cases,
}
use pth.Base.Int.{ℤ, pos, negsuc, int_laws}
use pth.Data.{
  State, Values, Ret, key_max, index, create, create_loop, delete, setdata, put, set_values,
  set_index, einval, enomem, yes_ret,
}

-- How many of the first `n` values are not null.
unfoldable pub filled : ℕ → (ℕ → Ptr) → ℕ
filled zero f = 0
filled (suc n) f = if f n == null then filled n f else suc (filled n f)

filled-update :
    (n k : ℕ) (v : Ptr) (f : ℕ → Ptr)
    → filled n (update f k v) + (if ltb k n then (if f k == null then 0 else 1) else 0)
      ≡ filled n f + (if ltb k n then (if v == null then 0 else 1) else 0)
unfolding filled
filled-update zero k v f = ground arith
filled-update (suc n) k v f = ground (arith, filled-update n k v f)

filled-none : (n : ℕ) → filled n (λ _. null) ≡ 0
unfolding filled
filled-none zero = refl
filled-none (suc n) = filled-none n

-- A thread without values counts none, and a thread with values counts those that are not null.
abbrev pub IsCounted : Values → Type 0
IsCounted v = elim v.data_value [
  | none ↦ v.data_count ≡ pos 0
  | some f ↦ v.data_count ≡ pos (filled key_max f)
]

put-count :
    (max k : ℕ) (v : Ptr) (f : ℕ → Ptr) (n : ℤ)
    → k < max
    → n ≡ pos (filled max f)
    → (put k v f n).data_count ≡ pos (filled max (update f k v))
unfolding put
put-count max k v f n small h = grind (int_laws, filled-update max k v f)

-- Every thread's count is right.
abbrev pub AllCounted : State → Type 0
AllCounted s = (t : Ptr) → IsCounted (s.thread t)

index-lt : (key : ℤ) (k : ℕ) → index key ≡ some k → k < key_max
index-lt (pos n) k e = ground arith
index-lt (negsuc n) k e = ground arith

module _ (s : State) (h : AllCounted s) (k : ℕ) (value : Ptr) (small : k < key_max) (t : Ptr) where
  set-IsCounted :
      (f : ℕ → Ptr)
      → (s.thread s.current).data_count ≡ pos (filled key_max f)
      → IsCounted
          ((set_values s.current (put k value f (s.thread s.current).data_count) s).thread t)
  unfolding put
  set-IsCounted f e =
      if_intro IsCounted (s.current == t) (λ i. put-count key_max k value f _ small e) (λ i. h t)

  count-none :
      (s.thread s.current).data_value ≡ none
      → (s.thread s.current).data_count ≡ pos (filled key_max (λ _. null))
  count-none e = rw (filled-none key_max) (rw e at (h s.current))

  count-some :
      (f : ℕ → Ptr)
      → (s.thread s.current).data_value ≡ some f
      → (s.thread s.current).data_count ≡ pos (filled key_max f)
  count-some f e = rw e at (h s.current)

value_cases {ℓ} :
    (s : State) (P : Option (ℕ → Ptr) → Type ℓ)
    → ((s.thread s.current).data_value ≡ none → P none)
    → ((f : ℕ → Ptr) → (s.thread s.current).data_value ≡ some f → P (some f))
    → P (s.thread s.current).data_value
value_cases s P on_none on_some = elim (Option-cases (s.thread s.current).data_value) [
  | inl e ↦ subst P (sym e) (on_none e)
  | inr (f, e) ↦ subst P (sym e) (on_some f e)
]

setdata-einval :
    (room : Bool) (key : ℤ) (value : Ptr) (s : State)
    → index key ≡ none
    → setdata room key value s ≡ (einval, s)
unfolding setdata
setdata-einval room key value s e = rw (setdata, e) refl

setdata-index :
    (room : Bool) (key : ℤ) (value : Ptr) (s : State) (k : ℕ)
    → index key ≡ some k
    → setdata room key value s ≡ set_index room k value s
unfolding setdata
setdata-index room key value s k e = rw (setdata, e) refl

set_index-IsCounted :
    (room : Bool) (k : ℕ) (value : Ptr) (s : State)
    → AllCounted s
    → k < key_max
    → (t : Ptr) → IsCounted ((set_index room k value s).1.thread t)
unfolding set_index
set_index-IsCounted room k value s h small t =
    let P = λ (r : Ret × State). IsCounted (r.1.thread t) in
    if_intro P (not (s.keytab k).used) (λ i. h t)
      (λ i.
        value_cases s
          (λ v. P (elim v [
            | none ↦
                if room
                then (
                  yes_ret,
                  set_values s.current (put k value (λ _. null) (s.thread s.current).data_count) s,
                )
                else (enomem, s)
            | some f ↦
                (yes_ret, set_values s.current (put k value f (s.thread s.current).data_count) s)
          ]))
          (λ e.
            if_intro P room
              (λ i.
                set-IsCounted s h k value small t (λ _. null) (count-none s h k value small t e))
              (λ i. h t))
          (λ f e. set-IsCounted s h k value small t f (count-some s h k value small t f e)))

setdata-AllCounted :
    (room : Bool) (key : ℤ) (value : Ptr) (s : State)
    → AllCounted s
    → AllCounted (setdata room key value s).1
unfolding setdata
setdata-AllCounted room key value s h t = elim (Option-cases (index key)) [
  | inl e ↦
      subst (λ (r : Ret × State). IsCounted (r.1.thread t))
        (sym (setdata-einval room key value s e)) (h t)
  | inr (k, e) ↦
      subst (λ (r : Ret × State). IsCounted (r.1.thread t))
        (sym (setdata-index room key value s k e))
        (set_index-IsCounted room k value s h (index-lt key k e) t)
]

-- The calls, and the scheduler's choice of another thread.
pub data Op : Type 0 where
  creates : (is_null : Bool) → Ptr → Op
  deletes : ℤ → Op
  sets : (room : Bool) → ℤ → Ptr → Op
  switches : Ptr → Op

abbrev pub run : List Op → State → State
run [] s = s
run (creates is_null func ∷ ops) s = run ops (create is_null func s).1.1
run (deletes key ∷ ops) s = run ops (delete key s).1
run (sets room key value ∷ ops) s = run ops (setdata room key value s).1
run (switches t ∷ ops) s = run ops (record s { current = t })

create_loop-thread :
    (left key : ℕ) (func : Ptr) (s : State) → (create_loop left key func s).1.1.thread ≡ s.thread
unfolding create_loop
create_loop-thread zero key func s = refl
create_loop-thread (suc left) key func s = elim (Bool-cases (s.keytab key).used) [
  | inl e ↦ rw (create_loop, e) (create_loop-thread left (suc key) func s)
  | inr e ↦ rw (create_loop, e) refl
]

create-thread : (b : Bool) (func : Ptr) (s : State) → (create b func s).1.1.thread ≡ s.thread
unfolding create
create-thread true func s = refl
create-thread false func s = create_loop-thread key_max 0 func s

delete-thread : (key : ℤ) (s : State) → (delete key s).1.thread ≡ s.thread
unfolding delete
delete-thread key s = elim (Option-cases (index key)) [
  | inl e ↦ rw (delete, e) refl
  | inr (k, e) ↦
      rw (delete, e)
        (if_intro (λ (r : Ret × State). r.1.thread ≡ s.thread) (not (s.keytab k).used) (λ i. refl)
          (λ i. refl))
]

-- If data_count of every thread is the number of its values that are not null, it stays so
-- whatever calls of pth_key_create, pth_key_delete and pth_key_setdata are made and whatever
-- threads make them.
pub run-AllCounted : (ops : List Op) (s : State) → AllCounted s → AllCounted (run ops s)
run-AllCounted [] s h = h
run-AllCounted (creates b func ∷ ops) s h =
    run-AllCounted ops _ (λ t. rw (create-thread b func s) (h t))
run-AllCounted (deletes key ∷ ops) s h = run-AllCounted ops _ (λ t. rw (delete-thread key s) (h t))
run-AllCounted (sets room key value ∷ ops) s h =
    run-AllCounted ops _ (setdata-AllCounted room key value s h)
run-AllCounted (switches t ∷ ops) s h = run-AllCounted ops _ h
