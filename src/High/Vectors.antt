-- ===== src/High/Vectors.antt =====
-- The vectors of pth_high.c: how many bytes they have, the move past bytes that are written, and the
-- faked calls. An entry of a vector is the list of the bytes that it points to.
use pth.Base.{
  ℕ, ◌+◌, ◌-◌, Bool, true, false, not, ◌&&◌, Option, none, some, List, [], ◌∷◌, ◌++◌, ◌==◌, ltb,
  if◌then◌else◌, length,
}
use pth.High.{Answer, bytes, error, take, drop}

abbrev pub Iov : Type 0
Iov = List (List ℕ)

abbrev pub flatten : Iov → List ℕ
flatten [] = []
flatten (x ∷ xs) = x ++ flatten xs

unfoldable pub iov_bytes : Iov → ℕ
iov_bytes [] = 0
iov_bytes (x ∷ xs) = if length x == 0 then iov_bytes xs else length x + iov_bytes xs

-- `*liov` with `*liovcnt`: not yet set, the caller's vector, or what is left of the copy of it.
pub data Local : Type 0 where
  unset : Local
  whole : Local
  rest : Iov → Local

-- The loop of `pth_writev_iov_advance`.
unfoldable pub advance_loop : ℕ → Iov → Iov
advance_loop n [] = []
advance_loop n (x ∷ xs) =
    if n == 0
    then x ∷ xs
    else (if ltb n (length x) then drop n x ∷ xs else advance_loop (n - length x) xs)

-- The copy of the caller's vector is made at the first move.
unfoldable pub copied : (riov : Iov) → Local → Iov
copied riov unset = riov
copied riov whole = riov
copied riov (rest xs) = xs

abbrev pub started : Local → Local
started unset = whole
started l = l

-- The move itself.
unfoldable pub moved : (riov : Iov) → ℕ → Local → Local
unfolding advance_loop copied
moved riov n l = if n == 0 then started l else rest (advance_loop n (copied riov (started l)))

-- Whether the caller's vector is still in use, so that a move has to copy it.
abbrev pub is_callers : Local → Bool
is_callers (rest xs) = false
is_callers l = true

-- `room` is the number of entries of the vector that is copied to; `none` if the copy writes beyond it.
unfoldable pub advance : (room : ℕ) → (riov : Iov) → ℕ → Local → Option Local
unfolding moved
advance room riov n l =
    if not (n == 0) && (is_callers l && ltb room (length riov)) then none else some (moved riov n l)

-- What `*liov` points to.
abbrev pub current : (riov : Iov) → Local → Iov
current riov unset = []
current riov whole = riov
current riov (rest xs) = xs

-- The size test of both faked calls: the total, or nothing if an entry or all of them are empty.
unfoldable pub total : Iov → Option ℕ
total [] = some 0
total (x ∷ xs) =
    if length x == 0 then none else (elim (total xs) [ none ↦ none | some n ↦ some (length x + n) ])

abbrev pub checked : Iov → Option ℕ
checked iov = elim (total iov) [ none ↦ none | some n ↦ if n == 0 then none else some n ]

abbrev pub min : ℕ → ℕ → ℕ
min a b = if ltb b a then b else a

-- `memcpy` to the start of the buffer.
abbrev pub memcpy : List ℕ → (src : List ℕ) → ℕ → List ℕ
memcpy buffer src n = take n src ++ drop n buffer

-- The loop that collects the entries; `cp` stays where it is.
unfoldable pub gather : (to_copy : ℕ) → (buffer : List ℕ) → Iov → List ℕ
gather to_copy buffer [] = buffer
gather to_copy buffer (x ∷ xs) =
    let n = min (length x) to_copy in
    elim (to_copy - n == 0) [
      | true ↦ memcpy buffer x n
      | false ↦ gather (to_copy - n) (memcpy buffer x n) xs
    ]

-- The bytes that `pth_writev_faked` hands to `write`, `fresh` being the buffer as it is allocated.
unfoldable pub writev_faked : (fresh : List ℕ) → Iov → Option (List ℕ)
unfolding total gather
writev_faked fresh iov = elim (checked iov) [ none ↦ none | some n ↦ some (gather n fresh iov) ]

-- The loop that scatters `bytes` bytes of the buffer: what is written to the entries from the first
-- on, and how far the pointer to the buffer has moved.
unfoldable pub scatter : ℕ → (buffer : List ℕ) → (sizes : List ℕ) → Iov × ℕ
scatter n buffer [] = ([], 0)
scatter n buffer (size ∷ sizes) =
    let c = min size n in
    elim (n - c == 0) [
      | true ↦ (take c buffer ∷ [], c)
      | false ↦ let r = scatter (n - c) (drop c buffer) sizes in (take c buffer ∷ r.0, c + r.1)
    ]

-- The result of `read` as a `size_t`.
abbrev pub size_of : Answer → ℕ
size_of (bytes n) = n
size_of (error e) = 18446744073709551615

-- What `pth_readv_faked` writes to the entries, whose sizes have passed the test, and the offset in
-- the buffer of the pointer that it frees.
unfoldable pub readv_faked : Answer → (buffer : List ℕ) → (sizes : List ℕ) → Iov × ℕ
unfolding scatter
readv_faked a buffer sizes = if ltb 0 (size_of a) then scatter (size_of a) buffer sizes else ([], 0)
