-- ===== src/High/Examples.antt =====
-- Tests of the reads and writes of src/pth_high.c.
use pth.Base.{
  ℕ, inl, ◌<◌, ◌≤◌, ◌≡◌, refl, true, false, some, List, [], ◌∷◌, arith, length, ◌↔◌, Bool,
  replicate,
}
use pth.Base.Int.{pos}
use pth.Util.{fd_valid}
use pth.High.{
  eintr, ebadf, einval, bytes, error, eagain, blocking, nonblocking, ready, not_ready, poll_fails,
  Waits, take, returns, fails, overflows, enomem,
}
use pth.High.Vectors.{Iov, flatten, advance, moved, whole, writev_faked, readv_faked, rest}
use pth.High.Write.{write_ev, writev_ev, ends}
use pth.High.Read.{read_ev, readv_ev}
use pth.High.Advance.{local, moved-drop}
use pth.High.Overflow.{writev_ev-overflows}
use pth.High.Whole.{write_ev-counted}
use pth.High.Complete.{write_ev-whole}
use pth.High.Equal.{writev-write}
use pth.High.Faked.{readv_faked-scatters}

abbrev any_fd : ℕ → Bool
any_fd x = true

any_fd_valid : fd_valid any_fd (pos 4) ≡ true
unfolding fd_valid
any_fd_valid = refl

abbrev no_extra : Waits
no_extra = record { extra = false; happened = [] }

abbrev three : List ℕ
three = 1 ∷ 2 ∷ 3 ∷ []

abbrev parts : Iov
parts = (1 ∷ []) ∷ (2 ∷ 3 ∷ []) ∷ []

in_two_writes :
    (write_ev any_fd
      (pos 4)
      blocking
      ready
      (bytes 1 ∷ error eintr ∷ bytes 2 ∷ [])
      no_extra
      three).ret
    ≡ returns 3
unfolding write_ev
in_two_writes = refl

still_nonblocking :
    (write_ev any_fd (pos 4) blocking (poll_fails ebadf) [] no_extra three).mode ≡ nonblocking
unfolding write_ev
still_nonblocking = refl

error_after_part :
    (write_ev any_fd (pos 4) blocking ready (bytes 1 ∷ error eagain ∷ []) no_extra three).ret
    ≡ returns 1
unfolding write_ev
error_after_part = refl

over_entries : advance 32 parts 2 whole ≡ some (rest ((3 ∷ []) ∷ []))
unfolding advance
over_entries = refl

waits_first : read_ev any_fd (pos 4) 8 blocking not_ready (bytes 5 ∷ []) no_extra ≡ returns 5
unfolding read_ev
waits_first = refl

too_many : readv_ev any_fd (pos 4) 1025 blocking ready (bytes 5 ∷ []) no_extra ≡ fails einval
unfolding readv_ev
too_many = refl

faked_bytes : writev_faked (0 ∷ 0 ∷ 0 ∷ []) parts ≡ some (2 ∷ 3 ∷ 0 ∷ [])
unfolding writev_faked
faked_bytes = refl

moved-drop_example : local parts (moved parts 2 whole) ≡ 3 ∷ []
moved-drop_example = moved-drop parts 2 whole

-- Without memory for the vector the descriptor stays in the other mode.
without_memory :
    writev_ev any_fd false (pos 4) blocking ready [] no_extra (replicate 600 three)
    ≡ ends (fails enomem) [] nonblocking
unfolding writev_ev fd_valid
without_memory = refl

writev_ev-overflows_example :
    ((writev_ev any_fd true (pos 4) blocking ready (bytes 2 ∷ []) no_extra (replicate 40 three)).ret
      ≡ overflows)
    ↔ ((32 < length (replicate 40 three)) × (length (replicate 40 three) ≤ 512))
writev_ev-overflows_example =
    writev_ev-overflows any_fd (pos 4) [] no_extra (replicate 40 three) 2 any_fd_valid (omega arith)
      (omega arith) (omega arith)

write_ev-counted_example :
    let r = write_ev any_fd (pos 4) blocking ready (bytes 1 ∷ error eagain ∷ []) no_extra three in
    (r.out ≡ take 1 three) × (r.mode ≡ blocking)
write_ev-counted_example =
    write_ev-counted any_fd (pos 4) blocking ready (bytes 1 ∷ error eagain ∷ []) no_extra three 1
      error_after_part

write_ev-whole_example :
    let r =
      write_ev any_fd
        (pos 4)
        blocking
        ready
        (bytes 1 ∷ error eintr ∷ bytes 2 ∷ [])
        no_extra
        three in
    (n : ℕ) × ((r.ret ≡ returns n) × (length three ≤ n) × (r.out ≡ three) × (r.mode ≡ blocking))
write_ev-whole_example =
    write_ev-whole any_fd (pos 4) ready (bytes 1 ∷ error eintr ∷ bytes 2 ∷ []) no_extra three
      any_fd_valid (λ e. cc) (λ e. cc) refl (omega arith) (omega arith) (omega arith)

writev-write_example :
    writev_ev any_fd true (pos 4) blocking not_ready (bytes 2 ∷ bytes 1 ∷ []) no_extra parts
    ≡ write_ev any_fd (pos 4) blocking not_ready (bytes 2 ∷ bytes 1 ∷ []) no_extra (flatten parts)
writev-write_example =
    writev-write any_fd (pos 4) blocking not_ready (bytes 2 ∷ bytes 1 ∷ []) no_extra parts
      (inl (omega arith)) (omega arith) (λ e. cc) (λ e. cc)

readv_faked-scatters_example :
    (flatten (readv_faked (bytes 2) three (1 ∷ 2 ∷ [])).0 ≡ take 2 three)
    × ((readv_faked (bytes 2) three (1 ∷ 2 ∷ [])).1 ≡ 2)
readv_faked-scatters_example = readv_faked-scatters 2 three (1 ∷ 2 ∷ []) (omega arith) (omega arith)
