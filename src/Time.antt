-- ===== src/Time.antt =====
-- src/pth_time.c: time values. A `long` is an integer without bounds here; the `int` that
-- `pth_time_cmp` returns is cut to 32 bits.
pub mod Laws
mod Examples
use pth.Base.{ℕ, suc, ◌+◌, ◌-◌, ◌%◌, Bool, true, false, ◌&&◌, ltb, if◌then◌else◌}
use pth.Base.Int.{ℤ, pos, negsuc, ◌+ℤ◌, ◌-ℤ◌, ◌≤ℤ◌, ◌<ℤ◌, ltb_ℤ, eqb_ℤ, sub_ℕ}

pub record Time : Type 0 where
  pub tv_sec : ℤ
  pub tv_usec : ℤ

abbrev pub time : ℤ → ℤ → Time
time sec usec = record { tv_sec = sec; tv_usec = usec }

abbrev pub million : ℕ
million = 1000000

-- A `long` cut to an `int`.
abbrev pub signed : ℕ → ℤ
signed r = if ltb r 2147483648 then pos r else sub_ℕ r 4294967296

unfoldable pub to_int : ℤ → ℤ
to_int (pos n) = signed (n % 4294967296)
to_int (negsuc n) = signed ((4294967295 - n % 4294967296) % 4294967296)

unfoldable pub cmp : Time → Time → ℤ
unfolding to_int
cmp t1 t2 =
    let rc = to_int (t1.tv_sec -ℤ t2.tv_sec) in
    if eqb_ℤ rc (pos 0) then to_int (t1.tv_usec -ℤ t2.tv_usec) else rc

unfoldable pub add : Time → Time → Time
add t1 t2 =
    let sec = t1.tv_sec +ℤ t2.tv_sec in
    let usec = t1.tv_usec +ℤ t2.tv_usec in
    if ltb_ℤ (pos million) usec then time (sec +ℤ pos 1) (usec -ℤ pos million) else time sec usec

unfoldable pub sub : Time → Time → Time
sub t1 t2 =
    let sec = t1.tv_sec -ℤ t2.tv_sec in
    let usec = t1.tv_usec -ℤ t2.tv_usec in
    if ltb_ℤ usec (pos 0) then time (sec -ℤ pos 1) (usec +ℤ pos million) else time sec usec

-- `now` is the time of the system.
unfoldable pub timeout : (now : Time) → ℤ → ℤ → Time
unfolding add
timeout now sec usec = add now (time sec usec)

unfoldable pub is_pos : Time → Bool
is_pos t = ltb_ℤ (pos 0) t.tv_sec && ltb_ℤ (pos 0) t.tv_usec

-- The microseconds are below a million.
pub record IsNormal (t : Time) : Type 0 where
  pub nonneg : pos 0 ≤ℤ t.tv_usec
  pub small : t.tv_usec <ℤ pos million
