-- ===== src/High/Socket.antt =====
-- `pth_recvfrom_ev` and `pth_sendto_ev`, and the calls that lead to them. Their bodies are those of
-- `pth_read_ev` and `pth_write_ev`, with another call of the system.
use pth.Base.{ℕ, Bool, List}
use pth.Base.Int.{ℤ}
use pth.High.{Answer, Mode, Ret, Poll, Waits}
use pth.High.Read.{read_ev}
use pth.High.Write.{Written, write_ev}

unfoldable pub recvfrom_ev :
    (fcntl : ℕ → Bool) → ℤ → (nbytes : ℕ) → Mode → Poll → List Answer → Waits → Ret
unfolding read_ev
recvfrom_ev fcntl fd nbytes mode p as1 w = read_ev fcntl fd nbytes mode p as1 w

unfoldable pub sendto_ev :
    (fcntl : ℕ → Bool) → ℤ → Mode → Poll → List Answer → Waits → (buf : List ℕ) → Written
unfolding write_ev
sendto_ev fcntl fd mode p as1 w buf = write_ev fcntl fd mode p as1 w buf
