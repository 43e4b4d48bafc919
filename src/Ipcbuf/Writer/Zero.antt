-- ===== src/Ipcbuf/Writer/Zero.antt =====
-- src/ipcbuf.c: when `ipcbuf_zero_next_write` waits.
use mirror_psrdada_code.Prelude.{ℕ, zero, suc, ◌+◌, ◌≤◌, ◌<◌, ◌≡◌, false, dec_lt, arith}
use mirror_psrdada_code.Shared.{World}
use mirror_psrdada_code.Process.{ok, asleep}
use mirror_psrdada_code.Kernel.{Kernel, Lawful}
use mirror_psrdada_code.Ipcbuf.Writer.{have_cleared, zero_next_write, get_next_write}
use mirror_psrdada_code.Ipcbuf.Writer.Reclaim.{clear_of}
use mirror_psrdada_code.Ipcbuf.Writer.Next.{Steady, next_index, get_next_write-Obtained}

have_cleared-false :
    (n i : ℕ) (w : World) (j : ℕ)
    → i ≤ j
    → j < i + n
    → clear_of w j ≡ 0
    → have_cleared n i w ≡ false
unfolding have_cleared
have_cleared-false zero i w j lo hi none_left = absurd (omega arith)
have_cleared-false (suc n) i w j lo hi none_left = elim (dec_lt i j) [
  | yes lt ↦ ground (arith, have_cleared-false n (suc i) w j)
  | no ge ↦ ground arith
]

-- Before a block of the ring is used for the first time, its count is 0 and no reader has cleared
-- anything: `ipcbuf_get_next_write` would return it at once, and `ipcbuf_zero_next_write` waits.
zero_next_write-asleep :
    ⦃k : Kernel⦄ (law : Lawful k) (w : World) (j : ℕ)
    → Steady w.handle.state
    → w.sync.count (next_index w) ≡ 0
    → j < w.sync.n_readers
    → clear_of w j ≡ 0
    → ((get_next_write w).0 ≡ ok (next_index w)) × ((zero_next_write w).0 ≡ asleep)
unfolding zero_next_write
zero_next_write-asleep law w j steady unused below none_left = (
  (get_next_write-Obtained law w steady (omega arith) (λ i h. omega arith)).0,
  ground (arith, have_cleared-false w.sync.n_readers 0 w j),
)
