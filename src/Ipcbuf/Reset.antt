-- ===== src/Ipcbuf/Reset.antt =====
-- src/ipcbuf.c: `ipcbuf_reset` and `ipcbuf_hard_reset`.
pub mod Hard
pub mod Soft
use mirror_psrdada_code.Prelude.{ℕ, Bool, true, ◌&&◌, ltb, ◌==◌, if◌then◌else◌, pos, negsuc, update}
use mirror_psrdada_code.Shared.{
  Sync, World, reader, rstop, ◌is◌, is_writer, of_reader, ipcbuf_xfers, ipcbuf_sodack,
  ipcbuf_eodack, ipcbuf_full, ipcbuf_clear, Sem,
}
use mirror_psrdada_code.Process.{
  ok, M, pure, ◌>>=◌, ◌>>◌, get, put_handle, put_sync, guard, for_each,
}
use mirror_psrdada_code.Kernel.{Kernel, no_flags}
use mirror_psrdada_code.Ipcutil.{checked, semop_or_fail}
use mirror_psrdada_code.Ipcbuf.Writer.{reclaim}
use mirror_psrdada_code.Ipcbuf.Reader.{reader_index}
use mirror_psrdada_code.Ipcbuf.Create.{fill_array}

-- the counters of the writer, and the end-of-data flags
unfoldable pub reset_writer : Sync → Sync
unfolding fill_array
reset_writer s = record s {
  w_buf_curr = 0;
  w_buf_next = 0;
  w_xfer = 0;
  eod = fill_array ipcbuf_xfers true s.eod;
}

-- the counters of a reader
unfoldable pub reset_counters : ℕ → Sync → Sync
reset_counters i s = record s { r_bufs = update s.r_bufs i 0; r_xfers = update s.r_xfers i 0 }

module _ ⦃k : Kernel⦄ where
  -- one reader in `ipcbuf_reset`: its acknowledgements must all be back
  unfoldable pub reset_reader : ℕ → M (Unit {0})
  reset_reader i = do
    semop_or_fail (of_reader i ipcbuf_sodack) (negsuc 7) no_flags
    semop_or_fail (of_reader i ipcbuf_eodack) (negsuc 7) no_flags
    semop_or_fail (of_reader i ipcbuf_sodack) (pos 8) no_flags
    semop_or_fail (of_reader i ipcbuf_eodack) (pos 8) no_flags
    put_sync (reset_counters i)

  -- the part of `ipcbuf_reset` that is for the writer
  unfoldable pub reset_ring : M (Unit {0})
  reset_ring = do
    w ← get
    for_each w.sync.nbufs 0 (λ b. reclaim 256 b)
    for_each w.sync.n_readers 0 reset_reader
    put_sync reset_writer

  -- `ipcbuf_reset`
  unfoldable pub reset : M (Unit {0})
  reset = do
    w ← get
    (if w.handle.state is rstop
        then (do
          i ← reader_index w.handle.iread
          put_handle (λ h. record h { state = reader })
          put_sync (λ s. record s { r_states = update s.r_states i reader }))
        else (do
          guard (is_writer w.handle)
          (if w.sync.w_buf_curr == 0 && w.sync.w_buf_next == 0 then pure tt else reset_ring)))

  -- `if (semctl (…, SETVAL, n) < 0) return -1;`
  unfoldable pub setval_or_fail : Sem → ℕ → M (Unit {0})
  setval_or_fail s n w = let (r, v) = k.setval s n w.sems in checked r (record w { sems = v })

  -- one reader in `ipcbuf_hard_reset`
  unfoldable pub hard_reset_reader : ℕ → M (Unit {0})
  hard_reset_reader i = do
    put_sync (reset_counters i)
    setval_or_fail (of_reader i ipcbuf_full) 0
    setval_or_fail (of_reader i ipcbuf_clear) 0

  -- `ipcbuf_hard_reset`
  unfoldable pub hard_reset : M (Unit {0})
  hard_reset = do put_sync reset_writer; w ← get; for_each w.sync.n_readers 0 hard_reset_reader
