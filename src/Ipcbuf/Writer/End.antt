-- ===== src/Ipcbuf/Writer/End.antt =====
-- src/ipcbuf.c: how `ipcbuf_mark_filled` ends a transfer.
use mirror_psrdada_code.Prelude.{
  ℕ, ◌+◌, ◌%◌, ◌≤◌, ◌<◌, ◌≡◌, ◌⊎◌, refl, true, inc64, update, pos, negsuc, arith,
}
use mirror_psrdada_code.Shared.{
  World, writer, writing, wchange, of_reader, ipcbuf_xfers, ipcbuf_eodack, ipcbuf_full,
}
use mirror_psrdada_code.Process.{ok}
use mirror_psrdada_code.Kernel.{Kernel, Lawful, no_flags, semvmx}
use mirror_psrdada_code.Ipcbuf.Writer.{publish, end_xfer, fill, mark_filled}
use mirror_psrdada_code.Ipcbuf.Writer.Fill.{full_of, publish-published}
use mirror_psrdada_code.Ipcbuf.EachReader.{shift_each, shift_each-reader, for_each-fits}

abbrev pub eodack_of : World → ℕ → ℕ
eodack_of w j = w.sems (of_reader j ipcbuf_eodack)

-- the world after the end of the transfer was stored, before the last block is published
abbrev pub closed : ℕ → World → World
closed nbytes w = record w {
  sync = record w.sync {
    e_buf = update w.sync.e_buf w.handle.xfer w.sync.w_buf_curr;
    e_byte = update w.sync.e_byte w.handle.xfer nbytes;
    eod = update w.sync.eod w.handle.xfer true;
    w_xfer = inc64 w.sync.w_xfer;
    w_state = writer;
  };
  handle = record w.handle { xfer = inc64 w.sync.w_xfer % ipcbuf_xfers; state = writer };
  sems = shift_each (negsuc 0) ipcbuf_eodack w.sync.n_readers 0 w.sems;
}

module _ ⦃k : Kernel⦄ (law : Lawful k) (nbytes : ℕ) (w : World) where
  end_xfer-closed :
      0 < nbytes
      → ((j : ℕ) → j < w.sync.n_readers → 1 ≤ eodack_of w j)
      → end_xfer nbytes w ≡ (ok tt, closed nbytes w)
  unfolding end_xfer
  end_xfer-closed some_bytes acks =
      rw
        (for_each-fits law (negsuc 0) ipcbuf_eodack no_flags w.sync.n_readers 0 w
          (λ j lo hi. ground (arith, acks j)))
        (ground arith)

  mark_filled-closed :
      (w.handle.state ≡ wchange) ⊎ ((w.handle.state ≡ writing) × (nbytes < w.sync.bufsz))
      → end_xfer nbytes w ≡ (ok tt, closed nbytes w)
      → mark_filled nbytes w ≡ publish (closed nbytes w)
  unfolding mark_filled fill
  mark_filled-closed ending e = ground arith

  -- A writer in the state WCHANGE, or one in the state WRITING with a block that is not full, ends the
  -- transfer with a block of which one byte at least is valid: when every reader has acknowledged an
  -- end before (EODACK) and no FULL is at its limit, the call stores the last block, its number of
  -- valid bytes and the end-of-data flag in the slot of the transfer, goes on to the slot of the next
  -- transfer, publishes the block to every reader `j` and leaves the writer in the state WRITER.
  pub mark_filled-end :
      (j : ℕ)
      → (w.handle.state ≡ wchange) ⊎ ((w.handle.state ≡ writing) × (nbytes < w.sync.bufsz))
      → 0 < nbytes
      → ((i : ℕ) → i < w.sync.n_readers → (1 ≤ eodack_of w i) × (full_of w i < semvmx))
      → j < w.sync.n_readers
      → let w' = (mark_filled nbytes w).1 in
        let x = w.handle.xfer in
        ((mark_filled nbytes w).0 ≡ ok tt)
        × ((w'.sync.eod x ≡ true)
            × (w'.sync.e_buf x ≡ w.sync.w_buf_curr)
            × (w'.sync.e_byte x ≡ nbytes))
        × (w'.sync.w_xfer ≡ inc64 w.sync.w_xfer)
        × (w'.sync.w_buf_curr ≡ inc64 w.sync.w_buf_curr)
        × ((w'.handle.state ≡ writer) × (w'.handle.xfer ≡ inc64 w.sync.w_xfer % ipcbuf_xfers))
        × (full_of w' j ≡ full_of w j + 1)
        × (eodack_of w' j + 1 ≡ eodack_of w j)
  mark_filled-end j ending some_bytes ready below =
      let ended = shift_each-reader (negsuc 0) ipcbuf_eodack w.sync.n_readers 0 w.sems in
      let raised = λ (num : ℕ).
        shift_each-reader (pos 1) ipcbuf_full w.sync.n_readers 0 (closed nbytes w).sems j num in
      rw
        (
          mark_filled-closed ending (end_xfer-closed some_bytes (λ i h. (ready i h).0)),
          publish-published law (closed nbytes w)
              (λ i h. ground (arith, ready i h, ended i ipcbuf_full)),
        )
        (
          refl,
          (ground arith, ground arith, ground arith),
          refl,
          refl,
          (refl, refl),
          ground (arith, raised ipcbuf_full, ended j ipcbuf_full),
          ground (arith, raised ipcbuf_eodack, ended j ipcbuf_eodack, ready j below),
        )
