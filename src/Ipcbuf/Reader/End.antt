-- ===== src/Ipcbuf/Reader/End.antt =====
-- src/ipcbuf.c: how a reader meets the end of a transfer, and goes on to the next.
use mirror_psrdada_code.Prelude.{ℕ, ◌+◌, ◌%◌, ◌<◌, ◌≡◌, refl, true, inc64, pos, some, update, arith}
use mirror_psrdada_code.Shared.{
  World, reader, reading, rstop, of_reader, ipcbuf_xfers, ipcbuf_eodack, ipcbuf_clear,
}
use mirror_psrdada_code.Process.{ok, fail}
use mirror_psrdada_code.Kernel.{Kernel, Lawful, no_flags, semvmx, assign}
use mirror_psrdada_code.Ipcbuf.EachReader.{semop_or_fail-fits}
use mirror_psrdada_code.Ipcbuf.Reader.{
  at_end, stop_reading, mark_cleared, get_next_read, get_next_read_work,
}
use mirror_psrdada_code.Ipcbuf.Reset.{reset}

-- the world after reader `i` gave back the last block of a transfer
abbrev ended : ℕ → World → World
ended i w = record w {
  handle = record w.handle { state = rstop; xfer = inc64 (w.sync.r_xfers i) % ipcbuf_xfers };
  sync = record w.sync {
    r_states = update w.sync.r_states i rstop;
    r_bufs = update w.sync.r_bufs i (inc64 (w.sync.r_bufs i));
    r_xfers = update w.sync.r_xfers i (inc64 (w.sync.r_xfers i));
  };
  sems =
      assign (assign w.sems (of_reader i ipcbuf_clear) (w.sems (of_reader i ipcbuf_clear) + 1))
        (of_reader i ipcbuf_eodack) (w.sems (of_reader i ipcbuf_eodack) + 1);
}

mark_cleared-ended :
    ⦃k : Kernel⦄ (law : Lawful k) (w : World) (i : ℕ)
    → w.handle.iread ≡ some i
    → w.handle.state ≡ reading
    → at_end w.sync w.handle.xfer i ≡ true
    → w.sems (of_reader i ipcbuf_clear) < semvmx
    → w.sems (of_reader i ipcbuf_eodack) < semvmx
    → mark_cleared w ≡ (ok tt, ended i w)
unfolding mark_cleared stop_reading
mark_cleared-ended law w i role st last room room' = ground (
  arith,
  semop_or_fail-fits law (of_reader i ipcbuf_clear) (pos 1) no_flags w,
  semop_or_fail-fits law (of_reader i ipcbuf_eodack) (pos 1) no_flags (record (ended i w) {
    sems = assign w.sems (of_reader i ipcbuf_clear) (w.sems (of_reader i ipcbuf_clear) + 1);
  }),
)

-- A reader that gives back the last block of a transfer acknowledges the end of the data. It gets no
-- more blocks until `ipcbuf_reset`, which needs no semaphore and makes it a reader that waits for
-- the start of the next transfer.
pub mark_cleared-end :
    ⦃k : Kernel⦄ (law : Lawful k) (w : World) (i : ℕ)
    → w.handle.iread ≡ some i
    → w.handle.state ≡ reading
    → at_end w.sync w.handle.xfer i ≡ true
    → w.sems (of_reader i ipcbuf_clear) < semvmx
    → w.sems (of_reader i ipcbuf_eodack) < semvmx
    → let w' = (mark_cleared w).1 in
      let w'' = (reset w').1 in
      ((mark_cleared w).0 ≡ ok tt)
      × (w'.sems (of_reader i ipcbuf_eodack) ≡ w.sems (of_reader i ipcbuf_eodack) + 1)
      × (w'.sems (of_reader i ipcbuf_clear) ≡ w.sems (of_reader i ipcbuf_clear) + 1)
      × ((get_next_read w').0 ≡ fail)
      × ((reset w').0 ≡ ok tt)
      × (w''.handle.state ≡ reader)
      × (w''.handle.xfer ≡ inc64 (w.sync.r_xfers i) % ipcbuf_xfers)
      × (w''.sync.r_xfers i ≡ inc64 (w.sync.r_xfers i))
unfolding reset get_next_read get_next_read_work
mark_cleared-end law w i role st last room room' =
    rw (mark_cleared-ended law w i role st last room room') (
      refl,
      ground arith,
      ground arith,
      refl,
      ground arith,
      ground arith,
      ground arith,
      ground arith,
    )
