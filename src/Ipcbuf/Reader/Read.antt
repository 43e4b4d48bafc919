-- ===== src/Ipcbuf/Reader/Read.antt =====
-- src/ipcbuf.c: what `ipcbuf_get_next_read` and `ipcbuf_mark_cleared` do for a designated reader.
use mirror_psrdada_code.Prelude.{
  ℕ, ◌+◌, ◌-◌, ◌%◌, ◌≤◌, ◌<◌, ◌≡◌, ◌⊎◌, refl, false, inc64, update, pos, negsuc, some, arith,
}
use mirror_psrdada_code.Shared.{
  World, Sems, reader, reading, of_reader, ipcbuf_xfers, ipcbuf_sodack, ipcbuf_full, ipcbuf_clear,
}
use mirror_psrdada_code.Process.{ok, asleep}
use mirror_psrdada_code.Kernel.{Kernel, Lawful, no_flags, semvmx, assign}
use mirror_psrdada_code.Ipcbuf.EachReader.{semop_or_fail-fits, semop_or_fail-waits, fits_of_ok}
use mirror_psrdada_code.Ipcbuf.Reader.{
  Block, at_end, bytes_of, start_reading, read_block, get_next_read_work, get_next_read,
  mark_cleared,
}

-- the semaphores after one FULL of reader `i` was taken
abbrev pub full_taken : ℕ → Sems → Sems
full_taken i v = assign v (of_reader i ipcbuf_full) (v (of_reader i ipcbuf_full) - 1)

-- the world after reader `i` acknowledged the start of a transfer
abbrev pub started : ℕ → World → World
started i w = record w {
  handle = record w.handle { state = reading; xfer = w.sync.r_xfers i % ipcbuf_xfers };
  sync = record w.sync {
    r_states = update w.sync.r_states i reading;
    r_bufs = update w.sync.r_bufs i (w.sync.s_buf (w.sync.r_xfers i % ipcbuf_xfers));
  };
  sems =
      assign (full_taken i w.sems) (of_reader i ipcbuf_sodack)
        (w.sems (of_reader i ipcbuf_sodack) + 1);
}

-- the world after reader `i` gave one block back inside a transfer
abbrev pub cleared : ℕ → World → World
cleared i w = record w {
  sync = record w.sync { r_bufs = update w.sync.r_bufs i (inc64 (w.sync.r_bufs i)) };
  sems = assign w.sems (of_reader i ipcbuf_clear) (w.sems (of_reader i ipcbuf_clear) + 1);
}

module _ ⦃k : Kernel⦄ (law : Lawful k) (w : World) (i : ℕ) (role : w.handle.iread ≡ some i) where
  -- A reader inside a transfer takes one FULL and gets the block at its own count.
  pub get_next_read-reading :
      w.handle.state ≡ reading
      → 1 ≤ w.sems (of_reader i ipcbuf_full)
      → get_next_read w ≡ (
        ok (record {
          index = w.sync.r_bufs i % w.sync.nbufs;
          offset = 0;
          bytes = bytes_of w.sync w.handle.xfer i 0;
        }),
        record w { sems = full_taken i w.sems },
      )
  unfolding get_next_read get_next_read_work read_block
  get_next_read-reading st h =
      ground (arith, semop_or_fail-fits law (of_reader i ipcbuf_full) (negsuc 0) no_flags w)

  -- No full block: the reader sleeps.
  pub get_next_read-asleep :
      (w.handle.state ≡ reading) ⊎ (w.handle.state ≡ reader)
      → w.sems (of_reader i ipcbuf_full) < 1
      → (get_next_read w).0 ≡ asleep
  unfolding get_next_read get_next_read_work read_block
  get_next_read-asleep st h =
      ground (arith, semop_or_fail-waits law (of_reader i ipcbuf_full) 0 no_flags w refl)

  -- The first call in a transfer goes to the transfer's first block and acknowledges its start.
  pub get_next_read-start :
      w.handle.state ≡ reader
      → 1 ≤ w.sems (of_reader i ipcbuf_full)
      → w.sems (of_reader i ipcbuf_sodack) < semvmx
      → let x = w.sync.r_xfers i % ipcbuf_xfers in
        get_next_read w ≡ (
          ok (record {
            index = w.sync.s_buf x % w.sync.nbufs;
            offset = w.sync.s_byte x;
            bytes = bytes_of (started i w).sync x i (w.sync.s_byte x);
          }),
          started i w,
        )
  unfolding get_next_read start_reading
  get_next_read-start st h room = ground (
    arith,
    semop_or_fail-fits law (of_reader i ipcbuf_full) (negsuc 0) no_flags w,
    semop_or_fail-fits law (of_reader i ipcbuf_sodack) (pos 1) no_flags
        (record (started i w) { sems = full_taken i w.sems }),
  )

  pub room_of_start :
      {b : Block}
      → w.handle.state ≡ reader
      → 1 ≤ w.sems (of_reader i ipcbuf_full)
      → (get_next_read w).0 ≡ ok b
      → w.sems (of_reader i ipcbuf_sodack) < semvmx
  unfolding get_next_read start_reading
  room_of_start st h e = ground (
    arith,
    semop_or_fail-fits law (of_reader i ipcbuf_full) (negsuc 0) no_flags w,
    fits_of_ok law (of_reader i ipcbuf_sodack) (pos 1) no_flags
        (record (started i w) { sems = full_taken i w.sems }),
  )

  pub mark_cleared-cleared :
      w.handle.state ≡ reading
      → at_end w.sync w.handle.xfer i ≡ false
      → w.sems (of_reader i ipcbuf_clear) < semvmx
      → mark_cleared w ≡ (ok tt, cleared i w)
  unfolding mark_cleared
  mark_cleared-cleared st ne room =
      ground (arith, semop_or_fail-fits law (of_reader i ipcbuf_clear) (pos 1) no_flags w)

  pub room_of_clear :
      w.handle.state ≡ reading
      → (mark_cleared w).0 ≡ ok tt
      → w.sems (of_reader i ipcbuf_clear) < semvmx
  unfolding mark_cleared
  room_of_clear st e = ground (arith, fits_of_ok law (of_reader i ipcbuf_clear) (pos 1) no_flags w)

module _ ⦃k : Kernel⦄ (w : World) where
  -- Only a reader inside a transfer can give a block back.
  pub reading_of_clear : (mark_cleared w).0 ≡ ok tt → w.handle.state ≡ reading
  unfolding mark_cleared
  reading_of_clear e = ground arith
