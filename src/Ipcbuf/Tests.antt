-- ===== src/Ipcbuf/Tests.antt =====
-- The theorems about src/ipcbuf.c at concrete rings of three blocks of four bytes.
use mirror_psrdada_code.Prelude.{
  ℕ, ◌+◌, ◌-◌, ◌^◌, ◌≤◌, ◌<◌, ◌≡◌, inl, refl, true, false, update, short_of, dec_lt, arith,
}
use mirror_psrdada_code.Shared.{
  Sems, Sync, World, viewer, writer, writing, wchange, discon, reader, reading, viewing, of_reader,
  write_sem, read_sem, ipcbuf_full, ipcbuf_clear, ipcbuf_eodack, ipcbuf_reader_conn, is_writer,
}
use mirror_psrdada_code.Process.{ok, fail, asleep, for_each}
use mirror_psrdada_code.Kernel.{assign}
use mirror_psrdada_code.Machine.{
  test_kernel, test_kernel-Lawful, fresh_sync, fresh_sems, writer_handle, writer_world,
  reader_world,
}
use mirror_psrdada_code.Ipcbuf.Writer.{
  enable_sod, start_xfer, may_enable_sod, get_sod_minbuf, count_from, reclaim, sod_on_wchange,
  get_next_write, mark_filled, fill, end_xfer, publish, zero_next_write,
}
use mirror_psrdada_code.Ipcbuf.Writer.Next.{
  Obtained, get_next_write-Obtained, get_next_write-asleep,
}
use mirror_psrdada_code.Ipcbuf.Writer.End.{mark_filled-end}
use mirror_psrdada_code.Ipcbuf.Lock.{
  xfers_pos, lock_write, unlock_write, lock_read, claim, become_reader,
}
use mirror_psrdada_code.Ipcbuf.Lock.Exclusive.{lock_write-exclusive}
use mirror_psrdada_code.Ipcbuf.Lock.Oldest.{lock_read-oldest}
use mirror_psrdada_code.Ipcbuf.Reader.{
  get_next_read, get_next_read_work, read_block, view_block, start_viewing, await_block,
  start_reading, mark_cleared, stop_reading, get_next_readable,
}
use mirror_psrdada_code.Ipcbuf.Reader.End.{mark_cleared-end}
use mirror_psrdada_code.Ipcbuf.Reset.{
  reset, reset_writer, reset_counters, hard_reset, hard_reset_reader, setval_or_fail,
}
use mirror_psrdada_code.Ipcbuf.Query.{
  value_iread, greatest, get_reader_conn_iread, last_conn, get_write_index, tell,
}

-- what the tests compute with
calls : ℕ
unfolding enable_sod may_enable_sod get_sod_minbuf for_each get_next_write sod_on_wchange reclaim
    start_xfer count_from mark_filled fill end_xfer publish get_next_read get_next_read_work
    read_block view_block start_viewing await_block start_reading mark_cleared stop_reading short_of
    dec_lt lock_write unlock_write lock_read claim become_reader xfers_pos reset hard_reset
    hard_reset_reader setval_or_fail reset_writer reset_counters value_iread greatest
    get_reader_conn_iread last_conn get_write_index tell get_next_readable zero_next_write
calls = 0

-- three blocks are filled, none is taken back
abbrev full_sync : Sync
full_sync = record fresh_sync { w_buf_next = 3; w_buf_curr = 3; count = λ b. 1; w_state = writing }

-- both readers have cleared one block
abbrev one_clear : Sems
one_clear = assign (assign fresh_sems (of_reader 0 3) 1) (of_reader 1 3) 1

abbrev full_world : World
full_world = writer_world writing full_sync one_clear

one_clear-le : (j : ℕ) → j < 2 → 1 ≤ one_clear (of_reader j 3)
one_clear-le j below = ground arith

get_next_write-Obtained_example :
    ((get_next_write full_world).0 ≡ ok 0) × Obtained full_world (get_next_write full_world).1
get_next_write-Obtained_example =
    get_next_write-Obtained test_kernel-Lawful full_world tt (omega arith) one_clear-le

-- reader 1 has cleared no block
abbrev late_world : World
late_world = writer_world writing full_sync (assign fresh_sems (of_reader 0 3) 1)

get_next_write-asleep_example : (get_next_write late_world).0 ≡ asleep
get_next_write-asleep_example =
    get_next_write-asleep test_kernel-Lawful late_world tt 1 (omega arith) (omega arith)
      (omega arith)

-- two blocks were written before the transfer starts at block 1, byte 2
abbrev before_world : World
before_world =
    writer_world writer (record fresh_sync { w_buf_next = 2; w_buf_curr = 2; w_state = writer })
      fresh_sems

-- a transfer is asked for at block 2, which is open and not filled
abbrev ahead_world : World
ahead_world =
    writer_world writer (record fresh_sync { w_buf_next = 2; w_buf_curr = 1; w_state = writer })
      fresh_sems

fresh_acks : (i : ℕ) → i < 2 → 1 ≤ fresh_sems (of_reader i 0)
fresh_acks i below = omega arith

-- the writer ends a transfer with three bytes in its second block
abbrev ending_world : World
ending_world =
    writer_world wchange (record fresh_sync { w_buf_next = 2; w_buf_curr = 1 }) fresh_sems

ending_ready :
    (i : ℕ) → i < 2 → (1 ≤ fresh_sems (of_reader i 1)) × (fresh_sems (of_reader i 2) < 32767)
ending_ready i below = omega arith

mark_filled-end_example :
    let w' = (mark_filled 3 ending_world).1 in
    ((mark_filled 3 ending_world).0 ≡ ok tt)
    × ((w'.sync.eod 0 ≡ true) × (w'.sync.e_buf 0 ≡ 1) × (w'.sync.e_byte 0 ≡ 3))
    × (w'.sync.w_xfer ≡ 1)
    × (w'.sync.w_buf_curr ≡ 2)
    × ((w'.handle.state ≡ writer) × (w'.handle.xfer ≡ 1))
    × (w'.sems (of_reader 1 ipcbuf_full) ≡ 1)
    × (w'.sems (of_reader 1 ipcbuf_eodack) + 1 ≡ 8)
mark_filled-end_example =
    mark_filled-end test_kernel-Lawful 3 ending_world 1 (inl refl) (omega arith) ending_ready
      (omega arith)

-- a ring that no process has locked
abbrev open_sems : Sems
open_sems = assign (assign fresh_sems write_sem 1) read_sem 2

abbrev viewer_world : World
viewer_world =
    writer_world viewer (record fresh_sync { w_state = discon; r_states = λ i. discon }) open_sems

lock_write-exclusive_example :
    ((lock_write viewer_world).0 ≡ ok tt)
    × (is_writer (lock_write viewer_world).1.handle ≡ true)
    × ((lock_write (record (lock_write viewer_world).1 { handle = writer_handle viewer })).0
        ≡ asleep)
lock_write-exclusive_example =
    lock_write-exclusive test_kernel-Lawful viewer_world (writer_handle viewer) refl refl refl

-- reader 1 is behind reader 0, and both roles are free
abbrev behind_world : World
behind_world =
    writer_world viewer (record fresh_sync { r_bufs = update (λ i. 5) 1 2; r_states = λ i. discon })
      (assign (assign open_sems (of_reader 0 4) 1) (of_reader 1 4) 1)

behind_small : (i : ℕ) → i < 2 → update (λ j. 5) 1 2 i < 2 ^ 64 - 1
behind_small i below = ground arith

lock_read-oldest_example :
    (1 < 2)
    × (1 ≤ behind_world.sems (of_reader 1 ipcbuf_reader_conn))
    × (behind_world.sync.r_bufs 1 ≤ behind_world.sync.r_bufs 0)
unfolding calls
lock_read-oldest_example =
    lock_read-oldest test_kernel-Lawful behind_world 1 0 refl refl behind_small (omega arith)
      (omega arith)

-- a viewer at block 1 of a ring in which nine blocks were written
abbrev view_world : World
view_world =
    record (writer_world viewing
      (record fresh_sync { w_buf_next = 9; w_buf_curr = 9; eod = λ x. false }) fresh_sems) {
        handle = record (writer_handle viewing) { viewbuf = 1 };
      }

-- the transfer ended at block 4 with 2 bytes, and both readers are there
abbrev last_world : World
last_world =
    writer_world viewer
      (record fresh_sync {
        w_buf_next = 5;
        w_buf_curr = 5;
        r_bufs = update (update (λ i. 0) 0 4) 1 4;
        e_buf = λ x. 4;
        e_byte = λ x. 2;
      })
      fresh_sems

-- reader 0 holds the last block of the transfer
abbrev end_world : World
end_world =
    reader_world reading 0
      (record fresh_sync {
        w_buf_next = 5;
        w_buf_curr = 5;
        r_bufs = λ i. 4;
        e_buf = λ x. 4;
        e_byte = λ x. 2;
      })
      fresh_sems

mark_cleared-end_example :
    let w' = (mark_cleared end_world).1 in
    let w'' = (reset w').1 in
    ((mark_cleared end_world).0 ≡ ok tt)
    × (w'.sems (of_reader 0 ipcbuf_eodack) ≡ 9)
    × (w'.sems (of_reader 0 ipcbuf_clear) ≡ 1)
    × ((get_next_read w').0 ≡ fail)
    × ((reset w').0 ≡ ok tt)
    × (w''.handle.state ≡ reader)
    × (w''.handle.xfer ≡ 1)
    × (w''.sync.r_xfers 0 ≡ 1)
mark_cleared-end_example =
    mark_cleared-end test_kernel-Lawful end_world 0 refl refl refl (omega arith) (omega arith)

-- role 0 is taken and role 1 is free
abbrev taken_world : World
taken_world = reader_world reading 0 fresh_sync (assign fresh_sems (of_reader 1 4) 1)
