-- ===== src/Ring/Tests.antt =====
-- Runs of a ring of three blocks with two readers.
use mirror_psrdada_code.Prelude.{
  ℕ, ◌+◌, ◌%◌, ◌≤◌, ◌<◌, ◌≡◌, ◌⊎◌, inr, refl, true, false, update, arith, dec_lt, short_of,
}
use mirror_psrdada_code.Shared.{wchange, reader, of_reader, ipcbuf_full, ipcbuf_clear}
use mirror_psrdada_code.Process.{for_each}
use mirror_psrdada_code.Machine.{
  test_kernel, test_kernel-Lawful, fresh_sync, fresh_sems, writer_handle, reader_handle,
}
use mirror_psrdada_code.Ipcbuf.Writer.{
  enable_sod, start_xfer, may_enable_sod, get_sod_minbuf, count_from, reclaim, sod_on_wchange,
  get_next_write, mark_filled, fill, publish,
}
use mirror_psrdada_code.Ipcbuf.Reader.{
  get_next_read, get_next_read_work, read_block, start_reading, mark_cleared,
}
use mirror_psrdada_code.Ring.{
  Ring, open_block, store, fill_block, take_block, give_block, writer_view, reader_view,
  from_writer, from_reader, held_count, position,
}
use mirror_psrdada_code.Ring.Begin.{Idle}
use mirror_psrdada_code.Ring.Safety.{
  Reach, begin, next, no_overrun, first_in_first_out, held_intact, tokens_le_nbufs,
  writer_not_stuck,
}

abbrev fresh : Ring
fresh = record {
  sync = fresh_sync;
  sems = fresh_sems;
  mem = λ b o. 0;
  writer = writer_handle wchange;
  reader = reader_handle reader;
  held = λ i. false;
  log = λ j o. 0;
}

fresh-Idle : Idle fresh
fresh-Idle = record {
  some_bufs = omega arith;
  about = inr refl;
  next_eq = refl;
  small = omega arith;
  free = λ b. refl;
  none_held = λ i. refl;
  role = λ i h. (refl, refl, refl);
  full = λ i h. refl;
  clear = λ i h. refl;
  old_end = λ ne. absurd (ne refl);
}

-- the state after each call of a run
abbrev started : Ring
started = from_writer fresh (enable_sod 0 0 (writer_view fresh)).1

abbrev opens : Ring → Ring
opens s = from_writer s (get_next_write (writer_view s)).1

abbrev fills : Ring → Ring
fills s = record (from_writer s (mark_filled 4 (writer_view s)).1) {
  log = update s.log s.sync.w_buf_curr (s.mem (s.sync.w_buf_curr % s.sync.nbufs));
}

abbrev takes : ℕ → Ring → Ring
takes i s = record (from_reader s i (get_next_read (reader_view s i)).1) {
  held = update s.held i true;
}

abbrev stored : Ring
stored = record (opens started) {
  mem = update (opens started).mem 0 (update ((opens started).mem 0) 2 77);
}

abbrev gives : ℕ → Ring → Ring
gives i s = record (from_reader s i (mark_cleared (reader_view s i)).1) {
  held = update s.held i false;
}

-- block 0 is filled; then reader 0 holds it
abbrev first_full : Ring
first_full = fills stored

abbrev first_held : Ring
first_held = takes 0 first_full

-- all three blocks are full
abbrev all_full : Ring
all_full = fills (opens (fills (opens first_full)))

-- all three blocks were filled, and both readers have given the first one back
abbrev first_back : Ring
first_back = gives 1 (takes 1 (gives 0 (takes 0 all_full)))

-- what the runs compute with
calls : ℕ
unfolding enable_sod may_enable_sod get_sod_minbuf for_each get_next_write sod_on_wchange reclaim
    start_xfer count_from mark_filled fill publish get_next_read get_next_read_work read_block
    start_reading mark_cleared short_of dec_lt
calls = 0

started-Reach : Reach started
unfolding calls
started-Reach = begin fresh-Idle refl

first_full-Reach : Reach first_full
unfolding calls
first_full-Reach =
    next
      (next (next started-Reach (open_block {b = 0} (omega arith) (omega arith) refl))
        (store 0 2 77 (omega arith) (omega arith)))
      (fill_block 4 (omega arith) (omega arith) refl)

first_held-Reach : Reach first_held
unfolding calls
first_held-Reach = next first_full-Reach (take_block 0 (omega arith) refl refl)

all_full-Reach : Reach all_full
unfolding calls
all_full-Reach =
    next
      (next
        (next (next first_full-Reach (open_block {b = 1} (omega arith) (omega arith) refl))
          (fill_block 4 (omega arith) (omega arith) refl))
        (open_block {b = 2} (omega arith) (omega arith) refl))
      (fill_block 4 (omega arith) (omega arith) refl)

first_back-Reach : Reach first_back
unfolding calls
first_back-Reach =
    next
      (next
        (next (next all_full-Reach (take_block 0 (omega arith) refl refl))
          (give_block 0 (omega arith) refl refl))
        (take_block 1 (omega arith) refl refl))
      (give_block 1 (omega arith) refl refl)

no_overrun_example : ◌≡◌ {A = ℕ} 0 0 × (3 < position first_back 1 + 3)
unfolding calls
no_overrun_example =
    no_overrun {s = first_back} {b = 0} test_kernel-Lawful first_back-Reach (omega arith) refl 1
      (omega arith)

first_in_first_out_example : (0 < 1) × (first_full.mem 0 ≡ first_full.log 0)
unfolding calls
first_in_first_out_example =
    first_in_first_out {s = first_full} {b = record { index = 0; offset = 0; bytes = 4 }} 1
      test_kernel-Lawful first_full-Reach (omega arith) refl refl

held_intact_example : (0 < 1) × (first_held.mem 0 ≡ first_held.log 0)
unfolding calls
held_intact_example =
    held_intact {s = first_held} 0 test_kernel-Lawful first_held-Reach (omega arith) refl

tokens_le_nbufs_example :
    first_back.sems (of_reader 0 ipcbuf_full)
      + first_back.sems (of_reader 0 ipcbuf_clear)
      + held_count first_back 0
    ≤ 3
unfolding calls
tokens_le_nbufs_example =
    tokens_le_nbufs {s = first_back} 0 test_kernel-Lawful first_back-Reach (omega arith)

writer_not_stuck_example :
    (i : ℕ) × (i < 2) × ((all_full.held i ≡ true) ⊎ (0 < all_full.sems (of_reader i ipcbuf_full)))
unfolding calls
writer_not_stuck_example =
    writer_not_stuck {s = all_full} test_kernel-Lawful all_full-Reach (omega arith) refl

-- The byte that the writer stored is in the block that reader 1 gets.
stored_byte : first_full.mem 0 2 ≡ 77
unfolding calls
stored_byte = refl
