-- ===== src/PwcMain/TransferTests.antt =====
-- src/dada_pwc_main.c: transfers of a small client.
use mirror_psrdada_code.Prelude.{
  ℕ, ◌+◌, ◌-◌, ◌^◌, [], ◌∷◌, ◌≡◌, inl, refl, ℤ, pos, negsuc, true, false, some, none, arith,
}
use mirror_psrdada_code.AsciiHeader.{Bytes, codes, input_failure, length}
use mirror_psrdada_code.Hdu.{with_text}
use mirror_psrdada_code.Ipcbuf.Writer.{
  reclaim, sod_on_wchange, get_next_write, mark_filled, fill, publish, end_xfer,
}
use mirror_psrdada_code.Ipcio.Block.{
  check_pending_sod, open_block_write, close_block_write, update_block_write, drop_block,
  shift_ptrs,
}
use mirror_psrdada_code.Ipcio.Stream.{
  copy_in, store_bytes, finish_block, need_block, write_round, write_loop, write,
}
use mirror_psrdada_code.Ipcio.StreamTests.{stream}
use mirror_psrdada_code.Machine.{test_kernel, fresh_sync, fresh_sems, writer_world}
use mirror_psrdada_code.Process.{for_each}
use mirror_psrdada_code.Pwc.{
  PwcState, clocking, recording, stop, start, Command, create, command_init,
}
use mirror_psrdada_code.Pwc.Header.{Environment}
use mirror_psrdada_code.PwcMain.{Main, Program, Transfers, xfer_ending}
use mirror_psrdada_code.PwcMain.Block as Block
use mirror_psrdada_code.PwcMain.Block.{Blocks, transfer_data_block}
use mirror_psrdada_code.PwcMain.Copy as Copy
use mirror_psrdada_code.PwcMain.Within.{transfer_data-InTransfer}
use mirror_psrdada_code.PwcMain.Stability.{InTransfer}
use mirror_psrdada_code.PwcMain.Copy.{Copying, advance, transfer_data, no_data, store_rest}
use mirror_psrdada_code.PwcMain.Course.Aim.{Aim}
use mirror_psrdada_code.PwcMain.Xfer.{process_xfer, xfer_with}
use mirror_psrdada_code.PwcMain.Flow.{Flow, go, ◌>>=◌}
use mirror_psrdada_code.Shared.{writing}

abbrev no_times : Environment
no_times = record {
  str2utctime = λ args. negsuc 0;
  scan_rate = λ text. input_failure;
  left = λ keyword. 0;
  left_rate = λ bits. 0;
}

abbrev plain_time : ℤ → Bytes
plain_time utc = codes "2020-01-01-00:00:00"

-- a program that counts its buffers, which have eight bytes
abbrev program : Program ℕ
program = record {
  start_function = λ n utc. (pos 7, n);
  stop_function = λ n. (true, n);
  header_valid_function = none;
  buffer_function = λ n. (some (λ o. n + o), pos 8, n + 1);
  has_block_function = false;
  block_function = λ n m size block_id. (pos size, (λ o. o), n + 1);
  error_function = none;
  transfers = none;
}

abbrev recorder : PwcState → Command → Command → Main ℕ
recorder s now waiting = record {
  pwc = record (create [] command_init 4096) { state = s; command = waiting };
  data_block =
      stream (writer_world writing (record fresh_sync { w_buf_next = 1 }) fresh_sems) b'W' 1;
  header_block = record (writer_world writing (record fresh_sync { w_buf_next = 1 }) fresh_sems) {
    mem = λ b. with_text (codes "UTC_START 2020 ") 0 (λ o. 0);
  };
  header = some 0;
  header_size = 32;
  header_valid = true;
  command = now;
  context = 0;
}

-- a client that clocks data, and is to stop at byte 11
abbrev stopping : Main ℕ
stopping = recorder clocking command_init (record command_init { code = stop; byte_count = 11 })

-- the same with blocks of four bytes, none of which is open, and byte 6
abbrev block_stopping : Main ℕ
block_stopping =
    record (recorder clocking command_init (record command_init { code = stop; byte_count = 6 })) {
      data_block = record (stream (writer_world writing fresh_sync fresh_sems) b'W' 0) {
        curbuf = none;
      };
    }

abbrev one_round : Flow Copying × Main ℕ
one_round = transfer_data no_times plain_time program ([] ∷ []) stopping

abbrev got_or : {A : Type 0} → A → Flow A → A
got_or a (go b) = b
got_or a _ = a

abbrev nothing : Copying
nothing = record {
  course = record { total = 0; transit = 0; left = 0; start_set = true };
  error_state = 0;
  buffer = none;
  buffer_size = 0;
  buf_bytes = 0;
}

abbrev after_one : Copying
after_one = got_or nothing one_round.0

calls : ℕ
unfolding for_each reclaim sod_on_wchange get_next_write mark_filled fill publish check_pending_sod
    copy_in store_bytes finish_block need_block write_round write_loop write open_block_write
    close_block_write drop_block shift_ptrs update_block_write end_xfer transfer_data advance
    transfer_data_block Block.advance create ◌>>=◌ length
calls = 0

runs_on : after_one.course ≡ record { total = 8; transit = 11; left = 3; start_set = true }
unfolding calls
runs_on = refl

-- the first round up to the test of the transit byte, for a client that is to stop at byte 3
abbrev stopping_soon : Main ℕ
stopping_soon = recorder clocking command_init (record command_init { code = stop; byte_count = 3 })

abbrev first : Flow Copying × Main ℕ
first = transfer_data no_times plain_time program [] stopping_soon

abbrev next : Flow Copying × Main ℕ
next = advance plain_time program nothing first.1

abbrev after_next : Copying
after_next = got_or nothing next.0

reaches : after_next.course ≡ record { total = 3; transit = 3; left = 0; start_set = true }
unfolding calls
reaches = refl

-- the same with a client that fills the blocks
abbrev one_block : Flow Blocks × Main ℕ
one_block = transfer_data_block no_times plain_time program ([] ∷ []) block_stopping

abbrev empty : Blocks
empty = record {
  course = record { total = 0; transit = 0; left = 0; start_set = true };
  this_xfer = 0;
  buf_bytes = 0;
}

abbrev after_block : Blocks
after_block = got_or empty one_block.0

abbrev next_block : Flow Blocks × Main ℕ
next_block = Block.advance plain_time program after_block one_block.1

abbrev after_next_block : Blocks
after_next_block = got_or empty next_block.0

reaches_in_block :
    after_next_block.course ≡ record { total = 6; transit = 6; left = 0; start_set = true }
unfolding calls
reaches_in_block = refl

transfer_data-InTransfer_example :
    InTransfer (transfer_data no_times plain_time program ([] ∷ []) stopping).1.pwc.state
    × InTransfer (transfer_data_block no_times plain_time program ([] ∷ []) stopping).1.pwc.state
transfer_data-InTransfer_example =
    transfer_data-InTransfer no_times plain_time program ([] ∷ []) stopping (omega arith)
      (omega arith) (inl refl)

-- a client that clocks data and is to stop at once
abbrev stopping_now : Main ℕ
stopping_now = recorder clocking command_init (record command_init { code = stop })

-- a client that was to record eight bytes, and has
abbrev recorded : Main ℕ
recorded = recorder recording (record command_init { code = start; byte_count = 8 }) command_init

-- a stream that is not open
abbrev closed : Main ℕ
closed = record recorded { data_block = record recorded.data_block { rdwrt = 0 } }

abbrev always_ending : Transfers ℕ
always_ending = record {
  xfer_pending_function = λ n. (xfer_ending, n + 1);
  new_xfer_function = λ n m. (100, m, n);
}

abbrev half_written : Copying
half_written = record nothing {
  course = record nothing.course { total = 3 };
  buffer = some (λ o. o);
  buffer_size = 8;
  buf_bytes = 3;
}

-- `ipcio_write` refuses the rest of the buffer, and the rest is counted as written
rest_refused :
    (store_rest half_written closed).0
    ≡ go (record half_written {
      course = record half_written.course { total = 8 };
      buffer = some (λ o. 3 + o);
      buf_bytes = 5;
    })
unfolding write store_rest ◌>>=◌
rest_refused = refl

-- the end of a transfer is reported and the block cannot be updated: -3 becomes the number of bytes
fatal_is_a_byte :
    (no_data (some always_ending) program nothing closed).0
    ≡ go (record nothing { course = record nothing.course { total = 2 ^ 64 - 3 } })
unfolding no_data process_xfer xfer_with update_block_write ◌>>=◌
fatal_is_a_byte = refl

-- Two changes of state in a row, the second of which is at once: the second writes the three bytes
-- behind the end of the buffer, since its sizes are those that the first has left.
abbrev rest_twice : Flow Copying × Main ℕ
rest_twice = (store_rest half_written >>= store_rest) recorded

stale_rest :
    (got_or nothing rest_twice.0).buf_bytes ≡ 3
    × ((got_or nothing rest_twice.0).course.total ≡ 11)
    × (rest_twice.1.data_block.world.mem 1 2 ≡ 8)
unfolding calls store_rest
stale_rest = (refl, refl, refl)
