-- ===== src/Client/Tests.antt =====
-- src/dada_client.c: a client on a small ring.
use mirror_psrdada_code.Prelude.{
  ap, ℕ, suc, ◌+◌, ◌≤◌, ◌≡◌, refl, true, false, none, arith, ℤ, pos, negsuc, ltb, if◌then◌else◌,
}
use mirror_psrdada_code.Shared.{writing, reading, of_reader, ipcbuf_full}
use mirror_psrdada_code.Process.{ok, fail, for_each}
use mirror_psrdada_code.Kernel.{assign}
use mirror_psrdada_code.Machine.{test_kernel, fresh_sync, fresh_sems, writer_world, reader_world}
use mirror_psrdada_code.Ipcbuf.Query.{get_read_index, get_read_count}
use mirror_psrdada_code.Ipcbuf.Reader.{get_next_read, get_next_read_work, read_block}
use mirror_psrdada_code.Ipcbuf.Writer.{
  reclaim, sod_on_wchange, get_next_write, mark_filled, fill, publish,
}
use mirror_psrdada_code.Ipcio.Block.{is_set, check_pending_sod, open_block_read}
use mirror_psrdada_code.Ipcio.Stream.{
  copy_in, store_bytes, finish_block, need_block, write_round, write_loop, write,
}
use mirror_psrdada_code.Ipcio.Stream.Round.{Writable, position}
use mirror_psrdada_code.Ipcio.StreamTests.{stream, out, out-Writable}
use mirror_psrdada_code.Client.{Memory, Client, Functions, own, from_ring, to_ring}
use mirror_psrdada_code.Client.BlockLoop.{io_loop_block}
use mirror_psrdada_code.Client.Failure.{io_loop_block-error, transfer_header-error}
use mirror_psrdada_code.Client.Loop.{io_loop, io_round}
use mirror_psrdada_code.Client.Position.{io_loop-position, io_loop-enough}
use mirror_psrdada_code.Client.Round.{Bounded}
use mirror_psrdada_code.Client.Transfer.{transfer_header}

-- a file of ones: every call delivers three bytes at most; its context counts the calls
abbrev deliver : ℕ → Memory → ℕ → ℤ × Memory × ℕ
deliver calls m bytes = (pos (if ltb 3 bytes then 3 else bytes), (λ o. 1), suc calls)

abbrev pub file : Functions ℕ
file = record {
  io_function = deliver;
  io_block_function = none;
  open_function = λ c. (true, c);
  close_function = λ c n. (true, c);
}

pos_of : ℤ → ℕ
pos_of (pos n) = n
pos_of (negsuc n) = 0

file-Bounded : Bounded file
unfolding pos_of
file-Bounded = record {
  at_most = λ c m bytes n e.
      let q : ((if ltb 3 bytes then 3 else bytes) ≡ n) = cc (ap pos_of e) in ground arith;
}

-- seven bytes to write, asked for in pieces of five
abbrev writing_client : Client ℕ
writing_client = record {
  data_block = out;
  header_block = writer_world writing fresh_sync fresh_sems;
  context = 0;
  direction = to_ring;
  transfer_bytes = 7;
  optimal_bytes = 5;
  buffer = λ o. 0;
  header = own (λ o. 0);
  header_size = 16;
  header_transfer = true;
  quit = false;
}

-- what the tests compute with
calls : ℕ
unfolding for_each reclaim sod_on_wchange get_next_write mark_filled fill publish check_pending_sod
    copy_in store_bytes finish_block need_block write_round write_loop write io_round io_loop
calls = 0

io_loop-position_example :
    let d = (io_loop file 4 0 0 writing_client).1 in
    ◌≤◌ 7 7 × (position d.data_block ≡ position out + 7) × Writable d.data_block
unfolding calls
io_loop-position_example =
    io_loop-position file 4 0 7 writing_client file-Bounded refl (omega arith) out-Writable
      (omega arith) refl

io_loop-enough_example : io_loop file 10 0 0 writing_client ≡ io_loop file 8 0 0 writing_client
io_loop-enough_example =
    io_loop-enough file 2 0 writing_client file-Bounded refl (omega arith) out-Writable
      (omega arith)

-- a function that always fails
abbrev broken : ℕ → Memory → ℕ → ℕ → ℤ × Memory × ℕ
broken calls m bytes id = (negsuc 0, m, suc calls)

-- a reader with block 0 to read
abbrev pub reading_client : Client ℕ
reading_client = record writing_client {
  data_block =
      record (stream
        (reader_world reading 0
          (record fresh_sync { w_buf_curr = 1; w_buf_next = 1; eod = λ x. false })
          (assign fresh_sems (of_reader 0 ipcbuf_full) 1))
        b'R' 0) { curbuf = none };
  direction = from_ring;
  transfer_bytes = 0;
}

io_loop_block-error_example :
    ((io_loop_block 1 broken 0 reading_client).0 ≡ ok 0)
    × (is_set (io_loop_block 1 broken 0 reading_client).1.data_block.curbuf ≡ true)
    × ((io_loop_block 1 broken 0 (io_loop_block 1 broken 0 reading_client).1).0 ≡ fail)
unfolding open_block_read get_next_read get_next_read_work read_block get_read_index get_read_count
io_loop_block-error_example =
    io_loop_block-error 0 0 broken 0 3 0 0 (record { block = 0; offset = 0 }) reading_client refl
      refl refl (omega arith) refl refl (λ x m. refl)

transfer_header-error_example :
    (transfer_header (record file { io_function = λ c m n. (negsuc 0, m, c) }) writing_client).0
    ≡ ok tt
transfer_header-error_example =
    transfer_header-error (record file { io_function = λ c m n. (negsuc 0, m, c) }) 0 (λ o. 0)
      writing_client refl refl (omega arith) (omega arith)
