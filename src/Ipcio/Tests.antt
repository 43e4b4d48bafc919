-- ===== src/Ipcio/Tests.antt =====
-- The theorems about src/ipcio.c at concrete streams.
use mirror_psrdada_code.Prelude.{ℕ, ◌<◌, ◌≡◌, refl, false, some, arith}
use mirror_psrdada_code.Shared.{World, writing, reading}
use mirror_psrdada_code.Process.{for_each}
use mirror_psrdada_code.Machine.{
  test_kernel, test_kernel-Lawful, fresh_sync, fresh_sems, writer_world, reader_world,
}
use mirror_psrdada_code.Ipcbuf.Writer.{
  reclaim, sod_on_wchange, get_next_write, mark_filled, fill, publish,
}
use mirror_psrdada_code.Ipcbuf.Query.{get_write_index}
use mirror_psrdada_code.Ipcio.{Pointer, Io}
use mirror_psrdada_code.Ipcio.Block.{
  open_block_read, close_block_read, open_block_write, update_block_write, close_block_write,
  check_pending_sod, drop_block,
}
use mirror_psrdada_code.Ipcio.Block.Accounting.{Accounted, open_block_write-Accounted}
use mirror_psrdada_code.Ipcio.Open.{close_all}

-- what the tests compute with
calls : ℕ
unfolding for_each reclaim sod_on_wchange get_next_write mark_filled fill publish open_block_read
    close_block_read open_block_write update_block_write close_block_write check_pending_sod
    drop_block close_all get_write_index
calls = 0

abbrev base : Pointer
base = record { block = 0; offset = 0 }

-- a stream on a world, in mode `c`, with `n` blocks open from block 0 on
abbrev stream : World → (c n : ℕ) → Io
stream w c n = record {
  world = w;
  curbuf = some base;
  curbufsz = 4;
  bytes = 0;
  rdwrt = c;
  marked_filled = false;
  sod_pending = false;
  sod_buf = 0;
  sod_byte = 0;
  buf_ptrs = λ i. some (record { block = i; offset = 0 });
  bufs_opened = n;
  bufs_opened_max = 2;
}

-- a writer with block 0 open
abbrev one_open : Io
one_open = stream (writer_world writing (record fresh_sync { w_buf_next = 1 }) fresh_sems) b'W' 1

one_open-Accounted : Accounted one_open
one_open-Accounted = record {
  state = refl;
  opened = refl;
  limit = omega arith;
  below = omega arith;
  word = omega arith;
  small = omega arith;
}

open_block_write-Accounted_example :
    let t = (open_block_write one_open).1 in
    (1 < 3) × ◌≡◌ {A = ℕ} 1 1 × (t.bufs_opened ≡ 2) × Accounted t
unfolding calls
open_block_write-Accounted_example =
    open_block_write-Accounted test_kernel-Lawful one_open
      {r = (record { block = 1; offset = 0 }, 1)} one_open-Accounted (omega arith) refl
      (omega arith)

-- a reader with block 0 open
abbrev read_open : Io
read_open = stream (reader_world reading 0 fresh_sync fresh_sems) b'R' 0

-- a writer with blocks 0 and 1 open
abbrev two_open : Io
two_open = stream (writer_world writing (record fresh_sync { w_buf_next = 2 }) fresh_sems) b'W' 2
