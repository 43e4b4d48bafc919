-- ===== src/Ipcio/StreamTests.antt =====
-- The theorems about the byte streams of src/ipcio.c at concrete streams.
use mirror_psrdada_code.Prelude.{ℕ, ◌+◌, ◌<◌, ◌≡◌, refl, inl, inr, true, false, some, arith}
use mirror_psrdada_code.Shared.{World, writing, reading}
use mirror_psrdada_code.Process.{ok, for_each}
use mirror_psrdada_code.Machine.{test_kernel, fresh_sync, fresh_sems, writer_world, reader_world}
use mirror_psrdada_code.Ipcbuf.Writer.{
  reclaim, sod_on_wchange, get_next_write, mark_filled, fill, publish,
}
use mirror_psrdada_code.Ipcbuf.Query.{tell_read, tell}
use mirror_psrdada_code.Ipcio.{Pointer, Io}
use mirror_psrdada_code.Ipcio.Block.{check_pending_sod}
use mirror_psrdada_code.Ipcio.Stream.{
  copy_in, store_bytes, finish_block, need_block, write_round, write_loop, write,
}
use mirror_psrdada_code.Ipcio.Stream.Round.{Writable, position}
use mirror_psrdada_code.Ipcio.Stream.Write.{write-position, Ends, write_loop-Ends}
use mirror_psrdada_code.Ipcio.Input.{Progress, read}
use mirror_psrdada_code.Ipcio.Input.Within.{Remaining, read-write}

-- what the tests compute with
calls : ℕ
unfolding for_each reclaim sod_on_wchange get_next_write mark_filled fill publish check_pending_sod
    copy_in store_bytes finish_block need_block write_round write_loop write tell_read tell
calls = 0

abbrev base : Pointer
base = record { block = 0; offset = 0 }

-- a stream on a world, in mode `c`, with block 0 open and `n` of its bytes behind it
abbrev pub stream : World → (c n : ℕ) → Io
stream w c n = record {
  world = w;
  curbuf = some base;
  curbufsz = 4;
  bytes = n;
  rdwrt = c;
  marked_filled = false;
  sod_pending = false;
  sod_buf = 0;
  sod_byte = 0;
  buf_ptrs = λ i. some base;
  bufs_opened = 0;
  bufs_opened_max = 2;
}

abbrev pub out : Io
out = stream (writer_world writing (record fresh_sync { w_buf_next = 1 }) fresh_sems) b'W' 1

pub out-Writable : Writable out
out-Writable = record {
  some_bytes = omega arith;
  word = omega arith;
  fits = omega arith;
  closed = inl refl;
  behind = inl refl;
}

-- the caller's memory
abbrev source : ℕ → ℕ
source o = o + 10

-- six bytes, over the end of block 0
write-position_example :
    let t = (write source 6 out).1 in ◌≡◌ {A = ℕ} 6 6 × (position t ≡ position out + 6) × Writable t
unfolding calls
write-position_example = write-position source 6 out out-Writable (omega arith) refl

write_loop-Ends_example : Ends 6 source out (write_loop 6 6 source out)
write_loop-Ends_example = write_loop-Ends 6 source out out-Writable (omega arith)

-- a viewer of the same block, behind its first byte, for which three bytes are left in it
abbrev input : Io
input =
    stream
      (record (reader_world reading 0 fresh_sync fresh_sems) {
        mem = (write source 3 out).1.world.mem;
      })
      b'r' 1

input-Remaining : Remaining base 3 input
input-Remaining = record {
  opened = refl;
  mode = inl refl;
  going = refl;
  fits = omega arith;
  given_back = inr (inl refl);
  word = omega arith;
}

read-write_example :
    (g : Progress) × ((read 1 true (λ o. 0) 3 input).0 ≡ ok g)
    × (g.count ≡ 3)
    × ((i : ℕ) → i < 3 → g.memory i ≡ source i)
read-write_example =
    read-write base 0 3 source (λ o. 0) out input refl (inl refl) (omega arith) (omega arith)
      (omega arith) input-Remaining refl refl
