-- ===== src/Hdu/Tests.antt =====
-- src/dada_hdu.c: a unit on small rings.
use mirror_psrdada_code.Prelude.{ℕ, ◌≡◌, refl, true, false, none, some}
use mirror_psrdada_code.AsciiHeader.{
  set, get, find, find_loop, strstr, strcspn, length, print_u64, digits,
}
use mirror_psrdada_code.Hdu.{
  Hdu, Memory, copied, hdu_unlock_read, hdu_open, next_header, copy_header, text_of,
}
use mirror_psrdada_code.Ipcbuf.Lock.{unlock_read, release_reader}
use mirror_psrdada_code.Ipcbuf.Reader.{
  get_next_read, get_next_read_work, read_block, mark_cleared, stop_reading,
}
use mirror_psrdada_code.Ipcio.StreamTests.{stream}
use mirror_psrdada_code.Kernel.{assign}
use mirror_psrdada_code.Machine.{test_kernel, fresh_sync, fresh_sems, reader_world}
use mirror_psrdada_code.Process.{ok, for_each}
use mirror_psrdada_code.Shared.{World, reading, of_reader, ipcbuf_full}

abbrev blank : Memory
blank o = b' '

-- a header block with one block to read
abbrev header_ring : World
header_ring =
    reader_world reading 0 (record fresh_sync { w_buf_curr = 1; w_buf_next = 1; eod = λ x. false })
      (assign fresh_sems (of_reader 0 ipcbuf_full) 1)

-- a unit that has read a header of four bytes, and has closed its data block
abbrev opened_unit : Hdu
opened_unit = record {
  connected = true;
  data_block = stream header_ring 0 0;
  header_block = header_ring;
  header = some blank;
  header_size = 4;
}

-- what the tests compute with
calls : ℕ
unfolding for_each hdu_unlock_read hdu_open next_header copy_header text_of unlock_read
    release_reader get_next_read get_next_read_work read_block mark_cleared stop_reading set get
    find find_loop strstr strcspn length print_u64 digits
calls = 0

-- the unit when the next header has arrived
abbrev unit_again : Hdu
unit_again = record (hdu_unlock_read opened_unit).1 { header_block = header_ring }

-- the first time it is copied
open_first :
    (hdu_open 1 blank (record opened_unit { header = none; header_size = 0 })).0 ≡ ok copied
unfolding calls
open_first = refl
