-- ===== src/Ring.antt =====
-- One writer and the designated readers of a ring inside one transfer, interleaved call by call.
-- A step is one call of src/ipcbuf.c that returns without error; a call that sleeps is no step, it
-- is made again when it can return.
pub mod Residues
pub mod OpenBlock
pub mod TakeBlock
pub mod GiveBlock
pub mod Begin
pub mod Safety
mod Tests
pub mod FillBlock
use mirror_psrdada_code.Prelude.{
  ℕ, suc, ◌+◌, ◌%◌, ◌^◌, ◌≤◌, ◌<◌, ◌≡◌, ◌⊎◌, Bool, true, false, if◌then◌else◌, update, some,
}
use mirror_psrdada_code.Shared.{
  Sync, Sems, Handle, World, reader, reading, writing, ◌is◌, of_reader, ipcbuf_xfers, ipcbuf_full,
  ipcbuf_clear,
}
use mirror_psrdada_code.Process.{ok}
use mirror_psrdada_code.Kernel.{Kernel}
use mirror_psrdada_code.Ipcbuf.Writer.{get_next_write, mark_filled}
use mirror_psrdada_code.Ipcbuf.Reader.{Block, get_next_read, mark_cleared}

-- The shared memory and the handles of all processes. Two fields are for the statements alone:
-- `held i` says that reader `i` has a block that it has not marked cleared, and `log j` holds the
-- bytes of the j-th block at the time it was marked filled.
pub record Ring : Type 0 where
  pub sync : Sync
  pub sems : Sems
  pub mem : ℕ → ℕ → ℕ
  pub writer : Handle
  pub reader : ℕ → Handle
  pub held : ℕ → Bool
  pub log : ℕ → ℕ → ℕ

-- what the writer, and what reader `i`, acts on
abbrev pub writer_view : Ring → World
writer_view s = record { handle = s.writer; sync = s.sync; sems = s.sems; mem = s.mem }

abbrev pub reader_view : Ring → ℕ → World
reader_view s i = record { handle = s.reader i; sync = s.sync; sems = s.sems; mem = s.mem }

abbrev pub from_writer : Ring → World → Ring
from_writer s w = record s { sync = w.sync; sems = w.sems; mem = w.mem; writer = w.handle }

abbrev pub from_reader : Ring → ℕ → World → Ring
from_reader s i w = record s {
  sync = w.sync;
  sems = w.sems;
  mem = w.mem;
  reader = update s.reader i w.handle;
}

module _ ⦃k : Kernel⦄ where
  pub data Step (s : Ring) : Ring → Type 0 where
    -- the writer opens the next block; it has fewer than `nbufs` blocks open
    open_block :
        {b : ℕ}
        → s.sync.w_buf_next < s.sync.w_buf_curr + s.sync.nbufs
        → suc s.sync.w_buf_next < 2 ^ 64
        → (get_next_write (writer_view s)).0 ≡ ok b
        → Step s (from_writer s (get_next_write (writer_view s)).1)
    -- it stores a byte in a block that it has open
    store :
        (j offset value : ℕ)
        → s.sync.w_buf_curr ≤ j
        → j < s.sync.w_buf_next
        → Step s (record s {
          mem = update s.mem (j % s.sync.nbufs) (update (s.mem (j % s.sync.nbufs)) offset value);
        })
    -- it marks the oldest open block filled, to the last byte
    fill_block :
        (nbytes : ℕ)
        → s.sync.bufsz ≤ nbytes
        → s.sync.w_buf_curr < s.sync.w_buf_next
        → (mark_filled nbytes (writer_view s)).0 ≡ ok tt
        → Step s (record (from_writer s (mark_filled nbytes (writer_view s)).1) {
          log = update s.log s.sync.w_buf_curr (s.mem (s.sync.w_buf_curr % s.sync.nbufs));
        })
    -- reader `i`, which holds no block, gets the next one
    take_block :
        (i : ℕ) {b : Block}
        → i < s.sync.n_readers
        → s.held i ≡ false
        → (get_next_read (reader_view s i)).0 ≡ ok b
        → Step s (record (from_reader s i (get_next_read (reader_view s i)).1) {
          held = update s.held i true;
        })
    -- it marks the block that it holds cleared
    give_block :
        (i : ℕ)
        → i < s.sync.n_readers
        → s.held i ≡ true
        → (mark_cleared (reader_view s i)).0 ≡ ok tt
        → Step s (record (from_reader s i (mark_cleared (reader_view s i)).1) {
          held = update s.held i false;
        })

-- the transfer slot of reader `i`, and the count of the block that it reads next
abbrev pub slot : Ring → ℕ → ℕ
slot s i =
    if (s.reader i).state is reader then s.sync.r_xfers i % ipcbuf_xfers else (s.reader i).xfer

abbrev pub position : Ring → ℕ → ℕ
position s i =
    if (s.reader i).state is reader
    then s.sync.s_buf (s.sync.r_xfers i % ipcbuf_xfers)
    else s.sync.r_bufs i

abbrev pub held_count : Ring → ℕ → ℕ
held_count s i = if s.held i then 1 else 0

-- A transfer is running, and the writer has taken back all blocks before `lo`. It has not ended:
-- no reader's slot holds an end of data at or after the reader's position.
pub record Running (lo : ℕ) (s : Ring) : Type 0 where
  pub some_bufs : 0 < s.sync.nbufs
  pub is_writing : s.writer.state ≡ writing
  pub curr_le : s.sync.w_buf_curr ≤ s.sync.w_buf_next
  pub next_le : s.sync.w_buf_next ≤ lo + s.sync.nbufs
  pub lo_le : lo ≤ s.sync.w_buf_curr
  pub small : s.sync.w_buf_next < 2 ^ 64
  pub filled : (j : ℕ) → lo ≤ j → j < s.sync.w_buf_curr → s.sync.count (j % s.sync.nbufs) ≡ 1
  pub free :
      (j : ℕ) → s.sync.w_buf_curr ≤ j → j < lo + s.sync.nbufs → s.sync.count (j % s.sync.nbufs) ≡ 0
  pub role :
      (i : ℕ)
      → i < s.sync.n_readers
      → ((s.reader i).iread ≡ some i)
        × (((s.reader i).state ≡ reading) ⊎ ((s.reader i).state ≡ reader))
  pub full :
      (i : ℕ)
      → i < s.sync.n_readers
      → s.sems (of_reader i ipcbuf_full) + held_count s i + position s i ≡ s.sync.w_buf_curr
  pub clear : (i : ℕ) → i < s.sync.n_readers → s.sems (of_reader i ipcbuf_clear) + lo ≡ position s i
  pub live :
      (i : ℕ)
      → i < s.sync.n_readers
      → s.sync.eod (slot s i) ≡ true
      → s.sync.e_buf (slot s i) < position s i
  pub content : (j : ℕ) → lo ≤ j → j < s.sync.w_buf_curr → s.mem (j % s.sync.nbufs) ≡ s.log j
