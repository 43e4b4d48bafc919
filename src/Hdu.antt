-- ===== src/Hdu.antt =====
-- src/dada_hdu.h, src/dada_hdu.c: a header and data unit, which is a ring of headers with a ring of
-- data. Connecting to the shared memory is not modelled.
mod Kept
pub mod Text
pub mod Reopen
mod Tests
use mirror_psrdada_code.Prelude.{
  ℕ, zero, suc, ◌+◌, ◌-◌, Bool, true, false, not, ◌&&◌, ltb, leb, ◌==◌, if◌then◌else◌, List, [],
  ◌∷◌, update, Option, none, some,
}
use mirror_psrdada_code.AsciiHeader.{
  Bytes, codes, length, byte, get, set, Scanned, input_failure, no_match, value, scan_number,
  print_u64,
}
use mirror_psrdada_code.Ipcbuf.Lock.{lock_write, unlock_write, lock_read, unlock_read}
use mirror_psrdada_code.Ipcbuf.Reader.{Block, get_next_read, mark_cleared}
use mirror_psrdada_code.Ipcbuf.Reset.{reset}
use mirror_psrdada_code.Ipcio.Open.{is_open, open_, close}
use mirror_psrdada_code.Ipcio.{Io}
use mirror_psrdada_code.Kernel.{Kernel}
use mirror_psrdada_code.Process.{
  Outcome, ok, fail, asleep, Call, M, pure, ◌>>=◌, ◌>>◌, guard, modify, ignore_status,
}
use mirror_psrdada_code.Process as Process
use mirror_psrdada_code.Shared.{World, is_reader, is_eod}

abbrev pub Memory : Type 0
Memory = ℕ → ℕ

-- `dada_hdu_t`, less the log and the keys. `header` is the copy of a header that the unit allocates.
pub record Hdu : Type 0 where
  pub connected : Bool
  pub data_block : Io
  pub header_block : World
  pub header : Option Memory
  pub header_size : ℕ

abbrev pub on_data {ℓ} : {A : Type ℓ} → Call Io A → Call Hdu A
on_data m h = ((m h.data_block).0, record h { data_block = (m h.data_block).1 })

abbrev pub on_header {ℓ} : {A : Type ℓ} → M A → Call Hdu A
on_header m h = ((m h.header_block).0, record h { header_block = (m h.header_block).1 })

abbrev connected_hdu : Call Hdu (Unit {0})
connected_hdu h = guard h.connected h

-- the C string that starts at byte `i` of a block, of which `n` bytes are left
unfoldable pub text_of : (n : ℕ) → Memory → (i : ℕ) → Bytes
text_of zero m i = []
text_of (suc n) m i = let rest = text_of n m (suc i) in if m i == 0 then [] else m i ∷ rest

-- a C string written to byte `i` and on, with its null
abbrev pub with_text : Bytes → (i : ℕ) → Memory → Memory
with_text text i m o = if leb i o && leb o (i + length text) then byte text (o - i) else m o

-- how `dada_hdu_open` ends when it does not return an error: the header is copied, `memcpy` is given a
-- null pointer, or the assertion that there is no header fails
pub data Opened : Type 0 where
  copied null_target aborted : Opened

-- the header in block `b` with HDR_SIZE set to the size of the block
abbrev size_written : Block → (text : Bytes) → World → World
size_written b text w =
    let new = set text (codes "HDR_SIZE") (print_u64 w.sync.bufsz) in
    record w { mem = update w.mem b.index (with_text new b.offset (w.mem b.index)) }

-- HDR_SIZE of the header in block `b`, or, if there is none, the size of the block, which is then
-- written to the header
abbrev pub read_size : Block → (text : Bytes) → Option Bytes → M ℕ
read_size b text none w = (ok w.sync.bufsz, size_written b text w)
read_size b text (some t) w = elim (scan_number 64 t) [
  | value n ↦ (ok n, w)
  | input_failure ↦ (ok w.sync.bufsz, size_written b text w)
  | no_match ↦ (ok w.sync.bufsz, size_written b text w)
]

-- `memcpy (hdu->header, header, header_size)`
abbrev copy_to : Option Memory → (size : ℕ) → Block → Call Hdu Opened
copy_to none size b h = (ok null_target, h)
copy_to (some m) size b h =
    let from = h.header_block.mem b.index in
    (ok copied, record h { header = some (λ o. if ltb o size then from (b.offset + o) else m o) })

-- the rest of `dada_hdu_open`, once there is a header. `fresh` is what realloc leaves in new memory.
unfoldable pub copy_header : (fresh : Memory) → Block → Call Hdu Opened
copy_header fresh b = do
  h ← Process.get
  let w = h.header_block
  let text = text_of (w.sync.bufsz - b.offset) (w.mem b.index) b.offset
  hdr_size ← on_header (read_size b text (get text (codes "HDR_SIZE")))
  guard (leb hdr_size w.sync.bufsz)
  modify (λ g.
      if ltb g.header_size hdr_size
      then record g { header = some fresh; header_size = hdr_size }
      else g)
  g ← Process.get
  copy_to g.header hdr_size b

module _ ⦃k : Kernel⦄ where
  -- `dada_hdu_lock_read`
  unfoldable pub hdu_lock_read : Call Hdu (Unit {0})
  hdu_lock_read = do connected_hdu; on_header lock_read; on_data (open_ b'R')

  -- `if (ipcio_is_open (…)) if (ipcio_close (…) < 0) return -1;`
  abbrev close_data : Call Hdu (Unit {0})
  close_data h = (if is_open h.data_block then on_data close else pure tt) h

  abbrev pub clear_if_reader : M (Unit {0})
  clear_if_reader w = (if is_reader w.handle then ignore_status mark_cleared else pure tt) w

  -- `dada_hdu_unlock_read` frees the header, and keeps its size
  abbrev free_header : Option Memory → Call Hdu (Unit {0})
  free_header none = pure tt
  free_header (some m) = do modify (λ h. record h { header = none }); on_header clear_if_reader

  -- `dada_hdu_unlock_read`
  unfoldable pub hdu_unlock_read : Call Hdu (Unit {0})
  hdu_unlock_read = do
    connected_hdu
    close_data
    h ← Process.get
    free_header h.header
    on_header unlock_read

  -- `dada_hdu_lock_write_spec`, `dada_hdu_lock_write`
  unfoldable pub lock_write_spec : (writemode : ℕ) → Call Hdu (Unit {0})
  lock_write_spec writemode = do connected_hdu; on_header lock_write; on_data (open_ writemode)

  unfoldable pub hdu_lock_write : Call Hdu (Unit {0})
  hdu_lock_write = lock_write_spec b'W'

  -- `dada_hdu_unlock_write`
  unfoldable pub hdu_unlock_write : Call Hdu (Unit {0})
  hdu_unlock_write = do connected_hdu; close_data; on_header unlock_write

  -- `dada_hdu_open_view`, `dada_hdu_close_view`
  unfoldable pub open_view : Call Hdu (Unit {0})
  open_view = do connected_hdu; on_data (open_ b'r')

  unfoldable pub close_view : Call Hdu (Unit {0})
  close_view = do connected_hdu; on_data close

  -- an empty header in the loop of `dada_hdu_open`
  abbrev pub skip_empty : M (Unit {0})
  skip_empty = do
    clear_if_reader
    w ← Process.get
    (if is_eod w.handle
        then (if is_reader w.handle then ignore_status reset else pure tt)
        else (λ v. (fail, v)))

  -- the loop of `dada_hdu_open`, with a number of rounds: the next header that is not empty
  unfoldable pub next_header : (fuel : ℕ) → M Block
  next_header zero w = (asleep, w)
  next_header (suc fuel) w =
      (do b ← get_next_read; (if b.bytes == 0 then (do skip_empty; next_header fuel) else pure b)) w

  abbrev no_header_yet : Option Memory → Bool
  no_header_yet none = true
  no_header_yet (some m) = false

  -- `dada_hdu_open`
  unfoldable pub hdu_open : (fuel : ℕ) → (fresh : Memory) → Call Hdu Opened
  unfolding next_header copy_header
  hdu_open fuel fresh = do
    h ← Process.get
    (if no_header_yet h.header
        then (do b ← on_header (next_header fuel); copy_header fresh b)
        else pure aborted)
