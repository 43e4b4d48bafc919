-- ===== src/Client/Read.antt =====
-- src/dada_client.c: `dada_client_read`, which takes a header and all the data that go with it from a
-- ring. Measuring the time is not modelled.
use mirror_psrdada_code.Prelude.{
  ℕ, zero, suc, ◌+◌, ◌-◌, ltb, leb, ◌==◌, if◌then◌else◌, ℤ, pos, negsuc, add64, update, Option,
  none, some,
}
use mirror_psrdada_code.AsciiHeader.{
  Bytes, codes, get, set, input_failure, no_match, value, scan_number, print_u64,
}
use mirror_psrdada_code.Client.{
  Memory, Client, Functions, Header, own, in_block, on_data, on_header,
}
use mirror_psrdada_code.Client.Transfer.{transfer}
use mirror_psrdada_code.Hdu.{text_of, with_text, read_size}
use mirror_psrdada_code.Ipcbuf.Reader.{Block, get_next_read, mark_cleared}
use mirror_psrdada_code.Ipcbuf.Reset.{reset}
use mirror_psrdada_code.Ipcio.{on_buf}
use mirror_psrdada_code.Kernel.{Kernel}
use mirror_psrdada_code.Process.{
  Outcome, ok, fail, asleep, Call, M, pure, ◌>>=◌, ◌>>◌, guard, modify, ignore_status,
}
use mirror_psrdada_code.Process as Process
use mirror_psrdada_code.Shared.{World, is_eod}

-- How `dada_client_read` ends where it does not return -1: with 0, with DADA_ERROR_FATAL, or with a null
-- pointer that is followed.
pub data ReadEnd : Type 0 where
  served fatal no_header : ReadEnd

-- a call that may return a null pointer
abbrev or_null : Outcome Block × World → Outcome (Option Block) × World
or_null (ok b, w) = (ok (some b), w)
or_null (fail, w) = (ok none, w)
or_null (asleep, w) = (asleep, w)

abbrev pub offset_of : Option Bytes → ℕ
offset_of none = 0
offset_of (some text) = elim (scan_number 64 text) [
  | value n ↦ n
  | input_failure ↦ 0
  | no_match ↦ 0
]

module _ ⦃k : Kernel⦄ where
  -- an empty block, which is an error before the end of the data
  abbrev skip_empty : M (Unit {0})
  skip_empty = do
    ignore_status mark_cleared
    w ← Process.get
    (if is_eod w.handle then ignore_status reset else (λ v. (fail, v)))

  abbrev full_or : M (Option Block) → Option Block → M (Option Block)
  full_or again none = pure none
  full_or again (some b) = if b.bytes == 0 then (do skip_empty; again) else pure (some b)

  -- the next header that is not empty, in a number of rounds; none where there is no next block
  unfoldable pub valid_header : (fuel : ℕ) → M (Option Block)
  unfolding get_next_read mark_cleared reset
  valid_header zero w = (asleep, w)
  valid_header (suc fuel) w =
      (do b ← (λ v. or_null (get_next_read v)); full_or (valid_header fuel) b) w

module _ {C : Type 0} where
  -- what the header of the client points to, and the client after a change of it
  abbrev pub header_memory : Client C → Header → Memory
  header_memory c (own m) = m
  header_memory c (in_block b) = c.header_block.mem b

  abbrev pub with_memory : Memory → Header → Client C → Client C
  with_memory m (own old) c = record c { header = own m }
  with_memory m (in_block b) c = record c {
    header_block = record c.header_block { mem = update c.header_block.mem b m };
  }

  abbrev pub header_text : Client C → Bytes
  header_text c = text_of c.header_size (header_memory c c.header) 0

  -- `memcpy (client->header, header, header_size)`
  abbrev copy_header : (size : ℕ) → Block → Client C → Client C
  copy_header size b c =
      let to = header_memory c c.header in
      let from = c.header_block.mem b.index in
      with_memory (λ o. if ltb o size then from (b.offset + o) else to o) c.header c

  -- the client's copy of the header in block `b`. `fresh` is what is in newly allocated memory.
  unfoldable pub duplicate_header : (fresh : Memory) → Block → Call (Client C) (Unit {0})
  unfolding text_of
  duplicate_header fresh b = do
    c ← Process.get
    let w = c.header_block
    let text = text_of (w.sync.bufsz - b.offset) (w.mem b.index) b.offset
    hdr_size ← on_header (read_size b text (get text (codes "HDR_SIZE")))
    guard (leb hdr_size w.sync.bufsz)
    modify (λ d.
        if ltb d.header_size hdr_size
        then record d { header = own fresh; header_size = hdr_size }
        else d)
    modify (copy_header hdr_size b)

  -- `ascii_header_set (client->header, "OBS_OFFSET", …)`
  unfoldable pub with_offset : (obs_offset : ℕ) → Client C → Client C
  unfolding text_of
  with_offset obs_offset c =
      let text = set (header_text c) (codes "OBS_OFFSET") (print_u64 obs_offset) in
      with_memory (with_text text 0 (header_memory c c.header)) c.header c

  -- A transfer that moved a number of bytes; a negative number is an error.
  abbrev pub moved_on : (ℕ → Call (Client C) (Unit {0})) → ℤ → Call (Client C) (Unit {0})
  moved_on again (pos n) c = again n c
  moved_on again (negsuc n) c = (fail, c)

  module _ ⦃k : Kernel⦄ where
    module _ (f : Functions C) (default_size loops rounds : ℕ) where
      -- Transfers up to the end of the data, in a number of rounds. Each has its place in the header.
      unfoldable pub deliver : (fuel obs_offset : ℕ) → Call (Client C) (Unit {0})
      unfolding with_offset transfer
      deliver zero obs_offset c = (asleep, c)
      deliver (suc fuel) obs_offset c =
          (if is_eod c.data_block.world.handle then pure tt else (do
            modify (with_offset obs_offset)
            n ← transfer f default_size loops rounds
            moved_on (λ m. deliver fuel (add64 obs_offset m)) n))
            c

      -- `dada_client_read` from its first header on
      abbrev read_data : (fuel : ℕ) (fresh : Memory) → Option Block → Call (Client C) ReadEnd
      read_data fuel fresh none = pure fatal
      read_data fuel fresh (some b) = do
        duplicate_header fresh b
        on_header (ignore_status mark_cleared)
        c ← Process.get
        (if c.header_size == 0 then pure no_header else (do
          deliver fuel (offset_of (get (header_text c) (codes "OBS_OFFSET")))
          on_data (on_buf (ignore_status reset))
          pure served))

      -- `dada_client_read`
      unfoldable pub client_read : (fuel headers : ℕ) (fresh : Memory) → Call (Client C) ReadEnd
      unfolding valid_header duplicate_header deliver
      client_read fuel headers fresh = do
        b ← on_header (valid_header headers)
        read_data fuel fresh b
