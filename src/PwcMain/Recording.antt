-- ===== src/PwcMain/Recording.antt =====
-- src/dada_pwc_main.c: `dada_pwc_main_record_start`, by which a client that clocks data starts to
-- record.
use mirror_psrdada_code.Prelude.{ℕ, not, ltb, if◌then◌else◌, add64, sub64, ℤ, some, update}
use mirror_psrdada_code.AsciiHeader.{Bytes, codes}
use mirror_psrdada_code.Hdu.{Memory}
use mirror_psrdada_code.Ipcbuf.Writer.{get_next_write}
use mirror_psrdada_code.Ipcio.Input.{get_soclock_byte}
use mirror_psrdada_code.Ipcio.Open.{get_start_minimum, start}
use mirror_psrdada_code.Kernel.{Kernel}
use mirror_psrdada_code.PwcMain.{Main, Program, with_key, on_data, on_header, dada_error_hard}
use mirror_psrdada_code.PwcMain.Flow.{
  Run, give_up, get, modify, when, ◌>>=◌, ◌>>◌, following, or_return, header_bytes, validate,
  mark_header,
}

-- the first `n` bytes of a copy
abbrev pub copied : (n : ℕ) → (from to : Memory) → Memory
copied n from to o = if ltb o n then from o else to o

-- the byte that a command asks for, and the one that it gets
abbrev pub asked_byte : {C : Type 0} → Main C → ℕ
asked_byte c = add64 (get_soclock_byte c.data_block) c.command.byte_count

abbrev pub start_byte : {C : Type 0} → Main C → ℕ
start_byte c =
    if ltb (asked_byte c) (get_start_minimum c.data_block)
    then get_start_minimum c.data_block
    else asked_byte c

module _ {C : Type 0} where
  -- a command for a byte that has gone is delayed to the earliest byte
  abbrev pub delay : Main C → Main C
  delay c =
      if ltb (asked_byte c) (get_start_minimum c.data_block)
      then record c {
        command = record c.command {
          byte_count = sub64 (get_start_minimum c.data_block) (get_soclock_byte c.data_block);
        };
      }
      else c

  -- the header in block `b`, with a copy of the last one unless it is in that block already
  abbrev pub take_block : (b : ℕ) → Memory → Main C → Main C
  take_block b last c = record c {
    header = some b;
    header_block = record c.header_block {
      mem = update c.header_block.mem b (copied c.header_size last (c.header_block.mem b));
    };
  }

  module _ ⦃k : Kernel⦄ where
    abbrev pub next_header : Run C (Unit {0})
    next_header = do
      b ← following (on_header get_next_write)
      last ← header_bytes
      modify (take_block b last)

    -- the header is handed over, unless that was done before
    abbrev pub show_header : Program C → Run C (Unit {0})
    show_header f = do
      c ← get
      when (not c.header_valid)
          (do valid ← validate f; (if valid then mark_header else give_up dada_error_hard))

    -- `dada_pwc_main_record_start`; 0 printed as a `uint64_t` is "0"
    unfoldable pub record_start : (format_time : ℤ → Bytes) → Program C → Run C (Unit {0})
    record_start format_time f = do
      before ← get
      modify delay
      next_header
      modify (with_key (codes "UTC_START") (format_time before.command.utc))
      modify (with_key (codes "OBS_OFFSET") (codes "0"))
      or_return dada_error_hard (on_data (start (start_byte before)))
      show_header f
