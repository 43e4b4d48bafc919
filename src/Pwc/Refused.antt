-- ===== src/Pwc/Refused.antt =====
-- src/dada_pwc.c: what a request leaves that is refused or has to wait, and a time that cannot be read.
use mirror_psrdada_code.Prelude.{
  ◌≤◌, ◌⊎◌, ◌≡◌, ℕ, List, some, true, pos, negsuc, suc, ◌<◌, ◌++◌, arith,
}
use mirror_psrdada_code.Pwc.Header.{Environment, unescape}
use mirror_psrdada_code.AsciiHeader.{Bytes, codes, length, set, print_u64}
use mirror_psrdada_code.Process.{ok}
use mirror_psrdada_code.Pwc.{clocking, Code, no_command, Primary, may_command, command_set}
use mirror_psrdada_code.Pwc.Request.{at_time, parse_time, command_set_byte_count, cmd_record_start}
use mirror_psrdada_code.Pwc.Session.{Request, header, quit, record_start, set_utc_start}

-- A header that was taken in before the command was refused: nothing else has changed. Without a
-- sampling interval in it the rate is 0 and the old text stays; otherwise the text is the header's own
-- `args`, with a new line at its end or as it is, in which the rate is set.
abbrev pub Headed : (args : Bytes) (before after : Primary) → Type 0
Headed args p q =
    (q ≡ record p {
      text = q.text;
      bytes_per_second = q.bytes_per_second;
      byte_resolution = q.byte_resolution;
      bits_per_sample = q.bits_per_sample;
    })
    × ((q.bytes_per_second ≡ 0) × (q.text ≡ p.text)
        ⊎ (t : Bytes) × ((t ≡ args) ⊎ (t ≡ args ++ codes "\n"))
          × (q.text ≡ set t (codes "BYTES_PER_SECOND") (print_u64 q.bytes_per_second)))

module _ (e : Environment) where
  -- what a request leaves that is not accepted
  abbrev pub Left : Request → (before after : Primary) → Type 0
  Left quit p q = q ≡ record p { quit = true }
  Left (set_utc_start args) p q = q ≡ record p { utc_start = parse_time e.str2utctime args }
  Left (header (some args)) p q =
      ((p.header_size < length args) × (q ≡ p))
      ⊎ ((length args ≤ p.header_size) × Headed (unescape args) p q)
  Left _ p q = q ≡ p

  -- The time of `rec_start` that cannot be read counts as one that is given: on a clocking client that
  -- knows the start time and the rate of its data, the command is accepted, with no time and byte 0.
  cmd_record_start-unreadable :
      (args : List ℕ) (p : Primary) (t0 : ℕ)
      → e.str2utctime args ≡ negsuc 0
      → p.state ≡ clocking
      → p.command.code ≡ no_command
      → p.convert_to_bytes ≡ true
      → p.utc_start ≡ pos (suc t0)
      → 0 < p.bytes_per_second
      → cmd_record_start e.str2utctime (some args) p
        ≡ (ok tt, record p { command = at_time Code.record_start (pos 0) })
  unfolding cmd_record_start command_set_byte_count command_set may_command
  cmd_record_start-unreadable args p t0 a b c d known rate = rw (a, b, c, d, known) (ground arith)
