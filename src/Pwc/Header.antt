-- ===== src/Pwc/Header.antt =====
-- src/dada_pwc.c: `dada_pwc_cmd_header`, which takes a new header and finds the data's rate in it.
use mirror_psrdada_code.Prelude.{
  ℕ, ◌+◌, ◌-◌, ◌/◌, ◌%◌, ◌^◌, true, not, ◌&&◌, ltb, ◌==◌, if◌then◌else◌, [], ◌∷◌, ◌++◌, Option,
  none, some, ℤ, mul32, mul64,
}
use mirror_psrdada_code.AsciiHeader.{
  Bytes, codes, length, byte, get, set, Scanned, input_failure, no_match, value, scan_number,
  print_u64,
}
use mirror_psrdada_code.Process.{ok, fail, Call, continue, ◌>>◌}
use mirror_psrdada_code.Pwc.{header, Command, command_init, Primary, command_set}

-- What the calls rely on that is not in src/dada_pwc.c: `str2utctime`, which ends in the C library's
-- calendar; the arithmetic in `double` of a sampling interval, "%lf" of sscanf and then
-- `(uint64_t) (bits / interval)`; and what the local variables hold before they are set, by keyword.
pub record Environment : Type 0 where
  pub str2utctime : Bytes → ℤ
  pub scan_rate : Bytes → Scanned (ℕ → ℕ)
  pub left : Bytes → ℕ
  pub left_rate : ℕ → ℕ

-- `ascii_header_get (header, keyword, "%d", &n) < 0`: the default is for a keyword that is not there or
-- has no text. A text that is not a number leaves the variable as it was.
abbrev scanned_or {ℓ} : {A : Type ℓ} → (default left : A) → Scanned A → A
scanned_or default left input_failure = default
scanned_or default left no_match = left
scanned_or default left (value n) = n

abbrev found_or : (default left : ℕ) → Option Bytes → ℕ
found_or default left none = default
found_or default left (some text) = scanned_or default left (scan_number 32 text)

abbrev found_rate : (left : ℕ → ℕ) → (Bytes → Scanned (ℕ → ℕ)) → Option Bytes → Option (ℕ → ℕ)
found_rate left scan none = none
found_rate left scan (some text) = elim (scan text) [
  | input_failure ↦ none
  | no_match ↦ some left
  | value f ↦ some f
]

-- `'\\'` becomes a new line
unfoldable pub unescape : Bytes → Bytes
unescape [] = []
unescape (c ∷ s) = (if c == b'\\' then b'\n' else c) ∷ unescape s

-- the new header with a new line at its end, if there is room, and with its rate
abbrev pub header_stored : Bytes → Primary → Primary
header_stored args p =
    let ended =
      if not (byte args (length args - 1) == b'\n') && ltb (length args + 1) p.header_size
      then args ++ codes "\n"
      else args in
    record p { text = set ended (codes "BYTES_PER_SECOND") (print_u64 p.bytes_per_second) }

abbrev pub header_command : Command
header_command = record command_init { code = header; with_header = true }

module _ (c : Environment) where
  abbrev field_of : Bytes → Bytes → ℕ → ℕ
  field_of text keyword default = found_or default (c.left keyword) (get text keyword)

  abbrev pub sampled : (nchan nant : ℕ) → Option (ℕ → ℕ) → Call Primary (Unit {0})
  sampled nchan nant none p = (fail, record p { bytes_per_second = 0 })
  sampled nchan nant (some rate) p =
      let bits = mul64 (mul64 (mul64 1000000 p.bits_per_sample) nchan) nant in
      (ok tt, record p { bytes_per_second = rate bits % 2 ^ 64 / 8 })

  -- `dada_pwc_parse_bytes_per_second`
  unfoldable pub parse_bytes_per_second : Bytes → Call Primary (Unit {0})
  unfolding get scan_number
  parse_bytes_per_second text p =
      let npol = field_of text (codes "NPOL") 2 in
      let nbit = field_of text (codes "NBIT") 8 in
      let ndim = field_of text (codes "NDIM") 1 in
      let nchan = field_of text (codes "NCHAN") 1 in
      let nant = field_of text (codes "NANT") 1 in
      let resolution = found_or 1 1 (get text (codes "RESOLUTION")) in
      sampled nchan nant (found_rate c.left_rate c.scan_rate (get text (codes "TSAMP")))
        (record p { byte_resolution = resolution; bits_per_sample = mul32 (mul32 nbit npol) ndim })

  -- `dada_pwc_cmd_header` before it sets its command. A text of `header_size` bytes passes, for which
  -- the buffer has no room with the null at its end.
  unfoldable pub load_header : Option Bytes → Call Primary (Unit {0})
  unfolding parse_bytes_per_second unescape
  load_header none p = (fail, p)
  load_header (some args) p =
      if ltb p.header_size (length args)
      then (fail, p)
      else continue (parse_bytes_per_second (unescape args) p).0
          (parse_bytes_per_second (unescape args) p).1
          (λ u q. (ok tt, header_stored (unescape args) q))

  -- `dada_pwc_cmd_header`
  unfoldable pub cmd_header : Option Bytes → Call Primary (Unit {0})
  unfolding load_header command_set
  cmd_header args = load_header args >> command_set header_command
