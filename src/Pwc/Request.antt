-- ===== src/Pwc/Request.antt =====
-- src/dada_pwc.c: the commands that arrive at the control port. The text that reports an error is not
-- modelled. `str2utctime` (src/tmutil.c, which ends in the C library's calendar) is a parameter: any
-- function from the argument to a time.
use mirror_psrdada_code.Prelude.{
  ℕ, ◌/◌, true, not, ◌||◌, ltb, ◌==◌, if◌then◌else◌, ℤ, pos, List, Option, none, some, add64, mul64,
  mul32, is_zero, before, seconds_since,
}
use mirror_psrdada_code.Process.{Outcome, ok, fail, asleep, Call}
use mirror_psrdada_code.Pwc.{
  Code, no_command, clock, record_start, record_stop, start, stop, set_utc_start, reset, exit,
  ◌is_code◌, ◌in_state◌, recording, Command, command_init, Primary, command_set,
}

-- a command with its code and its time
abbrev pub at_time : Code → ℤ → Command
at_time code utc = record command_init { code = code; utc = utc }

-- the rounding at the end of `dada_pwc_command_set_byte_count`, to `byte_resolution`
unfoldable pub round_bytes : Code → ℕ → ℕ → ℕ
round_bytes code resolution n =
    if not (ltb 1 resolution)
    then n
    else if code is_code record_stop || code is_code stop
    then add64 (mul64 (n / resolution) resolution) resolution
    else mul64 (n / resolution) resolution

-- `dada_pwc_command_set_byte_count`, on the command that it fills in
unfoldable pub command_set_byte_count : Primary → Command → Outcome Command
unfolding round_bytes
command_set_byte_count p c =
    if not p.convert_to_bytes
    then ok (record c { byte_count = 0 })
    else if is_zero c.utc
    then ok (record c { byte_count = 0 })
    else if is_zero p.utc_start
    then fail
    else if p.bytes_per_second == 0
    then fail
    else if before c.utc p.utc_start
    then ok (record c { utc = pos 0; byte_count = 0 })
    else ok (record c {
      byte_count =
          round_bytes c.code p.byte_resolution
            (mul64 (seconds_since c.utc p.utc_start) p.bytes_per_second);
    })

-- `if (dada_pwc_command_set_byte_count (…) < 0) return -1; return dada_pwc_command_set (…);`
abbrev pub counted_set : Outcome Command → Call Primary (Unit {0})
counted_set (ok c) p = command_set c p
counted_set fail p = (fail, p)
counted_set asleep p = (asleep, p)

-- What sscanf reads of the argument of `duration`: "%u:%u:%u", or else one number, or neither. The
-- values are those of `unsigned` and `uint64_t` variables.
pub data Duration : Type 0 where
  clock_time : (hh mm ss : ℕ) → Duration
  units : ℕ → Duration
  unreadable : Duration

-- `dada_pwc_parse_duration`: 0 for an error. `60 * mm` is computed in `unsigned`.
unfoldable pub parse_duration : Primary → Duration → ℕ
parse_duration p (clock_time hh mm ss) =
    if p.bytes_per_second == 0
    then 0
    else if ltb 59 mm
    then 0
    else if ltb 59 ss
    then 0
    else mul64 (add64 (add64 (mul64 hh 3600) (mul32 60 mm)) ss) p.bytes_per_second
parse_duration p (units n) = if p.bits_per_sample == 0 then 0 else mul64 n p.bits_per_sample / 8
parse_duration p unreadable = 0

-- `dada_pwc_cmd_duration`
unfoldable pub cmd_duration : Option Duration → Call Primary (Unit {0})
unfolding parse_duration
cmd_duration none p = (fail, p)
cmd_duration (some d) p =
    if parse_duration p d == 0
    then (fail, p)
    else if not (p.command.code is_code no_command)
    then (asleep, p)
    else if p.state in_state recording
    then (fail, p)
    else (ok tt, record p { command = record p.command { byte_count = parse_duration p d } })

-- `dada_pwc_cmd_clock`, `dada_pwc_cmd_reset`, `dada_pwc_cmd_quit`
unfoldable pub cmd_clock : Call Primary (Unit {0})
unfolding command_set
cmd_clock = command_set (at_time clock (pos 0))

unfoldable pub cmd_reset : Call Primary (Unit {0})
unfolding command_set
cmd_reset = command_set (at_time reset (pos 0))

unfoldable pub cmd_quit : Call Primary (Unit {0})
unfolding command_set
cmd_quit p = command_set (at_time exit (pos 0)) (record p { quit = true })

module _ (str2utctime : List ℕ → ℤ) where
  -- `dada_pwc_parse_time`: 0 without an argument, -1 for one that is not a time
  abbrev pub parse_time : Option (List ℕ) → ℤ
  parse_time none = pos 0
  parse_time (some args) = str2utctime args

  -- `dada_pwc_cmd_record_start`, `dada_pwc_cmd_record_stop`
  unfoldable pub cmd_record_start : Option (List ℕ) → Call Primary (Unit {0})
  unfolding command_set_byte_count command_set
  cmd_record_start args p =
      let c = at_time record_start (parse_time args) in
      if is_zero c.utc then (fail, p) else counted_set (command_set_byte_count p c) p

  unfoldable pub cmd_record_stop : Option (List ℕ) → Call Primary (Unit {0})
  unfolding command_set_byte_count command_set
  cmd_record_stop args p =
      let c = at_time record_stop (parse_time args) in
      if is_zero c.utc then (fail, p) else counted_set (command_set_byte_count p c) p

  -- `dada_pwc_cmd_start`: the duration is what `cmd_duration` left in the command
  unfoldable pub cmd_start : Option (List ℕ) → Call Primary (Unit {0})
  unfolding command_set
  cmd_start args p =
      command_set (record (at_time start (parse_time args)) { byte_count = p.command.byte_count }) p

  -- `dada_pwc_cmd_stop`
  unfoldable pub cmd_stop : Option (List ℕ) → Call Primary (Unit {0})
  unfolding command_set_byte_count command_set
  cmd_stop args p = counted_set (command_set_byte_count p (at_time stop (parse_time args))) p

  -- `dada_pwc_cmd_set_utc_start`: the start time is stored first
  unfoldable pub cmd_set_utc_start : Option (List ℕ) → Call Primary (Unit {0})
  unfolding command_set_byte_count command_set
  cmd_set_utc_start args p =
      let c = at_time set_utc_start (parse_time args) in
      let q = record p { utc_start = c.utc } in counted_set (command_set_byte_count q c) q
