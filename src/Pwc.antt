-- ===== src/Pwc.antt =====
-- src/dada_pwc.h, src/dada_pwc.c: the primary write client as its controller and the thread that
-- writes share it, and what `dada_pwc_set_state` does with it. The mutex is held in `command_set`,
-- `command_get` and `set_state`, each of which is one step here; a wait on the condition is `asleep`.
pub mod Diagram
pub mod Request
pub mod Header
pub mod Session
pub mod Traces
pub mod Rounding
pub mod Refused
mod Names
mod Tests
use mirror_psrdada_code.Prelude.{ℕ, Bool, true, false, not, ◌||◌, ◌==◌, ℤ, pos, List, if◌then◌else◌}
use mirror_psrdada_code.Process.{ok, fail, asleep, Call}

-- `dada_pwc_state_t`
pub data PwcState : Type 0 where
  undefined pending idle prepared clocking recording soft_error hard_error fatal_error : PwcState

-- the codes of the commands
pub data Code : Type 0 where
  no_command header clock record_start record_stop start stop set_utc_start reset exit : Code

-- the numbers that the enumerators stand for
abbrev pub state_number : PwcState → ℕ
state_number undefined = 0
state_number pending = 1
state_number idle = 2
state_number prepared = 3
state_number clocking = 4
state_number recording = 5
state_number soft_error = 6
state_number hard_error = 7
state_number fatal_error = 8

abbrev pub code_number : Code → ℕ
code_number no_command = 0
code_number header = 1
code_number clock = 2
code_number record_start = 3
code_number record_stop = 4
code_number start = 5
code_number stop = 6
code_number set_utc_start = 7
code_number reset = 8
code_number exit = 9

infix 50 ◌in_state◌ ◌is_code◌
abbrev pub ◌in_state◌ : PwcState → PwcState → Bool
a in_state b = state_number a == state_number b

abbrev pub ◌is_code◌ : Code → Code → Bool
a is_code b = code_number a == code_number b

-- `dada_pwc_command_t`. Its `header`, when it is not null, is the primary's own buffer: `with_header`
-- says that the pointer is set.
pub record Command : Type 0 where
  pub code : Code
  pub utc : ℤ
  pub byte_count : ℕ
  pub with_header : Bool

-- DADA_PWC_COMMAND_INIT
abbrev pub command_init : Command
command_init = record { code = no_command; utc = pos 0; byte_count = 0; with_header = false }

-- `dada_pwc_t`, less the host, the identifier, the parser and the server of the control connection and
-- the log. `text` is the C string in `header`.
pub record Primary : Type 0 where
  pub quit : Bool
  pub state : PwcState
  pub convert_to_bytes : Bool
  pub bytes_per_second : ℕ
  pub bits_per_sample : ℕ
  pub byte_resolution : ℕ
  pub utc_start : ℤ
  pub command : Command
  pub text : List ℕ
  pub header_size : ℕ

-- `dada_pwc_create`. What malloc leaves in the header and in the rest of the command is not known:
-- they are arguments.
unfoldable pub create : List ℕ → Command → ℕ → Primary
create text command page_size = record {
  quit = false;
  state = idle;
  convert_to_bytes = true;
  bytes_per_second = 0;
  bits_per_sample = 0;
  byte_resolution = 0;
  utc_start = pos 0;
  command = record command { code = no_command };
  text = text;
  header_size = page_size;
}

-- the switch of `dada_pwc_set_state`: may the state change?
unfoldable pub may_change : PwcState → PwcState → Bool
may_change idle s =
    s in_state prepared
    || (s in_state soft_error || (s in_state hard_error || s in_state fatal_error))
may_change prepared s =
    s in_state idle
    || (s in_state clocking
        || (s in_state recording
            || (s in_state soft_error || (s in_state hard_error || s in_state fatal_error))))
may_change clocking s =
    s in_state recording
    || (s in_state idle
        || (s in_state soft_error || (s in_state hard_error || s in_state fatal_error)))
may_change recording s =
    s in_state clocking
    || (s in_state idle
        || (s in_state soft_error || (s in_state hard_error || s in_state fatal_error)))
may_change soft_error s = s in_state idle
may_change hard_error s = s in_state idle
may_change fatal_error s = false
may_change undefined s = false
may_change pending s = false

-- `dada_pwc_set_state`. Leaving PREPARED also sets the start time.
unfoldable pub set_state : PwcState → ℤ → Call Primary (Unit {0})
unfolding may_change
set_state new_state utc p = if not (may_change p.state new_state) then (fail, p) else (
  ok tt,
  record p {
    state = new_state;
    utc_start = if p.state in_state prepared then utc else p.utc_start;
  },
)

-- the switch of `dada_pwc_command_set`: the state that a command needs
unfoldable pub may_command : Code → PwcState → Bool
may_command no_command s = true
may_command header s = s in_state idle
may_command clock s = s in_state prepared
may_command record_start s = s in_state clocking
may_command record_stop s = s in_state recording
may_command start s = s in_state prepared
may_command stop s = true
may_command set_utc_start s = s in_state clocking || s in_state recording
may_command reset s = s in_state soft_error || s in_state hard_error
may_command exit s = s in_state idle

-- `dada_pwc_command_set`: waits while a command is pending
unfoldable pub command_set : Command → Call Primary (Unit {0})
unfolding may_command
command_set command p =
    if not (p.command.code is_code no_command)
    then (asleep, p)
    else if may_command command.code p.state
    then (ok tt, record p { command = command })
    else (fail, p)

-- `dada_pwc_command_check`
unfoldable pub command_check : Primary → Bool
command_check p = not (p.command.code is_code no_command)

-- `dada_pwc_command_get`: waits until a command is pending
unfoldable pub command_get : Call Primary Command
command_get p = if p.command.code is_code no_command then (asleep, p) else (
  ok p.command,
  record p { command = record p.command { code = no_command; byte_count = 0 } },
)
