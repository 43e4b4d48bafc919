-- ===== src/Pwc/Names.antt =====
-- src/dada_pwc.c: the names of states and commands, and how a name is read.
use mirror_psrdada_code.Prelude.{
  ℕ, ◌+◌, Bool, true, false, ◌&&◌, leb, ◌==◌, if◌then◌else◌, ◌≡◌, refl, [], ◌∷◌,
}
use mirror_psrdada_code.AsciiHeader.{Bytes, codes}
use mirror_psrdada_code.Pwc.{
  PwcState, undefined, pending, idle, prepared, clocking, recording, soft_error, hard_error,
  fatal_error, Code, no_command, header, clock, record_start, record_stop, start, stop,
  set_utc_start, reset, exit,
}

-- `dada_pwc_state_to_string`
unfoldable pub state_to_string : PwcState → Bytes
state_to_string pending = codes "pending"
state_to_string idle = codes "idle"
state_to_string prepared = codes "prepared"
state_to_string clocking = codes "clocking"
state_to_string recording = codes "recording"
state_to_string soft_error = codes "soft_error"
state_to_string hard_error = codes "hard_error"
state_to_string fatal_error = codes "fatal_error"
state_to_string undefined = codes "undefined"

abbrev lower : ℕ → ℕ
lower c = if leb b'A' c && leb c b'Z' then c + 32 else c

-- `!strcasecmp (a, b)`
unfoldable same_word : Bytes → Bytes → Bool
same_word [] [] = true
same_word (x ∷ a) (y ∷ b) = lower x == lower y && same_word a b
same_word _ _ = false

-- `dada_pwc_string_to_state`
unfoldable pub string_to_state : Bytes → PwcState
unfolding same_word
string_to_state key =
    if same_word key (codes "pending")
    then pending
    else if same_word key (codes "idle")
    then idle
    else if same_word key (codes "prepared")
    then prepared
    else if same_word key (codes "clocking")
    then clocking
    else if same_word key (codes "recording")
    then recording
    else if same_word key (codes "soft_error")
    then soft_error
    else if same_word key (codes "hard_error")
    then hard_error
    else if same_word key (codes "fatal_error")
    then fatal_error
    else undefined

-- `dada_pwc_cmd_code_string`
unfoldable pub cmd_code_string : Code → Bytes
cmd_code_string no_command = codes "no_command"
cmd_code_string header = codes "header"
cmd_code_string clock = codes "clock"
cmd_code_string record_start = codes "record_start"
cmd_code_string record_stop = codes "record_stop"
cmd_code_string start = codes "start"
cmd_code_string stop = codes "stop"
cmd_code_string set_utc_start = codes "set_utc_start"
cmd_code_string reset = codes "reset"
cmd_code_string exit = codes "exit"

-- The name that is printed for a state is read as that state.
string_to_state-state_to_string : (s : PwcState) → string_to_state (state_to_string s) ≡ s
unfolding string_to_state state_to_string
string_to_state-state_to_string undefined = refl
string_to_state-state_to_string pending = refl
string_to_state-state_to_string idle = refl
string_to_state-state_to_string prepared = refl
string_to_state-state_to_string clocking = refl
string_to_state-state_to_string recording = refl
string_to_state-state_to_string soft_error = refl
string_to_state-state_to_string hard_error = refl
string_to_state-state_to_string fatal_error = refl
