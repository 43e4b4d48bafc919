-- ===== src/Pwc/Session.antt =====
-- src/dada_pwc.c: the thread that serves the control port and the thread that writes, on one primary.
-- A session is any sequence of their calls. Beside the primary it keeps the commands that were
-- accepted and those that the writing thread got, the latest first.
pub mod Delivery
use mathlib.Core.Path.{subst}
use mirror_psrdada_code.Prelude.{
  ◌≡◌, ◌⊎◌, inl, inr, refl, ap, ◌∙◌, Bool, true, false, if◌then◌else◌, Bool-cases, ℕ, ℤ, List, [],
  ◌∷◌, Option, none, some, pos, is_zero, arith,
}
use mirror_psrdada_code.Pwc.Header.{
  Environment, header_command, cmd_header, load_header, parse_bytes_per_second,
}
use mirror_psrdada_code.Process.{continue, Outcome, ok, fail, asleep, Call}
use mirror_psrdada_code.Pwc.{
  PwcState, Code, no_command, ◌is_code◌, Command, Primary, create, may_command, set_state,
  command_set, command_get,
}
use mirror_psrdada_code.Pwc.Request.{
  Duration, at_time, parse_time, counted_set, command_set_byte_count, cmd_duration, cmd_clock,
  cmd_reset, cmd_quit, cmd_record_start, cmd_record_stop, cmd_start, cmd_stop, cmd_set_utc_start,
}

-- what arrives at the control port
pub data Request : Type 0 where
  duration : Option Duration → Request
  clock reset quit : Request
  header record_start record_stop start stop set_utc_start : Option (List ℕ) → Request

abbrev pub is_duration : Request → Bool
is_duration (duration d) = true
is_duration _ = false

pub data Event : Type 0 where
  -- the controller
  request : Request → Event
  -- the writing thread: `dada_pwc_command_get`, `dada_pwc_set_state`
  receive : Event
  enter : PwcState → ℤ → Event

pub record Session : Type 0 where
  pub primary : Primary
  pub accepted : List Command
  pub received : List Command

abbrev pub requested : Bool → Outcome (Unit {0}) → Primary → Session → Session
requested false (ok u) q s = record s { primary = q; accepted = q.command ∷ s.accepted }
requested _ _ q s = record s { primary = q }

abbrev pub got : Outcome Command → Primary → Session → Session
got (ok c) q s = record s { primary = q; received = c ∷ s.received }
got fail q s = record s { primary = q }
got asleep q s = record s { primary = q }

module _ (e : Environment) where
  unfoldable pub perform : Request → Call Primary (Unit {0})
  perform (duration d) = cmd_duration d
  perform (header args) = cmd_header e args
  perform clock = cmd_clock
  perform reset = cmd_reset
  perform quit = cmd_quit
  perform (record_start args) = cmd_record_start e.str2utctime args
  perform (record_stop args) = cmd_record_stop e.str2utctime args
  perform (start args) = cmd_start e.str2utctime args
  perform (stop args) = cmd_stop e.str2utctime args
  perform (set_utc_start args) = cmd_set_utc_start e.str2utctime args

  unfoldable pub happen : Event → Session → Session
  unfolding perform
  happen (request r) s = requested (is_duration r) (perform r s.primary).0 (perform r s.primary).1 s
  happen receive s = got (command_get s.primary).0 (command_get s.primary).1 s
  happen (enter st t) s = record s { primary = (set_state st t s.primary).1 }

  -- the first event is the last of the list
  unfoldable pub run : List Event → Session → Session
  unfolding happen
  run [] s = s
  run (v ∷ vs) s = happen v (run vs s)

-- the commands that wait: one, or none
abbrev pub waiting : Command → List Command → List Command
waiting c received = if c.code is_code no_command then received else c ∷ received

-- a new primary
unfoldable pub opened : List ℕ → Command → ℕ → Session
unfolding create
opened text command page_size = record {
  primary = create text command page_size;
  accepted = [];
  received = [];
}
