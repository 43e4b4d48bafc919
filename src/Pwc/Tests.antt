-- ===== src/Pwc/Tests.antt =====
-- src/dada_pwc.c: a primary write client at work.
use mirror_psrdada_code.Prelude.{
  ◌*◌, ◌≡◌, ◌≢◌, ◌⊎◌, refl, arith, true, false, pos, negsuc, List, [], ◌∷◌, none, some,
}
use mirror_psrdada_code.AsciiHeader.{input_failure}
use mirror_psrdada_code.Pwc.Header.{Environment}
use mirror_psrdada_code.Process.{ok, fail}
use mirror_psrdada_code.Pwc.{
  PwcState, idle, prepared, clocking, recording, Code, Command, command_init, Primary, create,
  set_state, may_change, command_set, may_command, command_get,
}
use mirror_psrdada_code.Pwc.Diagram.{◌⟶◌, set_state-diagram}
use mirror_psrdada_code.Pwc.Request.{
  at_time, units, command_set_byte_count, round_bytes, cmd_duration, parse_duration, cmd_clock,
  cmd_start, cmd_stop,
}
use mirror_psrdada_code.Pwc.Session.{
  Event, request, receive, enter, clock, quit, start, stop, duration, run, happen, perform, opened,
  waiting,
}
use mirror_psrdada_code.Pwc.Session.Delivery.{run-exactly_once}
use mirror_psrdada_code.Pwc.Rounding.{command_set_byte_count-rounds, Rounded}

-- a client that reads every argument as the time -1, the error
abbrev no_times : Environment
no_times = record {
  str2utctime = λ args. negsuc 0;
  scan_rate = λ text. input_failure;
  left = λ keyword. 0;
  left_rate = λ bits. 0;
}

abbrev fresh : Primary
fresh = record {
  quit = false;
  state = idle;
  convert_to_bytes = true;
  bytes_per_second = 1000;
  bits_per_sample = 8;
  byte_resolution = 64;
  utc_start = pos 100;
  command = command_init;
  text = [];
  header_size = 4096;
}

abbrev at_state : PwcState → Primary
at_state s = record fresh { state = s }

set_state-diagram_example :
    ((prepared ⟶ recording)
      × ((set_state recording (pos 7) (at_state prepared)).0 ≡ ok tt)
      × ((set_state recording (pos 7) (at_state prepared)).1.state ≡ recording)
      × ((prepared ≡ prepared)
            × ((set_state recording (pos 7) (at_state prepared)).1.utc_start ≡ pos 7)
          ⊎ (prepared ≢ prepared)
            × ((set_state recording (pos 7) (at_state prepared)).1.utc_start ≡ pos 100)))
    ⊎ ((¬ (prepared ⟶ recording))
        × (set_state recording (pos 7) (at_state prepared) ≡ (fail, at_state prepared)))
set_state-diagram_example = set_state-diagram recording (pos 7) (at_state prepared)

-- a stop is asked for and received, the client is prepared, clocks, and is asked to clock again
abbrev events : List Event
events =
    request clock
    ∷ enter clocking (pos 5)
    ∷ receive
    ∷ request clock
    ∷ enter prepared (pos 0)
    ∷ receive
    ∷ request (stop none)
    ∷ []

run-events :
    let s = run no_times events (opened [] command_init 4096) in
    (s.accepted ≡ at_time Code.clock (pos 0) ∷ at_time Code.stop (pos 0) ∷ [])
    × (s.received ≡ s.accepted)
    × (s.primary.state ≡ clocking)
unfolding run happen perform opened create cmd_clock cmd_stop command_set may_command command_get
    set_state may_change command_set_byte_count
run-events = (refl, refl, refl)

run-exactly_once_example :
    let s = run no_times events (opened [] command_init 4096) in
    s.accepted ≡ waiting s.primary.command s.received
run-exactly_once_example = run-exactly_once no_times events [] command_init 4096

-- ten seconds at 1000 bytes a second, in packets of 64 bytes
abbrev at_110 : Command
at_110 = at_time Code.record_stop (pos 110)

rounds_110 : command_set_byte_count fresh at_110 ≡ ok (record at_110 { byte_count = 10048 })
unfolding command_set_byte_count round_bytes
rounds_110 = refl

command_set_byte_count-rounds_example :
    (d : Command) × (command_set_byte_count fresh at_110 ≡ ok d)
    × (d.code ≡ Code.record_stop)
    × (d.utc ≡ pos 110)
    × Rounded Code.record_stop 64 (10 * 1000) d.byte_count
command_set_byte_count-rounds_example =
    command_set_byte_count-rounds fresh at_110 99 10 refl refl refl (omega arith) (omega arith)
      (omega arith)

-- a duration that is given before the client is prepared does not reach the recording
duration_lost :
    let s =
      run no_times
        (request (start none)
          ∷ receive
          ∷ request clock
          ∷ enter prepared (pos 0)
          ∷ request (duration (some (units 80)))
          ∷ [])
        (record { primary = fresh; accepted = []; received = [] }) in
    s.primary.command.byte_count ≡ 0
unfolding run happen perform cmd_clock cmd_start cmd_duration parse_duration command_set may_command
    command_get set_state may_change
duration_lost = refl
