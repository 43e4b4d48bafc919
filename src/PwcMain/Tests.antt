-- ===== src/PwcMain/Tests.antt =====
-- src/dada_pwc_main.c: steps of the main loop of a small client.
use mirror_psrdada_code.Prelude.{
  ℕ, ◌+◌, [], ◌≡◌, ◌⊎◌, inl, inr, refl, pos, negsuc, true, false, some, none,
}
use mirror_psrdada_code.AsciiHeader.{codes}
use mirror_psrdada_code.Ipcio.StreamTests.{stream}
use mirror_psrdada_code.Ipcbuf.Lock.{lock_write}
use mirror_psrdada_code.Ipcio.Open.{open_, open_write}
use mirror_psrdada_code.Kernel.{assign}
use mirror_psrdada_code.Machine.{test_kernel, fresh_sync, fresh_sems, writer_world}
use mirror_psrdada_code.Process.{ok}
use mirror_psrdada_code.Pwc.{
  PwcState, recording, soft_error, clock, start, prepared, Primary, create, command_init, set_state,
  may_change, may_command, command_get,
}
use mirror_psrdada_code.Pwc.Diagram.{Working, Failed, at_recording}
use mirror_psrdada_code.PwcMain.{
  Main, Program, prepare_round, prepare_command, process_error, error_state, stop_transfer,
  start_transfer,
}
use mirror_psrdada_code.PwcMain.Errors.{process_error-state}
use mirror_psrdada_code.PwcMain.Prepare.{prepare_round-Ready}
use mirror_psrdada_code.PwcMain.Start.{Started, start_transfer-Started}
use mirror_psrdada_code.PwcMain.Stop.{Ended, stop_transfer-Ended}
use mirror_psrdada_code.Shared.{writing, viewer, write_sem}

abbrev primary_at : PwcState → Primary
primary_at s = record (create [] command_init 4096) { state = s }

-- a program that starts at time 7 and counts its stops
abbrev test_program : Program ℕ
test_program = record {
  start_function = λ n utc. (pos 7, n);
  stop_function = λ n. (true, n + 1);
  header_valid_function = none;
  buffer_function = λ n. (some (λ o. o), pos 8, n);
  has_block_function = false;
  block_function = λ n m size block_id. (pos size, (λ o. o), n);
  error_function = none;
  transfers = none;
}

-- a client that records to a ring, with a header in block 0
abbrev test_main : Main ℕ
test_main = record {
  pwc = primary_at recording;
  data_block =
      stream (writer_world writing (record fresh_sync { w_buf_next = 1 }) fresh_sems) b'W' 1;
  header_block = writer_world writing (record fresh_sync { w_buf_next = 1 }) fresh_sems;
  header = some 0;
  header_size = 4;
  header_valid = true;
  command = command_init;
  context = 0;
}

process_error-state_example :
    (Working recording × ((process_error (negsuc 0) (primary_at recording)).state ≡ soft_error))
    ⊎ (Failed recording × (process_error (negsuc 0) (primary_at recording) ≡ primary_at recording))
process_error-state_example =
    process_error-state (negsuc 0) (primary_at recording) (inl at_recording)

stop_transfer-Ended_example :
    Ended (record test_main { header_valid = false }) (stop_transfer test_program test_main)
stop_transfer-Ended_example = stop_transfer-Ended test_program test_main (inl at_recording)

-- a fatal error after a soft one
not_raised : (process_error (negsuc 2) (primary_at soft_error)).state ≡ soft_error
unfolding process_error set_state error_state create may_change
not_raised = refl

-- the same client before it clocks data
abbrev ready_main : Main ℕ
ready_main = record test_main {
  pwc = primary_at prepared;
  command = record command_init { code = clock };
}

start_transfer-Started_example :
    Started clock
      (pos 7)
      (start_transfer (λ t. codes "1970-01-01-00:00:07") test_program ready_main)
start_transfer-Started_example =
    start_transfer-Started (λ t. codes "1970-01-01-00:00:07") test_program ready_main refl
      (inr refl)

clocks : (start_transfer (λ t. codes "1970-01-01-00:00:07") test_program ready_main).0 ≡ ok (pos 0)
unfolding start_transfer set_state may_change
clocks = refl

-- a prepared client that has been told to start, with its data block closed
abbrev told_main : Main ℕ
told_main = record test_main {
  pwc = record (primary_at prepared) { command = record command_init { code = start } };
  data_block = stream (writer_world viewer fresh_sync (assign fresh_sems write_sem 1)) 0 0;
}

prepare_round-Ready_example :
    ((prepare_round told_main).1.pwc.quit ≡ true)
    ⊎ (((prepare_round told_main).1.pwc.state ≡ prepared)
        × (((prepare_round told_main).1.command.code ≡ start)
            ⊎ ((prepare_round told_main).1.command.code ≡ clock)))
unfolding prepare_round prepare_command command_get may_command create open_ open_write lock_write
prepare_round-Ready_example = prepare_round-Ready told_main refl refl
