-- ===== src/PwcMain/Loop.antt =====
-- src/dada_pwc_main.c: `dada_pwc_main`, the loop around the steps, and the whole of
-- `dada_pwc_main_prepare`.
pub mod Kept
use mirror_psrdada_code.Prelude.{
  Bool, true, false, not, if◌then◌else◌, before, ℤ, pos, List, [], ◌∷◌, Option, none, some,
}
use mirror_psrdada_code.AsciiHeader.{Bytes}
use mirror_psrdada_code.Kernel.{Kernel}
use mirror_psrdada_code.Process.{Outcome, ok, fail, asleep, Call}
use mirror_psrdada_code.Pwc.{fatal_error, ◌in_state◌}
use mirror_psrdada_code.Pwc.Header.{Environment}
use mirror_psrdada_code.Pwc.Session.{Request}
use mirror_psrdada_code.PwcMain.{
  Main, Program, prepare_blocks, prepare_body, prepare_round, start_transfer, stop_transfer,
  process_error,
}
use mirror_psrdada_code.PwcMain.Block.{transfer_data_block}
use mirror_psrdada_code.PwcMain.Copy.{transfer_data}
use mirror_psrdada_code.PwcMain.Course.{arrive}
use mirror_psrdada_code.PwcMain.Flow.{
  Flow, go, leave, crash, sleep, Run, pure, give_up, get, modify, when, ◌>>=◌, ◌>>◌, following,
  value_of,
}

-- the requests that arrive in a round of the main loop: before the rounds of `dada_pwc_main_prepare`,
-- and before those of the transfer
pub record Cycle : Type 0 where
  pub preparing : List (List Request)
  pub transferring : List (List Request)

-- a transfer loop that has not returned is running still
abbrev pub ended {ℓ} : {A : Type ℓ} → Flow A → Flow ℤ
ended (go a) = sleep
ended (leave r) = go r
ended crash = crash
ended sleep = sleep

module _ {C : Type 0} where
  abbrev pub value_at_end {ℓ} : {A : Type ℓ} → Run C A → Run C ℤ
  value_at_end m c = (ended (m c).0, (m c).1)

  -- what follows a round of `dada_pwc_main_prepare`; `again` is the rest of its loop
  abbrev pub went_on : (again : Bool → Run C ℤ) → Outcome (Option ℤ) → Run C ℤ
  went_on again (ok (some rval)) c = (go rval, c)
  went_on again (ok none) c = again false c
  went_on again fail c = (crash, c)
  went_on again asleep c = again true c

  module _ ⦃k : Kernel⦄ where
    -- The loop of `dada_pwc_main_prepare`. When a round has to wait for a command, it goes on waiting,
    -- without the test of the loop, until the next requests have arrived.
    unfoldable pub prepare_loop : Environment → (waiting : Bool) → List (List Request) → Run C ℤ
    unfolding arrive prepare_round
    prepare_loop e waiting [] c = (sleep, c)
    prepare_loop e waiting (rs ∷ rest) c =
        let d = arrive e rs c in
        let r = if waiting then prepare_body d else prepare_round d in
        went_on (λ now_waiting. prepare_loop e now_waiting rest) r.0 r.1

    -- `dada_pwc_main_prepare`
    unfoldable pub prepare : Environment → List (List Request) → Run C ℤ
    unfolding prepare_blocks prepare_loop
    prepare e arrivals = do
      rval ← following prepare_blocks
      (if before rval (pos 0) then pure rval else prepare_loop e false arrivals)

    -- an error is looked at, `dada_pwc_main_process_error`
    abbrev pub note : ℤ → Run C (Unit {0})
    note rval =
        when (before rval (pos 0)) (modify (λ c. record c { pwc = process_error rval c.pwc }))

    -- the transfer that fits the program
    abbrev pub transfer : Environment → (ℤ → Bytes) → Program C → List (List Request) → Run C ℤ
    transfer e format_time f arrivals =
        if f.has_block_function
        then value_at_end (transfer_data_block e format_time f arrivals)
        else value_at_end (transfer_data e format_time f arrivals)

    -- the part of the loop after `dada_pwc_main_prepare` has returned without error
    unfoldable pub observe : Environment → (ℤ → Bytes) → Program C → List (List Request) → Run C ℤ
    unfolding start_transfer transfer_data transfer_data_block stop_transfer process_error
    observe e format_time f arrivals = do
      started ← following (start_transfer format_time f)
      (if before started (pos 0)
          then note started
          else (do rval ← transfer e format_time f arrivals; note rval))
      stopped ← following (stop_transfer f)
      note stopped
      pure stopped

    -- "If we ever reach a fatal state, try to exit"
    abbrev pub exit_if_fatal : Run C (Unit {0})
    exit_if_fatal = do
      c ← get
      when (c.pwc.state in_state fatal_error)
          (modify (λ d. record d { pwc = record d.pwc { quit = true } }))

    -- `dada_pwc_main`, less the tests of its pointers. It is still running when the list is used up.
    unfoldable pub dada_pwc_main :
        Environment → (ℤ → Bytes) → Program C → (rval : ℤ) → List Cycle → Run C ℤ
    unfolding prepare observe
    dada_pwc_main e format_time f rval [] = do
      c ← get
      (if c.pwc.quit then give_up rval else pure rval)
    dada_pwc_main e format_time f rval (cycle ∷ rest) = do
      c ← get
      (if c.pwc.quit then give_up rval else (do
        ready ← prepare e cycle.preparing
        d ← get
        (if d.pwc.quit then give_up ready else (do
          done ←
              (if before ready (pos 0)
                then (do note ready; pure ready)
                else observe e format_time f cycle.transferring)
          exit_if_fatal
          dada_pwc_main e format_time f done rest))))
