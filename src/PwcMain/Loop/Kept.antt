-- ===== src/PwcMain/Loop/Kept.antt =====
-- src/dada_pwc_main.c: the main loop keeps what is `Stable`.
use mirror_psrdada_code.Prelude.{
  Bool, true, false, before, ℤ, pos, List, [], ◌∷◌, Option, none, some, if◌then◌else◌,
}
use mirror_psrdada_code.AsciiHeader.{Bytes}
use mirror_psrdada_code.Kernel.{Kernel}
use mirror_psrdada_code.Process.{Outcome, ok, fail, asleep, Call}
use mirror_psrdada_code.Pwc.{fatal_error, ◌in_state◌, Command, Primary}
use mirror_psrdada_code.Pwc.Header.{Environment}
use mirror_psrdada_code.Pwc.Session.{Request}
use mirror_psrdada_code.PwcMain.{
  Main, Program, prepare_blocks, prepare_body, prepare_round, start_transfer, stop_transfer,
}
use mirror_psrdada_code.PwcMain.Block.Exact.{transfer_data_block-Head}
use mirror_psrdada_code.PwcMain.Copy.Exact.{transfer_data-Head}
use mirror_psrdada_code.PwcMain.Course.{arrive}
use mirror_psrdada_code.PwcMain.Course.Change.{arrive-Held}
use mirror_psrdada_code.PwcMain.Flow.{Flow, go, leave, crash, sleep, Run, following}
use mirror_psrdada_code.PwcMain.Loop.{
  Cycle, ended, value_at_end, went_on, prepare_loop, prepare, note, transfer, observe,
  exit_if_fatal, dada_pwc_main,
}
use mirror_psrdada_code.PwcMain.Rules.{
  Any, Ensures, AlwaysStable, Always, Held, bind, value, gone, got, either, perhaps, followed-Any,
}
use mirror_psrdada_code.PwcMain.Steps.{
  prepare_blocks-Held, prepare_body-Held, prepare_round-Held, start_transfer-Held,
  stop_transfer-Held, process_error-Held,
}

Any-any : (x : Flow ℤ) → Ensures Any x
Any-any (go a) = tt
Any-any (leave r) = tt
Any-any crash = tt
Any-any sleep = tt

ended-Any : {A : Type 0} (x : Flow A) → Ensures Any (ended x)
ended-Any (go a) = tt
ended-Any (leave r) = tt
ended-Any crash = tt
ended-Any sleep = tt

module _ {C : Type 0} ⦃k : Kernel⦄ {J : Primary → Command → Type 0} (st : AlwaysStable J) where
  called :
      {A : Type 0} (m : Call (Main C) A)
      → ((c : Main C) → Held J c → Held J (m c).1)
      → Always J (following m) Any
  called m keep = record { keeps = λ c h. (keep c h, followed-Any (m c).0) }

  value_at_end-Any :
      {A : Type 0} {Q : A → Type 0} {m : Run C A} → Always J m Q → Always J (value_at_end m) Any
  value_at_end-Any {m} a = record { keeps = λ c h. ((a.keeps c h).0, ended-Any (m c).0) }

  step-Held :
      (waiting : Bool) (d : Main C)
      → Held J d
      → Held J (if waiting then prepare_body d else prepare_round d).1
  step-Held true d h = prepare_body-Held J st d h
  step-Held false d h = prepare_round-Held J st d h

  went_on-Held :
      (again : Bool → Run C ℤ)
      → ((w : Bool) (c : Main C) → Held J c → Held J (again w c).1)
      → (o : Outcome (Option ℤ)) (c : Main C) → Held J c
      → Held J (went_on again o c).1
  went_on-Held again keep (ok (some rval)) c h = h
  went_on-Held again keep (ok none) c h = keep false c h
  went_on-Held again keep fail c h = h
  went_on-Held again keep asleep c h = keep true c h

  prepare_loop-Held :
      (e : Environment) (waiting : Bool) (arrivals : List (List Request)) (c : Main C)
      → Held J c
      → Held J (prepare_loop e waiting arrivals c).1
  unfolding prepare_loop
  prepare_loop-Held e waiting [] c h = h
  prepare_loop-Held e waiting (rs ∷ rest) c h =
      let d = arrive e rs c in
      went_on-Held (λ w. prepare_loop e w rest) (λ w x i. prepare_loop-Held e w rest x i)
        (if waiting then prepare_body d else prepare_round d).0
        (if waiting then prepare_body d else prepare_round d).1
        (step-Held waiting d (arrive-Held st.stable e rs c h))

  prepare-Any :
      (e : Environment) (arrivals : List (List Request)) → Always {C = C} J (prepare e arrivals) Any
  unfolding prepare
  prepare-Any e arrivals = bind (called prepare_blocks (prepare_blocks-Held J)) (λ rval u.
      either (before rval (pos 0)) (value rval tt) (record {
        keeps = λ c h.
            (prepare_loop-Held e false arrivals c h, Any-any (prepare_loop e false arrivals c).0);
      }))

  note-Any : (rval : ℤ) → Always {C = C} J (note rval) Any
  note-Any rval =
      perhaps (before rval (pos 0))
        (record { keeps = λ c h. (process_error-Held J st rval c h, tt) })

  transfer-Any :
      (e : Environment) (format_time : ℤ → Bytes) (f : Program C) (arrivals : List (List Request))
      → Always J (transfer e format_time f arrivals) Any
  transfer-Any e format_time f arrivals =
      either f.has_block_function
        (value_at_end-Any (transfer_data_block-Head f st.stable e format_time arrivals))
        (value_at_end-Any (transfer_data-Head f st.stable e format_time arrivals))

  observe-Any :
      (e : Environment) (format_time : ℤ → Bytes) (f : Program C) (arrivals : List (List Request))
      → Always J (observe e format_time f arrivals) Any
  unfolding observe
  observe-Any e format_time f arrivals =
      bind (called (start_transfer format_time f) (start_transfer-Held J st format_time f))
        (λ started u.
          bind
            (either (before started (pos 0)) (note-Any started)
              (bind (transfer-Any e format_time f arrivals) (λ rval v. note-Any rval)))
            (λ x w.
              bind (called (stop_transfer f) (stop_transfer-Held J st f))
                (λ stopped y. bind (note-Any stopped) (λ z t. value stopped tt))))

  exit-Any : Always {C = C} J exit_if_fatal Any
  exit-Any = bind got (λ c h.
      perhaps (c.pwc.state in_state fatal_error)
        (record { keeps = λ d (j, small). ((st.quits d.pwc d.command j, small), tt) }))

  pub dada_pwc_main-Any :
      (e : Environment) (format_time : ℤ → Bytes) (f : Program C) (rval : ℤ) (cycles : List Cycle)
      → Always J (dada_pwc_main e format_time f rval cycles) Any
  unfolding dada_pwc_main
  dada_pwc_main-Any e format_time f rval [] =
      bind got (λ c h. either c.pwc.quit (gone rval) (value rval tt))
  dada_pwc_main-Any e format_time f rval (cycle ∷ rest) = bind got (λ c h.
      either c.pwc.quit (gone rval) (
        bind (prepare-Any e cycle.preparing) (λ ready u. bind got (λ d i.
          either d.pwc.quit (gone ready) (
            bind
              (either (before ready (pos 0)) (bind (note-Any ready) (λ x v. value ready tt))
                (observe-Any e format_time f cycle.transferring))
              (λ done v. bind exit-Any (λ x w. dada_pwc_main-Any e format_time f done rest)))))))
