-- ===== src/PwcMain/Prepare.antt =====
-- src/dada_pwc_main.c: what the loop that prepares a transfer leaves behind.
use mathlib.Core.Path.{subst}
use mirror_psrdada_code.Prelude.{
  ◌≡◌, ◌⊎◌, inl, inr, refl, ap, sym, ◌∙◌, true, false, Bool, not, if◌then◌else◌, ◌==◌, ℤ, pos,
  negsuc, Option, some,
}
use mirror_psrdada_code.Kernel.{Kernel}
use mirror_psrdada_code.Process.{Outcome, ok, fail, asleep}
use mirror_psrdada_code.Ipcio.{Io}
use mirror_psrdada_code.Ipcio.Open.{open_}
use mirror_psrdada_code.Pwc.{
  PwcState, prepared, ◌is_code◌, Code, Command, no_command, reset, header, clock, start, stop,
  Primary, command_get, may_command,
}
use mirror_psrdada_code.PwcMain.{
  Main, prepare_round, prepare_command, open_and_leave, attempt, return_value, dada_error_hard,
}

fits_start : (s : PwcState) → may_command start s ≡ true → s ≡ prepared
unfolding may_command
fits_start prepared h = refl
fits_start _ h = absurd cc

fits_clock : (s : PwcState) → may_command clock s ≡ true → s ≡ prepared
unfolding may_command
fits_clock prepared h = refl
fits_clock _ h = absurd cc

fits-prepared :
    (code : Code) (s : PwcState)
    → may_command code s ≡ true
    → (code ≡ start) ⊎ (code ≡ clock)
    → s ≡ prepared
fits-prepared code s h (inl e) = fits_start s (subst (λ x. may_command x s ≡ true) e h)
fits-prepared code s h (inr e) = fits_clock s (subst (λ x. may_command x s ≡ true) e h)

module _ {C : Type 0} ⦃k : Kernel⦄ where
  -- a round that ends the loop with 0 leaves the primary and the command in `d` as they were, and the
  -- command starts a transfer
  abbrev Left : Main C → Outcome (Option ℤ) × Main C → Type 0
  Left d (o, c) =
      o ≡ ok (some (pos 0))
      → ((c.command ≡ d.command) × (c.pwc ≡ d.pwc))
        × ((d.command.code ≡ start) ⊎ (d.command.code ≡ clock))

  opened-Left :
      (o : Outcome (Unit {0})) (io : Io) (d : Main C)
      → (d.command.code ≡ start) ⊎ (d.command.code ≡ clock)
      → Left d (
          attempt o
            (record d { data_block = io })
            (return_value (some dada_error_hard))
            (λ u. return_value (some (pos 0))))
  opened-Left (ok u) io d is e = ((refl, refl), is)
  opened-Left fail io d is e = absurd cc
  opened-Left asleep io d is e = absurd cc

  clock-Left :
      (counted : Bool) (d : Main C)
      → d.command.code ≡ clock
      → Left d (if counted then (ok (some (negsuc 0)), d) else open_and_leave b'w' d)
  clock-Left true d is e = absurd cc
  clock-Left false d is e =
      opened-Left (open_ b'w' d.data_block).0 (open_ b'w' d.data_block).1 d (inr is) e

  prepare_command-Left :
      (code : Code) (d : Main C) → d.command.code ≡ code → Left d (prepare_command code d)
  unfolding prepare_command
  prepare_command-Left reset d is e = absurd cc
  prepare_command-Left header d is e = absurd cc
  prepare_command-Left clock d is e = clock-Left (not (d.command.byte_count == 0)) d is e
  prepare_command-Left start d is e =
      opened-Left (open_ b'W' d.data_block).0 (open_ b'W' d.data_block).1 d (inl is) e
  prepare_command-Left stop d is e = absurd cc
  prepare_command-Left _ d is e = absurd cc

  -- the loop ended with 0 because the client quits, or ready for a transfer
  abbrev Arrived : Outcome (Option ℤ) × Main C → Type 0
  Arrived (o, c) =
      o ≡ ok (some (pos 0))
      → (c.pwc.quit ≡ true)
        ⊎ ((c.pwc.state ≡ prepared) × ((c.command.code ≡ start) ⊎ (c.command.code ≡ clock)))

  command-Arrived :
      (quit : Bool) (e : Main C)
      → e.pwc.quit ≡ quit
      → may_command e.command.code e.pwc.state ≡ true
      → Arrived (if quit then (ok (some (pos 0)), e) else prepare_command e.command.code e)
  command-Arrived true e q fits h = inl q
  command-Arrived false e q fits h =
      let ((a, b), is) = prepare_command-Left e.command.code e refl h in
      inr (
        ap (λ x. x.state) b ∙ fits-prepared e.command.code e.pwc.state fits is,
        subst (λ x. (x.code ≡ start) ⊎ (x.code ≡ clock)) (sym a) is,
      )

  -- `dada_pwc_command_get`, and what the loop does with the command
  abbrev got : (waits : Bool) → Main C → Outcome Command × Primary
  got waits c = if waits then (asleep, c.pwc) else (
    ok c.pwc.command,
    record c.pwc { command = record c.pwc.command { code = no_command; byte_count = 0 } },
  )

  abbrev used : Outcome Command × Primary → Main C → Outcome (Option ℤ) × Main C
  used (o, p) c =
      attempt o (record c { pwc = p }) (return_value (some dada_error_hard))
        (λ command d.
          let e = record d { command = command } in
          if e.pwc.quit then (ok (some (pos 0)), e) else prepare_command command.code e)

  got-Arrived :
      (waits : Bool) (c : Main C)
      → may_command c.pwc.command.code c.pwc.state ≡ true
      → Arrived (used (got waits c) c)
  got-Arrived true c fits h = absurd cc
  got-Arrived false c fits h =
      command-Arrived c.pwc.quit
        (record c {
          command = c.pwc.command;
          pwc = record c.pwc {
            command = record c.pwc.command { code = no_command; byte_count = 0 };
          };
        })
        refl fits h

  round-Arrived :
      (quit waits : Bool) (c : Main C)
      → c.pwc.quit ≡ quit
      → may_command c.pwc.command.code c.pwc.state ≡ true
      → Arrived (if quit then (ok (some (pos 0)), c) else used (got waits c) c)
  round-Arrived true waits c q fits h = inl q
  round-Arrived false waits c q fits h = got-Arrived waits c fits h

  -- When the pending command fits the state, as `dada_pwc_command_set` saw to when it accepted it, a
  -- round of the loop of `dada_pwc_main_prepare` that returns 0 leaves a client that is to quit, or one
  -- that is PREPARED and has a start or a clock command in hand.
  pub prepare_round-Ready :
      (c : Main C)
      → may_command c.pwc.command.code c.pwc.state ≡ true
      → (prepare_round c).0 ≡ ok (some (pos 0))
      → ((prepare_round c).1.pwc.quit ≡ true)
        ⊎ (((prepare_round c).1.pwc.state ≡ prepared)
            × (((prepare_round c).1.command.code ≡ start)
                ⊎ ((prepare_round c).1.command.code ≡ clock)))
  unfolding prepare_round command_get
  prepare_round-Ready c fits h =
      round-Arrived c.pwc.quit (c.pwc.command.code is_code no_command) c refl fits h
