-- ===== src/PwcMain/Stop.antt =====
-- src/dada_pwc_main.c: the state in which a transfer ends.
use mirror_psrdada_code.Prelude.{
  ◌≡◌, ◌≢◌, ◌⊎◌, inl, inr, refl, true, false, Bool, not, if◌then◌else◌, ◌||◌, ℤ, pos,
}
use mirror_psrdada_code.Kernel.{Kernel}
use mirror_psrdada_code.Ipcio.{Io}
use mirror_psrdada_code.Process.{Outcome, ok, fail, asleep}
use mirror_psrdada_code.Pwc.{
  PwcState, idle, soft_error, hard_error, fatal_error, ◌in_state◌, Primary, set_state, may_change,
}
use mirror_psrdada_code.Pwc.Diagram.{
  Working, at_idle, at_prepared, at_clocking, at_recording, Failed, soft, hard, fatal,
}
use mirror_psrdada_code.PwcMain.{
  Main, Program, stop_transfer, attempt, return_value, on_data, leave_transfer, dada_error_hard,
  dada_error_fatal,
}
use mirror_psrdada_code.Ipcio.Open.{close}

-- the state after a transfer: an error stays, all else is over
abbrev settled : PwcState → PwcState
settled soft_error = soft_error
settled hard_error = hard_error
settled fatal_error = fatal_error
settled _ = idle

abbrev is_error : PwcState → Bool
is_error s = s in_state soft_error || (s in_state hard_error || s in_state fatal_error)

Failed-is_error : {a : PwcState} → Failed a → (is_error a ≡ true) × (a ≡ settled a)
Failed-is_error soft = (refl, refl)
Failed-is_error hard = (refl, refl)
Failed-is_error fatal = (refl, refl)

Working-is_error : {a : PwcState} → Working a → (is_error a ≡ false) × (settled a ≡ idle)
Working-is_error at_idle = (refl, refl)
Working-is_error at_prepared = (refl, refl)
Working-is_error at_clocking = (refl, refl)
Working-is_error at_recording = (refl, refl)

Working-may_change :
    {a : PwcState}
    → Working a
    → (may_change a idle ≡ true) ⊎ ((may_change a idle ≡ false) × (a ≡ idle))
unfolding may_change
Working-may_change at_idle = inr (refl, refl)
Working-may_change at_prepared = inl refl
Working-may_change at_clocking = inl refl
Working-may_change at_recording = inl refl

set_state-idle : (utc : ℤ) (p : Primary) → Working p.state → (set_state idle utc p).1.state ≡ idle
unfolding set_state
set_state-idle utc p w = elim (Working-may_change w) [
  | inl may ↦ rw may refl
  | inr (may_not, at) ↦ rw may_not at
]

module _ {C : Type 0} ⦃k : Kernel⦄ where
  -- a transfer that began to end at the state `d` has ended well, or else the primary is what it was
  unfoldable pub Ended : Main C → Outcome ℤ × Main C → Type 0
  Ended d (o, c) =
      ((o ≡ ok (pos 0)) × (c.pwc.state ≡ settled d.pwc.state) ⊎ (o ≢ ok (pos 0)) × (c.pwc ≡ d.pwc))
      × (c.header_valid ≡ d.header_valid)

  leave_transfer-Ended :
      (d : Main C) → Working d.pwc.state ⊎ Failed d.pwc.state → Ended d (leave_transfer d)
  unfolding Ended
  leave_transfer-Ended d (inl w) =
      let (e, at) = Working-is_error w in
      rw (e, at) (inl (refl, set_state-idle (pos 0) d.pwc w), refl)
  leave_transfer-Ended d (inr f) = let (e, at) = Failed-is_error f in rw e (inl (refl, at), refl)

  close-Ended :
      (o : Outcome (Unit {0})) (io : Io) (d : Main C)
      → Working d.pwc.state ⊎ Failed d.pwc.state
      → Ended d (
          attempt o
            (record d { data_block = io })
            (return_value dada_error_fatal)
            (λ u. leave_transfer))
  unfolding Ended
  close-Ended (ok u) io d s = leave_transfer-Ended (record d { data_block = io }) s
  close-Ended fail io d s = (inr (λ e. absurd cc, refl), refl)
  close-Ended asleep io d s = (inr (λ e. absurd cc, refl), refl)

  stop_function-Ended :
      (done : Bool) (d : Main C)
      → Working d.pwc.state ⊎ Failed d.pwc.state
      → Ended d (
          if not done
          then (ok dada_error_hard, d)
          else attempt
              (on_data close d).0
              (on_data close d).1
              (return_value dada_error_fatal)
              (λ u. leave_transfer))
  unfolding Ended
  stop_function-Ended false d s = (inr (λ e. absurd cc, refl), refl)
  stop_function-Ended true d s = close-Ended (close d.data_block).0 (close d.data_block).1 d s

  -- When `dada_pwc_main_stop_transfer` returns 0, a client at work has become IDLE, and a client in an
  -- error state is still in it. When it returns an error, or waits, the primary is as it was. Either way
  -- the header is no longer valid.
  pub stop_transfer-Ended :
      (f : Program C) (c : Main C)
      → Working c.pwc.state ⊎ Failed c.pwc.state
      → Ended (record c { header_valid = false }) (stop_transfer f c)
  unfolding stop_transfer Ended
  stop_transfer-Ended f c s =
      stop_function-Ended (f.stop_function c.context).0
        (record c { header_valid = false; context = (f.stop_function c.context).1 }) s
