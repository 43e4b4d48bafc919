-- ===== src/PwcMain/Errors.antt =====
-- src/dada_pwc_main.c: what the main loop makes of an error.
use mirror_psrdada_code.Prelude.{◌≡◌, ◌⊎◌, inl, inr, refl, true, false, ℤ, pos, negsuc, zero, suc}
use mirror_psrdada_code.Pwc.{
  PwcState, soft_error, hard_error, fatal_error, Primary, set_state, may_change,
}
use mirror_psrdada_code.Pwc.Diagram.{
  Working, at_idle, at_prepared, at_clocking, at_recording, Failed, soft, hard, fatal,
}
use mirror_psrdada_code.PwcMain.{error_state, process_error}

-- the error states by the number of the error
abbrev state_of_error : ℤ → PwcState
state_of_error (pos n) = fatal_error
state_of_error (negsuc zero) = soft_error
state_of_error (negsuc (suc zero)) = hard_error
state_of_error (negsuc (suc (suc n))) = fatal_error

Working-enters :
    (rval : ℤ) (a : PwcState)
    → Working a
    → (error_state rval a ≡ state_of_error rval) × (may_change a (state_of_error rval) ≡ true)
unfolding error_state may_change
Working-enters (pos n) _ at_idle = (refl, refl)
Working-enters (pos n) _ at_prepared = (refl, refl)
Working-enters (pos n) _ at_clocking = (refl, refl)
Working-enters (pos n) _ at_recording = (refl, refl)
Working-enters (negsuc zero) _ at_idle = (refl, refl)
Working-enters (negsuc zero) _ at_prepared = (refl, refl)
Working-enters (negsuc zero) _ at_clocking = (refl, refl)
Working-enters (negsuc zero) _ at_recording = (refl, refl)
Working-enters (negsuc (suc zero)) _ at_idle = (refl, refl)
Working-enters (negsuc (suc zero)) _ at_prepared = (refl, refl)
Working-enters (negsuc (suc zero)) _ at_clocking = (refl, refl)
Working-enters (negsuc (suc zero)) _ at_recording = (refl, refl)
Working-enters (negsuc (suc (suc n))) _ at_idle = (refl, refl)
Working-enters (negsuc (suc (suc n))) _ at_prepared = (refl, refl)
Working-enters (negsuc (suc (suc n))) _ at_clocking = (refl, refl)
Working-enters (negsuc (suc (suc n))) _ at_recording = (refl, refl)

Failed-stays : (rval : ℤ) (a : PwcState) → Failed a → may_change a (error_state rval a) ≡ false
unfolding error_state may_change
Failed-stays (pos n) _ soft = refl
Failed-stays (pos n) _ hard = refl
Failed-stays (pos n) _ fatal = refl
Failed-stays (negsuc zero) _ soft = refl
Failed-stays (negsuc zero) _ hard = refl
Failed-stays (negsuc zero) _ fatal = refl
Failed-stays (negsuc (suc zero)) _ soft = refl
Failed-stays (negsuc (suc zero)) _ hard = refl
Failed-stays (negsuc (suc zero)) _ fatal = refl
Failed-stays (negsuc (suc (suc n))) _ soft = refl
Failed-stays (negsuc (suc (suc n))) _ hard = refl
Failed-stays (negsuc (suc (suc n))) _ fatal = refl

-- An error of a client at work puts it into the error state of its number, FATAL for an unknown one. A
-- client that is in an error state stays in it, whatever the error: a soft error is not raised to a hard
-- or a fatal one, since `dada_pwc_set_state` refuses.
pub process_error-state :
    (rval : ℤ) (p : Primary)
    → Working p.state ⊎ Failed p.state
    → (Working p.state × ((process_error rval p).state ≡ state_of_error rval))
      ⊎ (Failed p.state × (process_error rval p ≡ p))
unfolding process_error set_state
process_error-state rval p (inl w) =
    let (e, may) = Working-enters rval p.state w in
    inl (w, rw (process_error, e, set_state, may) refl)
process_error-state rval p (inr f) =
    inr (f, rw (process_error, set_state, Failed-stays rval p.state f) refl)
