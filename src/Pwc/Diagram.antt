-- ===== src/Pwc/Diagram.antt =====
-- src/dada_pwc.c: the state diagram of the primary write client.
use mirror_psrdada_code.Prelude.{◌≡◌, ◌≢◌, ◌⊎◌, inl, inr, refl, Bool-cases, true, false, ℤ}
use mirror_psrdada_code.Process.{ok, fail}
use mirror_psrdada_code.Pwc.{
  PwcState, idle, prepared, clocking, recording, soft_error, hard_error, fatal_error, Primary,
  ◌in_state◌, may_change, set_state,
}

-- the states of a client that is at work
pub data Working : PwcState → Type 0 where
  at_idle : Working idle
  at_prepared : Working prepared
  at_clocking : Working clocking
  at_recording : Working recording

-- the states of a client that has met an error
pub data Failed : PwcState → Type 0 where
  soft : Failed soft_error
  hard : Failed hard_error
  fatal : Failed fatal_error

infix 40 ◌⟶◌
pub data ◌⟶◌ : PwcState → PwcState → Type 0 where
  prepare : idle ⟶ prepared
  cancel : prepared ⟶ idle
  clock : prepared ⟶ clocking
  record_now : prepared ⟶ recording
  record_on : clocking ⟶ recording
  record_off : recording ⟶ clocking
  finish : {a : PwcState} → (a ≡ clocking) ⊎ (a ≡ recording) → a ⟶ idle
  trouble : {a b : PwcState} → Working a → Failed b → a ⟶ b
  recover : {a : PwcState} → (a ≡ soft_error) ⊎ (a ≡ hard_error) → a ⟶ idle

may_change-sound : (a b : PwcState) → may_change a b ≡ true → a ⟶ b
unfolding may_change
may_change-sound idle prepared h = prepare
may_change-sound idle soft_error h = trouble at_idle soft
may_change-sound idle hard_error h = trouble at_idle hard
may_change-sound idle fatal_error h = trouble at_idle fatal
may_change-sound prepared idle h = cancel
may_change-sound prepared clocking h = clock
may_change-sound prepared recording h = record_now
may_change-sound prepared soft_error h = trouble at_prepared soft
may_change-sound prepared hard_error h = trouble at_prepared hard
may_change-sound prepared fatal_error h = trouble at_prepared fatal
may_change-sound clocking recording h = record_on
may_change-sound clocking idle h = finish (inl refl)
may_change-sound clocking soft_error h = trouble at_clocking soft
may_change-sound clocking hard_error h = trouble at_clocking hard
may_change-sound clocking fatal_error h = trouble at_clocking fatal
may_change-sound recording clocking h = record_off
may_change-sound recording idle h = finish (inr refl)
may_change-sound recording soft_error h = trouble at_recording soft
may_change-sound recording hard_error h = trouble at_recording hard
may_change-sound recording fatal_error h = trouble at_recording fatal
may_change-sound soft_error idle h = recover (inl refl)
may_change-sound hard_error idle h = recover (inr refl)
may_change-sound _ _ h = absurd cc

may_change_complete : {a b : PwcState} → a ⟶ b → may_change a b ≡ true
unfolding may_change
may_change_complete prepare = refl
may_change_complete cancel = refl
may_change_complete clock = refl
may_change_complete record_now = refl
may_change_complete record_on = refl
may_change_complete record_off = refl
may_change_complete (finish (inl e)) = rw e refl
may_change_complete (finish (inr e)) = rw e refl
may_change_complete (trouble at_idle soft) = refl
may_change_complete (trouble at_idle hard) = refl
may_change_complete (trouble at_idle fatal) = refl
may_change_complete (trouble at_prepared soft) = refl
may_change_complete (trouble at_prepared hard) = refl
may_change_complete (trouble at_prepared fatal) = refl
may_change_complete (trouble at_clocking soft) = refl
may_change_complete (trouble at_clocking hard) = refl
may_change_complete (trouble at_clocking fatal) = refl
may_change_complete (trouble at_recording soft) = refl
may_change_complete (trouble at_recording hard) = refl
may_change_complete (trouble at_recording fatal) = refl
may_change_complete (recover (inl e)) = rw e refl
may_change_complete (recover (inr e)) = rw e refl

prepared_or : (a : PwcState) → (a ≡ prepared) ⊎ ((a ≢ prepared) × (a in_state prepared ≡ false))
prepared_or prepared = inl refl
prepared_or _ = inr ((λ e. absurd cc), refl)

-- `dada_pwc_set_state` takes exactly the steps of the diagram, among them those from PREPARED, SOFT
-- ERROR and HARD ERROR back to IDLE. It then enters the new state and, on leaving PREPARED, sets the
-- start time; any other change is refused and leaves all as it was.
pub set_state-diagram :
    (s : PwcState) (t : ℤ) (p : Primary)
    → ((p.state ⟶ s)
        × ((set_state s t p).0 ≡ ok tt)
        × ((set_state s t p).1.state ≡ s)
        × ((p.state ≡ prepared) × ((set_state s t p).1.utc_start ≡ t)
            ⊎ (p.state ≢ prepared) × ((set_state s t p).1.utc_start ≡ p.utc_start)))
      ⊎ ((¬ (p.state ⟶ s)) × (set_state s t p ≡ (fail, p)))
unfolding set_state
set_state-diagram s t p = elim (Bool-cases (may_change p.state s)) [
  | inl may ↦ inl (
    may_change-sound p.state s may,
    rw may refl,
    rw may refl,
    elim (prepared_or p.state) [
      | inl e ↦ inl (e, rw (may, e) refl)
      | inr n ↦ inr (n.0, rw (may, n.1) refl)
    ],
  )
  | inr not_may ↦ inr ((λ edge. absurd (cc (may_change_complete edge, not_may))), rw not_may refl)
]
