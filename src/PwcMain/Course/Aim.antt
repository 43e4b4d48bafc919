-- ===== src/PwcMain/Course/Aim.antt =====
-- src/dada_pwc_main.c: the byte at which the transfer loops change the state is the byte of a command.
use mathlib.Core.Path.{subst}
use mirror_psrdada_code.Prelude.{
  ◌≡◌, ◌⊎◌, inl, inr, refl, ap, sym, ◌∙◌, ℕ, ◌<◌, ◌≤◌, Bool, true, false, ltb, if◌then◌else◌, ℤ,
  arith,
}
use mirror_psrdada_code.AsciiHeader.{Bytes}
use mirror_psrdada_code.Kernel.{Kernel}
use mirror_psrdada_code.Pwc.{
  Code, no_command, ◌is_code◌, record_start, record_stop, stop, set_utc_start, Command, Primary,
}
use mirror_psrdada_code.PwcMain.{Main, Program}
use mirror_psrdada_code.PwcMain.Course.{
  Course, dated, at_transit, scheduled, accept, receive, begin,
}
use mirror_psrdada_code.PwcMain.Course.Change.{first_total-zero, known-Any}
use mirror_psrdada_code.PwcMain.Course.Exact.{OnWay}
use mirror_psrdada_code.PwcMain.Course.Kept.{set_start-Always, command_get-Always}
use mirror_psrdada_code.PwcMain.Rules.{Always, Held, bind, value, got, header_bytes-Any}
use mirror_psrdada_code.PwcMain.Runs.{
  Runs, runs_bind, runs_value, runs_got, runs_either, runs_change, runs_always,
}
use mirror_psrdada_code.PwcMain.Stability.{Small, Small-Stable}

-- The byte for the change of state is the byte of the command in hand, unless `set_utc_start` has taken
-- the place of that command.
abbrev pub Tied : Command → Course → Type 0
Tied command p = (p.transit ≡ 0) ⊎ (p.transit ≡ command.byte_count) ⊎ (command.code ≡ set_utc_start)

-- Where a round with the course `g` and the command `old` aims at, with the command and the course after
-- it: at the same byte as before, with the same command or with `set_utc_start`; at the byte of a new
-- command, which is ahead; or, when that byte has been passed, at `now`, with nothing left to write.
abbrev pub Aim : (now : ℕ → ℕ) → Course → (old new : Command) → Course → Type 0
Aim now g old new p =
    ((p.transit ≡ g.transit) × ((new ≡ old) ⊎ (new.code ≡ set_utc_start)))
    ⊎ ((g.total < new.byte_count) × (p.transit ≡ new.byte_count))
    ⊎ ((new.byte_count ≤ g.total) × (p.transit ≡ now g.total) × ((p.transit ≡ 0) ⊎ (p.left ≡ 0)))

-- the command in hand is `command`
abbrev pub Fixed : Command → Primary → Command → Type 0
Fixed command p c = Small p × (c ≡ command)

abbrev pub Sound : {C : Type 0} → Main C → Type 0
Sound c = Held (λ p k. Small p) c

-- the way on from a course aims where the course did, when what is left to write is not used up
pub Aim-same :
    (now : ℕ → ℕ) (g : Course) (old new : Command) (p q : Course)
    → Aim now g old new p
    → q.transit ≡ p.transit
    → (p.left ≡ 0 → p.transit ≡ 0)
    → Aim now g old new q
Aim-same now g old new p q (inl (e, k)) same none_left = inl (same ∙ e, k)
Aim-same now g old new p q (inr (inl (lt, e))) same none_left = inr (inl (lt, same ∙ e))
Aim-same now g old new p q (inr (inr (le, e, inl z))) same none_left =
    inr (inr (le, same ∙ e, inl (same ∙ z)))
Aim-same now g old new p q (inr (inr (le, e, inr z))) same none_left =
    inr (inr (le, same ∙ e, inl (same ∙ none_left z)))

-- a course that is not at its byte
pub Aim-Tied :
    (now : ℕ → ℕ) (g : Course) (old new : Command) (p : Course)
    → Aim now g old new p
    → Tied old g
    → OnWay p
    → at_transit p ≡ false
    → Tied new p
Aim-Tied now g old new p (inl (e, inl same)) (inl z) way before = inl (e ∙ z)
Aim-Tied now g old new p (inl (e, inl same)) (inr (inl at)) way before =
    inr (inl (e ∙ at ∙ ap (λ k. k.byte_count) (sym same)))
Aim-Tied now g old new p (inl (e, inl same)) (inr (inr utc)) way before =
    inr (inr (ap (λ k. k.code) same ∙ utc))
Aim-Tied now g old new p (inl (e, inr utc)) tied way before = inr (inr utc)
Aim-Tied now g old new p (inr (inl (lt, e))) tied way before = inr (inl e)
Aim-Tied now g old new p (inr (inr (le, e, inl z))) tied way before = inl z
Aim-Tied now g old new p (inr (inr (le, e, inr z))) tied way before = inl (ground arith)

chosen-Aim :
    (now : ℕ → ℕ) (at_once : Course → Course) (p : Course) (old new : Command) (b : Bool)
    → ((at_once p).transit ≡ now p.total) × ((at_once p).left ≡ 0)
    → ltb p.total new.byte_count ≡ b
    → Aim now p old new (if b then dated new.byte_count p else at_once p)
chosen-Aim now at_once p old new true passed e = inr (inl (ground arith, refl))
chosen-Aim now at_once p old new false passed e = inr (inr (ground arith, passed.0, inr passed.1))

module _ {C : Type 0} ⦃k : Kernel⦄ where
  module _ (now : ℕ → ℕ) (at_once : Course → Course) (p : Course) (old : Command)
      (passed : ((at_once p).transit ≡ now p.total) × ((at_once p).left ≡ 0)) where
    Taken : Command → Main C → Type 0
    Taken command d = Sound d × (d.command ≡ command)

    Aimed : Course → Main C → Type 0
    Aimed q d = Sound d × Aim now p old d.command q

    scheduled-Aim : Runs Sound (scheduled at_once p) Aimed
    unfolding Aimed
    scheduled-Aim = runs_bind runs_got (λ c. runs_value _ (λ d (s, e). (
      s,
      subst
          (λ x.
            Aim now p old d.command (
              if ltb p.total x.command.byte_count then dated x.command.byte_count p else at_once p))
          (sym e)
          (chosen-Aim now at_once p old d.command (ltb p.total d.command.byte_count) passed refl),
    )))

    accept-Aim :
        (format_time : ℤ → Bytes) (f : Program C) (command : Command) (s : Code)
        → command.code ≡ s
        → Runs (Taken command) (accept at_once format_time f s p) Aimed
    unfolding accept Taken Aimed
    accept-Aim format_time f command set_utc_start e =
        runs_change (λ c (s, same). ((s.0, same), s.1))
          (λ q d ((fixed, small), transit).
            ((fixed.0, small), inl (transit, inr (ap (λ x. x.code) fixed.1 ∙ e))))
          (runs_always {J = Fixed command}
            (set_start-Always {Q = λ q. q.transit ≡ p.transit} format_time f p refl refl))
    accept-Aim format_time f command record_stop e =
        runs_change (λ c t. t.0) (λ q d a. a) scheduled-Aim
    accept-Aim format_time f command record_start e =
        runs_change (λ c t. t.0) (λ q d a. a) scheduled-Aim
    accept-Aim format_time f command stop e = runs_change (λ c t. t.0) (λ q d a. a) scheduled-Aim
    accept-Aim format_time f command _ e = record { keeps = λ c t. tt }

    pub receive-Aim :
        (format_time : ℤ → Bytes) (f : Program C)
        → Runs
            (λ c. Sound c × (c.command ≡ old))
            (receive at_once format_time f p)
            (λ q d. Sound d × Aim now p old d.command q)
    unfolding receive Taken Aimed
    receive-Aim format_time f = runs_bind runs_got (λ c.
        runs_either (c.pwc.command.code is_code no_command)
          (runs_value p (λ d t. (t.0.0, inl (refl, inl t.0.1))))
          (runs_bind
            (runs_change (λ d t. t.0.0) (λ a d q. q)
              (runs_always (command_get-Always Small-Stable)))
            (λ command.
              runs_bind {Q = λ u d. Sound d × (d.command ≡ command)}
                (record { keeps = λ d t. ((t.0.0, t.1), refl) })
                (λ u. accept-Aim format_time f command command.code refl))))

  -- before the first round the byte is that of the command in hand
  begin-transit :
      (f : Program C) (command : Command)
      → Always (Fixed command) (begin f) (λ p. p.transit ≡ command.byte_count)
  unfolding begin
  begin-transit f command = bind got (λ c j. bind (first_total-zero f.transfers) (λ total zero.
      bind header_bytes-Any
        (λ m u. bind (known-Any _) (λ utc v. value _ (ap (λ x. x.byte_count) j.0.1)))))

  pub begin-Tied : (f : Program C) → Runs Sound (begin f) (λ p d. Sound d × Tied d.command p)
  begin-Tied f = record {
    keeps = λ c (s, small).
        let runs : Runs (Held (Fixed c.command)) (begin f) (λ p d. Sound d × Tied d.command p) =
          runs_change (λ d t. t)
            (λ p d ((fixed, word), e).
              ((fixed.0, word), inr (inl (e ∙ ap (λ x. x.byte_count) (sym fixed.1)))))
            (runs_always (begin-transit f c.command)) in
        runs.keeps c ((s, refl), small);
  }
