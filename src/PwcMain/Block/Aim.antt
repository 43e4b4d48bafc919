-- ===== src/PwcMain/Block/Aim.antt =====
-- src/dada_pwc_main.c: `dada_pwc_main_transfer_data_block` changes the state at the byte of the command.
use mathlib.Core.Path.{subst}
use mirror_psrdada_code.Prelude.{
  ◌≡◌, refl, sym, inl, inr, ℕ, Bool, true, false, if◌then◌else◌, ℤ, pos, List, [], ◌∷◌, none, arith,
  Bool-cases,
}
use mirror_psrdada_code.AsciiHeader.{Bytes}
use mirror_psrdada_code.Kernel.{Kernel}
use mirror_psrdada_code.Pwc.{Command}
use mirror_psrdada_code.Pwc.Header.{Environment}
use mirror_psrdada_code.Pwc.Session.{Request}
use mirror_psrdada_code.PwcMain.{Main, Program}
use mirror_psrdada_code.PwcMain.Block.{
  Blocks, at_once, fill, turn, advance, round, transfer_loop, transfer_data_block,
}
use mirror_psrdada_code.PwcMain.Block.Exact.{
  Way, Head, at_once-OnWay, turned-Head, turn-Turned, fill-OnCourse,
}
use mirror_psrdada_code.PwcMain.Course.{Course, wants_data, at_transit, arrive}
use mirror_psrdada_code.PwcMain.Course.Aim.{
  Tied, Aim, Fixed, Sound, Aim-same, Aim-Tied, receive-Aim, begin-Tied,
}
use mirror_psrdada_code.PwcMain.Course.Change.{arrive-Any, begin-Before}
use mirror_psrdada_code.PwcMain.Course.Exact.{Before-OnWay, dated-OnWay}
use mirror_psrdada_code.PwcMain.Course.Kept.{receive-Always}
use mirror_psrdada_code.PwcMain.Flow.{pure}
use mirror_psrdada_code.PwcMain.Rules.{Held}
use mirror_psrdada_code.PwcMain.Runs.{
  Runs, runs_bind, runs_value, runs_gone, runs_got, runs_either, runs_both, runs_change,
  runs_always,
}
use mirror_psrdada_code.PwcMain.Stability.{Small-Stable}

-- the number of bytes at which a command for a byte that has been passed takes effect
abbrev pub now : ℕ → ℕ
now n = n

wanted-left : (p : Course) → wants_data p ≡ true → p.left ≡ 0 → p.transit ≡ 0
wanted-left p e z = ground arith

module _ {C : Type 0} ⦃k : Kernel⦄ (f : Program C) (format_time : ℤ → Bytes) where
  -- the variables after a command was received
  abbrev with_course : Blocks → Course → Blocks
  with_course g p = record g { course = p; buf_bytes = 0 }

  abbrev pub Aimed : Blocks → Command → Blocks → Main C → Type 0
  Aimed g old u d = Sound d × Aim now g.course old d.command u.course × Way f u

  abbrev pub HeadTied : Blocks → Main C → Type 0
  HeadTied g d = Sound d × Tied d.command g.course × Head f g

  filled-Aim :
      (g : Blocks) (old : Command) (p : Course) (b : Bool)
      → wants_data p ≡ b
      → Runs
          (Aimed g old (with_course g p))
          (if b then fill f (with_course g p) else pure (with_course g p))
          (Aimed g old)
  filled-Aim g old p false e = runs_value (with_course g p) (λ d a. a)
  filled-Aim g old p true e = record {
    keeps = λ d (s, aim, w).
        let runs : Runs (Held (Fixed d.command)) (fill f (with_course g p)) (Aimed g old) =
          runs_change (λ x h. h)
            (λ u x ((fixed, small), on). (
              (fixed.0, small),
              subst (λ c. Aim now g.course old c u.course) (sym fixed.1)
                  (Aim-same now g.course old d.command p u.course aim on.0 (wanted-left p e)),
              on.1,
            ))
            (runs_always (fill-OnCourse f p.transit (with_course g p) (refl, w))) in
        runs.keeps d ((s.0, refl), s.1);
  }

  pub advance-Aim :
      (g : Blocks) (old : Command)
      → Head f g
      → Runs (λ c. Sound c × (c.command ≡ old)) (advance format_time f g) (Aimed g old)
  unfolding advance
  advance-Aim g old h =
      let on : Way f g = λ without. ((h without).0, Before-OnWay g.course (h without).1) in
      runs_bind
        (runs_both (receive-Aim now at_once g.course old (refl, refl) format_time f) (
          runs_change {P = Sound} (λ c t. t.0) (λ p d t. t.1)
            (runs_always (
              receive-Always {Q = λ p. Way f (with_course g p)} Small-Stable at_once format_time f
                g.course on on
                (λ n small lt without. ((h without).0, dated-OnWay n g.course small lt))
                (λ without. ((h without).0, at_once-OnWay g.course (h without).0))))))
        (λ p.
          runs_change (λ d ((s, aim), w). (s, aim, w)) (λ u d a. a)
            (filled-Aim g old p (wants_data p) refl))

  stays : (u : Blocks) → at_transit u.course ≡ false → turn format_time f u ≡ pure u
  unfolding turn
  stays u e = rw e refl

  turn-Tied :
      (g u : Blocks) (old : Command)
      → f.transfers ≡ none
      → Tied old g.course
      → Runs (Aimed g old u) (turn format_time f u) HeadTied
  turn-Tied g u old one tied = elim (Bool-cases (at_transit u.course)) [
    | inl reached ↦ record {
      keeps = λ d (s, aim, w).
          let runs : Runs Sound (turn format_time f u) HeadTied =
            runs_change (λ x t. t) (λ v x (t, (z, head)). (t, inl z, head))
              (runs_always (turn-Turned f Small-Stable format_time u w reached)) in
          runs.keeps d s;
    }
    | inr before ↦
        subst (λ m. Runs (Aimed g old u) m HeadTied) (sym (stays u before))
          (runs_value u (λ d (s, aim, w). (
            s,
            Aim-Tied now g.course old d.command u.course aim tied (w one).1 before,
            turned-Head f u w before,
          )))
  ]

  round-Tied :
      f.transfers ≡ none → (g : Blocks) → Runs (HeadTied g) (round format_time f g) HeadTied
  unfolding round
  round-Tied one g = record {
    keeps = λ c (s, tied, head).
        let runs : Runs (λ x. Sound x × (x.command ≡ c.command)) (round format_time f g) HeadTied =
          runs_bind (advance-Aim g c.command head) (λ u. turn-Tied g u c.command one tied) in
        runs.keeps c (s, refl);
  }

  arrive-command :
      (e : Environment) (rs : List Request) (c : Main C) → (arrive e rs c).command ≡ c.command
  unfolding arrive
  arrive-command e [] c = refl
  arrive-command e (r ∷ rs) c = arrive-command e rs _

  transfer_loop-Tied :
      f.transfers ≡ none
      → (e : Environment) (arrivals : List (List Request)) (g : Blocks)
      → Runs (HeadTied g) (transfer_loop e format_time f arrivals g) HeadTied
  unfolding transfer_loop
  transfer_loop-Tied one e [] g = runs_value g (λ c h. h)
  transfer_loop-Tied one e (rs ∷ rest) g =
      runs_bind {Q = λ u d. HeadTied g d}
        (record {
          keeps = λ c (s, tied, head). (
            ((arrive-Any Small-Stable e rs).keeps c s).0,
            subst (λ x. Tied x g.course) (sym (arrive-command e rs c)) tied,
            head,
          );
        })
        (λ u. runs_bind runs_got (λ c. runs_either (c.pwc.quit) (runs_gone (pos 0)) (
          runs_bind (runs_change (λ d t. t.0) (λ v d q. q) (round-Tied one g))
            (λ v. transfer_loop-Tied one e rest v))))

  pub transfer_data_block-Tied :
      f.transfers ≡ none
      → (e : Environment) (arrivals : List (List Request))
      → Runs Sound (transfer_data_block e format_time f arrivals) HeadTied
  unfolding transfer_data_block
  transfer_data_block-Tied one e arrivals =
      runs_bind
        (runs_both (begin-Tied f)
          (runs_change {P = Sound} (λ c s. s) (λ p d t. t.1) (runs_always (begin-Before f))))
        (λ p.
          runs_change (λ d ((s, tied), head). (s, tied, head)) (λ g d q. q)
            (transfer_loop-Tied one e arrivals _))
