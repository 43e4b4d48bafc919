-- ===== src/PwcMain/Start.antt =====
-- src/dada_pwc_main.c: the state in which a transfer starts.
use mirror_psrdada_code.Prelude.{
  ◌≡◌, ◌≢◌, ◌⊎◌, inl, inr, refl, ap, ◌∙◌, true, false, Bool, if◌then◌else◌, ℤ, pos, negsuc, before,
  is_zero, Option, none, some,
}
use mirror_psrdada_code.AsciiHeader.{Bytes, codes}
use mirror_psrdada_code.Ipcbuf.Writer.{mark_filled}
use mirror_psrdada_code.Kernel.{Kernel}
use mirror_psrdada_code.Shared.{World}
use mirror_psrdada_code.Process.{Outcome, ok, fail, asleep}
use mirror_psrdada_code.Pwc.{
  PwcState, prepared, clocking, recording, ◌is_code◌, Code, clock, start, set_state, may_change,
}
use mirror_psrdada_code.PwcMain.{
  Main, Program, start_transfer, enter_transfer, publish_header, validated, attempt, return_value,
  on_header, with_start, dada_error_hard,
}

-- the state that a command starts the transfer in
abbrev begun : Code → PwcState
begun clock = clocking
begun _ = recording

module _ {C : Type 0} ⦃k : Kernel⦄ where
  -- a transfer of a prepared client is on its way from the time `utc`, or the client is prepared still
  unfoldable pub Started : Code → ℤ → Outcome ℤ × Main C → Type 0
  Started code utc (o, c) =
      ((o ≡ ok (pos 0)) × (c.pwc.state ≡ begun code) × (c.pwc.utc_start ≡ utc))
      ⊎ ((o ≢ ok (pos 0)) × (c.pwc.state ≡ prepared))

  -- a prepared client with a command that starts a transfer
  abbrev Ready : Code → Main C → Type 0
  Ready code c =
      (c.pwc.state ≡ prepared) × (c.command.code ≡ code) × ((code ≡ start) ⊎ (code ≡ clock))

  enter_transfer-Started :
      (utc r : ℤ) (code : Code) (d : Main C)
      → Ready code d
      → Started code utc (enter_transfer utc r d)
  unfolding set_state may_change Started
  enter_transfer-Started utc (negsuc n) code d (at, is, which) = inr ((λ e. absurd cc), at)
  enter_transfer-Started utc (pos n) code d (at, is, inl e) =
      rw (is, e, at) (inl (refl, refl, refl))
  enter_transfer-Started utc (pos n) code d (at, is, inr e) =
      rw (is, e, at) (inl (refl, refl, refl))

  attempt-Started :
      (o : Outcome ℤ) (utc : ℤ) (code : Code) (d : Main C)
      → Ready code d
      → Started code utc (attempt o d (return_value dada_error_hard) (enter_transfer utc))
  unfolding Started
  attempt-Started (ok r) utc code d ready = enter_transfer-Started utc r code d ready
  attempt-Started fail utc code d (at, is, which) = inr ((λ e. absurd cc), at)
  attempt-Started asleep utc code d (at, is, which) = inr ((λ e. absurd cc), at)

  -- neither the primary nor the command is touched
  abbrev Kept : Main C → Outcome ℤ × Main C → Type 0
  Kept d (o, c) = (c.pwc ≡ d.pwc) × (c.command ≡ d.command)

  mark_filled-Kept :
      (o : Outcome (Unit {0})) (w : World) (d : Main C)
      → Kept d (
          attempt o
            (record d { header_block = w })
            (return_value dada_error_hard)
            (λ u. return_value (pos 0)))
  mark_filled-Kept (ok u) w d = (refl, refl)
  mark_filled-Kept fail w d = (refl, refl)
  mark_filled-Kept asleep w d = (refl, refl)

  header-Kept :
      (valid : Bool) (d : Main C)
      → Kept d (
          if valid
          then attempt
              (on_header (mark_filled d.header_size) d).0
              (on_header (mark_filled d.header_size) d).1
              (return_value dada_error_hard)
              (λ u. return_value (pos 0))
          else (ok (pos 0), d))
  header-Kept true d =
      mark_filled-Kept (mark_filled d.header_size d.header_block).0
        (mark_filled d.header_size d.header_block).1 d
  header-Kept false d = (refl, refl)

  validated-Kept :
      (h : Option (C → Bool × C)) (d : Main C)
      → ((validated h d).pwc ≡ d.pwc) × ((validated h d).command ≡ d.command)
  validated-Kept none d = (refl, refl)
  validated-Kept (some h) d = (refl, refl)

  publish_header-Ready :
      (f : Program C) (code : Code) (d : Main C) → Ready code d → Ready code (publish_header f d).1
  publish_header-Ready f code d (at, is, which) =
      let e = validated f.header_valid_function d in
      let (p, c) = validated-Kept f.header_valid_function d in
      let (q, b) = header-Kept e.header_valid e in
      (ap (λ x. x.state) (q ∙ p) ∙ at, ap (λ x. x.code) (b ∙ c) ∙ is, which)

  -- the rest of `start_transfer`, once the header is complete
  go_on-Started :
      (starts : Bool) (f : Program C) (utc : ℤ) (code : Code) (g : Main C)
      → Ready code g
      → Started code utc (
          if starts
          then attempt
              (publish_header f g).0
              (publish_header f g).1
              (return_value dada_error_hard)
              (enter_transfer utc)
          else enter_transfer utc (pos 0) g)
  go_on-Started true f utc code g ready =
      attempt-Started (publish_header f g).0 utc code (publish_header f g).1
        (publish_header-Ready f code g ready)
  go_on-Started false f utc code g ready = enter_transfer-Started utc (pos 0) code g ready

  timed-Ready :
      (b : Bool) (utc : ℤ) (code : Code) (e : Main C)
      → Ready code e
      → Ready code (if b then record e { pwc = record e.pwc { utc_start = utc } } else e)
  timed-Ready true utc code e ready = ready
  timed-Ready false utc code e ready = ready

  dated-Started :
      (late : Bool) (f : Program C) (utc : ℤ) (code : Code) (d g : Main C)
      → d.pwc.state ≡ prepared
      → Ready code g
      → Started code utc (
          if late
          then (ok dada_error_hard, d)
          else if g.command.code is_code start
          then attempt
              (publish_header f g).0
              (publish_header f g).1
              (return_value dada_error_hard)
              (enter_transfer utc)
          else enter_transfer utc (pos 0) g)
  unfolding Started
  dated-Started true f utc code d g at ready = inr ((λ e. absurd cc), at)
  dated-Started false f utc code d g at ready =
      go_on-Started (g.command.code is_code start) f utc code g ready

  -- A prepared client starts a transfer for a start or a clock command. When that returns 0, it is
  -- RECORDING or CLOCKING, as the command says, and the time that the start function gave is its start.
  -- When it returns an error, or waits, the client is PREPARED still.
  pub start_transfer-Started :
      (format_time : ℤ → Bytes) (f : Program C) (c : Main C)
      → c.pwc.state ≡ prepared
      → (c.command.code ≡ start) ⊎ (c.command.code ≡ clock)
      → Started c.command.code
          (f.start_function c.context c.command.utc).0
          (start_transfer format_time f c)
  unfolding start_transfer
  start_transfer-Started format_time f c at which =
      let utc = (f.start_function c.context c.command.utc).0 in
      let d = record c { context = (f.start_function c.context c.command.utc).1 } in
      let e = with_start (if is_zero utc then codes "UNKNOWN" else format_time utc) d in
      dated-Started (before utc (pos 0)) f utc c.command.code d
        (if before (pos 0) utc then record e { pwc = record e.pwc { utc_start = utc } } else e) at
        (timed-Ready (before (pos 0) utc) utc c.command.code e (at, refl, which))
