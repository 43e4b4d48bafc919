-- ===== src/PwcMain/Failure.antt =====
-- src/dada_pwc_main.c: what the transfer loops make of a recording with a duration.
use mirror_psrdada_code.Prelude.{◌≡◌, refl, true, false, ◌==◌, ℤ, arith}
use mirror_psrdada_code.AsciiHeader.{Bytes}
use mirror_psrdada_code.Kernel.{Kernel}
use mirror_psrdada_code.Pwc.{start}
use mirror_psrdada_code.PwcMain.{Main, Program, dada_error_hard}
use mirror_psrdada_code.PwcMain.Block as Block
use mirror_psrdada_code.PwcMain.Block.{Blocks}
use mirror_psrdada_code.PwcMain.Copy as Copy
use mirror_psrdada_code.PwcMain.Copy.{Copying, no_data, store_rest, shifted}
use mirror_psrdada_code.PwcMain.Course.{Course, at_transit, change_state}
use mirror_psrdada_code.PwcMain.Flow.{leave, ◌>>=◌}

reached-positive : (p : Course) → at_transit p ≡ true → (p.total == 0) ≡ false
reached-positive p e = ground arith

module _ {C : Type 0} ⦃k : Kernel⦄ where
  -- A recording that was started with a duration ends with an error: at its last byte the command in
  -- hand is still the start command, for which both loops return DADA_ERROR_HARD.
  turn-duration :
      (format_time : ℤ → Bytes) (f : Program C) (c : Main C) (g : Copying) (h : Blocks)
      → c.command.code ≡ start
      → at_transit g.course ≡ true
      → at_transit h.course ≡ true
      → (Copy.turn format_time f g c ≡ (leave dada_error_hard, c))
        × (Block.turn format_time f h c ≡ (leave dada_error_hard, c))
  unfolding Copy.turn Block.turn change_state ◌>>=◌
  turn-duration format_time f c g h e at_g at_h = (
    rw (at_g, e, reached-positive g.course at_g) refl,
    rw (at_h, e, reached-positive h.course at_h) refl,
  )
