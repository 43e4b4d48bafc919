-- ===== src/PwcMain/Lost.antt =====
-- src/dada_pwc_main.c: a command that is to take effect at once before any data have been written.
use mirror_psrdada_code.Prelude.{◌≡◌, if◌then◌else◌, ℤ}
use mirror_psrdada_code.AsciiHeader.{Bytes}
use mirror_psrdada_code.Kernel.{Kernel}
use mirror_psrdada_code.Pwc.{Code, no_command, record_start, record_stop, stop}
use mirror_psrdada_code.PwcMain.{Main, Program}
use mirror_psrdada_code.PwcMain.Block as Block
use mirror_psrdada_code.PwcMain.Block.{Blocks}
use mirror_psrdada_code.PwcMain.Copy as Copy
use mirror_psrdada_code.PwcMain.Course.{Course, wants_data}
use mirror_psrdada_code.PwcMain.Flow.{Flow, pure, after}

-- the commands that change the state at a byte
pub data Scheduled : Code → Type 0 where
  starting : Scheduled record_start
  pausing : Scheduled record_stop
  stopping : Scheduled stop

-- a loop that has written nothing, and has no byte for a change of state
abbrev pub Idle : Course → Type 0
Idle p = (p.total ≡ 0) × (p.transit ≡ 0) × (p.left ≡ 0)

abbrev zeroed : Course → Course
zeroed p = record p { total = 0; transit = 0; left = 0 }

module _ {C : Type 0} where
  -- the client with the pending command in hand
  abbrev pub in_hand : Main C → Main C
  in_hand c = record c {
    command = c.pwc.command;
    pwc = record c.pwc { command = record c.pwc.command { code = no_command; byte_count = 0 } };
  }

  module _ ⦃k : Kernel⦄ (format_time : ℤ → Bytes) (f : Program C) where
    -- a round from the course that its first step gave
    abbrev resumed : Blocks → Flow Course × Main C → Flow Blocks × Main C
    resumed g r =
        let filled = after r.0 r.1 (λ p.
          let h = record g { course = p; buf_bytes = 0 } in
          if wants_data p then Block.fill f h else pure h) in
        after filled.0 filled.1 (Block.turn format_time f)
