-- ===== src/PwcMain/Within.antt =====
-- src/dada_pwc_main.c: the states of a client while data are transferred.
use mirror_psrdada_code.Prelude.{◌<◌, ◌^◌, ℤ, List}
use mirror_psrdada_code.AsciiHeader.{Bytes}
use mirror_psrdada_code.Kernel.{Kernel}
use mirror_psrdada_code.Pwc.Header.{Environment}
use mirror_psrdada_code.Pwc.Session.{Request}
use mirror_psrdada_code.PwcMain.{Main, Program}
use mirror_psrdada_code.PwcMain.Block.{transfer_data_block}
use mirror_psrdada_code.PwcMain.Block.Exact.{transfer_data_block-Head}
use mirror_psrdada_code.PwcMain.Copy.{transfer_data}
use mirror_psrdada_code.PwcMain.Copy.Exact.{transfer_data-Head}
use mirror_psrdada_code.PwcMain.Rules.{Held}
use mirror_psrdada_code.PwcMain.Stability.{Small, InTransfer, Transferring, Transferring-Stable}

module _ {C : Type 0} ⦃k : Kernel⦄ where
  -- A client (the bytes of its commands fit in 64 bits, as in the program) that is CLOCKING or
  -- RECORDING when a transfer loop starts is in one of these two states after any number of rounds and
  -- whichever way the loop ends, also with an error: whatever its program does and whatever arrives at
  -- the control port, the loops leave the way to IDLE and to the error states to what follows them.
  pub transfer_data-InTransfer :
      (e : Environment) (format_time : ℤ → Bytes) (f : Program C) (arrivals : List (List Request))
      (c : Main C)
      → c.command.byte_count < 2 ^ 64
      → Small c.pwc
      → InTransfer c.pwc.state
      → InTransfer (transfer_data e format_time f arrivals c).1.pwc.state
        × InTransfer (transfer_data_block e format_time f arrivals c).1.pwc.state
  transfer_data-InTransfer e format_time f arrivals c small waiting at_work =
      let held : Held Transferring c = ((waiting, at_work), small) in
      (
        ((transfer_data-Head f Transferring-Stable e format_time arrivals).keeps c held).0.0.1,
        ((transfer_data_block-Head f Transferring-Stable e format_time arrivals).keeps c
            held).0.0.1,
      )
