-- ===== src/PwcMain/Path.antt =====
-- src/dada_pwc_main.c: the states that a client goes through while data are transferred.
use mirror_psrdada_code.Prelude.{◌<◌, ◌^◌, ℤ, List}
use mirror_psrdada_code.AsciiHeader.{Bytes}
use mirror_psrdada_code.Kernel.{Kernel}
use mirror_psrdada_code.Pwc.Header.{Environment}
use mirror_psrdada_code.Pwc.Session.{Request}
use mirror_psrdada_code.Pwc.Traces.{◌⟶*◌, stay}
use mirror_psrdada_code.PwcMain.{Main, Program}
use mirror_psrdada_code.PwcMain.Block.{transfer_data_block}
use mirror_psrdada_code.PwcMain.Block.Exact.{transfer_data_block-Head}
use mirror_psrdada_code.PwcMain.Copy.{transfer_data}
use mirror_psrdada_code.PwcMain.Copy.Exact.{transfer_data-Head}
use mirror_psrdada_code.PwcMain.Loop.{Cycle, dada_pwc_main}
use mirror_psrdada_code.PwcMain.Loop.Kept.{dada_pwc_main-Any}
use mirror_psrdada_code.PwcMain.Rules.{Held}
use mirror_psrdada_code.PwcMain.Stability.{Small, Reached, Reached-Stable}

module _ {C : Type 0} ⦃k : Kernel⦄ where
  -- Whatever the client's program does, and whatever arrives at the control port, the state that the
  -- transfer loops and the main loop leave the client in can be reached by steps of the diagram.
  main-path :
      (e : Environment) (format_time : ℤ → Bytes) (f : Program C) (arrivals : List (List Request))
      (rval : ℤ) (cycles : List Cycle) (c : Main C)
      → c.command.byte_count < 2 ^ 64
      → Small c.pwc
      → (c.pwc.state ⟶* (transfer_data e format_time f arrivals c).1.pwc.state)
        × (c.pwc.state ⟶* (transfer_data_block e format_time f arrivals c).1.pwc.state)
        × (c.pwc.state ⟶* (dada_pwc_main e format_time f rval cycles c).1.pwc.state)
  main-path e format_time f arrivals rval cycles c small waiting =
      let st = Reached-Stable c.pwc.state in
      let loops = st.stable in
      let held : Held (Reached c.pwc.state) c = ((waiting, stay), small) in
      (
        ((transfer_data-Head f loops e format_time arrivals).keeps c held).0.0.1,
        ((transfer_data_block-Head f loops e format_time arrivals).keeps c held).0.0.1,
        ((dada_pwc_main-Any st e format_time f rval cycles).keeps c held).0.0.1,
      )
