-- ===== src/PwcMain/Block.antt =====
-- src/dada_pwc_main.c: `dada_pwc_main_transfer_data_block`, in which the client's program fills the
-- blocks of the ring itself.
pub mod Exact
pub mod Aim
pub mod Transit
use mirror_psrdada_code.Prelude.{
  ℕ, ◌+◌, ◌-◌, ◌==◌, Bool, true, false, not, ◌&&◌, ◌||◌, ltb, leb, if◌then◌else◌, add64, ℤ, pos,
  negsuc, zero, suc, List, [], ◌∷◌, Option, none, some, update,
}
use mirror_psrdada_code.AsciiHeader.{Bytes}
use mirror_psrdada_code.Hdu.{Memory}
use mirror_psrdada_code.Ipcio.{Pointer}
use mirror_psrdada_code.Ipcio.Block.{open_block_write, close_block_write}
use mirror_psrdada_code.Kernel.{Kernel}
use mirror_psrdada_code.Pwc.Header.{Environment}
use mirror_psrdada_code.Pwc.Session.{Request}
use mirror_psrdada_code.PwcMain.{
  Main, Program, Transfers, on_data, dada_error_hard, dada_error_fatal,
}
use mirror_psrdada_code.PwcMain.Course.{
  Course, wants_data, share, advanced, at_transit, arrive, begin, receive, late_header,
  change_state,
}
use mirror_psrdada_code.PwcMain.Flow.{
  Run, pure, give_up, get, modify, when, ◌>>=◌, ◌>>◌, ignoring, or_return,
}
use mirror_psrdada_code.PwcMain.Xfer.{process_xfer}

-- The variables of the loop. `this_xfer` is `bytes_written_this_xfer`, `buf_bytes` is 0 in a round that
-- writes nothing.
pub record Blocks : Type 0 where
  pub course : Course
  pub this_xfer : ℕ
  pub buf_bytes : ℕ

-- a command for a byte that has been passed
abbrev pub at_once : Course → Course
at_once p = record p { transit = p.total; left = 0 }

-- what `process_xfer` returned is the wait for more data, an error, or the byte of the next transfer
abbrev pub xfer_blocks : {C : Type 0} → ℤ → Blocks → Run C Blocks
xfer_blocks (negsuc n) g = give_up dada_error_hard
xfer_blocks (pos zero) g = pure g
xfer_blocks (pos (suc n)) g =
    pure (record g { course = record g.course { total = suc n }; this_xfer = 0 })

module _ {C : Type 0} where
  -- `block_function` on the block at `at`, whose bytes are those of the ring's memory
  abbrev pub call_block : Program C → Pointer → (block_id : ℕ) → Run C ℤ
  call_block f at block_id c =
      let io = c.data_block in
      let block : Memory = λ o. io.world.mem at.block (at.offset + o) in
      let (n, written, context) = f.block_function c.context block io.world.sync.bufsz block_id in
      let stored : Memory =
        λ o. if ltb o at.offset then io.world.mem at.block o else written (o - at.offset) in
      pure n (record c {
        context = context;
        data_block = record io {
          world = record io.world { mem = update io.world.mem at.block stored };
        };
      })

  -- "run the block function once more to finalize the transfer process": without a buffer
  abbrev pub last_call : Program C → (block_id : ℕ) → Main C → Main C
  last_call f block_id c = record c { context = (f.block_function c.context (λ o. 0) 0 block_id).2 }

  module _ ⦃k : Kernel⦄ where
    -- the block is closed, or `process_xfer` sees to that
    unfoldable pub end_block :
        Option (Transfers C) → Program C → (block_id : ℕ) → Blocks → Run C Blocks
    unfolding process_xfer
    end_block none f block_id g = do
      or_return dada_error_fatal (on_data (close_block_write g.buf_bytes))
      pure g
    end_block (some t) f block_id g = do
      let h = record g { this_xfer = add64 g.this_xfer g.buf_bytes }
      when (not (g.course.transit == 0) && g.course.transit == g.course.total)
          (modify (last_call f block_id))
      r ← process_xfer t g.buf_bytes
      xfer_blocks r h

    -- what the program put into the block
    unfoldable pub taken : Program C → (block_id : ℕ) → ℤ → Blocks → Run C Blocks
    unfolding end_block
    taken f block_id (negsuc n) g = do
      ignoring (on_data (close_block_write 0))
      give_up dada_error_fatal
    taken f block_id (pos n) g = do
      c ← get
      when (ltb c.data_block.world.sync.bufsz n) (do
        ignoring (on_data (close_block_write c.data_block.world.sync.bufsz))
        give_up dada_error_fatal)
      let b = share n g.course
      h ←
          end_block f.transfers f block_id
            (record g { course = advanced b g.course; buf_bytes = b })
      late_header f
      pure h

    -- a block is opened and filled
    unfoldable pub fill : Program C → Blocks → Run C Blocks
    unfolding taken
    fill f g = do
      b ← or_return dada_error_fatal (on_data open_block_write)
      n ← call_block f b.0 b.1
      taken f b.1 n g

    -- the test of the transit byte
    unfoldable pub turn : (ℤ → Bytes) → Program C → Blocks → Run C Blocks
    unfolding change_state
    turn format_time f g = if not (at_transit g.course) then pure g else (do
      c ← get
      let p = record g.course { transit = 0 }
      change_state format_time f g.buf_bytes c.command.code p
      pure (record g { course = p }))

    -- a round of the loop up to the test of the transit byte
    unfoldable pub advance : (ℤ → Bytes) → Program C → Blocks → Run C Blocks
    unfolding receive fill
    advance format_time f g = do
      course ← receive at_once format_time f g.course
      let h = record g { course = course; buf_bytes = 0 }
      (if wants_data course then fill f h else pure h)

    -- a round of the loop
    unfoldable pub round : (ℤ → Bytes) → Program C → Blocks → Run C Blocks
    unfolding advance turn
    round format_time f g = do u ← advance format_time f g; turn format_time f u

    -- The loop. Before each round the requests of one element of the list reach the control port; the
    -- loop is still running when the list is used up, with the variables that are returned.
    unfoldable pub transfer_loop :
        Environment → (ℤ → Bytes) → Program C → List (List Request) → Blocks → Run C Blocks
    unfolding round arrive
    transfer_loop e format_time f [] g = pure g
    transfer_loop e format_time f (rs ∷ rest) g = do
      modify (arrive e rs)
      c ← get
      (if c.pwc.quit
          then give_up (pos 0)
          else (do h ← round format_time f g; transfer_loop e format_time f rest h))

    -- `dada_pwc_main_transfer_data_block`
    unfoldable pub transfer_data_block :
        Environment → (ℤ → Bytes) → Program C → List (List Request) → Run C Blocks
    unfolding begin transfer_loop
    transfer_data_block e format_time f arrivals = do
      course ← begin f
      transfer_loop e format_time f arrivals
          (record { course = course; this_xfer = 0; buf_bytes = 0 })
