-- ===== src/Client/BlockLoop.antt =====
-- src/dada_client.c: `dada_client_io_loop_block`.
use mirror_psrdada_code.Prelude.{
  ℕ, zero, suc, ◌+◌, ◌-◌, not, ◌&&◌, ltb, ◌==◌, if◌then◌else◌, ℤ, pos, negsuc, update,
}
use mirror_psrdada_code.Shared.{is_eod}
use mirror_psrdada_code.Process.{ok, asleep, Call, pure, ◌>>=◌, ◌>>◌, get, continue}
use mirror_psrdada_code.Kernel.{Kernel}
use mirror_psrdada_code.Ipcio.{Pointer}
use mirror_psrdada_code.Ipcio.Block.{
  open_block_read, close_block_read, open_block_write, close_block_write,
}
use mirror_psrdada_code.Client.{
  Memory, is_reading, Client, Turn, moved, leave, asked, goes_on, on_data, after_turn,
  moved_whatever,
}

module _ {C : Type 0} ⦃k : Kernel⦄ where
  -- `io_block_function` on a block that is open: its bytes are those of the ring's memory
  abbrev pub call_block :
      (C → Memory → ℕ → ℕ → ℤ × Memory × C) → Pointer → (bytes block_id : ℕ) → Call (Client C) ℤ
  call_block function at bytes block_id c =
      let io = c.data_block in
      let block : Memory = λ o. io.world.mem at.block (at.offset + o) in
      let (n, written, context) = function c.context block bytes block_id in
      let stored : Memory =
        λ o. if ltb o at.offset then io.world.mem at.block o else written (o - at.offset) in
      (
        ok n,
        record c {
          context = context;
          data_block = record io {
            world = record io.world { mem = update io.world.mem at.block stored };
          };
        },
      )

  -- A block of `bytes` bytes is opened. For a reader the size of the block replaces the number asked
  -- for.
  abbrev pub open_block : (bytes : ℕ) → Call (Client C) (Pointer × ℕ × ℕ)
  open_block bytes = do
    c ← get
    (if is_reading c.direction
        then on_data open_block_read
        else (do b ← on_data open_block_write; pure (b.0, bytes, b.1)))

  -- the result of `io_block_function`; `close_block_read` is allowed to fail
  abbrev pub close_block : ℤ → Call (Client C) Turn
  close_block (negsuc n) = pure (leave 0)
  close_block (pos n) = do
    c ← get
    (if is_reading c.direction
        then (λ d.
            moved_whatever n (on_data (close_block_read n) d).0 (on_data (close_block_read n) d).1)
        else (do
          on_data (close_block_write n)
          pure (if ltb n c.data_block.world.sync.bufsz then leave n else moved n)))

  -- a round of the loop of `dada_client_io_loop_block`
  unfoldable pub block_round :
      (C → Memory → ℕ → ℕ → ℤ × Memory × C) → (transferred : ℕ) → Call (Client C) Turn
  block_round function transferred = do
    c ← get
    (if is_reading c.direction && is_eod c.data_block.world.handle then pure (leave 0) else (do
      b ← open_block (asked c.transfer_bytes transferred c.data_block.world.sync.bufsz)
      n ← (if b.1 == 0 then pure (pos 0) else call_block function b.0 b.1 b.2)
      close_block n))

  -- `dada_client_io_loop_block`
  unfoldable pub io_loop_block :
      (fuel : ℕ) → (C → Memory → ℕ → ℕ → ℤ × Memory × C) → (transferred : ℕ) → Call (Client C) ℕ
  unfolding block_round
  io_loop_block zero function transferred c = (asleep, c)
  io_loop_block (suc fuel) function transferred c =
      if not (goes_on c.transfer_bytes transferred)
      then (ok transferred, c)
      else continue (block_round function transferred c).0 (block_round function transferred c).1
          (after_turn (io_loop_block fuel function) transferred)
