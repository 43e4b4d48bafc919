-- ===== src/Client/Loop.antt =====
-- src/dada_client.c: `dada_client_io_loop`.
use mirror_psrdada_code.Prelude.{ℕ, zero, suc, true, not, ◌&&◌, ◌==◌, if◌then◌else◌, ℤ, pos, negsuc}
use mirror_psrdada_code.Shared.{is_eod}
use mirror_psrdada_code.Process.{ok, asleep, Call, pure, ◌>>=◌, ◌>>◌, get, modify, continue}
use mirror_psrdada_code.Kernel.{Kernel}
use mirror_psrdada_code.Ipcio.Input.{read}
use mirror_psrdada_code.Ipcio.Stream.{write}
use mirror_psrdada_code.Client.{
  is_reading, Client, Functions, Turn, moved, leave, asked, goes_on, on_data, after_turn,
}

module _ {C : Type 0} ⦃k : Kernel⦄ (f : Functions C) where
  -- `io_function` on the buffer
  abbrev pub call_io : (bytes : ℕ) → Call (Client C) ℤ
  call_io bytes c =
      let (n, buffer, context) = f.io_function c.context c.buffer bytes in
      (ok n, record c { buffer = buffer; context = context })

  -- `ipcio_read` into the buffer
  abbrev pub fill_buffer : (rounds bytes : ℕ) → Call (Client C) ℕ
  fill_buffer rounds bytes = do
    c ← get
    g ← on_data (read rounds true c.buffer bytes)
    modify (λ d. record d { buffer = g.memory })
    pure g.count

  -- what `dada_client_io_loop` does with the result of `io_function`
  abbrev pub use_result : ℤ → Call (Client C) Turn
  use_result (negsuc n) = pure (leave 0)
  use_result (pos n) = do
    c ← get
    (if is_reading c.direction
        then pure (moved n)
        else if n == 0
        then pure (leave 0)
        else (do m ← on_data (write c.buffer n); pure (moved m)))

  -- a round of the loop of `dada_client_io_loop`
  unfoldable pub io_round : (rounds transferred : ℕ) → Call (Client C) Turn
  io_round rounds transferred = do
    c ← get
    let bytes = asked c.transfer_bytes transferred c.optimal_bytes
    (if is_reading c.direction && is_eod c.data_block.world.handle then pure (leave 0) else (do
      got ← (if is_reading c.direction then fill_buffer rounds bytes else pure bytes)
      n ← call_io got
      use_result n))

  -- `dada_client_io_loop` with a number of rounds, and with that of `ipcio_read`
  unfoldable pub io_loop : (fuel rounds transferred : ℕ) → Call (Client C) ℕ
  unfolding io_round
  io_loop zero rounds transferred c = (asleep, c)
  io_loop (suc fuel) rounds transferred c =
      if not (goes_on c.transfer_bytes transferred)
      then (ok transferred, c)
      else continue (io_round rounds transferred c).0 (io_round rounds transferred c).1
          (after_turn (io_loop fuel rounds) transferred)
