-- ===== src/Ipcio/Block/Partial.antt =====
-- src/ipcio.c: blocks that are closed with less than their size, or after an update.
use mirror_psrdada_code.Prelude.{ℕ, ◌^◌, ◌<◌, ◌≡◌, ◌≢◌, arith}
use mirror_psrdada_code.Process.{ok, fail}
use mirror_psrdada_code.Kernel.{Kernel}
use mirror_psrdada_code.Ipcio.{Io}
use mirror_psrdada_code.Ipcio.Block.{
  open_block_read, close_block_read, open_block_write, update_block_write, close_block_write,
}

-- A reader that closes a block with some of its bytes only is told that all is well, and cannot go on:
-- every later call that opens or closes a block for reading fails, whatever its argument.
close_block_read-partial :
    ⦃k : Kernel⦄ (io : Io) (bytes later : ℕ)
    → (close_block_read bytes io).0 ≡ ok tt
    → 0 < bytes
    → bytes < 2 ^ 64
    → bytes ≢ io.curbufsz
    → let t = (close_block_read bytes io).1 in
      (t.bytes ≡ bytes) × (open_block_read t ≡ (fail, t)) × (close_block_read later t ≡ (fail, t))
unfolding close_block_read open_block_read
close_block_read-partial io bytes later e some_bytes small other = ground arith

-- A writer that updates its block with some bytes cannot close it, update it again or open another
-- block: those calls fail and change nothing.
update_block_write-wedged :
    ⦃k : Kernel⦄ (io : Io) (bytes later : ℕ)
    → (update_block_write bytes io).0 ≡ ok tt
    → 0 < bytes
    → bytes < 2 ^ 64
    → let t = (update_block_write bytes io).1 in
      (t.bytes ≡ bytes)
      × (close_block_write later t ≡ (fail, t))
      × (update_block_write later t ≡ (fail, t))
      × (open_block_write t ≡ (fail, t))
unfolding update_block_write close_block_write open_block_write
update_block_write-wedged io bytes later e some_bytes small = ground arith
