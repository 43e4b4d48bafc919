-- ===== src/Ipcio/Input/Seek.antt =====
-- src/ipcio.c: seeking back within the current block.
use mirror_psrdada_code.Prelude.{
  ltb, if◌then◌else◌, ℕ, ◌+◌, ◌-◌, ◌^◌, ◌≤◌, ◌<◌, ◌≡◌, ◌⊎◌, false, some, arith,
}
use mirror_psrdada_code.Process.{ok, fail}
use mirror_psrdada_code.Kernel.{Kernel}
use mirror_psrdada_code.Ipcbuf.Query.{tell_read}
use mirror_psrdada_code.Ipcio.{Io}
use mirror_psrdada_code.Ipcio.Input.{tell, seek}

-- A reader or viewer that asks for a position at or before its own gets there without reading, as far
-- as the start of its current block, of which it has read `io.bytes`: a position before that is
-- refused, and nothing has changed.
seek-back :
    ⦃k : Kernel⦄ (fuel offset start : ℕ) (io : Io)
    → (io.rdwrt ≡ b'r') ⊎ (io.rdwrt ≡ b'R')
    → tell_read io.world ≡ some start
    → start + io.bytes < 2 ^ 63
    → offset ≤ start + io.bytes
    → seek fuel offset false io
      ≡ (if ltb offset start then (fail, io) else (ok offset, record io { bytes = offset - start }))
unfolding seek tell
seek-back fuel offset start io mode e small le = ground arith
