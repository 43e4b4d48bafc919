-- ===== src/Ipcio/Stream.antt =====
-- src/ipcio.c: writing a ring as a stream of bytes. The caller's memory is a function of
-- the offset from `ptr`.
pub mod Round
pub mod Write
pub mod Within
use mirror_psrdada_code.Prelude.{
  ℕ, zero, suc, ◌+◌, ◌-◌, true, false, ◌&&◌, ◌||◌, ltb, leb, ◌==◌, if◌then◌else◌, add64, sub64,
  update, none, some,
}
use mirror_psrdada_code.Shared.{World}
use mirror_psrdada_code.Process.{ok, asleep, Call, pure, continue, ◌>>=◌, ◌>>◌, get, modify, guard}
use mirror_psrdada_code.Kernel.{Kernel}
use mirror_psrdada_code.Ipcbuf.Writer.{get_next_write, mark_filled}
use mirror_psrdada_code.Ipcio.{Pointer, Io, on_buf}
use mirror_psrdada_code.Ipcio.Block.{is_set, check_pending_sod}

-- `memcpy (p + at, ptr, space)`
unfoldable pub copy_in : (p : Pointer) (at space : ℕ) (ptr : ℕ → ℕ) → World → World
copy_in p at space ptr w = record w {
  mem = update w.mem p.block (λ o.
      if leb (p.offset + at) o && ltb o (p.offset + at + space)
      then ptr (o - (p.offset + at))
      else w.mem p.block o);
}

-- the copy of `ipcio_write`, with the block that is open
unfoldable pub store_bytes : (space : ℕ) (ptr : ℕ → ℕ) → Io → Io
unfolding copy_in
store_bytes space ptr io = elim io.curbuf [
  | none ↦ io
  | some p ↦ record io {
    world = copy_in p io.bytes space ptr io.world;
    bytes = add64 io.bytes space;
  }
]

-- the room in the block, or what is left to write if that is less
abbrev pub space_of : (left : ℕ) → (size bytes : ℕ) → ℕ
space_of left size bytes = if ltb left (sub64 size bytes) then left else sub64 size bytes

module _ ⦃k : Kernel⦄ where
  -- a current block that is full is marked filled and given up, `ipcio_write`
  unfoldable pub finish_block : Call Io (Unit {0})
  finish_block = do
    io ← get
    (if io.bytes == io.world.sync.bufsz
        then (do
          (if io.marked_filled
              then pure tt
              else (do on_buf (mark_filled io.bytes); check_pending_sod))
          modify (λ t. record t { curbuf = none; bytes = 0; marked_filled = true }))
        else pure tt)

  -- the next block is opened when there is none, `ipcio_write`
  unfoldable pub need_block : Call Io (Unit {0})
  need_block = do
    io ← get
    (if is_set io.curbuf then pure tt else (do
      b ← on_buf get_next_write
      modify (λ t. record t {
        curbuf = some (record { block = b; offset = 0 });
        marked_filled = false;
        bytes = 0;
      })))

  -- one round of the loop of `ipcio_write`; returns `space`
  unfoldable pub write_round : (bytes : ℕ) (ptr : ℕ → ℕ) → Call Io ℕ
  write_round bytes ptr = do
    finish_block
    need_block
    u ← get
    modify (store_bytes (space_of bytes u.world.sync.bufsz u.bytes) ptr)
    pure (space_of bytes u.world.sync.bufsz u.bytes)

  -- `while (bytes)` of `ipcio_write`, by the number of rounds. A loop that has not ended after them
  -- is still running.
  unfoldable pub write_loop : (fuel bytes : ℕ) (ptr : ℕ → ℕ) → Call Io (Unit {0})
  write_loop zero bytes ptr io = if bytes == 0 then (ok tt, io) else (asleep, io)
  write_loop (suc f) bytes ptr io =
      let round = write_round bytes ptr io in
      let rest =
        continue round.0 round.1 (λ space. write_loop f (bytes - space) (λ o. ptr (space + o))) in
      if bytes == 0 then (ok tt, io) else rest

  -- `ipcio_write`; each round of the loop writes a byte at least
  unfoldable pub write : (ptr : ℕ → ℕ) (bytes : ℕ) → Call Io ℕ
  unfolding write_loop
  write ptr bytes = do
    io ← get
    guard (io.rdwrt == b'W' || io.rdwrt == b'w')
    write_loop bytes bytes ptr
    pure bytes
