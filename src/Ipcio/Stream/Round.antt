-- ===== src/Ipcio/Stream/Round.antt =====
-- src/ipcio.c: one round of the loop of `ipcio_write`, and the position of a writer's stream.
use mirror_psrdada_code.Prelude.{
  ℕ, ◌+◌, ◌-◌, ◌*◌, ◌^◌, ◌≤◌, ◌<◌, ◌≡◌, ◌⊎◌, inl, true, false, if◌then◌else◌, arith,
}
use mirror_psrdada_code.Process.{ok}
use mirror_psrdada_code.Kernel.{Kernel}
use mirror_psrdada_code.Ipcbuf.Writer.{mark_filled}
use mirror_psrdada_code.Ipcbuf.Writer.Frame.{
  Kept, enable_sod-Keeps, get_next_write-Keeps, mark_filled-curr,
}
use mirror_psrdada_code.Ipcio.{Io}
use mirror_psrdada_code.Ipcio.Block.{is_set, check_pending_sod}
use mirror_psrdada_code.Ipcio.Stream.{
  copy_in, store_bytes, space_of, finish_block, need_block, write_round,
}

-- The number of the byte that is written next, counted from the start of the ring's first block. A
-- block that is marked filled is behind the current one.
abbrev pub position : Io → ℕ
position io =
    let base = io.world.sync.w_buf_curr * io.world.sync.bufsz in
    if is_set io.curbuf
    then (if io.marked_filled then base + io.bytes - io.world.sync.bufsz else base + io.bytes)
    else base

-- What holds of a stream between two calls of a writer.
pub record Writable (io : Io) : Type 0 where
  pub some_bytes : 0 < io.world.sync.bufsz
  pub word : io.world.sync.bufsz < 2 ^ 64
  pub fits : io.bytes ≤ io.world.sync.bufsz
  pub closed : (is_set io.curbuf ≡ true) ⊎ ((io.bytes ≡ 0) ⊎ (io.marked_filled ≡ true))
  pub behind : (io.marked_filled ≡ false) ⊎ (0 < io.world.sync.w_buf_curr)

suc-mul : (c b : ℕ) → (c + 1) * b ≡ c * b + b
suc-mul c b = omega arith

module _ ⦃k : Kernel⦄ where
  check_pending_sod-Kept :
      (io : Io)
      → let t = (check_pending_sod io).1 in
        Kept io.world t.world
        × (t.bytes ≡ io.bytes)
        × (t.curbuf ≡ io.curbuf)
        × (t.marked_filled ≡ io.marked_filled)
  unfolding check_pending_sod
  check_pending_sod-Kept io = ground (arith, enable_sod-Keeps io.sod_buf io.sod_byte io.world)

  -- The stream when the current block was marked filled, before a pending start of data is looked at.
  abbrev filled : Io → Io
  filled io = record io { world = (mark_filled io.bytes io.world).1 }

  -- A full block that is given up leaves the position, and an open block has room.
  finish_block-position :
      (io : Io)
      → Writable io
      → io.world.sync.w_buf_curr + 1 < 2 ^ 64
      → (finish_block io).0 ≡ ok tt
      → let t = (finish_block io).1 in
        (t.world.sync.bufsz ≡ io.world.sync.bufsz)
        × (position t ≡ position io)
        × (t.bytes < t.world.sync.bufsz)
        × (t.world.sync.w_buf_curr ≤ io.world.sync.w_buf_curr + 1)
        × ((t.marked_filled ≡ false) ⊎ (0 < t.world.sync.w_buf_curr))
  unfolding finish_block
  finish_block-position io s small e =
      let m = mark_filled-curr io.bytes io.world in
      let p = check_pending_sod-Kept (filled io) in
      let q = suc-mul io.world.sync.w_buf_curr io.world.sync.bufsz in ground arith

  need_block-position :
      (io : Io)
      → io.bytes < io.world.sync.bufsz
      → (need_block io).0 ≡ ok tt
      → let t = (need_block io).1 in
        (t.world.sync.bufsz ≡ io.world.sync.bufsz)
        × (position t ≡ position io)
        × (t.bytes < t.world.sync.bufsz)
        × (is_set t.curbuf ≡ true)
        × (t.world.sync.w_buf_curr ≡ io.world.sync.w_buf_curr)
        × ((t.marked_filled ≡ false) ⊎ (t.marked_filled ≡ io.marked_filled))
  unfolding need_block
  need_block-position io room e = let w = get_next_write-Keeps io.world in ground arith

  store_bytes-position :
      (space : ℕ) (ptr : ℕ → ℕ) (io : Io)
      → is_set io.curbuf ≡ true
      → io.bytes + space < 2 ^ 64
      → let t = store_bytes space ptr io in
        (t.world.sync ≡ io.world.sync)
        × (is_set t.curbuf ≡ true)
        × (t.bytes ≡ io.bytes + space)
        × (t.marked_filled ≡ io.marked_filled)
  unfolding store_bytes copy_in
  store_bytes-position space ptr io opened small = ground arith

  -- the room in the block that a round writes to
  abbrev room : (bytes : ℕ) → Io → ℕ
  room bytes io =
      let b = (need_block (finish_block io).1).1 in space_of bytes b.world.sync.bufsz b.bytes

  write_round-calls :
      (bytes : ℕ) (ptr : ℕ → ℕ) (io : Io) {space : ℕ}
      → (write_round bytes ptr io).0 ≡ ok space
      → let a = (finish_block io).1 in
        ((finish_block io).0 ≡ ok tt)
        × ((need_block a).0 ≡ ok tt)
        × (space ≡ room bytes io)
        × ((write_round bytes ptr io).1 ≡ store_bytes (room bytes io) ptr (need_block a).1)
  unfolding write_round
  write_round-calls bytes ptr io e = ground arith

  -- A round writes a byte at least, and moves the position on by what it writes.
  pub write_round-position :
      (bytes : ℕ) (ptr : ℕ → ℕ) (io : Io) {space : ℕ}
      → Writable io
      → 0 < bytes
      → io.world.sync.w_buf_curr + 1 < 2 ^ 64
      → (write_round bytes ptr io).0 ≡ ok space
      → let t = (write_round bytes ptr io).1 in
        (0 < space)
        × (space ≤ bytes)
        × (t.world.sync.w_buf_curr ≤ io.world.sync.w_buf_curr + 1)
        × (position t ≡ position io + space)
        × Writable t
  write_round-position bytes ptr io {space} s some_left small e =
      let (first, second, third, last) = write_round-calls bytes ptr io e in
      let a = (finish_block io).1 in
      let b = (need_block a).1 in
      let (a_size, a_at, a_room, a_curr, a_behind) = finish_block-position io s small first in
      let (b_size, b_at, b_room, b_set, b_curr, b_marked) = need_block-position a a_room second in
      let (t_sync, t_set, t_bytes, t_marked) =
        store_bytes-position (room bytes io) ptr b b_set (ground arith) in
      let m = suc-mul (b.world.sync.w_buf_curr - 1) b.world.sync.bufsz in
      rw (last, t_sync)
        (
          ground arith,
          ground arith,
          ground arith,
          ground arith,
          record {
            some_bytes = ground arith;
            word = ground arith;
            fits = ground arith;
            closed = inl t_set;
            behind = ground arith;
          },
        )
