-- ===== src/Ipcio/Input.antt =====
-- src/ipcio.c: reading a ring as a stream of bytes, and the position in it.
pub mod Within
pub mod Seek
use mirror_psrdada_code.Prelude.{
  ℕ, zero, suc, ◌+◌, ◌-◌, ◌^◌, Bool, true, false, not, ◌||◌, ltb, ◌==◌, if◌then◌else◌, add64, sub64,
  mul64, Option, none, some,
}
use mirror_psrdada_code.Shared.{World, is_eod}
use mirror_psrdada_code.Process.{
  Outcome, ok, fail, asleep, Call, pure, continue, ◌>>=◌, ◌>>◌, get, modify, guard,
}
use mirror_psrdada_code.Kernel.{Kernel}
use mirror_psrdada_code.Ipcbuf.Reader.{get_next_read, mark_cleared}
use mirror_psrdada_code.Ipcbuf.Query.{tell_write, tell_read, get_nfull_iread}
use mirror_psrdada_code.Ipcio.{Pointer, Io, on_buf}
use mirror_psrdada_code.Ipcio.Block.{is_set}
use mirror_psrdada_code.Ipcio.Stream.{space_of}

-- What a read has come to: the number of bytes read, and the caller's memory from `ptr` on.
pub record Progress : Type 0 where
  pub count : ℕ
  pub memory : ℕ → ℕ

-- `memcpy (ptr + count, curbuf + at, space)`, unless `ptr` is null
unfoldable pub copy_out :
    (keep : Bool) (curbuf : Option Pointer) (at space : ℕ) → World → Progress → ℕ → ℕ
copy_out false p at space w g o = g.memory o
copy_out true none at space w g o = g.memory o
copy_out true (some p) at space w g o =
    if ltb o g.count
    then g.memory o
    else if ltb o (g.count + space)
    then w.mem p.block (p.offset + at + (o - g.count))
    else g.memory o

module _ ⦃k : Kernel⦄ where
  -- the next block is asked for when there is none, `ipcio_read`
  unfoldable pub need_input : Call Io (Unit {0})
  need_input = do
    io ← get
    (if is_set io.curbuf then pure tt else (do
      blk ← on_buf get_next_read
      modify (λ t. record t {
        curbuf = some (record { block = blk.index; offset = blk.offset });
        curbufsz = blk.bytes;
        bytes = 0;
      })))

  -- a block that is read to its end is given back, `ipcio_read`
  unfoldable pub finish_input : Call Io (Unit {0})
  finish_input = do
    io ← get
    (if io.bytes == io.curbufsz
        then (do
          (if io.rdwrt == b'R' then on_buf mark_cleared else pure tt)
          modify (λ t. record t { curbuf = none; bytes = 0 }))
        else pure tt)

  -- one round of the loop of `ipcio_read`, with `left` bytes to read
  unfoldable pub read_round : (keep : Bool) (left : ℕ) → Progress → Call Io Progress
  read_round keep left g = do
    need_input
    u ← get
    let space = space_of left u.curbufsz u.bytes
    modify (λ t. if left == 0 then t else record t { bytes = add64 t.bytes space })
    finish_input
    pure (
        if left == 0 then g else record {
          count = g.count + space;
          memory = copy_out keep u.curbuf u.bytes space u.world g;
        })

  -- `while (!ipcbuf_eod (ipc))` of `ipcio_read`, by the number of rounds. A loop that has not ended
  -- after them is still running: a block without bytes makes a round that reads none.
  unfoldable pub read_loop : (fuel bytes : ℕ) (keep : Bool) → Progress → Call Io Progress
  read_loop zero bytes keep g io = (asleep, io)
  read_loop (suc f) bytes keep g io =
      let round = read_round keep (bytes - g.count) g io in
      let rest =
        continue round.0 round.1
          (λ r. let more = read_loop f bytes keep r in if r.count == bytes then pure r else more) in
      if is_eod io.world.handle then (ok g, io) else rest

  -- `ipcio_read`, with the number of rounds; `keep` is false for a null pointer
  unfoldable pub read : (fuel : ℕ) (keep : Bool) (memory : ℕ → ℕ) (bytes : ℕ) → Call Io Progress
  unfolding read_loop
  read fuel keep memory bytes = do
    io ← get
    guard (io.rdwrt == b'r' || io.rdwrt == b'R')
    read_loop fuel bytes keep (record { count = 0; memory = memory })

-- an `int64_t` position that is not negative, with the bytes of the current block
abbrev pub position_of : Option ℕ → (bytes : ℕ) → ℕ
position_of none bytes = 0
position_of (some c) bytes = if ltb c (2 ^ 63) then add64 c bytes else 0

-- `ipcio_tell`
unfoldable pub tell : Io → ℕ
tell io =
    if io.rdwrt == b'R' || io.rdwrt == b'r'
    then position_of (tell_read io.world) io.bytes
    else if io.rdwrt == b'W' || io.rdwrt == b'w'
    then position_of (tell_write io.world) io.bytes
    else 0

-- The `offset` of `ipcio_seek`, as its 64 bits, with `whence` applied: `from_current` stands for
-- SEEK_CUR.
abbrev pub target : (offset : ℕ) (from_current : Bool) → Io → ℕ
target offset from_current io = if from_current then add64 offset (tell io) else offset

module _ ⦃k : Kernel⦄ where
  -- `ipcio_seek`, with the number of rounds of the read that skips bytes. The comparisons are of
  -- `uint64_t`.
  unfoldable pub seek : (fuel offset : ℕ) (from_current : Bool) → Call Io ℕ
  unfolding tell read
  seek fuel offset from_current = do
    io ← get
    let goal = target offset from_current io
    (if ltb (tell io) goal
        then (do r ← read fuel false (λ o. 0) (sub64 goal (tell io)); pure tt)
        else if ltb goal (tell io)
        then (do
          guard (not (ltb io.bytes (sub64 (tell io) goal)))
          modify (λ t. record t { bytes = sub64 t.bytes (sub64 (tell io) goal) }))
        else pure tt)
    u ← get
    pure (tell u)

-- `ipcio_space_left`, as its 64 bits
unfoldable pub space_left : Io → ℕ
space_left io =
    mul64 (sub64 io.world.sync.nbufs (get_nfull_iread none io.world)) io.world.sync.bufsz

-- `ipcio_get_soclock_byte`
unfoldable pub get_soclock_byte : Io → ℕ
get_soclock_byte io = mul64 io.world.sync.bufsz io.world.handle.soclock_buf
