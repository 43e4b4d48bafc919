-- ===== src/Ipcio/Open.antt =====
-- src/ipcio.c: opening, starting, stopping and closing a stream.
pub mod CloseAll
pub mod Rounds
use mirror_psrdada_code.Prelude.{
  ℕ, zero, suc, ◌*◌, ◌/◌, ◌%◌, Bool, true, false, not, ◌&&◌, ◌||◌, ltb, ◌==◌, if◌then◌else◌, sub64,
  mul64, inc64, Option, none, some,
}
use mirror_psrdada_code.Shared.{Sync, is_writing, is_wchange, ipcbuf_xfers}
use mirror_psrdada_code.Process.{
  ok, fail, Call, pure, continue, ◌>>=◌, ◌>>◌, get, put_sync, modify, guard,
}
use mirror_psrdada_code.Kernel.{Kernel}
use mirror_psrdada_code.Ipcbuf.Lock.{lock_write, unlock_write, lock_read, unlock_read}
use mirror_psrdada_code.Ipcbuf.Writer.{
  disable_sod, enable_eod, get_next_write, get_sod_minbuf, mark_filled,
}
use mirror_psrdada_code.Ipcio.{Pointer, Io, on_buf, alloc}
use mirror_psrdada_code.Ipcio.Block.{is_set, check_pending_sod, close_block_write}

-- one of the characters R, r, W, w
abbrev pub is_mode : ℕ → Bool
is_mode c = (c == b'R' || c == b'r') || (c == b'w' || c == b'W')

-- `ipcio_is_open`
abbrev pub is_open : Io → Bool
is_open io = is_mode io.rdwrt

-- `ipcio_get_start_minimum`
unfoldable pub get_start_minimum : Io → ℕ
get_start_minimum io = mul64 (get_sod_minbuf io.world.handle io.world.sync) io.world.sync.bufsz

-- where a writer that closes puts the counts: behind the last block of the last transfer
unfoldable pub rewind : Sync → Sync
rewind s =
    let last = s.e_buf (sub64 s.w_xfer 1 % ipcbuf_xfers) in
    if s.w_xfer == 0 then s else record s { w_buf_curr = inc64 last; w_buf_next = inc64 last }

module _ ⦃k : Kernel⦄ where
  -- `ipcio_open` for a writer, and for a reader or viewer
  unfoldable pub open_write : (rdwrt : ℕ) → Call Io (Unit {0})
  open_write rdwrt = do
    on_buf lock_write
    (if rdwrt == b'w' then on_buf disable_sod else pure tt)
    modify (λ t. alloc (record t { rdwrt = rdwrt }))

  unfoldable pub open_read : (rdwrt : ℕ) → Call Io (Unit {0})
  open_read rdwrt = do
    (if rdwrt == b'R' then on_buf lock_read else pure tt)
    modify (λ t. alloc (record t { rdwrt = rdwrt }))

  -- `ipcio_open`
  unfoldable pub open_ : (rdwrt : ℕ) → Call Io (Unit {0})
  open_ rdwrt = do
    guard (is_mode rdwrt)
    modify (λ t. record t { rdwrt = 0; bytes = 0; curbuf = none })
    (if rdwrt == b'w' || rdwrt == b'W' then open_write rdwrt else open_read rdwrt)

  -- `ipcio_start`
  unfoldable pub start : (byte : ℕ) → Call Io (Unit {0})
  start byte = do
    io ← get
    guard (io.rdwrt == b'w')
    modify (λ t. record t {
      sod_buf = byte / io.world.sync.bufsz;
      sod_byte = byte % io.world.sync.bufsz;
      sod_pending = true;
      rdwrt = b'W';
    })
    check_pending_sod

  -- the first part of `ipcio_stop_close` for a writer: a transfer that has not begun is begun
  unfoldable pub begin_pending : Call Io (Unit {0})
  begin_pending = do
    io ← get
    (if is_wchange io.world.handle && not (is_set io.curbuf)
        then (do
          b ← on_buf get_next_write
          let ptr : Pointer = record { block = b; offset = 0 }
          modify (λ t. record t { curbuf = some ptr; marked_filled = false; bytes = 0 }))
        else pure tt)

  -- `while (bufs_opened > 0) ipcio_close_block_write (ipc, bufsz)`; a round that succeeds closes a
  -- block, unless the current one is marked filled already, and then the next round fails
  unfoldable pub close_all : (fuel : ℕ) → Call Io (Unit {0})
  close_all zero io = (ok tt, io)
  close_all (suc f) io =
      let round = close_block_write io.world.sync.bufsz io in
      let rest = continue round.0 round.1 (λ _. close_all f) in
      if io.bufs_opened == 0 then (ok tt, io) else rest

  -- the second part: the transfer is ended with the bytes of the current block
  unfoldable pub end_current : Call Io (Unit {0})
  end_current = do
    io ← get
    (if is_writing io.world.handle
        then (do
          close_all (suc io.bufs_opened)
          on_buf enable_eod
          u ← get
          on_buf (mark_filled u.bytes)
          check_pending_sod
          modify (λ t. record t {
            marked_filled = true;
            curbuf = if t.bytes == t.world.sync.bufsz then none else t.curbuf;
          }))
        else pure tt)

  -- `ipcio_stop_close` in the mode W
  unfoldable pub stop_writing : Call Io (Unit {0})
  stop_writing = do begin_pending; end_current; modify (λ t. record t { rdwrt = b'w' })

  -- `ipcio_stop_close` in the modes w and R
  unfoldable pub close_writer : Call Io (Unit {0})
  close_writer = do
    on_buf (put_sync rewind)
    on_buf unlock_write
    modify (λ t. record t { rdwrt = 0 })

  unfoldable pub close_reader : Call Io (Unit {0})
  close_reader = do on_buf unlock_read; modify (λ t. record t { rdwrt = 0 })

  -- `ipcio_stop_close`
  unfoldable pub stop_close : (unlock : Bool) → Call Io (Unit {0})
  stop_close unlock = do
    io ← get
    (if io.rdwrt == b'W'
        then (do stop_writing; (if unlock then close_writer else pure tt))
        else if io.rdwrt == b'w'
        then close_writer
        else if io.rdwrt == b'R'
        then close_reader
        else (λ t. (fail, t)))

  -- `ipcio_stop` and `ipcio_close`
  unfoldable pub stop : Call Io (Unit {0})
  stop = do io ← get; guard (io.rdwrt == b'W'); stop_close false

  unfoldable pub close : Call Io (Unit {0})
  close = stop_close true
