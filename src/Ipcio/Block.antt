-- ===== src/Ipcio/Block.antt =====
-- src/ipcio.c: access to a ring block by block.
pub mod Partial
pub mod Accounting
use mirror_psrdada_code.Prelude.{
  ℕ, suc, ◌+◌, ◌-◌, ◌%◌, ◌^◌, Bool, true, false, not, ◌&&◌, ◌||◌, ltb, leb, ◌==◌, if◌then◌else◌,
  add64, update, Option, none, some,
}
use mirror_psrdada_code.Shared.{is_eod}
use mirror_psrdada_code.Process.{ok, fail, Call, pure, ◌>>=◌, ◌>>◌, get, modify, guard}
use mirror_psrdada_code.Kernel.{Kernel}
use mirror_psrdada_code.Ipcbuf.Writer.{enable_sod, get_next_write, mark_filled, zero_next_write}
use mirror_psrdada_code.Ipcbuf.Reader.{get_next_read, mark_cleared}
use mirror_psrdada_code.Ipcbuf.Query.{get_read_index, get_write_index}
use mirror_psrdada_code.Ipcio.{Pointer, Io, on_buf}

abbrev pub is_set : Option Pointer → Bool
is_set none = false
is_set (some p) = true

-- the blocks that stay open when the oldest is closed
unfoldable pub shift_ptrs : (left : ℕ) → (ℕ → Option Pointer) → ℕ → Option Pointer
shift_ptrs n p i = if ltb i n then p (suc i) else if i == n then none else p i

module _ ⦃k : Kernel⦄ where
  -- `ipcio_check_pending_sod`
  unfoldable pub check_pending_sod : Call Io (Unit {0})
  check_pending_sod = do
    io ← get
    (if io.sod_pending && ltb io.sod_buf io.world.sync.w_buf_curr
        then (do
          on_buf (enable_sod io.sod_buf io.sod_byte)
          modify (λ t. record t { sod_pending = false }))
        else pure tt)

  -- `ipcio_open_block_read`; returns the block, its size and its index
  unfoldable pub open_block_read : Call Io (Pointer × ℕ × ℕ)
  open_block_read = do
    io ← get
    guard (io.bytes == 0 && not (is_set io.curbuf))
    guard (io.rdwrt == b'r' || io.rdwrt == b'R')
    guard (not (is_eod io.world.handle))
    blk ← on_buf get_next_read
    let ptr : Pointer = record { block = blk.index; offset = blk.offset }
    modify (λ t. record t { curbuf = some ptr; curbufsz = blk.bytes; bytes = 0 })
    u ← get
    pure (ptr, blk.bytes, get_read_index u.world)

  -- `ipcio_close_block_read`. A count other than the size of the block is only warned about.
  unfoldable pub close_block_read : (bytes : ℕ) → Call Io (Unit {0})
  close_block_read bytes = do
    io ← get
    guard (io.bytes == 0 && is_set io.curbuf)
    guard (io.rdwrt == b'R')
    modify (λ t. record t { bytes = add64 t.bytes bytes })
    (if add64 io.bytes bytes == io.curbufsz
        then (do on_buf mark_cleared; modify (λ t. record t { curbuf = none; bytes = 0 }))
        else pure tt)

  -- `ipcio_open_block_write`; returns the block and its index
  unfoldable pub open_block_write : Call Io (Pointer × ℕ)
  open_block_write = do
    io ← get
    guard (io.bytes == 0 && not (is_set io.curbuf && io.bufs_opened == 0))
    guard (io.rdwrt == b'W')
    guard (ltb io.bufs_opened io.bufs_opened_max)
    b ← on_buf get_next_write
    let ptr : Pointer = record { block = b; offset = 0 }
    modify (λ t. record t {
      buf_ptrs = update t.buf_ptrs t.bufs_opened (some ptr);
      curbuf = if t.bufs_opened == 0 then some ptr else t.curbuf;
      marked_filled = if t.bufs_opened == 0 then false else t.marked_filled;
      bytes = if t.bufs_opened == 0 then 0 else t.bytes;
      bufs_opened = (t.bufs_opened + 1) % 2 ^ 32;
    })
    u ← get
    pure (ptr, get_write_index u.world.sync)

  -- `ipcio_update_block_write`
  unfoldable pub update_block_write : (bytes : ℕ) → Call Io (Unit {0})
  update_block_write bytes = do
    io ← get
    guard (io.bytes == 0 && is_set io.curbuf)
    guard (io.rdwrt == b'W')
    guard (leb (add64 io.bytes bytes) io.world.sync.bufsz)
    modify (λ t. record t { bytes = add64 t.bytes bytes })

  -- the end of `ipcio_close_block_write`, once the block is marked filled
  unfoldable pub drop_block : Io → Io
  unfolding shift_ptrs
  drop_block io =
      let left = (io.bufs_opened + 2 ^ 32 - 1) % 2 ^ 32 in
      if left == 0
      then record io {
        bufs_opened = 0;
        buf_ptrs = update io.buf_ptrs 0 none;
        curbuf = none;
        marked_filled = true;
        bytes = 0;
      }
      else record io {
        bufs_opened = left;
        buf_ptrs = shift_ptrs left io.buf_ptrs;
        curbuf = shift_ptrs left io.buf_ptrs 0;
        marked_filled = false;
        bytes = 0;
      }

  -- `ipcio_close_block_write`
  unfoldable pub close_block_write : (bytes : ℕ) → Call Io (Unit {0})
  close_block_write bytes = do
    update_block_write bytes
    io ← get
    (if io.marked_filled
        then pure tt
        else (do on_buf (mark_filled io.bytes); check_pending_sod; modify drop_block))

-- `ipcio_zero_next_block`
unfoldable pub zero_next_block : Call Io (Unit {0})
zero_next_block = do io ← get; guard (io.rdwrt == b'W'); on_buf zero_next_write
