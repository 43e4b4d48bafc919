-- ===== src/Ipcio/Block/Accounting.antt =====
-- src/ipcio.c: the count of open blocks keeps a writer within the ring.
use mirror_psrdada_code.Prelude.{ℕ, suc, ◌+◌, ◌%◌, ◌^◌, ◌≤◌, ◌<◌, ◌≡◌, arith}
use mirror_psrdada_code.Shared.{writing}
use mirror_psrdada_code.Process.{ok}
use mirror_psrdada_code.Kernel.{Kernel, Lawful}
use mirror_psrdada_code.Ipcbuf.Writer.{get_next_write}
use mirror_psrdada_code.Ipcbuf.Writer.Next.{next_index, Obtained-of_ok}
use mirror_psrdada_code.Ipcio.{Pointer, Io}
use mirror_psrdada_code.Ipcio.Block.{open_block_write}

-- A writer inside a transfer has as many blocks open as the ring's counts say, fewer than the
-- ring has.
pub record Accounted (io : Io) : Type 0 where
  pub state : io.world.handle.state ≡ writing
  pub opened : io.world.sync.w_buf_next ≡ io.world.sync.w_buf_curr + io.bufs_opened
  pub limit : io.bufs_opened ≤ io.bufs_opened_max
  pub below : io.bufs_opened_max < io.world.sync.nbufs
  pub word : io.bufs_opened_max < 2 ^ 32
  pub small : suc io.world.sync.w_buf_next < 2 ^ 64

opened_of_ok :
    ⦃k : Kernel⦄ (io : Io) {r : Pointer × ℕ}
    → (open_block_write io).0 ≡ ok r
    → let t = (open_block_write io).1 in
      (io.bufs_opened < io.bufs_opened_max)
      × ((get_next_write io.world).0 ≡ ok r.0.block)
      × (t.world ≡ (get_next_write io.world).1)
      × (t.bufs_opened ≡ (io.bufs_opened + 1) % 2 ^ 32)
      × (t.bufs_opened_max ≡ io.bufs_opened_max)
unfolding open_block_write
opened_of_ok io e = ground arith

-- A call of `ipcio_open_block_write` that returns has opened the next block: with the room for it in
-- the ring that `ipcbuf_get_next_write` needs, one more block is counted as open, and the counts
-- agree as before.
pub open_block_write-Accounted :
    ⦃k : Kernel⦄ (law : Lawful k) (io : Io) {r : Pointer × ℕ}
    → Accounted io
    → io.world.sync.count (next_index io.world) < 256
    → (open_block_write io).0 ≡ ok r
    → suc (suc io.world.sync.w_buf_next) < 2 ^ 64
    → let t = (open_block_write io).1 in
      (io.world.sync.w_buf_next < io.world.sync.w_buf_curr + io.world.sync.nbufs)
      × (r.0.block ≡ next_index io.world)
      × (t.bufs_opened ≡ io.bufs_opened + 1)
      × Accounted t
open_block_write-Accounted law io {r} a small e fit =
    let (room, got, w, n, m) = opened_of_ok io e in
    let (q, o, enough) = Obtained-of_ok law io.world (rw a.state tt) {b = r.0.block} small got in
    (
      ground arith,
      q,
      ground arith,
      record {
        state = rw (w, o.handle) a.state;
        opened = rw (w, o.sync) (ground arith);
        limit = ground arith;
        below = rw (w, o.sync) (ground arith);
        word = ground arith;
        small = rw (w, o.sync) (ground arith);
      },
    )
