-- ===== src/Ipcio.antt =====
-- src/ipcio.c and src/ipcio.h: reading and writing a ring as a stream of bytes or of blocks. The
-- `ipcio_t` of a process with what its `ipcbuf_t` acts on.
pub mod Open
pub mod Block
pub mod Stream
pub mod Input
mod Tests
pub mod StreamTests
use mirror_psrdada_code.Prelude.{ℕ, ◌%◌, ◌^◌, Bool, false, sub64, Option, none}
use mirror_psrdada_code.Shared.{World}
use mirror_psrdada_code.Process.{Outcome, M, Call}

-- an address inside a block of the ring
pub record Pointer : Type 0 where
  pub block : ℕ
  pub offset : ℕ

-- `ipcio_t`. The mode `rdwrt` is the code of the character, or 0.
pub record Io : Type 0 where
  pub world : World
  pub curbuf : Option Pointer
  pub curbufsz : ℕ
  pub bytes : ℕ
  pub rdwrt : ℕ
  pub marked_filled : Bool
  pub sod_pending : Bool
  pub sod_buf : ℕ
  pub sod_byte : ℕ
  pub buf_ptrs : ℕ → Option Pointer
  pub bufs_opened : ℕ
  pub bufs_opened_max : ℕ

-- a call of ipcbuf on the `ipcbuf_t` inside
abbrev pub on_buf {ℓ} : {A : Type ℓ} → M A → Call Io A
on_buf m io = ((m io.world).0, record io { world = (m io.world).1 })

-- `ipcio_init`
abbrev pub init : Io → Io
init io = record {
  world = io.world;
  curbuf = none;
  curbufsz = 0;
  bytes = 0;
  rdwrt = 0;
  marked_filled = false;
  sod_pending = false;
  sod_buf = 0;
  sod_byte = 0;
  buf_ptrs = λ i. none;
  bufs_opened = 0;
  bufs_opened_max = 0;
}

-- `ipcio_alloc`: the limit is an `unsigned`, the new stack of pointers is uninitialised memory that
-- is read only below `bufs_opened`.
abbrev pub alloc : Io → Io
alloc io = record io {
  bufs_opened_max = sub64 io.world.sync.nbufs 1 % 2 ^ 32;
  buf_ptrs = λ i. none;
}
