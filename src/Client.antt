-- ===== src/Client.antt =====
-- src/dada_client.h, src/dada_client.c: the loops that move data between a ring and the functions of a
-- client. Those functions are parameters: they act on a state of their own, of type `C`, and on the
-- memory that they are given. The text that reports an error is not modelled, nor is memory on a GPU.
pub mod Loop
pub mod BlockLoop
pub mod Transfer
pub mod Round
pub mod Position
pub mod Failure
pub mod Read
pub mod Write
pub mod Offset
pub mod Ending
mod Tests
mod ReadTests
use mirror_psrdada_code.Prelude.{
  ℕ, zero, suc, ◌+◌, ◌-◌, ◌%◌, ◌^◌, sub64, Bool, true, false, not, ◌&&◌, ltb, ◌==◌, if◌then◌else◌,
  ℤ, pos, negsuc, add64, update, Option, none, some,
}
use mirror_psrdada_code.Shared.{World, is_eod}
use mirror_psrdada_code.Process.{
  Outcome, ok, fail, asleep, Call, pure, ◌>>=◌, ◌>>◌, get, modify, continue, M, guard, guard,
}
use mirror_psrdada_code.Kernel.{Kernel}
use mirror_psrdada_code.Ipcbuf.Writer.{mark_filled, enable_eod}
use mirror_psrdada_code.Ipcio.{Pointer, Io}
use mirror_psrdada_code.Ipcio.Block.{
  open_block_read, close_block_read, open_block_write, close_block_write,
}
use mirror_psrdada_code.Ipcio.Input.{Progress, read}
use mirror_psrdada_code.Ipcio.Open.{stop, close}
use mirror_psrdada_code.Ipcio.Stream.{write}

abbrev pub Memory : Type 0
Memory = ℕ → ℕ

-- dada_client_reader, dada_client_writer
pub data Direction : Type 0 where
  from_ring to_ring : Direction

abbrev pub is_reading : Direction → Bool
is_reading from_ring = true
is_reading to_ring = false

-- where `client->header` points: to memory of the client's own, or to a block of the header block
pub data Header : Type 0 where
  own : Memory → Header
  in_block : (index : ℕ) → Header

-- `dada_client_t`, less the log and what only the C code's memory management needs. `buffer` is the
-- static buffer of `dada_client_io_loop`, `context` what the client's functions know.
pub record Client (C : Type 0) : Type 0 where
  pub data_block : Io
  pub header_block : World
  pub context : C
  pub direction : Direction
  pub transfer_bytes : ℕ
  pub optimal_bytes : ℕ
  pub buffer : Memory
  pub header : Header
  pub header_size : ℕ
  pub header_transfer : Bool
  pub quit : Bool

-- The functions that the client's program supplies. A negative number of bytes is an error.
pub record Functions (C : Type 0) : Type 0 where
  pub io_function : C → Memory → ℕ → ℤ × Memory × C
  -- on a block of the ring, of `bytes` bytes, with its index; none for a null pointer
  pub io_block_function : Option (C → Memory → ℕ → ℕ → ℤ × Memory × C)
  pub open_function : Client C → Bool × Client C
  pub close_function : Client C → ℕ → Bool × Client C

-- an `int64_t` as a `uint64_t`, and back
abbrev pub as_word : ℤ → ℕ
as_word (pos n) = n % 2 ^ 64
as_word (negsuc n) = sub64 (2 ^ 64 - 1) n

abbrev pub as_signed : ℕ → ℤ
as_signed n = if ltb n (2 ^ 63) then pos n else negsuc (2 ^ 64 - 1 - n)

-- what a round of a loop comes to: a number of bytes, or the end of the loop after some
pub data Turn : Type 0 where
  moved : ℕ → Turn
  leave : ℕ → Turn

-- the bytes asked for in a round, of pieces of `size` bytes
abbrev pub asked : (transfer_bytes transferred size : ℕ) → ℕ
asked transfer_bytes transferred size =
    if transfer_bytes == 0
    then size
    else if ltb (transfer_bytes - transferred) size
    then transfer_bytes - transferred
    else size

-- the condition of both loops
abbrev pub goes_on : (transfer_bytes transferred : ℕ) → Bool
goes_on transfer_bytes transferred =
    if transfer_bytes == 0 then true else ltb transferred transfer_bytes

module _ {C : Type 0} where
  -- a call on the data block
  abbrev pub on_data {κ} : {A : Type κ} → Call Io A → Call (Client C) A
  on_data m c = ((m c.data_block).0, record c { data_block = (m c.data_block).1 })

  -- a call on the header block
  abbrev pub on_header {κ} : {A : Type κ} → M A → Call (Client C) A
  on_header m c = ((m c.header_block).0, record c { header_block = (m c.header_block).1 })

  -- the end of a round: `again` is the loop
  abbrev pub after_turn : (ℕ → Call (Client C) ℕ) → (transferred : ℕ) → Turn → Call (Client C) ℕ
  after_turn again transferred (leave n) c = (ok (add64 transferred n), c)
  after_turn again transferred (moved n) c = again (add64 transferred n) c

  -- a call on the data block whose status is not looked at, in a round that moved `n` bytes
  abbrev pub moved_whatever : (n : ℕ) → Outcome (Unit {0}) → Client C → Outcome Turn × Client C
  moved_whatever n (ok u) c = (ok (moved n), c)
  moved_whatever n fail c = (ok (moved n), c)
  moved_whatever n asleep c = (asleep, c)
