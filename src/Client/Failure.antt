-- ===== src/Client/Failure.antt =====
-- src/dada_client.c: what an error of a client's function leaves.
use mirror_psrdada_code.Prelude.{
  ℕ, suc, ◌+◌, ◌^◌, ◌<◌, ◌≡◌, refl, ap, ◌∙◌, true, false, ◌==◌, ℤ, negsuc, add64, arith,
}
use mirror_psrdada_code.Shared.{is_eod}
use mirror_psrdada_code.Process.{Outcome, ok, fail, continue}
use mirror_psrdada_code.Kernel.{Kernel}
use mirror_psrdada_code.Ipcio.{Io, Pointer}
use mirror_psrdada_code.Ipcio.Block.{is_set, open_block_read}
use mirror_psrdada_code.Client.{
  Memory, is_reading, Client, Functions, Turn, leave, asked, goes_on, on_data, after_turn, own,
}
use mirror_psrdada_code.Client.BlockLoop.{open_block, call_block, block_round, io_loop_block}
use mirror_psrdada_code.Client.Transfer.{transfer_header}

module _ ⦃k : Kernel⦄ where
  -- an opened block is current, and then no other is opened
  open_block_read-opened :
      (io : Io) {b : Pointer × ℕ × ℕ}
      → (open_block_read io).0 ≡ ok b
      → is_set (open_block_read io).1.curbuf ≡ true
  unfolding open_block_read
  open_block_read-opened io e = ground arith

  open_block_read-busy : (io : Io) → is_set io.curbuf ≡ true → (open_block_read io).0 ≡ fail
  unfolding open_block_read
  open_block_read-busy io e = ground arith

  open_block-read :
      {C : Type 0} (bytes : ℕ) (c : Client C)
      → is_reading c.direction ≡ true
      → open_block bytes c ≡ on_data open_block_read c
  open_block-read bytes c dir = rw dir refl

  -- the client after a block was opened and its function called
  abbrev called :
      {C : Type 0}
      → (C → Memory → ℕ → ℕ → ℤ × Memory × C)
      → (bytes id : ℕ) → Pointer
      → Client C
      → Client C
  called function bytes id at c =
      (call_block function at bytes id
        (record c { data_block = (open_block_read c.data_block).1 })).1

  block_round-error :
      {C : Type 0} (function : C → Memory → ℕ → ℕ → ℤ × Memory × C) (t n code id : ℕ) (at : Pointer)
      (c : Client C)
      → is_reading c.direction ≡ true
      → is_eod c.data_block.world.handle ≡ false
      → (open_block_read c.data_block).0 ≡ ok (at, suc n, id)
      → ((x : C) → (m : Memory) → (function x m (suc n) id).0 ≡ negsuc code)
      → block_round function t c ≡ (ok (leave 0), called function (suc n) id at c)
  unfolding block_round
  block_round-error function t n code id at c dir going got error =
      let size = c.data_block.world.sync.bufsz in
      let nz : ((suc n == 0) ≡ false) = ground arith in
      let block : Memory =
        λ o. (open_block_read c.data_block).1.world.mem at.block (at.offset + o) in
      rw
        (
          dir,
          going,
          open_block-read (asked c.transfer_bytes t size) c dir,
          got,
          nz,
          error c.context block,
        )
        refl

  block_round-busy :
      {C : Type 0} (function : C → Memory → ℕ → ℕ → ℤ × Memory × C) (t : ℕ) (c : Client C)
      → is_reading c.direction ≡ true
      → is_eod c.data_block.world.handle ≡ false
      → is_set c.data_block.curbuf ≡ true
      → (block_round function t c).0 ≡ fail
  unfolding block_round
  block_round-busy function t c dir going busy =
      let size = c.data_block.world.sync.bufsz in
      rw
        (
          dir,
          going,
          open_block-read (asked c.transfer_bytes t size) c dir,
          open_block_read-busy c.data_block busy,
        )
        refl

  io_loop_block-turn :
      {C : Type 0} (fuel : ℕ) (function : C → Memory → ℕ → ℕ → ℤ × Memory × C) (t : ℕ)
      (c : Client C)
      → goes_on c.transfer_bytes t ≡ true
      → io_loop_block (suc fuel) function t c
        ≡ continue
            (block_round function t c).0
            (block_round function t c).1
            (after_turn (io_loop_block fuel function) t)
  unfolding io_loop_block
  io_loop_block-turn fuel function t c on = rw on refl

  continue_fail :
      {C : Type 0} (o : Outcome Turn) (d : Client C) (f : Turn → Client C → Outcome ℕ × Client C)
      → o ≡ fail
      → (continue o d f).0 ≡ fail
  continue_fail o d f e = rw e refl

  goes_on_start : (n : ℕ) → goes_on n 0 ≡ true
  goes_on_start n = ground arith

  -- A block function that reports an error to a reading client ends the loop, without an error: the loop
  -- returns the number of bytes so far. The block stays open, so that the next run of the loop, which
  -- `dada_client_read` starts while the data are not at their end, fails.
  pub io_loop_block-error :
      {C : Type 0} (fuel more : ℕ) (function : C → Memory → ℕ → ℕ → ℤ × Memory × C)
      (t n code id : ℕ) (at : Pointer) (c : Client C)
      → is_reading c.direction ≡ true
      → is_eod c.data_block.world.handle ≡ false
      → goes_on c.transfer_bytes t ≡ true
      → t < 2 ^ 64
      → (open_block_read c.data_block).0 ≡ ok (at, suc n, id)
      → is_eod (open_block_read c.data_block).1.world.handle ≡ false
      → ((x : C) → (m : Memory) → (function x m (suc n) id).0 ≡ negsuc code)
      → ((io_loop_block (suc fuel) function t c).0 ≡ ok t)
        × (is_set (io_loop_block (suc fuel) function t c).1.data_block.curbuf ≡ true)
        × ((io_loop_block (suc more) function 0 (io_loop_block (suc fuel) function t c).1).0 ≡ fail)
  io_loop_block-error fuel more function t n code id at c dir going on small got still error =
      let d = called function (suc n) id at c in
      let turn : (io_loop_block (suc fuel) function t c ≡ (ok (add64 t 0), d)) =
        io_loop_block-turn fuel function t c on
        ∙ ap (λ r. continue r.0 r.1 (after_turn (io_loop_block fuel function) t))
            (block_round-error function t n code id at c dir going got error) in
      let same : (add64 t 0 ≡ t) = omega arith in
      let current = open_block_read-opened c.data_block got in
      rw turn (
        ap ok same,
        current,
        ap (λ r. r.0) (io_loop_block-turn more function 0 d (goes_on_start c.transfer_bytes))
            ∙ continue_fail (block_round function 0 d).0 (block_round function 0 d).1
                (after_turn (io_loop_block more function) 0)
                (block_round-busy function 0 d dir still current),
      )

  -- The test on the header's transfer does not see an error: for a header of fewer than 2^63 bytes, a
  -- negative result passes.
  pub transfer_header-error :
      {C : Type 0} (f : Functions C) (n : ℕ) (m : Memory) (c : Client C)
      → c.header ≡ own m
      → (f.io_function c.context m c.header_size).0 ≡ negsuc n
      → n < 2 ^ 63
      → c.header_size < 2 ^ 63
      → (transfer_header f c).0 ≡ ok tt
  transfer_header-error f n m c at error small size = rw (at, error) (ground arith)
