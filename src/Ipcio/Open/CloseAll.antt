-- ===== src/Ipcio/Open/CloseAll.antt =====
-- src/ipcio.c: the loop of `ipcio_stop_close` that closes the open blocks ends with none open.
use mirror_psrdada_code.Prelude.{
  ℕ, zero, suc, ◌+◌, ◌^◌, ◌<◌, ◌≡◌, ◌≢◌, ◌⊎◌, inl, inr, true, false, ◌==◌, add64, Bool-cases,
  dec_lt, arith, ◌-◌,
}
use mathlib.Core.Path.{subst}
use mirror_psrdada_code.Process.{ok, fail}
use mirror_psrdada_code.Kernel.{Kernel}
use mirror_psrdada_code.Ipcbuf.Writer.{mark_filled}
use mirror_psrdada_code.Ipcio.{Io}
use mirror_psrdada_code.Ipcio.Block.{
  check_pending_sod, update_block_write, drop_block, close_block_write,
}
use mirror_psrdada_code.Ipcio.Open.{close_all}

module _ ⦃k : Kernel⦄ where
  check_pending_sod-same :
      (io : Io)
      → let t = (check_pending_sod io).1 in
        (t.bufs_opened ≡ io.bufs_opened) × (t.marked_filled ≡ io.marked_filled)
  unfolding check_pending_sod
  check_pending_sod-same io = ground arith

  -- the stream when the round looks for a pending start of data
  abbrev after_fill : ℕ → Io → Io
  after_fill n io = record io {
    bytes = add64 io.bytes n;
    world = (mark_filled (add64 io.bytes n) io.world).1;
  }

  -- A round on a block that is not marked filled closes it.
  pub close_block_write-drops :
      (n : ℕ) (io : Io)
      → io.marked_filled ≡ false
      → 0 < io.bufs_opened
      → io.bufs_opened < 2 ^ 32
      → (close_block_write n io).0 ≡ ok tt
      → let t = (close_block_write n io).1 in
        (t.bufs_opened + 1 ≡ io.bufs_opened) × ((t.bufs_opened ≡ 0) ⊎ (t.marked_filled ≡ false))
  unfolding close_block_write update_block_write drop_block
  close_block_write-drops n io open_ some_open small e =
      ground (arith, check_pending_sod-same (after_fill n io))

  closed_all :
      (f : ℕ) (io : Io)
      → io.bufs_opened < f
      → io.bufs_opened < 2 ^ 32
      → (io.bufs_opened ≡ 0) ⊎ (io.marked_filled ≡ false)
      → (close_all f io).0 ≡ ok tt
      → (close_all f io).1.bufs_opened ≡ 0
  unfolding close_all
  closed_all zero io lt small fresh e = absurd (omega arith)
  closed_all (suc f) io lt small fresh e = elim (Bool-cases (io.bufs_opened == 0)) [
    | inl none_open ↦ ground arith
    | inr some_open ↦
        let n = io.world.sync.bufsz in
        ground (arith, closed_all f (close_block_write n io).1, close_block_write-drops n io)
  ]

  -- A round on a block that is marked filled only counts its bytes, and the next round fails.
  pub close_block_write-marked :
      (n : ℕ) (io : Io)
      → io.marked_filled ≡ true
      → 0 < n
      → n < 2 ^ 64
      → (close_block_write n io).0 ≡ ok tt
      → let t = (close_block_write n io).1 in (t.bufs_opened ≡ io.bufs_opened) × (t.bytes ≢ 0)
  unfolding close_block_write update_block_write
  close_block_write-marked n io marked some_bytes small e = ground arith

  pub close_block_write-fails :
      (n : ℕ) (io : Io) → io.bytes ≢ 0 → close_block_write n io ≡ (fail, io)
  unfolding close_block_write update_block_write
  close_block_write-fails n io ne = ground arith

  close_all-marked :
      (f : ℕ) (io : Io)
      → io.marked_filled ≡ true
      → 0 < io.bufs_opened
      → 0 < io.world.sync.bufsz
      → io.world.sync.bufsz < 2 ^ 64
      → (close_all (suc (suc f)) io).0 ≢ ok tt
  unfolding close_all
  close_all-marked f io marked some_open some_bytes small e =
      let n = io.world.sync.bufsz in
      let t = (close_block_write n io).1 in
      ground (arith, close_block_write-marked n io, close_block_write-fails t.world.sync.bufsz t)

-- The loop of `ipcio_stop_close` over the open blocks, run for one round more than there are open
-- blocks, leaves none open when it returns without error.
close_all-empties :
    ⦃k : Kernel⦄ (io : Io)
    → io.bufs_opened < 2 ^ 32
    → 0 < io.world.sync.bufsz
    → io.world.sync.bufsz < 2 ^ 64
    → (close_all (suc io.bufs_opened) io).0 ≡ ok tt
    → (close_all (suc io.bufs_opened) io).1.bufs_opened ≡ 0
close_all-empties io small some_bytes fit e = elim (dec_lt 0 io.bufs_opened) [
  | no none_open ↦ closed_all (suc io.bufs_opened) io (omega arith) small (inl (omega arith)) e
  | yes some_open ↦ elim (Bool-cases io.marked_filled) [
    | inl marked ↦
        let p : (io.bufs_opened ≡ suc (io.bufs_opened - 1)) = omega arith in
        absurd (
          close_all-marked (io.bufs_opened - 1) io marked some_open some_bytes fit
            (subst (λ m. (close_all (suc m) io).0 ≡ ok tt) p e))
    | inr fresh ↦ closed_all (suc io.bufs_opened) io (omega arith) small (inr fresh) e
  ]
]
