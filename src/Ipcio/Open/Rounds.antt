-- ===== src/Ipcio/Open/Rounds.antt =====
-- src/ipcio.c: the loop of `ipcio_stop_close` that closes the open blocks ends by itself.
use mirror_psrdada_code.Prelude.{
  ℕ, zero, suc, ◌+◌, ◌-◌, ◌^◌, ◌<◌, ◌≡◌, ◌≢◌, ◌⊎◌, inl, inr, refl, sym, ap, ◌∙◌, true, false,
  Bool-cases, dec_lt, arith,
}
use mirror_psrdada_code.Process.{Outcome, ok, fail, asleep, Call, continue}
use mirror_psrdada_code.Kernel.{Kernel}
use mirror_psrdada_code.Ipcio.{Io}
use mirror_psrdada_code.Ipcio.Block.{close_block_write}
use mirror_psrdada_code.Ipcio.Open.{close_all}
use mirror_psrdada_code.Ipcio.Open.CloseAll.{
  close_block_write-drops, close_block_write-marked, close_block_write-fails,
}

-- A call returned, or what comes after it is not run.
finished :
    (o : Outcome (Unit {0}))
    → (o ≡ ok tt)
      ⊎ ((v : Io) (p q : Unit {0} → Call Io (Unit {0})) → continue o v p ≡ continue o v q)
finished (ok tt) = inl refl
finished fail = inr (λ v p q. refl)
finished asleep = inr (λ v p q. refl)

module _ ⦃k : Kernel⦄ where
  close_all-some :
      (f : ℕ) (io : Io)
      → 0 < io.bufs_opened
      → let round = close_block_write io.world.sync.bufsz io in
        close_all (suc f) io ≡ continue round.0 round.1 (λ _. close_all f)
  unfolding close_all
  close_all-some f io some_open = ground arith

  close_all-none : (f : ℕ) (io : Io) → io.bufs_opened ≡ 0 → close_all f io ≡ (ok tt, io)
  unfolding close_all
  close_all-none zero io none_open = refl
  close_all-none (suc f) io none_open = ground arith

  -- from a current block that is not marked filled
  close_all-fresh :
      (f g : ℕ) (io : Io)
      → io.bufs_opened < f
      → io.bufs_opened < g
      → io.bufs_opened < 2 ^ 32
      → (io.bufs_opened ≡ 0) ⊎ (io.marked_filled ≡ false)
      → close_all f io ≡ close_all g io
  close_all-fresh zero g io h i small fresh = absurd (omega arith)
  close_all-fresh (suc f) zero io h i small fresh = absurd (omega arith)
  close_all-fresh (suc f) (suc g) io h i small fresh = elim (dec_lt 0 io.bufs_opened) [
    | no none_open ↦
        rw (close_all-none (suc f) io (omega arith), close_all-none (suc g) io (omega arith)) refl
    | yes some_open ↦
        let n = io.world.sync.bufsz in
        let t = (close_block_write n io).1 in
        rw (close_all-some f io some_open, close_all-some g io some_open)
          (elim (finished (close_block_write n io).0) [
            | inr cut ↦ cut t (λ _. close_all f) (λ _. close_all g)
            | inl done ↦
                let (fewer, still) =
                  close_block_write-drops n io (ground arith) some_open small done in
                rw done (close_all-fresh f g t (omega arith) (omega arith) (omega arith) still)
          ])
  ]

  -- A current block that is marked filled already: the second round fails.
  close_all-stopped :
      (f : ℕ) (io : Io) → 0 < io.bufs_opened → io.bytes ≢ 0 → close_all (suc f) io ≡ (fail, io)
  close_all-stopped f io some_open ne =
      rw (close_all-some f io some_open, close_block_write-fails io.world.sync.bufsz io ne) refl

  close_all-marked :
      (f g : ℕ) (io : Io)
      → io.marked_filled ≡ true
      → 0 < io.bufs_opened
      → 0 < io.world.sync.bufsz
      → io.world.sync.bufsz < 2 ^ 64
      → close_all (suc (suc f)) io ≡ close_all (suc (suc g)) io
  close_all-marked f g io marked some_open some_bytes small =
      let n = io.world.sync.bufsz in
      let t = (close_block_write n io).1 in
      rw (close_all-some (suc f) io some_open, close_all-some (suc g) io some_open)
        (elim (finished (close_block_write n io).0) [
          | inr cut ↦ cut t (λ _. close_all (suc f)) (λ _. close_all (suc g))
          | inl done ↦
              let (same, ne) = close_block_write-marked n io marked some_bytes small done in
              rw
                (
                  done,
                  close_all-stopped f t (ground arith) ne,
                  close_all-stopped g t (ground arith) ne,
                )
                refl
        ])

-- The loop of `ipcio_stop_close` over the open blocks ends: run for more rounds than one above the
-- number of open blocks, it comes to the same outcome and the same stream.
close_all-enough :
    ⦃k : Kernel⦄ (more : ℕ) (io : Io)
    → io.bufs_opened < 2 ^ 32
    → 0 < io.world.sync.bufsz
    → io.world.sync.bufsz < 2 ^ 64
    → close_all (suc io.bufs_opened + more) io ≡ close_all (suc io.bufs_opened) io
close_all-enough more io small some_bytes fit = elim (dec_lt 0 io.bufs_opened) [
  | no none_open ↦
      close_all-fresh (suc io.bufs_opened + more) (suc io.bufs_opened) io (omega arith)
        (omega arith) small (inl (omega arith))
  | yes some_open ↦ elim (Bool-cases io.marked_filled) [
    | inr fresh ↦
        close_all-fresh (suc io.bufs_opened + more) (suc io.bufs_opened) io (omega arith)
          (omega arith) small (inr fresh)
    | inl marked ↦
        let p : (suc io.bufs_opened + more ≡ suc (suc (io.bufs_opened - 1 + more))) = omega arith in
        let q : (suc io.bufs_opened ≡ suc (suc (io.bufs_opened - 1))) = omega arith in
        ap (λ m. close_all m io) p
        ∙ (close_all-marked (io.bufs_opened - 1 + more) (io.bufs_opened - 1) io marked some_open
              some_bytes fit
            ∙ ap (λ m. close_all m io) (sym q))
  ]
]
