-- ===== src/Ipcio/Stream/Within.antt =====
-- src/ipcio.c: an `ipcio_write` that stays within the block that is open.
use mirror_psrdada_code.Prelude.{
  ℕ, zero, suc, ◌+◌, ◌-◌, ◌^◌, ◌≤◌, ◌<◌, ◌≡◌, ◌≢◌, ◌⊎◌, some, refl, ap, arith,
}
use mirror_psrdada_code.Process.{ok}
use mirror_psrdada_code.Kernel.{Kernel}
use mirror_psrdada_code.Ipcio.{Pointer, Io}
use mirror_psrdada_code.Ipcio.Stream.{
  copy_in, store_bytes, finish_block, need_block, write_round, write_loop, write,
}
use mirror_psrdada_code.Ipcio.Stream.Write.{write_loop-step, write_loop-none}

write_round-within :
    ⦃k : Kernel⦄ (bytes : ℕ) (ptr : ℕ → ℕ) (io : Io) {p : Pointer}
    → io.curbuf ≡ some p
    → 0 < bytes
    → io.bytes + bytes ≤ io.world.sync.bufsz
    → io.world.sync.bufsz < 2 ^ 64
    → write_round bytes ptr io ≡ (ok bytes, store_bytes bytes ptr io)
unfolding write_round finish_block need_block
write_round-within bytes ptr io opened some_left fits word = ground arith

write_loop-within :
    ⦃k : Kernel⦄ (f bytes : ℕ) (ptr : ℕ → ℕ) (io : Io)
    → 0 < bytes
    → write_round bytes ptr io ≡ (ok bytes, store_bytes bytes ptr io)
    → write_loop (suc f) bytes ptr io ≡ (ok tt, store_bytes bytes ptr io)
write_loop-within f bytes ptr io some_left r =
    let e : (bytes - bytes ≡ 0) = omega arith in
    rw
      (
        write_loop-step f bytes bytes ptr io some_left (ground arith),
        e,
        write_loop-none f (λ o. ptr (bytes + o)) (write_round bytes ptr io).1,
        r,
      )
      refl

write-within :
    ⦃k : Kernel⦄ (ptr : ℕ → ℕ) (bytes : ℕ) (io : Io)
    → (io.rdwrt ≡ b'W') ⊎ (io.rdwrt ≡ b'w')
    → 0 < bytes
    → write_round bytes ptr io ≡ (ok bytes, store_bytes bytes ptr io)
    → write ptr bytes io ≡ (ok bytes, store_bytes bytes ptr io)
unfolding write
write-within ptr zero io mode some_left r = absurd (omega arith)
write-within ptr (suc n) io mode some_left r =
    ground (arith, write_loop-within n (suc n) ptr io some_left r)

-- Bytes that fit in the block that is open are stored there without a call that could wait: the call
-- returns their number, byte `i` of the caller's memory is found `bytes` bytes behind the start of
-- the block or later, and no other block has changed.
pub write-within_block :
    ⦃k : Kernel⦄ (ptr : ℕ → ℕ) (bytes : ℕ) (io : Io) (p : Pointer) (i b o : ℕ)
    → io.curbuf ≡ some p
    → (io.rdwrt ≡ b'W') ⊎ (io.rdwrt ≡ b'w')
    → 0 < bytes
    → io.bytes + bytes ≤ io.world.sync.bufsz
    → io.world.sync.bufsz < 2 ^ 64
    → i < bytes
    → b ≢ p.block
    → let t = (write ptr bytes io).1 in
      ((write ptr bytes io).0 ≡ ok bytes)
      × (t.bytes ≡ io.bytes + bytes)
      × (t.world.mem p.block (p.offset + io.bytes + i) ≡ ptr i)
      × (t.world.mem b o ≡ io.world.mem b o)
unfolding store_bytes copy_in
write-within_block ptr bytes io p i b o opened mode some_left fits word below other =
    let r = write_round-within bytes ptr io opened some_left fits word in
    let e : (p.offset + io.bytes + i - (p.offset + io.bytes) ≡ i) = omega arith in
    rw (write-within ptr bytes io mode some_left r, opened)
      (refl, ground arith, ground (arith, ap ptr e), ground arith)
