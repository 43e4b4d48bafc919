-- ===== src/Client/Round.antt =====
-- src/dada_client.c: what a round of `dada_client_io_loop` does to the stream of a writing client.
use mirror_psrdada_code.Prelude.{
  ℕ, zero, suc, ◌+◌, ◌-◌, ◌*◌, ◌^◌, ◌≤◌, ◌<◌, ◌≡◌, inl, inr, refl, false, ◌==◌, ℤ, pos, negsuc,
  Bool-cases, arith,
}
use mirror_psrdada_code.Process.{Outcome, ok, fail, asleep, continue}
use mirror_psrdada_code.Kernel.{Kernel}
use mirror_psrdada_code.Ipcio.{Io}
use mirror_psrdada_code.Ipcio.Stream.{write}
use mirror_psrdada_code.Ipcio.Stream.Round.{Writable, position}
use mirror_psrdada_code.Ipcio.Stream.Write.{write-position}
use mirror_psrdada_code.Client.{Memory, is_reading, Client, Functions, Turn, moved, leave, asked}
use mirror_psrdada_code.Client.Loop.{io_round, use_result}

-- `io_function` keeps to what it was asked for: it delivers at most that many bytes.
pub record Bounded {C : Type 0} (f : Functions C) : Type 0 where
  pub at_most : (c : C) (m : Memory) (bytes n : ℕ) → (f.io_function c m bytes).0 ≡ pos n → n ≤ bytes

le_mul : (w b : ℕ) → 0 < b → w ≤ w * b
le_mul zero b h = omega arith
le_mul (suc w) b h = let e : (suc w * b ≡ w * b + b) = omega arith in omega (arith, le_mul w b h, e)

le_mul_sub : (w b : ℕ) → 0 < b → w ≤ w * b - b + 1
le_mul_sub zero b h = omega arith
le_mul_sub (suc w) b h =
    let e : (suc w * b ≡ w * b + b) = omega arith in omega (arith, le_mul w b h, e)

-- the number of blocks that were written is bounded by the position
curr-le-position : (io : Io) → Writable io → io.world.sync.w_buf_curr ≤ position io + 1
curr-le-position io wr =
    let w = io.world.sync.w_buf_curr in
    let b = io.world.sync.bufsz in
    ground (arith, le_mul w b wr.some_bytes, le_mul_sub w b wr.some_bytes)

-- what a turn does to a writing client, `lim` bytes being asked for
abbrev pub Moves : {C : Type 0} → (lim : ℕ) (c d : Client C) → Outcome Turn → Type 0
Moves lim c d (ok (moved m)) =
    (0 < m)
    × (m ≤ lim)
    × (position d.data_block ≡ position c.data_block + m)
    × Writable d.data_block
    × (d.direction ≡ c.direction)
    × (d.transfer_bytes ≡ c.transfer_bytes)
Moves lim c d (ok (leave n)) = (n ≡ 0) × (d.data_block ≡ c.data_block)
Moves lim c d fail = Unit
Moves lim c d asleep = Unit

module _ {C : Type 0} ⦃k : Kernel⦄ (f : Functions C) where
  written-Moves :
      (c : Client C) (lim n : ℕ) (o : Outcome ℕ)
      → (write c.buffer n c.data_block).0 ≡ o
      → Writable c.data_block
      → 0 < n
      → n ≤ lim
      → position c.data_block + lim + 1 < 2 ^ 64
      → let d = record c { data_block = (write c.buffer n c.data_block).1 } in
        Moves lim c
          (continue o d (λ m e. (ok (moved m), e))).1
          (continue o d (λ m e. (ok (moved m), e))).0
  written-Moves c lim n (ok m) e w some_bytes le small =
      let (same, at, still) =
        write-position c.buffer n c.data_block w (omega (arith, curr-le-position c.data_block w))
          e in
      (omega arith, omega arith, omega arith, still, refl, refl)
  written-Moves c lim n fail e w some_bytes le small = tt
  written-Moves c lim n asleep e w some_bytes le small = tt

  use_result-Moves :
      (c : Client C) (lim : ℕ) (n : ℤ)
      → is_reading c.direction ≡ false
      → Writable c.data_block
      → ((l : ℕ) → n ≡ pos l → l ≤ lim)
      → position c.data_block + lim + 1 < 2 ^ 64
      → Moves lim c (use_result f n c).1 (use_result f n c).0
  use_result-Moves c lim (negsuc n) dir w bound small = (refl, refl)
  use_result-Moves c lim (pos n) dir w bound small = elim (Bool-cases (n == 0)) [
    | inl z ↦ rw (dir, z) (refl, refl)
    | inr nz ↦
        rw (dir, nz)
          (written-Moves c lim n (write c.buffer n c.data_block).0 refl w (ground arith)
            (bound n refl) small)
  ]

  abbrev pub piece : (transferred : ℕ) → Client C → ℕ
  piece transferred c = asked c.transfer_bytes transferred c.optimal_bytes

  pub io_round-Moves :
      (rounds transferred : ℕ) (c : Client C)
      → Bounded f
      → is_reading c.direction ≡ false
      → Writable c.data_block
      → position c.data_block + piece transferred c + 1 < 2 ^ 64
      → Moves
          (piece transferred c)
          c
          (io_round f rounds transferred c).1
          (io_round f rounds transferred c).0
  unfolding io_round
  io_round-Moves rounds transferred c contract dir w small =
      let bytes = piece transferred c in
      let r = f.io_function c.context c.buffer bytes in
      rw dir (
        use_result-Moves (record c { buffer = r.1; context = r.2 }) bytes r.0 dir w
          (λ l e. contract.at_most c.context c.buffer bytes l e) small)

  pub asked_le :
      (transfer_bytes transferred size : ℕ)
      → 0 < transfer_bytes
      → asked transfer_bytes transferred size ≤ transfer_bytes - transferred
  asked_le transfer_bytes transferred size h = ground arith
