-- ===== src/Ipcio/Input/Within.antt =====
-- src/ipcio.c: an `ipcio_read` that stays within the current block, and what a writer wrote there.
use mirror_psrdada_code.Prelude.{
  ℕ, suc, inl, inr, Bool-cases, ◌||◌, ◌==◌, add64, ◌+◌, ◌-◌, ◌^◌, ◌≤◌, ◌<◌, ◌≡◌, ◌⊎◌, true, false,
  some, refl, arith, ltb, if◌then◌else◌,
}
use mirror_psrdada_code.Shared.{is_eod}
use mirror_psrdada_code.Process.{ok}
use mirror_psrdada_code.Kernel.{Kernel}
use mirror_psrdada_code.Ipcio.{Pointer, Io}
use mirror_psrdada_code.Ipcio.Stream.{write}
use mirror_psrdada_code.Ipcio.Stream.Within.{write-within_block}
use mirror_psrdada_code.Ipcbuf.Reader.{mark_cleared}
use mirror_psrdada_code.Ipcio.Stream.{space_of}
use mirror_psrdada_code.Ipcio.Input.{
  Progress, copy_out, need_input, finish_input, read_round, read_loop, read,
}

-- A stream with a block of which at least `bytes` bytes are left to read. Where they are the last, a
-- reader gives the block back, which is to succeed; a viewer does not.
pub record Remaining ⦃k : Kernel⦄ (p : Pointer) (bytes : ℕ) (io : Io) : Type 0 where
  pub opened : io.curbuf ≡ some p
  pub mode : (io.rdwrt ≡ b'r') ⊎ (io.rdwrt ≡ b'R')
  pub going : is_eod io.world.handle ≡ false
  pub fits : io.bytes + bytes ≤ io.curbufsz
  pub given_back :
      (io.bytes + bytes < io.curbufsz) ⊎ (io.rdwrt ≡ b'r') ⊎ ((mark_cleared io.world).0 ≡ ok tt)
  pub word : io.curbufsz < 2 ^ 64

-- the caller's memory afterwards
abbrev pub filled_from : Pointer → (bytes : ℕ) → (ℕ → ℕ) → Io → ℕ → ℕ
filled_from p bytes memory io o =
    if ltb o bytes then io.world.mem p.block (p.offset + io.bytes + o) else memory o

-- what a read of the last bytes or of some before them comes to
abbrev got_all : Pointer → (bytes : ℕ) → (ℕ → ℕ) → Io → Progress
got_all p bytes memory io = record {
  count = bytes;
  memory = copy_out true (some p) io.bytes bytes io.world (record { count = 0; memory = memory });
}

finish_input-ok :
    ⦃k : Kernel⦄ (bytes : ℕ) (io : Io)
    → (io.bytes + bytes < io.curbufsz) ⊎ (io.rdwrt ≡ b'r') ⊎ ((mark_cleared io.world).0 ≡ ok tt)
    → (finish_input (record io { bytes = io.bytes + bytes })).0 ≡ ok tt
unfolding finish_input
finish_input-ok bytes io (inl before) = ground arith
finish_input-ok bytes io (inr (inl viewer)) = rw viewer (ground arith)
finish_input-ok bytes io (inr (inr cleared)) = elim (Bool-cases (io.bytes + bytes == io.curbufsz)) [
  | inl last ↦ elim (Bool-cases (io.rdwrt == b'R')) [
    | inl reader ↦ rw (last, reader, cleared) refl
    | inr other ↦ rw (last, other) refl
  ]
  | inr before ↦ rw before refl
]

read_round-result :
    ⦃k : Kernel⦄ (p : Pointer) (bytes : ℕ) (memory : ℕ → ℕ) (io : Io)
    → Remaining p bytes io
    → 0 < bytes
    → (read_round true bytes (record { count = 0; memory = memory }) io).0
      ≡ ok (got_all p bytes memory io)
unfolding read_round need_input
read_round-result p bytes memory io w some_left =
    let some_bytes : ((bytes == 0) ≡ false) = ground arith in
    let space : (space_of bytes io.curbufsz io.bytes ≡ bytes) =
      let word = w.word in let fits = w.fits in ground arith in
    let sum : (add64 io.bytes bytes ≡ io.bytes + bytes) =
      let word = w.word in let fits = w.fits in omega arith in
    let all_counted : (0 + bytes ≡ bytes) = omega arith in
    rw
      (
        w.opened,
        space,
        some_bytes,
        sum,
        finish_input-ok bytes (record io { curbuf = some p }) w.given_back,
        all_counted,
      )
      refl

-- A read of no more bytes than are left in the current block returns that many: the caller's memory has
-- the bytes of the block from the stream's position on, and beyond them what it had.
read-within_block :
    ⦃k : Kernel⦄ (p : Pointer) (fuel bytes : ℕ) (memory : ℕ → ℕ) (io : Io)
    → Remaining p bytes io
    → 0 < bytes
    → (g : Progress) × ((read (suc fuel) true memory bytes io).0 ≡ ok g)
      × (g.count ≡ bytes)
      × ((o : ℕ) → g.memory o ≡ filled_from p bytes memory io o)
unfolding copy_out read read_loop
read-within_block p fuel bytes memory io w some_left =
    let going = w.going in
    let mode : ((io.rdwrt == b'r' || io.rdwrt == b'R') ≡ true) = let m = w.mode in ground arith in
    let all_left : (bytes - 0 ≡ bytes) = omega arith in
    let done : ((bytes == bytes) ≡ true) = ground arith in
    (
      got_all p bytes memory io,
      rw (mode, going, all_left, read_round-result p bytes memory io w some_left, done) refl,
      refl,
      λ o. ground arith,
    )

-- What a writer writes within a block, up to its end, a reader or viewer that is at the same place of
-- that block reads: byte by byte what the writer's caller had, whatever the reader's caller had before.
-- Where these are the last bytes of the reader's block, giving it back is to succeed. The size of a
-- block fits in 64 bits.
pub read-write :
    ⦃k : Kernel⦄ (p : Pointer) (fuel bytes : ℕ) (ptr memory : ℕ → ℕ) (u v : Io)
    → u.curbuf ≡ some p
    → (u.rdwrt ≡ b'W') ⊎ (u.rdwrt ≡ b'w')
    → 0 < bytes
    → u.bytes + bytes ≤ u.world.sync.bufsz
    → u.world.sync.bufsz < 2 ^ 64
    → Remaining p bytes v
    → v.bytes ≡ u.bytes
    → v.world.mem ≡ (write ptr bytes u).1.world.mem
    → (g : Progress) × ((read (suc fuel) true memory bytes v).0 ≡ ok g)
      × (g.count ≡ bytes)
      × ((i : ℕ) → i < bytes → g.memory i ≡ ptr i)
read-write p fuel bytes ptr memory u v opened mode some_left fits word w same shared =
    let (g, e, n, filled) = read-within_block p fuel bytes memory v w some_left in
    (
      g,
      e,
      n,
      λ i below.
          let (returned, moved, stored, kept) =
            write-within_block ptr bytes u p i (suc p.block) 0 opened mode some_left fits word below
              (omega arith) in
          let there : (v.world.mem p.block (p.offset + v.bytes + i)
              ≡ (write ptr bytes u).1.world.mem p.block (p.offset + u.bytes + i)) =
            rw (shared, same) refl in
          ground (arith, filled i, there, stored),
    )
