-- ===== src/Client/Position.antt =====
-- src/dada_client.c: how far `dada_client_io_loop` moves the stream of a writing client.
use mathlib.Core.Path.{subst}
use mirror_psrdada_code.Prelude.{
  ℕ, zero, suc, ◌+◌, ◌-◌, ◌^◌, ◌≤◌, ◌<◌, ◌≡◌, inl, inr, refl, ◌∙◌, false, add64, Bool-cases, arith,
}
use mirror_psrdada_code.Process.{Outcome, ok, fail, asleep, continue}
use mirror_psrdada_code.Kernel.{Kernel}
use mirror_psrdada_code.Ipcio.Stream.Round.{Writable, position}
use mirror_psrdada_code.Client.{
  is_reading, Client, Functions, Turn, moved, leave, goes_on, after_turn,
}
use mirror_psrdada_code.Client.Loop.{io_round, io_loop}
use mirror_psrdada_code.Client.Round.{Bounded, Moves, piece, io_round-Moves, asked_le}

module _ {C : Type 0} ⦃k : Kernel⦄ (f : Functions C) where
  -- What holds of the client between two rounds, for a transfer of `total` bytes from `start` on.
  record Writing (total start transferred : ℕ) (c : Client C) : Type 0 where
    writes : is_reading c.direction ≡ false
    limit : c.transfer_bytes ≡ total
    within : transferred ≤ total
    stream : Writable c.data_block
    at : position c.data_block ≡ start + transferred

  -- what a loop comes to that returns a number of bytes
  abbrev Ends : (total start : ℕ) → Outcome ℕ → Client C → Type 0
  Ends total start (ok n) d =
      (n ≤ total) × (position d.data_block ≡ start + n) × Writable d.data_block
  Ends total start fail d = Unit
  Ends total start asleep d = Unit

  -- a round that moves bytes leaves a client of the same kind, further on
  moved-Writing :
      (total start transferred lim m : ℕ) (c d : Client C)
      → start + total + 1 < 2 ^ 64
      → Writing total start transferred c
      → lim ≤ total - transferred
      → Moves lim c d (ok (moved m))
      → Writing total start (add64 transferred m) d × (transferred < add64 transferred m)
  moved-Writing total start transferred lim m c d small v le moves =
      let (some, few, at, still, dir, same) = moves in
      let here = v.within in
      let e : (add64 transferred m ≡ transferred + m) = omega arith in
      (
        record {
          writes = rw dir v.writes;
          limit = same ∙ v.limit;
          within = omega arith;
          stream = still;
          at = omega (arith, at, v.at);
        },
        omega arith,
      )

  after_turn-Ends :
      (total start transferred lim : ℕ) (again : ℕ → Client C → Outcome ℕ × Client C)
      (o : Outcome Turn) (c d : Client C)
      → start + total + 1 < 2 ^ 64
      → Writing total start transferred c
      → lim ≤ total - transferred
      → Moves lim c d o
      → ((t : ℕ)
          → (e : Client C) → Writing total start t e
          → Ends total start (again t e).0 (again t e).1)
      → Ends total start
          (continue o d (after_turn again transferred)).0
          (continue o d (after_turn again transferred)).1
  after_turn-Ends total start transferred lim again (ok (moved m)) c d small v le moves next =
      next (add64 transferred m) d
        (moved-Writing total start transferred lim m c d small v le moves).0
  after_turn-Ends total start transferred lim again (ok (leave n)) c d small v le moves next =
      let (none, same) = moves in
      let here = v.within in
      let e : (add64 transferred n ≡ transferred) = omega arith in
      rw (e, same) (v.within, v.at, v.stream)
  after_turn-Ends total start transferred lim again fail c d small v le moves next = tt
  after_turn-Ends total start transferred lim again asleep c d small v le moves next = tt

  io_loop-Ends :
      (fuel rounds total start transferred : ℕ) (c : Client C)
      → Bounded f
      → 0 < total
      → start + total + 1 < 2 ^ 64
      → Writing total start transferred c
      → Ends total start
          (io_loop f fuel rounds transferred c).0
          (io_loop f fuel rounds transferred c).1
  unfolding io_loop
  io_loop-Ends zero rounds total start transferred c contract some_bytes small v = tt
  io_loop-Ends (suc fuel) rounds total start transferred c contract some_bytes small v =
      elim (Bool-cases (goes_on c.transfer_bytes transferred)) [
        | inr over ↦ rw over (v.within, v.at, v.stream)
        | inl on ↦
            let le : (piece f transferred c ≤ total - transferred) = omega (
              arith,
              v.limit,
              asked_le f c.transfer_bytes transferred c.optimal_bytes (omega (arith, v.limit)),
            ) in
            let here = v.within in
            rw on (
              after_turn-Ends total start transferred (piece f transferred c)
                (io_loop f fuel rounds) (io_round f rounds transferred c).0 c
                (io_round f rounds transferred c).1 small v le
                (io_round-Moves f rounds transferred c contract v.writes v.stream
                  (omega (arith, v.at, le)))
                (λ t d w. io_loop-Ends fuel rounds total start t d contract some_bytes small w))
      ]

  after_turn-same :
      (total start transferred lim : ℕ) (again also : ℕ → Client C → Outcome ℕ × Client C)
      (o : Outcome Turn) (c d : Client C)
      → start + total + 1 < 2 ^ 64
      → Writing total start transferred c
      → lim ≤ total - transferred
      → Moves lim c d o
      → ((t : ℕ)
          → (e : Client C) → Writing total start t e
          → transferred < t
          → again t e ≡ also t e)
      → continue o d (after_turn again transferred) ≡ continue o d (after_turn also transferred)
  after_turn-same total start transferred lim again also (ok (moved m)) c d small v le moves next =
      let (w, on) = moved-Writing total start transferred lim m c d small v le moves in
      next (add64 transferred m) d w on
  after_turn-same total start transferred lim again also (ok (leave n)) c d small v le moves next =
      refl
  after_turn-same total start transferred lim again also fail c d small v le moves next = refl
  after_turn-same total start transferred lim again also asleep c d small v le moves next = refl

  io_loop-rounds :
      (a b rounds total start transferred : ℕ) (c : Client C)
      → Bounded f
      → 0 < total
      → start + total + 1 < 2 ^ 64
      → total < a + transferred
      → total < b + transferred
      → Writing total start transferred c
      → io_loop f a rounds transferred c ≡ io_loop f b rounds transferred c
  unfolding io_loop
  io_loop-rounds zero b rounds total start t c contract some_bytes small i j v =
      let here = v.within in absurd (omega arith)
  io_loop-rounds (suc a) zero rounds total start t c contract some_bytes small i j v =
      let here = v.within in absurd (omega arith)
  io_loop-rounds (suc a) (suc b) rounds total start t c contract some_bytes small i j v =
      elim (Bool-cases (goes_on c.transfer_bytes t)) [
        | inr over ↦ rw over refl
        | inl on ↦
            let le : (piece f t c ≤ total - t) = omega (
              arith,
              v.limit,
              asked_le f c.transfer_bytes t c.optimal_bytes (omega (arith, v.limit)),
            ) in
            let here = v.within in
            rw on (
              after_turn-same total start t (piece f t c) (io_loop f a rounds) (io_loop f b rounds)
                (io_round f rounds t c).0 c (io_round f rounds t c).1 small v le
                (io_round-Moves f rounds t c contract v.writes v.stream (omega (arith, v.at, le)))
                (λ u d w further.
                  io_loop-rounds a b rounds total start u d contract some_bytes small (omega arith)
                    (omega arith) w))
      ]

  Writing-start :
      (c : Client C)
      → is_reading c.direction ≡ false
      → Writable c.data_block
      → Writing c.transfer_bytes (position c.data_block) 0 c
  Writing-start c dir w = record {
    writes = dir;
    limit = refl;
    within = omega arith;
    stream = w;
    at = omega arith;
  }

  -- A writing client with a number of bytes to transfer, and an `io_function` that delivers no more than
  -- it is asked for: when the loop returns without error it returns at most that number, and the
  -- position of the stream has moved on by exactly what it returns, whatever the pieces in which the
  -- bytes came.
  pub io_loop-position :
      (fuel rounds n : ℕ) (c : Client C)
      → Bounded f
      → is_reading c.direction ≡ false
      → 0 < c.transfer_bytes
      → Writable c.data_block
      → position c.data_block + c.transfer_bytes + 1 < 2 ^ 64
      → (io_loop f fuel rounds 0 c).0 ≡ ok n
      → let d = (io_loop f fuel rounds 0 c).1 in
        (n ≤ c.transfer_bytes)
        × (position d.data_block ≡ position c.data_block + n)
        × Writable d.data_block
  io_loop-position fuel rounds n c contract dir some_bytes w small e =
      subst (λ o. Ends c.transfer_bytes (position c.data_block) o (io_loop f fuel rounds 0 c).1) e
        (io_loop-Ends fuel rounds c.transfer_bytes (position c.data_block) 0 c contract some_bytes
          small (Writing-start c dir w))

  -- The loop of such a client ends: one round more than there are bytes to transfer is enough, and any
  -- number of rounds beyond that comes to the same outcome and the same client.
  pub io_loop-enough :
      (more rounds : ℕ) (c : Client C)
      → Bounded f
      → is_reading c.direction ≡ false
      → 0 < c.transfer_bytes
      → Writable c.data_block
      → position c.data_block + c.transfer_bytes + 1 < 2 ^ 64
      → io_loop f (c.transfer_bytes + 1 + more) rounds 0 c
        ≡ io_loop f (c.transfer_bytes + 1) rounds 0 c
  io_loop-enough more rounds c contract dir some_bytes w small =
      io_loop-rounds (c.transfer_bytes + 1 + more) (c.transfer_bytes + 1) rounds c.transfer_bytes
        (position c.data_block) 0 c contract some_bytes small (omega arith) (omega arith)
        (Writing-start c dir w)
