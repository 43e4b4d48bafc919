-- ===== src/Ipcio/Stream/Write.antt =====
-- src/ipcio.c: `ipcio_write` moves the stream on by the bytes it was given.
use mathlib.Core.Path.{subst}
use mirror_psrdada_code.Prelude.{
  ap, sym, ℕ, zero, suc, ◌+◌, ◌-◌, ◌^◌, ◌≤◌, ◌<◌, ◌≡◌, ◌≢◌, ◌⊎◌, inl, inr, refl, ◌∙◌, arith,
}
use mirror_psrdada_code.Process.{Outcome, ok, fail, asleep, Call, continue}
use mirror_psrdada_code.Kernel.{Kernel}
use mirror_psrdada_code.Ipcio.{Io}
use mirror_psrdada_code.Ipcio.Stream.{write_round, write_loop, write}
use mirror_psrdada_code.Ipcio.Stream.Round.{Writable, position, write_round-position}

module _ ⦃k : Kernel⦄ where
  -- A call returned a number, or what comes after it is not run.
  returned :
      (o : Outcome ℕ)
      → ((n : ℕ) × (o ≡ ok n))
        ⊎ (((v : Io) (p q : ℕ → Call Io (Unit {0})) → continue o v p ≡ continue o v q)
            × ((v : Io) (p : ℕ → Call Io (Unit {0})) → (continue o v p).0 ≢ ok tt))
  returned (ok n) = inl (n, refl)
  returned fail = inr (λ v p q. refl, λ v p. ground arith)
  returned asleep = inr (λ v p q. refl, λ v p. ground arith)

  -- the loop after a round that returned
  pub write_loop-step :
      (f bytes space : ℕ) (ptr : ℕ → ℕ) (io : Io)
      → 0 < bytes
      → (write_round bytes ptr io).0 ≡ ok space
      → write_loop (suc f) bytes ptr io
        ≡ (write_loop f (bytes - space) (λ o. ptr (space + o)) (write_round bytes ptr io).1)
  unfolding write_loop
  write_loop-step f bytes space ptr io some_left e = rw e (ground arith)

  -- the loop while there are bytes left, whatever comes of the round
  write_loop-some :
      (f n : ℕ) (ptr : ℕ → ℕ) (io : Io)
      → let round = write_round (suc n) ptr io in
        write_loop (suc f) (suc n) ptr io
        ≡ (continue round.0 round.1 (λ space. write_loop f (suc n - space) (λ o. ptr (space + o))))
  unfolding write_loop
  write_loop-some f n ptr io = ground arith

  pub write_loop-none : (f : ℕ) (ptr : ℕ → ℕ) (io : Io) → write_loop f 0 ptr io ≡ (ok tt, io)
  unfolding write_loop
  write_loop-none zero ptr io = refl
  write_loop-none (suc f) ptr io = refl

  write_loop-position :
      (f bytes : ℕ) (ptr : ℕ → ℕ) (io : Io)
      → Writable io
      → io.world.sync.w_buf_curr + bytes < 2 ^ 64
      → (write_loop f bytes ptr io).0 ≡ ok tt
      → let t = (write_loop f bytes ptr io).1 in (position t ≡ position io + bytes) × Writable t
  unfolding write_loop
  write_loop-position f zero ptr io s small e = rw (write_loop-none f ptr io) (omega arith, s)
  write_loop-position zero (suc n) ptr io s small e = absurd (ground arith)
  write_loop-position (suc f) (suc n) ptr io s small e =
      elim (returned (write_round (suc n) ptr io).0) [
        | inr cut ↦ absurd (cut.1 _ _ (rw (write_loop-some f n ptr io) at e))
        | inl got ↦
            let (space, q) = got in
            let (some_space, fits, curr, at, t) =
              write_round-position (suc n) ptr io s (omega arith) (omega arith) q in
            let l = write_loop-step f (suc n) space ptr io (omega arith) q in
            let (end, done) =
              write_loop-position f (suc n - space) (λ o. ptr (space + o))
                (write_round (suc n) ptr io).1 t (omega arith) (rw⁻¹ l e) in
            rw l (end ∙ omega arith, done)
      ]

  -- How `while (bytes)` of `ipcio_write` comes to its end, and with what, in any number of rounds:
  -- there are no bytes left, or a round fails or sleeps, or it stores some and the loop on the rest
  -- ends. A loop that goes round for ever has no such end.
  pub data Ends : (bytes : ℕ) → (ptr : ℕ → ℕ) → Io → Outcome (Unit {0}) × Io → Type 0 where
    all_written : {ptr : ℕ → ℕ} {io : Io} → Ends 0 ptr io (ok tt, io)
    failed :
        {n : ℕ} {ptr : ℕ → ℕ} {io : Io}
        → (write_round (suc n) ptr io).0 ≡ fail
        → Ends (suc n) ptr io (fail, (write_round (suc n) ptr io).1)
    waits :
        {n : ℕ} {ptr : ℕ → ℕ} {io : Io}
        → (write_round (suc n) ptr io).0 ≡ asleep
        → Ends (suc n) ptr io (asleep, (write_round (suc n) ptr io).1)
    further :
        {n space : ℕ} {ptr : ℕ → ℕ} {io : Io} {r : Outcome (Unit {0}) × Io}
        → (write_round (suc n) ptr io).0 ≡ ok space
        → Ends (suc n - space) (λ o. ptr (space + o)) (write_round (suc n) ptr io).1 r
        → Ends (suc n) ptr io r

  outcome_cases : (o : Outcome ℕ) → ((n : ℕ) × (o ≡ ok n)) ⊎ ((o ≡ fail) ⊎ (o ≡ asleep))
  outcome_cases (ok n) = inl (n, refl)
  outcome_cases fail = inr (inl refl)
  outcome_cases asleep = inr (inr refl)

  write_loop-rounds :
      (f bytes : ℕ) (ptr : ℕ → ℕ) (io : Io)
      → Writable io
      → io.world.sync.w_buf_curr + bytes < 2 ^ 64
      → bytes ≤ f
      → Ends bytes ptr io (write_loop f bytes ptr io)
  unfolding write_loop
  write_loop-rounds f zero ptr io s small h = rw (write_loop-none f ptr io) all_written
  write_loop-rounds zero (suc n) ptr io s small h = absurd (omega arith)
  write_loop-rounds (suc f) (suc n) ptr io s small h =
      elim (outcome_cases (write_round (suc n) ptr io).0) [
        | inr (inl e) ↦
            subst (Ends (suc n) ptr io)
              (sym (
                write_loop-some f n ptr io
                ∙ ap
                    (λ o.
                      continue o (write_round (suc n) ptr io).1
                        (λ space. write_loop f (suc n - space) (λ o. ptr (space + o))))
                    e))
              (failed e)
        | inr (inr e) ↦
            subst (Ends (suc n) ptr io)
              (sym (
                write_loop-some f n ptr io
                ∙ ap
                    (λ o.
                      continue o (write_round (suc n) ptr io).1
                        (λ space. write_loop f (suc n - space) (λ o. ptr (space + o))))
                    e))
              (waits e)
        | inl (space, q) ↦
            let (some_space, fits, curr, at, t) =
              write_round-position (suc n) ptr io s (omega arith) (omega arith) q in
            subst (Ends (suc n) ptr io)
              (sym (write_loop-step f (suc n) space ptr io (omega arith) q))
              (further q (
                write_loop-rounds f (suc n - space) (λ o. ptr (space + o))
                  (write_round (suc n) ptr io).1 t (omega arith) (omega arith)))
      ]

write-calls :
    ⦃k : Kernel⦄ (ptr : ℕ → ℕ) (bytes : ℕ) (io : Io) {n : ℕ}
    → (write ptr bytes io).0 ≡ ok n
    → (n ≡ bytes)
      × ((write_loop bytes bytes ptr io).0 ≡ ok tt)
      × ((write ptr bytes io).1 ≡ (write_loop bytes bytes ptr io).1)
unfolding write
write-calls ptr bytes io e = ground arith

-- A writer's call of `ipcio_write` that returns without error returns the number of bytes that it was
-- given (with the counts of blocks below 2^64), and has moved the position of the stream on by that
-- number, however many blocks it filled on the way; the stream is as a writer's stream is between two
-- calls.
pub write-position :
    ⦃k : Kernel⦄ (ptr : ℕ → ℕ) (bytes : ℕ) (io : Io) {n : ℕ}
    → Writable io
    → io.world.sync.w_buf_curr + bytes < 2 ^ 64
    → (write ptr bytes io).0 ≡ ok n
    → let t = (write ptr bytes io).1 in
      (n ≡ bytes) × (position t ≡ position io + bytes) × Writable t
write-position ptr bytes io s small e =
    let (q, loop, last) = write-calls ptr bytes io e in
    let (at, done) = write_loop-position bytes bytes ptr io s small loop in rw last (q, at, done)

-- The loop of `ipcio_write` on a writer's stream (with the counts of blocks below 2^64) ends, within as
-- many rounds as there are bytes to write: what it comes to in that many rounds is what `while (bytes)`
-- comes to after finitely many, all bytes written, or an error or a wait of a call in one of them.
pub write_loop-Ends :
    ⦃k : Kernel⦄ (bytes : ℕ) (ptr : ℕ → ℕ) (io : Io)
    → Writable io
    → io.world.sync.w_buf_curr + bytes < 2 ^ 64
    → Ends bytes ptr io (write_loop bytes bytes ptr io)
write_loop-Ends bytes ptr io s small = write_loop-rounds bytes bytes ptr io s small (omega arith)
