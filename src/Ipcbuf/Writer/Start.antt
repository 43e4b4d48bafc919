-- ===== src/Ipcbuf/Writer/Start.antt =====
-- src/ipcbuf.c: how `ipcbuf_enable_sod` starts a transfer.
use mirror_psrdada_code.Prelude.{
  ℕ, ◌+◌, ◌-◌, ◌%◌, ◌^◌, ◌≤◌, ◌<◌, ◌≡◌, ◌∙◌, refl, true, false, ◌==◌, if◌then◌else◌, ℤ, pos, negsuc,
  sub64, short_of, short_of-small, short_of-wrapped, arith,
}
use mirror_psrdada_code.Shared.{World, writing, of_reader, ipcbuf_xfers, ipcbuf_sodack, ipcbuf_full}
use mirror_psrdada_code.Process.{ok, asleep, pure, for_each}
use mirror_psrdada_code.Kernel.{Kernel, Lawful, no_flags}
use mirror_psrdada_code.Ipcutil.{semop_or_fail}
use mirror_psrdada_code.Ipcbuf.EachReader.{
  shift_each, shift_each-reader, for_each-fits, fits_of_for_each, for_each-pure, for_each-waits,
}
use mirror_psrdada_code.Ipcbuf.Writer.{enable_sod, start_xfer, may_enable_sod}

-- the writer's world after the start of the transfer was stored, before FULL is raised
abbrev pub stored : (start_buf start_byte : ℕ) → World → World
stored a o w = record w {
  handle = record w.handle { xfer = w.sync.w_xfer % ipcbuf_xfers; state = writing };
  sync = start_xfer a o w.sync;
  sems = shift_each (negsuc 0) ipcbuf_sodack w.sync.n_readers 0 w.sems;
}

-- the operation that `ipcbuf_enable_sod` asks for on every FULL
abbrev pub full_op : (start_buf : ℕ) → World → ℤ
full_op a w = short_of (sub64 w.sync.w_buf_curr a)

sub64_self : (c : ℕ) → sub64 c c ≡ 0
sub64_self c = omega arith

abbrev pub sodack_of : World → ℕ → ℕ
sodack_of w j = w.sems (of_reader j ipcbuf_sodack)

module _ ⦃k : Kernel⦄ (law : Lawful k) (a o : ℕ) (w : World) where
  -- With its guards passed and every start of an earlier transfer acknowledged, the call stores
  -- the start and goes on to raise every FULL.
  pub enable_sod-stored :
      may_enable_sod a o w.handle w.sync ≡ true
      → ((j : ℕ) → j < w.sync.n_readers → 1 ≤ sodack_of w j)
      → enable_sod a o w
        ≡ for_each w.sync.n_readers 0
            (λ i.
              if sub64 w.sync.w_buf_curr a == 0
              then pure tt
              else semop_or_fail (of_reader i ipcbuf_full) (full_op a w) no_flags)
            (stored a o w)
  unfolding enable_sod
  enable_sod-stored may acks = rw may (
      rw
        (for_each-fits law (negsuc 0) ipcbuf_sodack no_flags w.sync.n_readers 0 w
          (λ j lo hi. ground (arith, acks j)))
        refl)

  pub may_of_ok : (enable_sod a o w).0 ≡ ok tt → may_enable_sod a o w.handle w.sync ≡ true
  unfolding enable_sod
  may_of_ok e = ground arith

  acked_of_ok :
      (enable_sod a o w).0 ≡ ok tt
      → (for_each w.sync.n_readers 0
          (λ i. semop_or_fail (of_reader i ipcbuf_sodack) (negsuc 0) no_flags)
          w).0
        ≡ ok tt
  unfolding enable_sod
  acked_of_ok e = ground arith

  pub acks_of_ok : (enable_sod a o w).0 ≡ ok tt → (j : ℕ) → j < w.sync.n_readers → 1 ≤ sodack_of w j
  acks_of_ok e j below = ground (
    arith,
    fits_of_for_each law (negsuc 0) ipcbuf_sodack no_flags w.sync.n_readers 0 w (acked_of_ok e) j
        (omega arith) (omega arith),
  )

  -- No block before the current one is included: FULL stays as it is.
  pub enable_sod-at_curr :
      (enable_sod a o w).0 ≡ ok tt
      → a ≡ w.sync.w_buf_curr
      → enable_sod a o w ≡ (ok tt, stored a o w)
  enable_sod-at_curr e same =
      enable_sod-stored (may_of_ok e) (acks_of_ok e)
      ∙ rw (at_zero same) (for_each-pure w.sync.n_readers 0 (stored a o w))
    where
      at_zero : a ≡ w.sync.w_buf_curr → (sub64 w.sync.w_buf_curr a == 0) ≡ true
      at_zero same = ground arith

  -- Blocks before the current one are included: every FULL is raised by their number.
  enable_sod-before_curr :
      (enable_sod a o w).0 ≡ ok tt
      → a < w.sync.w_buf_curr
      → w.sync.w_buf_curr < 2 ^ 64
      → w.sync.w_buf_curr - a < 2 ^ 15
      → enable_sod a o w ≡ (
        ok tt,
        record (stored a o w) {
          sems =
              shift_each
                (pos (w.sync.w_buf_curr - a))
                ipcbuf_full
                w.sync.n_readers
                0
                (stored a o w).sems;
        },
      )
  enable_sod-before_curr e before fit few =
      start
      ∙ for_each-fits law (pos (w.sync.w_buf_curr - a)) ipcbuf_full no_flags w.sync.n_readers 0
          (stored a o w)
          (fits_of_for_each law (pos (w.sync.w_buf_curr - a)) ipcbuf_full no_flags w.sync.n_readers
            0 (stored a o w) (rw (← start) e))
    where
      not_zero : (sub64 w.sync.w_buf_curr a == 0) ≡ false
      not_zero = ground arith

      op_eq : short_of (sub64 w.sync.w_buf_curr a) ≡ pos (w.sync.w_buf_curr - a)
      op_eq = rw (← difference) (short_of-small _ (omega arith))
        where
          difference : sub64 w.sync.w_buf_curr a ≡ w.sync.w_buf_curr - a
          difference = omega arith

      start :
          enable_sod a o w
          ≡ for_each w.sync.n_readers 0
              (λ i. semop_or_fail (of_reader i ipcbuf_full) (pos (w.sync.w_buf_curr - a)) no_flags)
              (stored a o w)
      start = enable_sod-stored (may_of_ok e) (acks_of_ok e) ∙ rw (not_zero, op_eq)

  -- A start after the current block, which the guards let pass up to `w_buf_next`: the difference
  -- wraps below zero, FULL is lowered, and the writer sleeps with the transfer already started.
  enable_sod-after_curr :
      (j : ℕ)
      → may_enable_sod a o w.handle w.sync ≡ true
      → ((i : ℕ) → i < w.sync.n_readers → 1 ≤ sodack_of w i)
      → w.sync.w_buf_curr < a
      → a < 2 ^ 64
      → a ≤ w.sync.w_buf_curr + 2 ^ 15
      → j < w.sync.n_readers
      → w.sems (of_reader j ipcbuf_full) < a - w.sync.w_buf_curr
      → (enable_sod a o w).0 ≡ asleep
  enable_sod-after_curr j may acks after fit few below low =
      rw
        (
          enable_sod-stored may acks,
          not_zero,
          short_of-wrapped w.sync.w_buf_curr a (omega arith) after few,
        )
        (for_each-waits law ipcbuf_full (a - w.sync.w_buf_curr - 1) no_flags w.sync.n_readers 0
          (stored a o w) j refl (omega arith) (omega arith)
          (ground (
            arith,
            shift_each-reader (negsuc 0) ipcbuf_sodack w.sync.n_readers 0 w.sems j ipcbuf_full,
          )))
    where
      not_zero : (sub64 w.sync.w_buf_curr a == 0) ≡ false
      not_zero = ground arith
