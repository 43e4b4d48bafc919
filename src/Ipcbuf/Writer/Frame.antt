-- ===== src/Ipcbuf/Writer/Frame.antt =====
-- src/ipcbuf.c: what the calls of the writer leave alone, whatever comes of them: the size of the
-- blocks, and the bytes of the ring; and by how much they move the current block.
use mirror_psrdada_code.Prelude.{
  ℕ, zero, suc, ◌≡◌, refl, ◌==◌, ◌%◌, Bool, inc64, inc8, dec8, ◌≢◌, ◌⊎◌, pos, negsuc, ℤ,
  if◌then◌else◌, sub64, short_of, update, arith,
}
use mirror_psrdada_code.Shared.{
  World, of_reader, writing, ipcbuf_xfers, ipcbuf_sodack, ipcbuf_eodack, ipcbuf_full, ipcbuf_clear,
}
use mirror_psrdada_code.Process.{
  Outcome, ok, fail, asleep, M, ignore_status, continue, pure, for_each,
}
use mirror_psrdada_code.Kernel.{Kernel, no_flags}
use mirror_psrdada_code.Ipcutil.{semop_or_fail}
use mirror_psrdada_code.Ipcbuf.Writer.{
  start_xfer, enable_sod, reclaim, sod_on_wchange, get_next_write, end_xfer, publish, fill,
  mark_filled,
}

-- `w'` has the sizes, the bytes and the current block of `w`.
abbrev pub Kept : World → World → Type 0
Kept w w' =
    (w'.sync.bufsz ≡ w.sync.bufsz)
    × (w'.sync.nbufs ≡ w.sync.nbufs)
    × (w'.sync.w_buf_curr ≡ w.sync.w_buf_curr)
    × (w'.mem ≡ w.mem)

-- A call that keeps them in every world.
abbrev pub Keeps : {A : Type 0} → M A → Type 0
Keeps m = (w : World) → Kept w (m w).1

Kept-trans : (u v w : World) → Kept u v → Kept v w → Kept u w
Kept-trans u v w p q = ground arith

-- what a sequence of two calls keeps, when each of them does
continue-Kept :
    {A B : Type 0} (u v : World) (o : Outcome A) (f : A → M B)
    → Kept u v
    → ((a : A) → Keeps (f a))
    → Kept u (continue o v f).1
continue-Kept u v (ok a) f p h = Kept-trans u v (f a v).1 p (h a v)
continue-Kept u v fail f p h = p
continue-Kept u v asleep f p h = p

for_each-Keeps :
    (n i : ℕ) (body : ℕ → M (Unit {0})) → ((j : ℕ) → Keeps (body j)) → Keeps (for_each n i body)
unfolding for_each
for_each-Keeps zero i body h w = (refl, refl, refl, refl)
for_each-Keeps (suc n) i body h w =
    ground (arith, h i w, for_each-Keeps n (suc i) body h (body i w).1)

module _ ⦃k : Kernel⦄ where
  -- a semaphore operation on every reader
  each_reader-Keeps :
      (n num : ℕ) (op : ℤ) → Keeps (for_each n 0 (λ i. semop_or_fail (of_reader i num) op no_flags))
  each_reader-Keeps n num op = for_each-Keeps n 0 _ (λ j w. ground arith)

  raise_unless-Keeps :
      (none_new : Bool) (n num : ℕ) (op : ℤ)
      → Keeps (
          for_each n 0
            (λ i. if none_new then pure tt else semop_or_fail (of_reader i num) op no_flags))
  raise_unless-Keeps none_new n num op = for_each-Keeps n 0 _ (λ j w. ground arith)

  pub enable_sod-Keeps : (b o : ℕ) → Keeps (enable_sod b o)
  unfolding enable_sod start_xfer
  enable_sod-Keeps b o w =
      let acked =
        (for_each w.sync.n_readers 0
          (λ i. semop_or_fail (of_reader i ipcbuf_sodack) (negsuc 0) no_flags) w).1 in
      let begun = record acked {
        handle = record acked.handle { xfer = w.sync.w_xfer % ipcbuf_xfers; state = writing };
        sync = start_xfer b o acked.sync;
      } in
      ground (
        arith,
        each_reader-Keeps w.sync.n_readers ipcbuf_sodack (negsuc 0) w,
        raise_unless-Keeps (sub64 w.sync.w_buf_curr b == 0) w.sync.n_readers ipcbuf_full
            (short_of (sub64 w.sync.w_buf_curr b)) begun,
      )

  reclaim-Keeps : (f b : ℕ) → Keeps (reclaim f b)
  unfolding reclaim
  reclaim-Keeps zero b w = (refl, refl, refl, refl)
  reclaim-Keeps (suc f) b w =
      let taken =
        (for_each w.sync.n_readers 0
          (λ i. semop_or_fail (of_reader i ipcbuf_clear) (negsuc 0) no_flags) w).1 in
      ground (
        arith,
        each_reader-Keeps w.sync.n_readers ipcbuf_clear (negsuc 0) w,
        reclaim-Keeps f b (record taken {
          sync = record taken.sync {
            count = update taken.sync.count b (dec8 (taken.sync.count b));
          };
        }),
      )

  pub get_next_write-Keeps : Keeps get_next_write
  unfolding get_next_write sod_on_wchange
  get_next_write-Keeps w =
      let started = (enable_sod w.sync.w_buf_curr 0 w).1 in
      ground (
        arith,
        enable_sod-Keeps w.sync.w_buf_curr 0 w,
        reclaim-Keeps 256 (w.sync.w_buf_next % w.sync.nbufs) w,
        reclaim-Keeps 256 (started.sync.w_buf_next % started.sync.nbufs) started,
      )

  next_after_end-Keeps : (n : ℕ) → Keeps (if n == 0 then ignore_status get_next_write else pure tt)
  next_after_end-Keeps n w = ground (arith, get_next_write-Keeps w)

  end_xfer-Keeps : (n : ℕ) → Keeps (end_xfer n)
  unfolding end_xfer
  end_xfer-Keeps n w =
      continue-Kept w _ _ _ (each_reader-Keeps w.sync.n_readers ipcbuf_eodack (negsuc 0) w)
        (λ _ v. next_after_end-Keeps n _)

  -- The block that is marked filled is counted, when the call returns without error.
  publish-curr :
      (w : World)
      → let w' = (publish w).1 in
        Kept (record w { sync = record w.sync { w_buf_curr = inc64 w.sync.w_buf_curr } }) w'
  unfolding publish
  publish-curr w =
      let counted = record w {
        sync = record w.sync {
          count =
              update w.sync.count (w.sync.w_buf_curr % w.sync.nbufs)
                (inc8 (w.sync.count (w.sync.w_buf_curr % w.sync.nbufs)));
          w_buf_curr = inc64 w.sync.w_buf_curr;
        };
      } in
      ground (arith, each_reader-Keeps w.sync.n_readers ipcbuf_full (pos 1) counted)

  pub mark_filled-curr :
      (n : ℕ) (w : World)
      → let w' = (mark_filled n w).1 in
        (w'.sync.bufsz ≡ w.sync.bufsz)
        × (w'.sync.nbufs ≡ w.sync.nbufs)
        × (w'.mem ≡ w.mem)
        × ((mark_filled n w).0 ≢ ok tt ⊎ (w'.sync.w_buf_curr ≡ inc64 w.sync.w_buf_curr))
  unfolding mark_filled fill
  mark_filled-curr n w =
      ground (arith, end_xfer-Keeps n w, publish-curr w, publish-curr (end_xfer n w).1)
