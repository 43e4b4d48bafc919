-- ===== src/Ipcbuf/Writer/Fill.antt =====
-- src/ipcbuf.c: what `ipcbuf_mark_filled` does inside a transfer.
use mirror_psrdada_code.Prelude.{ℕ, ◌%◌, ◌≤◌, ◌<◌, ◌≡◌, inc8, inc64, update, pos, arith}
use mirror_psrdada_code.Shared.{World, writing, of_reader, ipcbuf_full}
use mirror_psrdada_code.Process.{ok}
use mirror_psrdada_code.Kernel.{Kernel, Lawful, no_flags, semvmx}
use mirror_psrdada_code.Ipcbuf.Writer.{publish, fill, mark_filled}
use mirror_psrdada_code.Ipcbuf.EachReader.{shift_each, for_each-fits, fits_of_for_each}

-- the world after the current block was counted and every FULL was raised
abbrev pub published : World → World
published w = record w {
  sync = record w.sync {
    count =
        update w.sync.count (w.sync.w_buf_curr % w.sync.nbufs)
          (inc8 (w.sync.count (w.sync.w_buf_curr % w.sync.nbufs)));
    w_buf_curr = inc64 w.sync.w_buf_curr;
  };
  sems = shift_each (pos 1) ipcbuf_full w.sync.n_readers 0 w.sems;
}

abbrev pub full_of : World → ℕ → ℕ
full_of w j = w.sems (of_reader j ipcbuf_full)

module _ ⦃k : Kernel⦄ (law : Lawful k) (w : World) where
  pub publish-published :
      ((j : ℕ) → j < w.sync.n_readers → full_of w j < semvmx) → publish w ≡ (ok tt, published w)
  unfolding publish
  publish-published h =
      for_each-fits law (pos 1) ipcbuf_full no_flags w.sync.n_readers 0 _
        (λ j lo hi. ground (arith, h j))

  pub room_of_publish :
      (publish w).0 ≡ ok tt → (j : ℕ) → j < w.sync.n_readers → full_of w j < semvmx
  unfolding publish
  room_of_publish h j below = ground (
    arith,
    fits_of_for_each law (pos 1) ipcbuf_full no_flags w.sync.n_readers 0 _ h j (omega arith)
        (omega arith),
  )

  -- Inside a transfer a full block is published and nothing else is done.
  pub mark_filled-published :
      (nbytes : ℕ)
      → w.handle.state ≡ writing
      → w.sync.bufsz ≤ nbytes
      → mark_filled nbytes w ≡ publish w
  unfolding mark_filled fill
  mark_filled-published nbytes e full = ground arith
