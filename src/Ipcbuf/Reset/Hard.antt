-- ===== src/Ipcbuf/Reset/Hard.antt =====
-- src/ipcbuf.c: what `ipcbuf_hard_reset` leaves.
use mirror_psrdada_code.Prelude.{
  ℕ, zero, suc, ◌+◌, ◌<◌, ◌≡◌, ◌∙◌, refl, Bool, ◌&&◌, ◌||◌, leb, ltb, ◌==◌, if◌then◌else◌, true,
  arith,
}
use mirror_psrdada_code.Shared.{World, Sync, of_reader, ipcbuf_xfers, ipcbuf_full, ipcbuf_clear}
use mirror_psrdada_code.Process.{ok, asleep, for_each}
use mirror_psrdada_code.Kernel.{Kernel, Lawful, assign}
use mirror_psrdada_code.Ipcbuf.Writer.{get_next_write}
use mirror_psrdada_code.Ipcbuf.Writer.Next.{Steady, get_next_write-asleep}
use mirror_psrdada_code.Ipcbuf.Reset.{
  reset_writer, reset_counters, setval_or_fail, hard_reset_reader, hard_reset,
}

-- the readers `i, …, i + n - 1` reset
abbrev readers_reset : (n i : ℕ) → World → World
readers_reset zero i w = w
readers_reset (suc n) i w = readers_reset n (suc i) (record w {
  sync = reset_counters i w.sync;
  sems = assign (assign w.sems (of_reader i ipcbuf_full) 0) (of_reader i ipcbuf_clear) 0;
})

readers_reset-run :
    ⦃k : Kernel⦄ (law : Lawful k) (n i : ℕ) (w : World)
    → for_each n i hard_reset_reader w ≡ (ok tt, readers_reset n i w)
unfolding for_each hard_reset_reader setval_or_fail
readers_reset-run law zero i w = refl
readers_reset-run law (suc n) i w =
    rw
      (
        law.set_value (of_reader i ipcbuf_full) 0 w.sems (omega arith),
        law.set_value (of_reader i ipcbuf_clear) 0 (assign w.sems (of_reader i ipcbuf_full) 0)
            (omega arith),
      )
      (readers_reset-run law n (suc i) _)

abbrev in_span : (n i j : ℕ) → Bool
in_span n i j = leb i j && ltb j (i + n)

readers_reset-sems :
    (n i : ℕ) (w : World) (j num : ℕ)
    → (readers_reset n i w).sems (of_reader j num) ≡ (
        if in_span n i j && (num == ipcbuf_full || num == ipcbuf_clear)
        then 0
        else w.sems (of_reader j num))
readers_reset-sems zero i w j num = ground arith
readers_reset-sems (suc n) i w j num = readers_reset-sems n (suc i) _ j num ∙ ground arith

readers_reset-r_bufs :
    (n i : ℕ) (w : World) (j : ℕ)
    → (readers_reset n i w).sync.r_bufs j ≡ (if in_span n i j then 0 else w.sync.r_bufs j)
unfolding reset_counters
readers_reset-r_bufs zero i w j = ground arith
readers_reset-r_bufs (suc n) i w j = readers_reset-r_bufs n (suc i) _ j ∙ ground arith

-- The loop leaves the writer's side alone, `count` included.
record SameWriter (a b : Sync) : Type 0 where
  nbufs : a.nbufs ≡ b.nbufs
  readers : a.n_readers ≡ b.n_readers
  next : a.w_buf_next ≡ b.w_buf_next
  curr : a.w_buf_curr ≡ b.w_buf_curr
  xfer : a.w_xfer ≡ b.w_xfer
  eod : a.eod ≡ b.eod
  count : a.count ≡ b.count

readers_reset-SameWriter : (n i : ℕ) (w : World) → SameWriter (readers_reset n i w).sync w.sync
unfolding reset_counters
readers_reset-SameWriter zero i w = record {
  nbufs = refl;
  readers = refl;
  next = refl;
  curr = refl;
  xfer = refl;
  eod = refl;
  count = refl;
}
readers_reset-SameWriter (suc n) i w =
    let s = readers_reset-SameWriter n (suc i) _ in
    record {
      nbufs = s.nbufs;
      readers = s.readers;
      next = s.next;
      curr = s.curr;
      xfer = s.xfer;
      eod = s.eod;
      count = s.count;
    }

readers_reset-handle : (n i : ℕ) (w : World) → (readers_reset n i w).handle ≡ w.handle
readers_reset-handle zero i w = refl
readers_reset-handle (suc n) i w = readers_reset-handle n (suc i) _

abbrev hard : World → World
hard w = readers_reset w.sync.n_readers 0 (record w { sync = reset_writer w.sync })

hard_reset-run : ⦃k : Kernel⦄ (law : Lawful k) (w : World) → hard_reset w ≡ (ok tt, hard w)
unfolding hard_reset reset_writer
hard_reset-run law w = readers_reset-run law w.sync.n_readers 0 _

-- A hard reset always succeeds. It sets the writer's counters to 0, raises the end-of-data flag of every
-- transfer slot, and of every reader it clears the count of blocks and the semaphores FULL and
-- CLEAR.
hard_reset-zero :
    ⦃k : Kernel⦄ (law : Lawful k) (w : World) (j x : ℕ)
    → j < w.sync.n_readers
    → x < ipcbuf_xfers
    → let w' = hard_reset w in
      (w'.0 ≡ ok tt)
      × ((w'.1.sync.w_buf_curr ≡ 0) × (w'.1.sync.w_buf_next ≡ 0) × (w'.1.sync.w_xfer ≡ 0))
      × (w'.1.sync.eod x ≡ true)
      × (w'.1.sync.r_bufs j ≡ 0)
      × (w'.1.sems (of_reader j ipcbuf_full) ≡ 0)
      × (w'.1.sems (of_reader j ipcbuf_clear) ≡ 0)
unfolding reset_writer
hard_reset-zero law w j x below slot =
    let s = readers_reset-SameWriter w.sync.n_readers 0 (record w { sync = reset_writer w.sync }) in
    let full =
      readers_reset-sems w.sync.n_readers 0 (record w { sync = reset_writer w.sync }) j
        ipcbuf_full in
    let clear =
      readers_reset-sems w.sync.n_readers 0 (record w { sync = reset_writer w.sync }) j
        ipcbuf_clear in
    let read =
      readers_reset-r_bufs w.sync.n_readers 0 (record w { sync = reset_writer w.sync }) j in
    rw (hard_reset-run law w)
      (refl, (s.curr, s.next, s.xfer), ground arith, ground arith, ground arith, ground arith)

-- A hard reset does not clear `count`: if block 0 was pending, a writer that asks for its first
-- block afterwards sleeps, whatever the readers had cleared.
hard_reset-stuck :
    ⦃k : Kernel⦄ (law : Lawful k) (w : World)
    → Steady w.handle.state
    → 0 < w.sync.n_readers
    → 0 < w.sync.count 0
    → w.sync.count 0 < 256
    → (get_next_write (hard_reset w).1).0 ≡ asleep
unfolding reset_writer
hard_reset-stuck law w steady some_reader pending small =
    let s = readers_reset-SameWriter w.sync.n_readers 0 (record w { sync = reset_writer w.sync }) in
    let h = readers_reset-handle w.sync.n_readers 0 (record w { sync = reset_writer w.sync }) in
    let clear =
      readers_reset-sems w.sync.n_readers 0 (record w { sync = reset_writer w.sync }) 0
        ipcbuf_clear in
    rw (hard_reset-run law w) (
      get_next_write-asleep law (hard w) (rw h steady) 0 (ground arith) (ground arith)
        (ground arith))
