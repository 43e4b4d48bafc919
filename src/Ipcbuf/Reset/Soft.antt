-- ===== src/Ipcbuf/Reset/Soft.antt =====
-- src/ipcbuf.c: what `ipcbuf_reset` does for the writer once every transfer is over.
use mirror_psrdada_code.Prelude.{
  ℕ, zero, suc, ◌+◌, ◌-◌, ◌≤◌, ◌<◌, ◌≡◌, ◌∙◌, refl, true, ◌&&◌, ltb, leb, if◌then◌else◌, pos,
  negsuc, arith,
}
use mirror_psrdada_code.Shared.{
  Sem, Sems, World, is_writer, of_reader, ipcbuf_xfers, ipcbuf_sodack, ipcbuf_eodack,
}
use mirror_psrdada_code.Process.{ok, for_each}
use mirror_psrdada_code.Kernel.{Kernel, Lawful, no_flags, assign, semvmx}
use mirror_psrdada_code.Ipcbuf.Writer.{reclaim}
use mirror_psrdada_code.Ipcbuf.Writer.Reclaim.{reclaim-zero}
use mirror_psrdada_code.Ipcbuf.EachReader.{semop_or_fail-fits}
use mirror_psrdada_code.Ipcbuf.Create.{fill_array}
use mirror_psrdada_code.Ipcbuf.Reset.{reset_writer, reset_counters, reset_reader, reset_ring, reset}

-- All eight acknowledgements of a reader are back.
abbrev pub Acknowledged : ℕ → Sems → Type 0
Acknowledged i v =
    ((8 ≤ v (of_reader i ipcbuf_sodack)) × (v (of_reader i ipcbuf_sodack) ≤ semvmx))
    × ((8 ≤ v (of_reader i ipcbuf_eodack)) × (v (of_reader i ipcbuf_eodack) ≤ semvmx))

-- the semaphores while the acknowledgements of reader `i` are taken and given back
abbrev taken_start : ℕ → Sems → Sems
taken_start i v = assign v (of_reader i ipcbuf_sodack) (v (of_reader i ipcbuf_sodack) - 8)

abbrev taken_both : ℕ → Sems → Sems
taken_both i v =
    let a = taken_start i v in
    assign a (of_reader i ipcbuf_eodack) (a (of_reader i ipcbuf_eodack) - 8)

abbrev given_start : ℕ → Sems → Sems
given_start i v =
    let a = taken_both i v in
    assign a (of_reader i ipcbuf_sodack) (a (of_reader i ipcbuf_sodack) + 8)

abbrev given_both : ℕ → Sems → Sems
given_both i v =
    let a = given_start i v in
    assign a (of_reader i ipcbuf_eodack) (a (of_reader i ipcbuf_eodack) + 8)

given_both-same : (i : ℕ) (v : Sems) (s : Sem) → Acknowledged i v → given_both i v s ≡ v s
given_both-same i v s acks = ground arith

module _ ⦃k : Kernel⦄ (law : Lawful k) where
  reset_reader-given :
      (i : ℕ) (w : World)
      → Acknowledged i w.sems
      → reset_reader i w
        ≡ (ok tt, record w { sems = given_both i w.sems; sync = reset_counters i w.sync })
  unfolding reset_reader
  reset_reader-given i w acks =
      rw
        (
          semop_or_fail-fits law (of_reader i ipcbuf_sodack) (negsuc 7) no_flags w (ground arith),
          semop_or_fail-fits law (of_reader i ipcbuf_eodack) (negsuc 7) no_flags
              (record w { sems = taken_start i w.sems }) (ground arith),
          semop_or_fail-fits law (of_reader i ipcbuf_sodack) (pos 8) no_flags
              (record w { sems = taken_both i w.sems }) (ground arith),
          semop_or_fail-fits law (of_reader i ipcbuf_eodack) (pos 8) no_flags
              (record w { sems = given_start i w.sems }) (ground arith),
        )
        refl

-- the world after the readers `i, …, i + n - 1` were reset
abbrev all_given : (n i : ℕ) → World → World
all_given zero i w = w
all_given (suc n) i w =
    all_given n (suc i) (record w { sems = given_both i w.sems; sync = reset_counters i w.sync })

-- The readers `i, …, i + n - 1` have all their acknowledgements.
abbrev pub AllAcknowledged : (n i : ℕ) → Sems → Type 0
AllAcknowledged n i v = (j : ℕ) → i ≤ j → j < i + n → Acknowledged j v

given_both-AllAcknowledged :
    (n i : ℕ) (v : Sems) → AllAcknowledged (suc n) i v → AllAcknowledged n (suc i) (given_both i v)
given_both-AllAcknowledged n i v acks j lo hi =
    let here = acks i (omega arith) (omega arith) in
    let (start, end) = acks j (omega arith) (omega arith) in
    rw
      (
        given_both-same i v (of_reader j ipcbuf_sodack) here,
        given_both-same i v (of_reader j ipcbuf_eodack) here,
      )
      (start, end)

all_given-sems :
    (n i : ℕ) (w : World) (s : Sem)
    → AllAcknowledged n i w.sems
    → (all_given n i w).sems s ≡ w.sems s
all_given-sems zero i w s acks = refl
all_given-sems (suc n) i w s acks =
    all_given-sems n (suc i) _ s (given_both-AllAcknowledged n i w.sems acks)
    ∙ given_both-same i w.sems s (acks i (omega arith) (omega arith))

all_given-counters :
    (n i : ℕ) (w : World) (j : ℕ)
    → let hit = leb i j && ltb j (i + n) in
      let t = (all_given n i w).sync in
      (t.r_bufs j ≡ (if hit then 0 else w.sync.r_bufs j))
      × (t.r_xfers j ≡ (if hit then 0 else w.sync.r_xfers j))
unfolding reset_counters
all_given-counters zero i w j = ground arith
all_given-counters (suc n) i w j =
    let t = record w { sems = given_both i w.sems; sync = reset_counters i w.sync } in
    let (bufs, xfers) = all_given-counters n (suc i) t j in
    (bufs ∙ ground arith, xfers ∙ ground arith)

all_given-handle : (n i : ℕ) (w : World) → (all_given n i w).handle ≡ w.handle
all_given-handle zero i w = refl
all_given-handle (suc n) i w = all_given-handle n (suc i) _

module _ ⦃k : Kernel⦄ (law : Lawful k) where
  all_given-run :
      (n i : ℕ) (w : World)
      → AllAcknowledged n i w.sems
      → for_each n i reset_reader w ≡ (ok tt, all_given n i w)
  unfolding for_each
  all_given-run zero i w acks = refl
  all_given-run (suc n) i w acks =
      rw (reset_reader-given law i w (acks i (omega arith) (omega arith)))
        (all_given-run n (suc i) _ (given_both-AllAcknowledged n i w.sems acks))

  -- the blocks are all taken back already
  blocks_free :
      (n i : ℕ) (w : World)
      → ((b : ℕ) → b < i + n → w.sync.count b ≡ 0)
      → for_each n i (λ b. reclaim 256 b) w ≡ (ok tt, w)
  unfolding for_each
  blocks_free zero i w free = refl
  blocks_free (suc n) i w free =
      rw (reclaim-zero law i 255 w (free i (omega arith)))
        (blocks_free n (suc i) w (λ b below. free b (omega arith)))

  reset-run :
      (w : World)
      → is_writer w.handle ≡ true
      → 0 < w.sync.w_buf_next
      → ((b : ℕ) → b < w.sync.nbufs → w.sync.count b ≡ 0)
      → AllAcknowledged w.sync.n_readers 0 w.sems
      → let t = all_given w.sync.n_readers 0 w in
        reset w ≡ (ok tt, record t { sync = reset_writer t.sync })
  unfolding reset reset_ring
  reset-run w role written free acks =
      let blocks = blocks_free w.sync.nbufs 0 w (λ b below. free b (omega arith)) in
      let readers = all_given-run w.sync.n_readers 0 w acks in ground (arith, blocks, readers)

-- A writer that resets a ring of which all blocks are taken back and every reader has acknowledged
-- the start and the end of all transfers is not kept waiting: its counts and those of reader `i`
-- are zero again, every slot `x` is ended, and its handle and every semaphore `s` are as before.
pub reset-zero :
    ⦃k : Kernel⦄ (law : Lawful k) (w : World) (i x : ℕ) (s : Sem)
    → is_writer w.handle ≡ true
    → 0 < w.sync.w_buf_next
    → ((b : ℕ) → b < w.sync.nbufs → w.sync.count b ≡ 0)
    → AllAcknowledged w.sync.n_readers 0 w.sems
    → i < w.sync.n_readers
    → x < ipcbuf_xfers
    → let r = reset w in
      (r.0 ≡ ok tt)
      × ((r.1.sync.w_buf_curr ≡ 0) × (r.1.sync.w_buf_next ≡ 0) × (r.1.sync.w_xfer ≡ 0))
      × ((r.1.sync.r_bufs i ≡ 0) × (r.1.sync.r_xfers i ≡ 0))
      × (r.1.sync.eod x ≡ true)
      × (r.1.handle ≡ w.handle)
      × (r.1.sems s ≡ w.sems s)
unfolding reset_writer fill_array
reset-zero law w i x s role written free acks below slot =
    let (bufs, xfers) = all_given-counters w.sync.n_readers 0 w i in
    rw (reset-run law w role written free acks) (
      refl,
      (refl, refl, refl),
      (bufs ∙ ground arith, xfers ∙ ground arith),
      ground arith,
      all_given-handle w.sync.n_readers 0 w,
      all_given-sems w.sync.n_readers 0 w s acks,
    )
