-- ===== src/Ipcbuf/Create/Fresh.antt =====
-- src/ipcbuf.c: the ring that `ipcbuf_create_work` leaves.
use mirror_psrdada_code.Prelude.{
  ℕ, zero, suc, ◌+◌, ◌≤◌, ◌<◌, ◌≡◌, ◌∙◌, refl, true, ◌&&◌, ◌||◌, ltb, leb, ◌==◌, if◌then◌else◌, pos,
  none, short_of-small, arith,
}
use mirror_psrdada_code.Shared.{
  Sem, Sems, World, viewer, ipcbuf_readers, discon, write_sem, read_sem, of_reader, of_connect,
  ipcbuf_xfers, ipcbuf_sodack, ipcbuf_eodack, ipcbuf_full, ipcbuf_clear, ipcbuf_reader_conn,
}
use mirror_psrdada_code.Process.{ok, for_each}
use mirror_psrdada_code.Kernel.{Kernel, Lawful, no_flags, assign}
use mirror_psrdada_code.Ipcbuf.EachReader.{fits, semop_or_fail-fits}
use mirror_psrdada_code.Ipcbuf.Create.{fill_array, created, open_reader, create_work}

-- what the creator adds to semaphore `num` of a reader
abbrev raise_of : (num : ℕ) → ℕ
raise_of num =
    if num == ipcbuf_sodack || num == ipcbuf_eodack
    then ipcbuf_xfers
    else if num == ipcbuf_reader_conn
    then 1
    else 0

-- the semaphores of one reader raised, and those of the readers `i, …, i + n - 1`
abbrev raised : ℕ → Sems → Sems
raised i v =
    let a = assign v (of_reader i ipcbuf_sodack) (v (of_reader i ipcbuf_sodack) + ipcbuf_xfers) in
    let b = assign a (of_reader i ipcbuf_eodack) (a (of_reader i ipcbuf_eodack) + ipcbuf_xfers) in
    assign b (of_reader i ipcbuf_reader_conn) (b (of_reader i ipcbuf_reader_conn) + 1)

abbrev all_raised : (n i : ℕ) → Sems → Sems
all_raised zero i v = v
all_raised (suc n) i v = all_raised n (suc i) (raised i v)

all_raised-connect :
    (n i : ℕ) (v : Sems) (num : ℕ) → all_raised n i v (of_connect num) ≡ v (of_connect num)
all_raised-connect zero i v num = refl
all_raised-connect (suc n) i v num = all_raised-connect n (suc i) (raised i v) num ∙ ground arith

all_raised-reader :
    (n i : ℕ) (v : Sems) (j num : ℕ)
    → all_raised n i v (of_reader j num) ≡ (
        if leb i j && ltb j (i + n)
        then v (of_reader j num) + raise_of num
        else v (of_reader j num))
all_raised-reader zero i v j num = ground arith
all_raised-reader (suc n) i v j num = all_raised-reader n (suc i) (raised i v) j num ∙ ground arith

-- the world before the semaphores of the readers are raised
abbrev stored : (nbufs bufsz n : ℕ) → World → World
stored nbufs bufsz n w =
    let v = assign w.sems write_sem (w.sems write_sem + 1) in
    record w {
      handle = record { state = discon; viewbuf = 0; xfer = 0; soclock_buf = 0; iread = none };
      sync = created nbufs bufsz n w.sync;
      sems = assign v read_sem (v read_sem + n);
    }

fits-few : (n v : ℕ) → v ≡ 0 → n ≤ ipcbuf_readers → fits (pos n) v ≡ true
fits-few zero v e few = ground arith
fits-few (suc n) v e few = ground arith

module _ ⦃k : Kernel⦄ (law : Lawful k) where
  open_reader-raised :
      (i : ℕ) (w : World)
      → ((num : ℕ) → w.sems (of_reader i num) ≡ 0)
      → open_reader i w ≡ (ok tt, record w { sems = raised i w.sems })
  unfolding open_reader
  open_reader-raised i w fresh =
      let a = record w {
        sems =
            assign w.sems (of_reader i ipcbuf_sodack)
              (w.sems (of_reader i ipcbuf_sodack) + ipcbuf_xfers);
      } in
      let b = record a {
        sems =
            assign a.sems (of_reader i ipcbuf_eodack)
              (a.sems (of_reader i ipcbuf_eodack) + ipcbuf_xfers);
      } in
      rw
        (
          semop_or_fail-fits law (of_reader i ipcbuf_sodack) (pos ipcbuf_xfers) no_flags w
              (ground (arith, fresh ipcbuf_sodack)),
          semop_or_fail-fits law (of_reader i ipcbuf_eodack) (pos ipcbuf_xfers) no_flags a
              (ground (arith, fresh ipcbuf_eodack)),
          semop_or_fail-fits law (of_reader i ipcbuf_reader_conn) (pos 1) no_flags b
              (ground (arith, fresh ipcbuf_reader_conn)),
        )
        refl

  open_reader-all_raised :
      (n i : ℕ) (w : World)
      → ((j num : ℕ) → i ≤ j → w.sems (of_reader j num) ≡ 0)
      → for_each n i open_reader w ≡ (ok tt, record w { sems = all_raised n i w.sems })
  unfolding for_each
  open_reader-all_raised zero i w fresh = refl
  open_reader-all_raised (suc n) i w fresh =
      rw (open_reader-raised i w (λ num. fresh i num (omega arith))) (
        open_reader-all_raised n (suc i) (record w { sems = raised i w.sems })
          (λ j num lo. ground (arith, fresh j num (omega arith))))

  create_work-run :
      (nbufs bufsz n : ℕ) (w : World)
      → ((s : Sem) → w.sems s ≡ 0)
      → n ≤ ipcbuf_readers
      → let c = stored nbufs bufsz n w in
        create_work true true nbufs bufsz n w ≡ (
          ok tt,
          record c { handle = record c.handle { state = viewer }; sems = all_raised n 0 c.sems },
        )
  unfolding create_work
  create_work-run nbufs bufsz n w zero_sems few =
      let c = stored nbufs bufsz n w in
      let a = record w { handle = c.handle; sync = c.sync } in
      let b = record a { sems = assign w.sems write_sem (w.sems write_sem + 1) } in
      rw
        (
          semop_or_fail-fits law write_sem (pos 1) no_flags a (ground (arith, zero_sems write_sem)),
          short_of-small n (omega arith),
          semop_or_fail-fits law read_sem (pos n) no_flags b
              (fits-few n (b.sems read_sem) (ground (arith, zero_sems read_sem)) few),
          open_reader-all_raised n 0 c (λ j num lo. ground (arith, zero_sems (of_reader j num))),
        )
        refl

-- On new segments, with all semaphores zero and at most IPCBUF_READERS readers, `ipcbuf_create_work`
-- succeeds and leaves its process a viewer. One writer and `n` readers can connect; reader `i` has
-- all its acknowledgements of start and end of data, its role is free, and no block is full or
-- cleared for it. No block is written or pending, and every slot `x` of a transfer is ended.
pub create_work-fresh :
    ⦃k : Kernel⦄ (law : Lawful k) (nbufs bufsz n : ℕ) (w : World) (i b x : ℕ)
    → ((s : Sem) → w.sems s ≡ 0)
    → n ≤ ipcbuf_readers
    → i < n
    → b < nbufs
    → x < ipcbuf_xfers
    → let r = create_work true true nbufs bufsz n w in
      let v = r.1.sems in
      ((r.0 ≡ ok tt) × (r.1.handle.state ≡ viewer))
      × ((v write_sem ≡ 1) × (v read_sem ≡ n))
      × ((v (of_reader i ipcbuf_sodack) ≡ 8) × (v (of_reader i ipcbuf_eodack) ≡ 8))
      × (v (of_reader i ipcbuf_reader_conn) ≡ 1)
      × ((v (of_reader i ipcbuf_full) ≡ 0) × (v (of_reader i ipcbuf_clear) ≡ 0))
      × ((r.1.sync.w_buf_next ≡ 0) × (r.1.sync.w_buf_curr ≡ 0) × (r.1.sync.count b ≡ 0))
      × (r.1.sync.eod x ≡ true)
unfolding created fill_array
create_work-fresh law nbufs bufsz n w i b x zero_sems few below block slot =
    let c = stored nbufs bufsz n w in
    rw (create_work-run law nbufs bufsz n w zero_sems few) (
      (refl, refl),
      (
        ground (arith, all_raised-connect n 0 c.sems 0, zero_sems write_sem),
        ground (arith, all_raised-connect n 0 c.sems 1, zero_sems read_sem),
      ),
      (
        ground (arith, all_raised-reader n 0 c.sems i 0, zero_sems (of_reader i 0)),
        ground (arith, all_raised-reader n 0 c.sems i 1, zero_sems (of_reader i 1)),
      ),
      ground (arith, all_raised-reader n 0 c.sems i 4, zero_sems (of_reader i 4)),
      (
        ground (arith, all_raised-reader n 0 c.sems i 2, zero_sems (of_reader i 2)),
        ground (arith, all_raised-reader n 0 c.sems i 3, zero_sems (of_reader i 3)),
      ),
      (refl, refl, ground arith),
      ground arith,
    )
