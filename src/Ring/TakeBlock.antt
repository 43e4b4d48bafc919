-- ===== src/Ring/TakeBlock.antt =====
-- A reader's `ipcbuf_get_next_read` keeps a running transfer running, and gets the block that the
-- writer filled at the reader's position.
use mirror_psrdada_code.Prelude.{
  ℕ, ◌%◌, ◌≤◌, ◌<◌, ◌≡◌, inl, inr, false, true, update, arith, dec_lt,
}
use mirror_psrdada_code.Shared.{reader, of_reader, ipcbuf_full}
use mirror_psrdada_code.Process.{ok}
use mirror_psrdada_code.Kernel.{Kernel, Lawful}
use mirror_psrdada_code.Ipcbuf.Reader.{Block, get_next_read}
use mirror_psrdada_code.Ipcbuf.Reader.Read.{
  full_taken, started, get_next_read-reading, get_next_read-asleep, get_next_read-start,
  room_of_start,
}
use mirror_psrdada_code.Ring.{Ring, Running, reader_view, from_reader, position}

-- the ring after reader `i` has got a block, inside a transfer and at its start
abbrev taken_ring : Ring → ℕ → Ring
taken_ring s i =
    record (from_reader s i (record (reader_view s i) { sems = full_taken i s.sems })) {
      held = update s.held i true;
    }

abbrev started_ring : Ring → ℕ → Ring
started_ring s i = record (from_reader s i (started i (reader_view s i))) {
  held = update s.held i true;
}

module _ {lo : ℕ} {s : Ring} (run : Running lo s) (i : ℕ) (below : i < s.sync.n_readers) where
  taken_ring-Running :
      s.held i ≡ false → 1 ≤ s.sems (of_reader i ipcbuf_full) → Running lo (taken_ring s i)
  taken_ring-Running idle some_full = record {
    some_bufs = run.some_bufs;
    is_writing = run.is_writing;
    curr_le = run.curr_le;
    next_le = run.next_le;
    lo_le = run.lo_le;
    small = run.small;
    filled = run.filled;
    free = run.free;
    role = λ j h. ground (arith, run.role j h, run.role i below);
    full = λ j h. ground (arith, run.full j h, run.full i below);
    clear = λ j h. ground (arith, run.clear j h, run.clear i below);
    live = λ j h. ground (arith, run.live j h, run.live i below);
    content = run.content;
  }

  started_ring-Running :
      s.held i ≡ false
      → (s.reader i).state ≡ reader
      → 1 ≤ s.sems (of_reader i ipcbuf_full)
      → Running lo (started_ring s i)
  started_ring-Running idle st some_full = record {
    some_bufs = run.some_bufs;
    is_writing = run.is_writing;
    curr_le = run.curr_le;
    next_le = run.next_le;
    lo_le = run.lo_le;
    small = run.small;
    filled = run.filled;
    free = run.free;
    role = λ j h. ground (arith, run.role j h, run.role i below);
    full = λ j h. ground (arith, run.full j h, run.full i below);
    clear = λ j h. ground (arith, run.clear j h, run.clear i below);
    live = λ j h. ground (arith, run.live j h, run.live i below);
    content = run.content;
  }

  -- A reader that got a block had a full one to take.
  some_full_of_ok :
      ⦃k : Kernel⦄ (law : Lawful k) {b : Block}
      → (get_next_read (reader_view s i)).0 ≡ ok b
      → 1 ≤ s.sems (of_reader i ipcbuf_full)
  some_full_of_ok law e = elim (dec_lt 0 (s.sems (of_reader i ipcbuf_full))) [
    | yes h ↦ h
    | no none_full ↦ absurd (
        ground (
          arith,
          get_next_read-asleep law (reader_view s i) i (run.role i below).0 (run.role i below).1,
        ))
  ]

  pub take_block-Running :
      ⦃k : Kernel⦄ (law : Lawful k) {b : Block}
      → s.held i ≡ false
      → (get_next_read (reader_view s i)).0 ≡ ok b
      → Running lo (record (from_reader s i (get_next_read (reader_view s i)).1) {
        held = update s.held i true;
      })
  take_block-Running law idle e =
      let h = some_full_of_ok law e in
      let (role, state) = run.role i below in
      elim state [
        | inl st ↦
            rw (get_next_read-reading law (reader_view s i) i role st h) (taken_ring-Running idle h)
        | inr st ↦
            rw
              (get_next_read-start law (reader_view s i) i role st h
                (room_of_start law (reader_view s i) i role st h e))
              (started_ring-Running idle st h)
      ]

  -- The block that a reader got is the one at its position, which the writer has filled.
  pub take_block-index :
      ⦃k : Kernel⦄ (law : Lawful k) {b : Block}
      → s.held i ≡ false
      → (get_next_read (reader_view s i)).0 ≡ ok b
      → (b.index ≡ position s i % s.sync.nbufs)
        × (lo ≤ position s i)
        × (position s i < s.sync.w_buf_curr)
  take_block-index law idle e =
      let h = some_full_of_ok law e in
      let (role, state) = run.role i below in
      elim state [
        | inl st ↦ ground (
          arith,
          get_next_read-reading law (reader_view s i) i role st h,
          run.full i below,
          run.clear i below,
        )
        | inr st ↦ ground (
          arith,
          get_next_read-start law (reader_view s i) i role st h
              (room_of_start law (reader_view s i) i role st h e),
          run.full i below,
          run.clear i below,
        )
      ]
