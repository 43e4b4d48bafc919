-- ===== src/Ring/Safety.antt =====
-- What holds in every reachable state of a transfer, for any number of readers.
use mirror_psrdada_code.Prelude.{
  ℕ, ◌+◌, ◌%◌, ◌≤◌, ◌<◌, ◌≡◌, ◌⊎◌, ◌∙◌, ap, inl, inr, true, false, leb, arith, all_or_some,
  Bool-cases,
}
use mirror_psrdada_code.Shared.{of_reader, ipcbuf_full, ipcbuf_clear}
use mirror_psrdada_code.Process.{ok, asleep}
use mirror_psrdada_code.Kernel.{Kernel, Lawful}
use mirror_psrdada_code.Ipcbuf.Writer.{enable_sod, get_next_write}
use mirror_psrdada_code.Ipcbuf.Writer.Next.{Obtained-of_ok, get_next_write-Obtained, next_index}
use mirror_psrdada_code.Ipcbuf.Writer.Reclaim.{clear_of}
use mirror_psrdada_code.Ipcbuf.Reader.{Block, get_next_read}
use mirror_psrdada_code.Ring.{
  Ring, Step, open_block, store, fill_block, take_block, give_block, Running, writer_view,
  reader_view, from_writer, position, held_count,
}
use mirror_psrdada_code.Ring.OpenBlock.{next_count, open_block-Running, store-Running}
use mirror_psrdada_code.Ring.FillBlock.{fill_block-Running}
use mirror_psrdada_code.Ring.TakeBlock.{take_block-Running, take_block-index}
use mirror_psrdada_code.Ring.GiveBlock.{give_block-Running}
use mirror_psrdada_code.Ring.Begin.{Idle, begin-Running}

module _ ⦃k : Kernel⦄ where
  -- the states of one transfer
  pub data Reach : Ring → Type 0 where
    begin :
        {s : Ring}
        → Idle s
        → (enable_sod s.sync.w_buf_curr 0 (writer_view s)).0 ≡ ok tt
        → Reach (from_writer s (enable_sod s.sync.w_buf_curr 0 (writer_view s)).1)
    next : {s t : Ring} → Reach s → Step s t → Reach t

  -- Every call of the writer or of a reader keeps a running transfer running.
  pub Step-Running :
      {lo : ℕ} {s t : Ring} → Lawful k → Step s t → Running lo s → (lo' : ℕ) × Running lo' t
  Step-Running law (open_block room small e) run = open_block-Running run law room small e
  Step-Running {lo} law (store j offset value a b) run = (lo, store-Running run j offset value a b)
  Step-Running {lo} law (fill_block nbytes full room e) run =
      (lo, fill_block-Running run law nbytes full room e)
  Step-Running {lo} law (take_block i below idle e) run =
      (lo, take_block-Running run i below law idle e)
  Step-Running {lo} law (give_block i below busy e) run =
      (lo, give_block-Running run i below law busy e)

  pub Reach-Running : {s : Ring} → Lawful k → Reach s → (lo : ℕ) × Running lo s
  Reach-Running law (begin {s = s} idle e) = (s.sync.w_buf_curr, begin-Running law idle e)
  Reach-Running law (next r st) = let (lo, run) = Reach-Running law r in Step-Running law st run

  -- Under a lawful kernel, in every reachable state of a transfer: a block that the writer gets while
  -- it has fewer than `nbufs` open is free. Its index is `w_buf_next % nbufs`, and every reader's
  -- position is behind what the block held before.
  pub no_overrun :
      {s : Ring} {b : ℕ}
      → Lawful k
      → Reach s
      → s.sync.w_buf_next < s.sync.w_buf_curr + s.sync.nbufs
      → (get_next_write (writer_view s)).0 ≡ ok b
      → (i : ℕ) → i < s.sync.n_readers
      → (b ≡ s.sync.w_buf_next % s.sync.nbufs) × (s.sync.w_buf_next < position s i + s.sync.nbufs)
  no_overrun {s} law r room e i below =
      let (lo, run) = Reach-Running law r in
      let cases = next_count run room in
      let (q, o, enough) =
        Obtained-of_ok law (writer_view s) (rw run.is_writing tt) (ground arith) e in
      (q, ground (arith, enough i below, run.clear i below))

  -- Under a lawful kernel, in every reachable state of a transfer: a reader that holds no block and
  -- gets one gets a block that the writer has marked filled, the one at the reader's position, with
  -- the bytes that were in it at that time.
  pub first_in_first_out :
      {s : Ring} {b : Block} (i : ℕ)
      → Lawful k
      → Reach s
      → i < s.sync.n_readers
      → s.held i ≡ false
      → (get_next_read (reader_view s i)).0 ≡ ok b
      → (position s i < s.sync.w_buf_curr) × (s.mem b.index ≡ s.log (position s i))
  first_in_first_out {s} i law r below idle e =
      let (lo, run) = Reach-Running law r in
      let (q, a, c) = take_block-index run i below law idle e in
      (c, ap s.mem q ∙ run.content (position s i) a c)

  -- Under a lawful kernel, in every reachable state of a transfer: the block that a reader holds was
  -- marked filled, and still has the bytes that were in it at that time.
  pub held_intact :
      {s : Ring} (i : ℕ)
      → Lawful k
      → Reach s
      → i < s.sync.n_readers
      → s.held i ≡ true
      → (position s i < s.sync.w_buf_curr)
        × (s.mem (position s i % s.sync.nbufs) ≡ s.log (position s i))
  held_intact {s} i law r below busy =
      let (lo, run) = Reach-Running law r in
      let a : (lo ≤ position s i) = omega (arith, run.clear i below) in
      let c : (position s i < s.sync.w_buf_curr) = ground (arith, run.full i below) in
      (c, run.content (position s i) a c)

  -- Under a lawful kernel, in every reachable state of a transfer: the full blocks of a reader, those
  -- it has cleared and that the writer has not taken back, and the one it holds are at most `nbufs`
  -- together.
  pub tokens_le_nbufs :
      {s : Ring} (i : ℕ)
      → Lawful k
      → Reach s
      → i < s.sync.n_readers
      → s.sems (of_reader i ipcbuf_full) + s.sems (of_reader i ipcbuf_clear) + held_count s i
        ≤ s.sync.nbufs
  tokens_le_nbufs i law r below =
      let (lo, run) = Reach-Running law r in
      omega (arith, run.full i below, run.clear i below, run.next_le, run.curr_le)

  -- Under a lawful kernel, in every reachable state of a transfer: if the writer, with fewer than
  -- `nbufs` blocks open, has to sleep for its next block, some reader holds a block or has a full
  -- one to read.
  pub writer_not_stuck :
      {s : Ring}
      → Lawful k
      → Reach s
      → s.sync.w_buf_next < s.sync.w_buf_curr + s.sync.nbufs
      → (get_next_write (writer_view s)).0 ≡ asleep
      → (i : ℕ) × (i < s.sync.n_readers)
        × ((s.held i ≡ true) ⊎ (0 < s.sems (of_reader i ipcbuf_full)))
  writer_not_stuck {s} law r room e =
      let (lo, run) = Reach-Running law r in
      let cases = next_count run room in
      elim (all_or_some s.sync.n_readers
        (λ j. leb (s.sync.count (next_index (writer_view s))) (clear_of (writer_view s) j))) [
          | inl all ↦ absurd (
              ground (
                arith,
                (get_next_write-Obtained law (writer_view s) (rw run.is_writing tt) (ground arith)
                    (λ j h. ground (arith, all j h))).0,
              ))
          | inr one ↦
              let (i, below, low) = one in
              (
                i,
                below,
                elim (Bool-cases (s.held i)) [
                  | inl h ↦ inl h
                  | inr h ↦ inr (ground (arith, run.full i below, run.clear i below))
                ],
              )
        ]
