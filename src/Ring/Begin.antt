-- ===== src/Ring/Begin.antt =====
-- The start of a transfer: `ipcbuf_enable_sod` at the current block of a ring in which every
-- earlier block has been cleared and taken back.
use mirror_psrdada_code.Prelude.{
  ℕ, ◌%◌, ◌^◌, ◌<◌, ◌≡◌, ◌≢◌, ◌-◌, ◌⊎◌, refl, true, false, negsuc, some, arith,
}
use mirror_psrdada_code.Shared.{
  reader, writer, wchange, of_reader, ipcbuf_xfers, ipcbuf_sodack, ipcbuf_full, ipcbuf_clear,
}
use mirror_psrdada_code.Process.{ok}
use mirror_psrdada_code.Kernel.{Kernel, Lawful}
use mirror_psrdada_code.Ipcbuf.EachReader.{shift_each-reader}
use mirror_psrdada_code.Ipcbuf.Writer.Start.{stored, enable_sod-at_curr}
use mirror_psrdada_code.Ipcbuf.Writer.{enable_sod, start_xfer, count_from}
use mirror_psrdada_code.Ring.{Ring, Running, writer_view, from_writer}

-- Nothing is full, cleared or held; the writer is about to start the transfer that every reader
-- waits for; the slot of that transfer holds no end of data at or after the current block.
pub record Idle (s : Ring) : Type 0 where
  pub some_bufs : 0 < s.sync.nbufs
  pub about : (s.writer.state ≡ writer) ⊎ (s.writer.state ≡ wchange)
  pub next_eq : s.sync.w_buf_next ≡ s.sync.w_buf_curr
  pub small : s.sync.w_buf_next < 2 ^ 64
  pub free : (b : ℕ) → s.sync.count b ≡ 0
  pub none_held : (i : ℕ) → s.held i ≡ false
  pub role :
      (i : ℕ)
      → i < s.sync.n_readers
      → ((s.reader i).iread ≡ some i)
        × ((s.reader i).state ≡ reader)
        × (s.sync.r_xfers i % ipcbuf_xfers ≡ s.sync.w_xfer % ipcbuf_xfers)
  pub full : (i : ℕ) → i < s.sync.n_readers → s.sems (of_reader i ipcbuf_full) ≡ 0
  pub clear : (i : ℕ) → i < s.sync.n_readers → s.sems (of_reader i ipcbuf_clear) ≡ 0
  pub old_end :
      s.sync.w_buf_curr ≢ 0
      → s.sync.eod (s.sync.w_xfer % ipcbuf_xfers) ≡ true
      → s.sync.e_buf (s.sync.w_xfer % ipcbuf_xfers) < s.sync.w_buf_curr

count_from-zero :
    (nbufs i : ℕ) (count : ℕ → ℕ) (curr : ℕ) → count_from (curr - curr) nbufs i count ≡ count
unfolding count_from
count_from-zero nbufs i count curr = ground arith

started-Running :
    {s : Ring}
    → Idle s
    → Running s.sync.w_buf_curr (from_writer s (stored s.sync.w_buf_curr 0 (writer_view s)))
unfolding start_xfer
started-Running {s} idle = record {
  some_bufs = idle.some_bufs;
  is_writing = refl;
  curr_le = omega (arith, idle.next_eq);
  next_le = omega (arith, idle.next_eq);
  lo_le = omega arith;
  small = idle.small;
  filled = λ j a b. absurd (omega arith);
  free = λ j a b. rw count_from-zero (idle.free (j % s.sync.nbufs));
  role = λ i h. ground (arith, idle.role i h);
  full = λ i h. ground (
    arith,
    idle.role i h,
    idle.full i h,
    idle.none_held i,
    shift_each-reader (negsuc 0) ipcbuf_sodack s.sync.n_readers 0 s.sems i ipcbuf_full,
  );
  clear = λ i h. ground (
    arith,
    idle.role i h,
    idle.clear i h,
    shift_each-reader (negsuc 0) ipcbuf_sodack s.sync.n_readers 0 s.sems i ipcbuf_clear,
  );
  live = λ i h. ground (arith, idle.role i h, idle.old_end);
  content = λ j a b. absurd (omega arith);
}

pub begin-Running :
    ⦃k : Kernel⦄ (law : Lawful k) {s : Ring}
    → Idle s
    → (enable_sod s.sync.w_buf_curr 0 (writer_view s)).0 ≡ ok tt
    → Running s.sync.w_buf_curr (from_writer s (enable_sod s.sync.w_buf_curr 0 (writer_view s)).1)
begin-Running law {s} idle e =
    rw (enable_sod-at_curr law s.sync.w_buf_curr 0 (writer_view s) e refl) (started-Running idle)
