-- ===== src/Ring/FillBlock.antt =====
-- The writer's `ipcbuf_mark_filled` of a full block keeps a running transfer running.
use mirror_psrdada_code.Prelude.{ℕ, ◌%◌, ◌≤◌, ◌<◌, ◌≡◌, ◌∙◌, pos, update, arith, dec_lt}
use mirror_psrdada_code.Shared.{ipcbuf_full, ipcbuf_clear}
use mirror_psrdada_code.Process.{ok}
use mirror_psrdada_code.Kernel.{Kernel, Lawful}
use mirror_psrdada_code.Ipcbuf.EachReader.{shift_each-reader}
use mirror_psrdada_code.Ipcbuf.Writer.{mark_filled}
use mirror_psrdada_code.Ipcbuf.Writer.Fill.{
  published, publish-published, room_of_publish, mark_filled-published,
}
use mirror_psrdada_code.Ring.{Ring, Running, writer_view, from_writer}
use mirror_psrdada_code.Ring.Residues.{mod-ne}

-- the ring after the writer has marked its oldest open block filled
abbrev filled_ring : Ring → Ring
filled_ring s = record (from_writer s (published (writer_view s))) {
  log = update s.log s.sync.w_buf_curr (s.mem (s.sync.w_buf_curr % s.sync.nbufs));
}

module _ {lo : ℕ} {s : Ring} (run : Running lo s) where
  filled_ring-Running : s.sync.w_buf_curr < s.sync.w_buf_next → Running lo (filled_ring s)
  filled_ring-Running open_ = record {
    some_bufs = run.some_bufs;
    is_writing = run.is_writing;
    curr_le = ground (arith, run.small);
    next_le = run.next_le;
    lo_le = ground (arith, run.lo_le, run.small);
    small = run.small;
    filled = λ j a b. ground (
      arith,
      run.filled j,
      run.free s.sync.w_buf_curr,
      run.next_le,
      run.small,
      mod-ne s.sync.nbufs lo j s.sync.w_buf_curr,
    );
    free = λ j a b. ground (
      arith,
      run.free j,
      run.small,
      run.next_le,
      mod-ne s.sync.nbufs lo s.sync.w_buf_curr j,
      run.lo_le,
    );
    role = run.role;
    full = λ i h. ground (
      arith,
      run.full i h,
      run.small,
      shift_each-reader (pos 1) ipcbuf_full s.sync.n_readers 0 s.sems i ipcbuf_full,
    );
    clear = λ i h. ground (
      arith,
      run.clear i h,
      shift_each-reader (pos 1) ipcbuf_full s.sync.n_readers 0 s.sems i ipcbuf_clear,
    );
    live = run.live;
    content = λ j a b. elim (dec_lt j s.sync.w_buf_curr) [
      | yes lt ↦ run.content j a lt ∙ ground arith
      | no ge ↦ ground (arith, run.small)
    ];
  }

  pub fill_block-Running :
      ⦃k : Kernel⦄ (law : Lawful k) (nbytes : ℕ)
      → s.sync.bufsz ≤ nbytes
      → s.sync.w_buf_curr < s.sync.w_buf_next
      → (mark_filled nbytes (writer_view s)).0 ≡ ok tt
      → Running lo (record (from_writer s (mark_filled nbytes (writer_view s)).1) {
        log = update s.log s.sync.w_buf_curr (s.mem (s.sync.w_buf_curr % s.sync.nbufs));
      })
  fill_block-Running law nbytes full open_ e =
      let same = mark_filled-published law (writer_view s) nbytes run.is_writing full in
      rw
        (
          same,
          publish-published law (writer_view s)
              (room_of_publish law (writer_view s) (rw same at e)),
        )
        (filled_ring-Running open_)
