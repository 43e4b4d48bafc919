-- ===== src/Ring/GiveBlock.antt =====
-- A reader's `ipcbuf_mark_cleared` keeps a running transfer running.
use mirror_psrdada_code.Prelude.{ℕ, ◌<◌, ◌≡◌, false, true, update, arith}
use mirror_psrdada_code.Shared.{reading}
use mirror_psrdada_code.Process.{ok}
use mirror_psrdada_code.Kernel.{Kernel, Lawful}
use mirror_psrdada_code.Ipcbuf.Reader.{at_end, mark_cleared}
use mirror_psrdada_code.Ipcbuf.Reader.Read.{
  cleared, mark_cleared-cleared, room_of_clear, reading_of_clear,
}
use mirror_psrdada_code.Ring.{Ring, Running, reader_view, from_reader}

-- the ring after reader `i` has given its block back
abbrev given_ring : Ring → ℕ → Ring
given_ring s i = record (from_reader s i (cleared i (reader_view s i))) {
  held = update s.held i false;
}

module _ {lo : ℕ} {s : Ring} (run : Running lo s) (i : ℕ) (below : i < s.sync.n_readers) where
  given_ring-Running : s.held i ≡ true → (s.reader i).state ≡ reading → Running lo (given_ring s i)
  given_ring-Running busy st = record {
    some_bufs = run.some_bufs;
    is_writing = run.is_writing;
    curr_le = run.curr_le;
    next_le = run.next_le;
    lo_le = run.lo_le;
    small = run.small;
    filled = run.filled;
    free = run.free;
    role = λ j h. ground (arith, run.role j h, run.role i below);
    full = λ j h. ground (arith, run.full j h, run.full i below, run.small, run.curr_le);
    clear = λ j h.
        ground (arith, run.clear j h, run.clear i below, run.full i below, run.small, run.curr_le);
    live = λ j h.
        ground (arith, run.live j h, run.live i below, run.full i below, run.small, run.curr_le);
    content = run.content;
  }

  pub give_block-Running :
      ⦃k : Kernel⦄ (law : Lawful k)
      → s.held i ≡ true
      → (mark_cleared (reader_view s i)).0 ≡ ok tt
      → Running lo (record (from_reader s i (mark_cleared (reader_view s i)).1) {
        held = update s.held i false;
      })
  give_block-Running law busy e =
      let st = reading_of_clear (reader_view s i) e in
      let role = (run.role i below).0 in
      rw
        (mark_cleared-cleared law (reader_view s i) i role st (inside st)
          (room_of_clear law (reader_view s i) i role st e))
        (given_ring-Running busy st)
    where
      inside : (s.reader i).state ≡ reading → at_end s.sync (s.reader i).xfer i ≡ false
      inside st = ground (arith, run.live i below)
