-- ===== src/Ipcbuf/Reader/View.antt =====
-- src/ipcbuf.c: which blocks a viewer is shown.
use mirror_psrdada_code.Prelude.{
  ◌+◌, ◌-◌, ◌%◌, ◌^◌, ◌≤◌, ◌<◌, ◌≡◌, ◌≢◌, ◌⊎◌, inl, inr, Bool, true, sub64, arith,
}
use mirror_psrdada_code.Shared.{World, viewer, viewing, ipcbuf_xfers}
use mirror_psrdada_code.Process.{ok}
use mirror_psrdada_code.Kernel.{Kernel}
use mirror_psrdada_code.Ipcbuf.Reader.{
  Block, start_viewing, await_block, view_block, get_next_read_work, get_next_read,
  get_next_readable,
}

-- The block that a viewer is shown by `ipcbuf_get_next_read` is filled, and is one of the last `nbufs`
-- blocks, so that it has not been overwritten by a later filled block: a viewer that has fallen
-- behind is moved up. It needs at least two blocks in the ring, and the viewer must not have met the
-- end of the data.
get_next_read-window :
    ⦃k : Kernel⦄ (w : World) {b : Block}
    → (w.handle.state ≡ viewer) ⊎ (w.handle.state ≡ viewing)
    → (get_next_read w).0 ≡ ok b
    → (get_next_read w).1.handle.state ≡ viewing
    → 1 < w.sync.nbufs
    → w.sync.w_buf_curr + w.sync.nbufs < 2 ^ 64
    → w.sync.s_buf (w.sync.r_xfers 0 % ipcbuf_xfers) < 2 ^ 64 - 1
    → let after = (get_next_read w).1.handle.viewbuf in
      (b.index ≡ (after - 1) % w.sync.nbufs)
      × (0 < after)
      × (after ≤ w.sync.w_buf_curr)
      × (w.sync.w_buf_curr < after + w.sync.nbufs)
unfolding get_next_read get_next_read_work view_block start_viewing await_block
get_next_read-window w (inl st) e going some_bufs small fit = ground arith
get_next_read-window w (inr st) e going some_bufs small fit = ground arith

-- `ipcbuf_get_next_readable` looks for the end of the data at the count of reader `n_readers`,
-- which is none of the readers. At the last block of a transfer that has ended it therefore reports
-- the size of a whole block, unless that count happens to be the end.
get_next_readable-past_readers :
    (w : World) (interrupt : Bool) {b : Block}
    → let x = w.sync.r_xfers 0 % ipcbuf_xfers in
      1 < w.sync.n_readers
      → (get_next_readable interrupt w).0 ≡ ok b
      → w.sync.eod x ≡ true
      → (get_next_readable interrupt w).1.handle.viewbuf ≡ w.sync.e_buf x
      → w.sync.r_bufs w.sync.n_readers ≢ w.sync.e_buf x
      → b.bytes ≡ sub64 w.sync.bufsz (w.sync.s_byte x)
unfolding get_next_readable
get_next_readable-past_readers w interrupt some_readers e ended last other = ground arith
