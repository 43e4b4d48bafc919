-- ===== src/Ipcbuf/Reader.antt =====
-- src/ipcbuf.c, the calls of a designated reader and of a viewer.
pub mod Read
pub mod View
pub mod End
use mirror_psrdada_code.Prelude.{
  ℕ, zero, suc, ◌-◌, ◌%◌, Bool, true, false, not, ◌&&◌, ◌||◌, ltb, leb, ◌==◌, if◌then◌else◌, pos,
  negsuc, add64, sub64, inc64, update, Option, none, some,
}
use mirror_psrdada_code.Shared.{
  Sync, Handle, World, viewer, reader, reading, rstop, viewing, vstop, ◌is◌, is_reader, is_eod,
  of_reader, ipcbuf_xfers, ipcbuf_sodack, ipcbuf_eodack, ipcbuf_full, ipcbuf_clear,
}
use mirror_psrdada_code.Process.{
  ok, fail, asleep, M, pure, ◌>>=◌, ◌>>◌, get, put_handle, put_sync, guard,
}
use mirror_psrdada_code.Kernel.{Kernel, Flags, no_flags}
use mirror_psrdada_code.Ipcutil.{semop_or_fail}

-- `sync->eod[xfer] && sync->r_bufs[iread] == sync->e_buf[xfer]`
abbrev pub at_end : Sync → (xfer iread : ℕ) → Bool
at_end s x i = s.eod x && s.r_bufs i == s.e_buf x

-- what `*bytes` is set to
abbrev pub bytes_of : Sync → (xfer iread start_byte : ℕ) → ℕ
bytes_of s x i start_byte =
    if at_end s x i then sub64 (s.e_byte x) start_byte else sub64 s.bufsz start_byte

-- the index of the calling reader. The C code reads `id->iread` unchecked, and -1 is not an index.
abbrev pub reader_index : Option ℕ → M ℕ
reader_index none w = (fail, w)
reader_index (some i) w = (ok i, w)

-- A block that a reader got: its index, the offset of the first valid byte, and `*bytes`.
pub record Block : Type 0 where
  pub index : ℕ
  pub offset : ℕ
  pub bytes : ℕ

module _ ⦃k : Kernel⦄ where
  -- the first block of a transfer in `ipcbuf_get_next_read_work`; returns `start_byte`
  unfoldable pub start_reading : (iread : ℕ) → Flags → M ℕ
  start_reading i flag = do
    w ← get
    let x = w.sync.r_xfers i % ipcbuf_xfers
    put_handle (λ h. record h { xfer = x; state = reading })
    put_sync (λ s. record s {
      r_states = update s.r_states i reading;
      r_bufs = update s.r_bufs i (s.s_buf x);
    })
    semop_or_fail (of_reader i ipcbuf_sodack) (pos 1) flag
    pure (w.sync.s_byte x)

  -- `ipcbuf_get_next_read_work` for a reader
  unfoldable pub read_block : Flags → M Block
  read_block flag = do
    w ← get
    i ← reader_index w.handle.iread
    semop_or_fail (of_reader i ipcbuf_full) (negsuc 0) flag
    start_byte ← (if w.handle.state is reader then start_reading i flag else pure 0)
    u ← get
    pure (record {
      index = u.sync.r_bufs i % u.sync.nbufs;
      offset = start_byte;
      bytes = bytes_of u.sync u.handle.xfer i start_byte;
    })

  -- the first block of a viewer: the newest one, if more than one is filled; returns `start_byte`
  unfoldable pub start_viewing : M ℕ
  start_viewing w =
      let x = w.sync.r_xfers 0 % ipcbuf_xfers in
      let seek = ltb (add64 (w.sync.s_buf x) 1) w.sync.w_buf_curr in
      (do
        put_handle (λ h. record h {
          xfer = x;
          state = viewing;
          viewbuf = if seek then sub64 w.sync.w_buf_curr 1 else w.sync.s_buf x;
        })
        pure (if seek then 0 else w.sync.s_byte x))
        w

  -- the loop of a viewer: it polls until the writer or a reader has moved on
  unfoldable pub await_block : M (Unit {0})
  await_block w =
      if leb w.sync.w_buf_curr w.handle.viewbuf
      then (if w.sync.eod w.handle.xfer
            && (not (w.sync.r_bufs 0 == 0) && w.sync.r_bufs 0 == w.sync.e_buf w.handle.xfer)
          then put_handle (λ h. record h { state = vstop }) w
          else (asleep, w))
      else (ok tt, w)

  -- `ipcbuf_get_next_read_work` for a process that is no reader
  unfoldable pub view_block : M Block
  view_block = do
    w ← get
    start_byte ← (if w.handle.state is viewer then start_viewing else pure 0)
    await_block
    u ← get
    let lapped = ltb (add64 u.handle.viewbuf u.sync.nbufs) u.sync.w_buf_curr
    let bufnum = if lapped then add64 (sub64 u.sync.w_buf_curr u.sync.nbufs) 1 else u.handle.viewbuf
    put_handle (λ h. record h { viewbuf = inc64 bufnum })
    pure (record {
      index = bufnum % u.sync.nbufs;
      offset = start_byte;
      bytes = bytes_of u.sync u.handle.xfer 0 start_byte;
    })

  -- `ipcbuf_get_next_read_work`
  unfoldable pub get_next_read_work : Flags → M Block
  get_next_read_work flag = do
    w ← get
    guard (not (is_eod w.handle))
    if is_reader w.handle then read_block flag else view_block

  -- `ipcbuf_get_next_read`
  unfoldable pub get_next_read : M Block
  unfolding get_next_read_work read_block
  get_next_read = get_next_read_work no_flags

  -- the end of a transfer in `ipcbuf_mark_cleared`
  unfoldable pub stop_reading : (iread : ℕ) → M (Unit {0})
  stop_reading i = do
    w ← get
    put_handle (λ h. record h { state = rstop; xfer = inc64 (w.sync.r_xfers i) % ipcbuf_xfers })
    put_sync (λ s. record s {
      r_states = update s.r_states i rstop;
      r_bufs = update s.r_bufs i (inc64 (s.r_bufs i));
      r_xfers = update s.r_xfers i (inc64 (s.r_xfers i));
    })
    semop_or_fail (of_reader i ipcbuf_eodack) (pos 1) no_flags

  -- `ipcbuf_mark_cleared`
  unfoldable pub mark_cleared : M (Unit {0})
  mark_cleared = do
    w ← get
    guard (w.handle.state is reading)
    i ← reader_index w.handle.iread
    semop_or_fail (of_reader i ipcbuf_clear) (pos 1) no_flags
    (if at_end w.sync w.handle.xfer i
        then stop_reading i
        else put_sync (λ s. record s { r_bufs = update s.r_bufs i (inc64 (s.r_bufs i)) }))

-- the lowest count of a reader, `ipcbuf_get_next_readable`
unfoldable pub lowest : (n i : ℕ) → (ℕ → ℕ) → ℕ → ℕ
lowest zero i r_bufs low = low
lowest (suc n) i r_bufs low = lowest n (suc i) r_bufs (if ltb (r_bufs i) low then r_bufs i else low)

-- `ipcbuf_get_next_readable`, for viewers. It polls until the writer is past the slowest reader, or
-- `interrupt` is set. The end of the transfer is looked up at `iread = n_readers`, where the loop over
-- the readers has left that variable.
unfoldable pub get_next_readable : (interrupt : Bool) → M Block
unfolding lowest
get_next_readable interrupt = do
  w ← get
  guard (not (is_eod w.handle) && (w.handle.state is viewer || w.handle.state is viewing))
  let x = w.sync.r_xfers 0 % ipcbuf_xfers
  let low = lowest (w.sync.n_readers - 1) 1 w.sync.r_bufs (w.sync.r_bufs 0)
  let after = if ltb 1 w.sync.n_readers then w.sync.n_readers else 1
  put_handle (λ h. record h { xfer = x; viewbuf = low })
  (if leb w.sync.w_buf_curr low
      then (if interrupt then (λ v. (fail, v)) else (λ v. (asleep, v)))
      else pure tt)
  put_handle (λ h. record h { state = viewing })
  pure (record {
    index = low % w.sync.nbufs;
    offset = w.sync.s_byte x;
    bytes = bytes_of w.sync x after (w.sync.s_byte x);
  })
