-- ===== src/Ipcbuf/Writer.antt =====
-- src/ipcbuf.c, the calls of the designated writer. Logging is left out.
pub mod Reclaim
pub mod Next
pub mod Fill
pub mod End
pub mod Start
pub mod Zero
pub mod Frame
use mirror_psrdada_code.Prelude.{
  ℕ, zero, suc, ◌+◌, ◌-◌, ◌%◌, ◌^◌, Bool, true, false, not, ◌&&◌, ◌||◌, ltb, leb, ◌==◌,
  if◌then◌else◌, pos, negsuc, add64, sub64, inc64, inc8, dec8, short_of, update,
}
use mirror_psrdada_code.Shared.{
  Sync, Handle, World, writer, writing, wchange, ◌is◌, is_writer, is_wchange, of_reader,
  ipcbuf_xfers, ipcbuf_sodack, ipcbuf_eodack, ipcbuf_full, ipcbuf_clear,
}
use mirror_psrdada_code.Process.{
  ok, asleep, M, pure, continue, ◌>>=◌, ◌>>◌, get, put_handle, put_sync, guard, ignore_status,
  for_each,
}
use mirror_psrdada_code.Kernel.{Kernel, no_flags}
use mirror_psrdada_code.Ipcutil.{semop_or_fail}

-- `ipcbuf_get_sod_minbuf`
unfoldable pub get_sod_minbuf : Handle → Sync → ℕ
get_sod_minbuf h s =
    if ltb (sub64 s.w_buf_next h.soclock_buf) s.nbufs
    then h.soclock_buf
    else add64 (sub64 s.w_buf_next s.nbufs) 1

-- `for (new_bufs = i; new_bufs < w_buf_curr; new_bufs++) count[new_bufs % nbufs]++`, by the number
-- of rounds
unfoldable pub count_from : (rounds nbufs i : ℕ) → (ℕ → ℕ) → ℕ → ℕ
count_from zero nbufs i count = count
count_from (suc n) nbufs i count =
    count_from n nbufs (suc i) (update count (i % nbufs) (inc8 (count (i % nbufs))))

-- what `ipcbuf_enable_sod` stores before it raises FULL
unfoldable pub start_xfer : (start_buf start_byte : ℕ) → Sync → Sync
start_xfer start_buf start_byte s = record s {
  s_buf = update s.s_buf (s.w_xfer % ipcbuf_xfers) start_buf;
  s_byte = update s.s_byte (s.w_xfer % ipcbuf_xfers) start_byte;
  eod = if s.w_buf_curr == 0 then update s.eod (s.w_xfer % ipcbuf_xfers) false else s.eod;
  count = count_from (s.w_buf_curr - start_buf) s.nbufs start_buf s.count;
  w_state = writing;
}

-- the guards of `ipcbuf_enable_sod`
unfoldable pub may_enable_sod : (start_buf start_byte : ℕ) → Handle → Sync → Bool
may_enable_sod start_buf start_byte h s =
    (h.state is writer || h.state is wchange)
    && (leb start_buf s.w_buf_next
        && (leb (get_sod_minbuf h s) start_buf && leb start_byte s.bufsz))

module _ ⦃k : Kernel⦄ where
  -- `ipcbuf_enable_sod`. FULL is raised by an `uint64_t` difference passed as a `short`.
  unfoldable pub enable_sod : (start_buf start_byte : ℕ) → M (Unit {0})
  enable_sod start_buf start_byte = do
    w ← get
    guard (may_enable_sod start_buf start_byte w.handle w.sync)
    for_each w.sync.n_readers 0 (λ i. semop_or_fail (of_reader i ipcbuf_sodack) (negsuc 0) no_flags)
    put_handle (λ h. record h { xfer = w.sync.w_xfer % ipcbuf_xfers; state = writing })
    put_sync (start_xfer start_buf start_byte)
    let new_bufs = sub64 w.sync.w_buf_curr start_buf
    for_each w.sync.n_readers 0 (λ i.
        if new_bufs == 0
        then pure tt
        else semop_or_fail (of_reader i ipcbuf_full) (short_of new_bufs) no_flags)

  -- `while (count[bufnum])` of `ipcbuf_get_next_write`: each round takes one CLEAR of every reader.
  -- A `char` allows at most 255 rounds.
  unfoldable pub reclaim : (fuel bufnum : ℕ) → M (Unit {0})
  reclaim zero b w = (ok tt, w)
  reclaim (suc f) b w =
      let round =
        for_each w.sync.n_readers 0
          (λ i. semop_or_fail (of_reader i ipcbuf_clear) (negsuc 0) no_flags) w in
      let rest = continue round.0 round.1 (λ _. do
        put_sync (λ s. record s { count = update s.count b (dec8 (s.count b)) })
        reclaim f b) in
      if w.sync.count b == 0 then (ok tt, w) else rest

  -- the change from WCHANGE to WRITING in `ipcbuf_get_next_write`
  unfoldable pub sod_on_wchange : M (Unit {0})
  sod_on_wchange w = if is_wchange w.handle then enable_sod w.sync.w_buf_curr 0 w else (ok tt, w)

  -- `ipcbuf_get_next_write`. It returns the index of the block in place of its address.
  unfoldable pub get_next_write : M ℕ
  get_next_write = do
    w ← get
    guard (is_writer w.handle)
    sod_on_wchange
    u ← get
    reclaim 256 (u.sync.w_buf_next % u.sync.nbufs)
    put_sync (λ s. record s { w_buf_next = inc64 s.w_buf_next })
    pure (u.sync.w_buf_next % u.sync.nbufs)

  -- the end of a transfer in `ipcbuf_mark_filled`
  unfoldable pub end_xfer : (nbytes : ℕ) → M (Unit {0})
  end_xfer nbytes = do
    w ← get
    for_each w.sync.n_readers 0 (λ i. semop_or_fail (of_reader i ipcbuf_eodack) (negsuc 0) no_flags)
    put_sync (λ s. record s {
      e_buf = update s.e_buf w.handle.xfer s.w_buf_curr;
      e_byte = update s.e_byte w.handle.xfer nbytes;
      eod = update s.eod w.handle.xfer true;
      w_xfer = inc64 s.w_xfer;
      w_state = writer;
    })
    put_handle (λ h. record h { xfer = inc64 w.sync.w_xfer % ipcbuf_xfers; state = writer })
    if nbytes == 0 then ignore_status get_next_write else pure tt

  -- the end of `ipcbuf_mark_filled`: the block is counted and every reader is told
  unfoldable pub publish : M (Unit {0})
  publish = do
    w ← get
    put_sync (λ s. record s {
      count = update s.count (s.w_buf_curr % s.nbufs) (inc8 (s.count (s.w_buf_curr % s.nbufs)));
      w_buf_curr = inc64 s.w_buf_curr;
    })
    for_each w.sync.n_readers 0 (λ i. semop_or_fail (of_reader i ipcbuf_full) (pos 1) no_flags)

  -- `ipcbuf_mark_filled` in the states WRITING and WCHANGE
  unfoldable pub fill : (nbytes : ℕ) → M (Unit {0})
  fill nbytes = do
    w ← get
    (if is_wchange w.handle || ltb nbytes w.sync.bufsz then end_xfer nbytes else pure tt)
    publish

  -- `ipcbuf_mark_filled`
  unfoldable pub mark_filled : (nbytes : ℕ) → M (Unit {0})
  mark_filled nbytes = do
    w ← get
    guard (is_writer w.handle)
    (if w.handle.state is writer
        then put_sync (λ s. record s { w_buf_curr = inc64 s.w_buf_curr })
        else fill nbytes)

  -- `ipcbuf_enable_eod`
  unfoldable pub enable_eod : M (Unit {0})
  enable_eod = do
    w ← get
    guard (w.handle.state is writing)
    put_handle (λ h. record h { state = wchange })
    put_sync (λ s. record s { w_state = wchange })

  -- `ipcbuf_disable_sod`
  unfoldable pub disable_sod : M (Unit {0})
  disable_sod = do
    w ← get
    guard (w.handle.state is wchange)
    put_handle (λ h. record h { state = writer })
    put_sync (λ s. record s { w_state = writer })

-- one pass of `ipcbuf_zero_next_write` over the readers: has each a CLEAR?
unfoldable pub have_cleared : (n i : ℕ) → World → Bool
have_cleared zero i w = true
have_cleared (suc n) i w = not (w.sems (of_reader i ipcbuf_clear) == 0) && have_cleared n (suc i) w

-- `bzero (buffer[b], bufsz)`
unfoldable pub zero_block : (b : ℕ) → World → World
zero_block b w = record w {
  mem = update w.mem b (λ o. if ltb o w.sync.bufsz then 0 else w.mem b o);
}

-- `ipcbuf_zero_next_write`. It polls until every reader has a CLEAR.
unfoldable pub zero_next_write : M (Unit {0})
unfolding have_cleared
zero_next_write = do
  w ← get
  guard (is_writer w.handle)
  (if have_cleared w.sync.n_readers 0 w
      then (λ v. (ok tt, zero_block (w.sync.w_buf_next % w.sync.nbufs) v))
      else (λ v. (asleep, v)))
