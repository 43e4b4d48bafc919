-- ===== src/Ipcbuf/Query.antt =====
-- src/ipcbuf.c: what only reads the state.
pub mod Counts
use mirror_psrdada_code.Prelude.{
  ℕ, zero, suc, ◌%◌, Bool, ◌==◌, leb, ltb, if◌then◌else◌, inc64, sub64, mul64, Option, none, some,
}
use mirror_psrdada_code.Shared.{
  Sync, Handle, World, reading, viewing, ◌is◌, is_writer, is_eod, of_reader, ipcbuf_xfers,
  ipcbuf_sodack, ipcbuf_eodack, ipcbuf_full, ipcbuf_clear, ipcbuf_reader_conn,
}

-- the loop over the readers that keeps the greatest value of semaphore `num`
unfoldable pub greatest : (num n i : ℕ) → World → ℕ → ℕ
greatest num zero i w max_n = max_n
greatest num (suc n) i w max_n =
    let value = w.sems (of_reader i num) in
    greatest num n (suc i) w (if ltb max_n value then value else max_n)

-- `ipcbuf_get_nfull_iread`, `ipcbuf_get_nclear_iread`, `ipcbuf_get_sodack_iread` and
-- `ipcbuf_get_eodack_iread` are one function of the semaphore: the `iread` asked for, -1 for none.
unfoldable pub value_iread : (num : ℕ) → Option ℕ → World → ℕ
value_iread num (some i) w = w.sems (of_reader i num)
value_iread num none w = elim w.handle.iread [
  | none ↦ w.sems (of_reader 0 num)
  | some _ ↦ greatest num w.sync.n_readers 0 w 0
]

abbrev pub get_nfull_iread : Option ℕ → World → ℕ
get_nfull_iread = value_iread ipcbuf_full

abbrev pub get_nclear_iread : Option ℕ → World → ℕ
get_nclear_iread = value_iread ipcbuf_clear

abbrev pub get_sodack_iread : Option ℕ → World → ℕ
get_sodack_iread = value_iread ipcbuf_sodack

abbrev pub get_eodack_iread : Option ℕ → World → ℕ
get_eodack_iread = value_iread ipcbuf_eodack

-- the loop of `ipcbuf_get_reader_conn_iread`: it keeps the least value, and returns the last one
unfoldable pub last_conn : (n i : ℕ) → World → (min_conn conn : ℕ) → ℕ
last_conn zero i w min_conn conn = conn
last_conn (suc n) i w min_conn conn =
    let value = w.sems (of_reader i ipcbuf_reader_conn) in
    last_conn n (suc i) w (if ltb value min_conn then value else min_conn) value

-- `ipcbuf_get_reader_conn_iread`
unfoldable pub get_reader_conn_iread : Option ℕ → World → ℕ
get_reader_conn_iread (some i) w = w.sems (of_reader i ipcbuf_reader_conn)
get_reader_conn_iread none w = elim w.handle.iread [
  | none ↦ w.sems (of_reader 0 ipcbuf_reader_conn)
  | some _ ↦ last_conn w.sync.n_readers 0 w 1 0
]

-- `ipcbuf_tell`
unfoldable pub tell : Handle → Sync → (bufnum : ℕ) → ℕ
tell h s bufnum =
    if leb bufnum (s.s_buf h.xfer)
    then 0
    else sub64 (mul64 (sub64 bufnum (s.s_buf h.xfer)) s.bufsz) (s.s_byte h.xfer)

-- `ipcbuf_tell_write`, with `none` for -1
unfoldable pub tell_write : World → Option ℕ
tell_write w =
    if is_eod w.handle
    then none
    else if is_writer w.handle
    then some (tell w.handle w.sync w.sync.w_buf_curr)
    else none

-- `ipcbuf_tell_read`, with `none` for -1. A process that reads has an index.
unfoldable pub tell_read : World → Option ℕ
tell_read w =
    if is_eod w.handle
    then none
    else if w.handle.state is reading
    then elim w.handle.iread [
      | none ↦ none
      | some i ↦ some (tell w.handle w.sync (w.sync.r_bufs i))
    ]
    else if w.handle.state is viewing
    then some (tell w.handle w.sync w.handle.viewbuf)
    else some 0

-- `ipcbuf_get_write_byte_xfer`
unfoldable pub get_write_byte_xfer : World → ℕ
get_write_byte_xfer w =
    if w.sync.eod w.handle.xfer
    then w.sync.e_byte w.handle.xfer
    else tell w.handle w.sync w.sync.w_buf_curr

-- `ipcbuf_get_write_count_xfer`
unfoldable pub get_write_count_xfer : World → ℕ
get_write_count_xfer w =
    if w.sync.w_xfer == w.handle.xfer then w.sync.w_buf_curr else w.sync.e_byte w.handle.xfer

-- `ipcbuf_get_write_index`
unfoldable pub get_write_index : Sync → ℕ
get_write_index s =
    if ltb s.w_buf_curr s.w_buf_next then sub64 s.w_buf_next 1 % s.nbufs else s.w_buf_curr % s.nbufs

-- `ipcbuf_get_read_count`
unfoldable pub get_read_count : World → ℕ
get_read_count w = elim w.handle.iread [ none ↦ w.sync.r_bufs 0 | some i ↦ w.sync.r_bufs i ]

-- `ipcbuf_get_read_index`
unfoldable pub get_read_index : World → ℕ
get_read_index w = get_read_count w % w.sync.nbufs

-- `ipcbuf_set_soclock_buf`
unfoldable pub set_soclock_buf : Sync → Handle → Handle
set_soclock_buf s h = record h {
  soclock_buf = if s.w_xfer == 0 then 0 else inc64 (s.e_buf (sub64 s.w_xfer 1 % ipcbuf_xfers));
}
