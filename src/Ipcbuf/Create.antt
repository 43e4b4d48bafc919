-- ===== src/Ipcbuf/Create.antt =====
-- src/ipcbuf.c: what `ipcbuf_create_work` stores in a new ring and how it opens its semaphores;
-- `ipcbuf_connect`. The allocation of the segments by `ipcsync_get` and `ipcbuf_get` enters as the
-- two Booleans that say whether they succeed.
pub mod Fresh
use mirror_psrdada_code.Prelude.{ℕ, Bool, true, ltb, if◌then◌else◌, pos, short_of, none}
use mirror_psrdada_code.Shared.{
  Sync, discon, viewer, write_sem, read_sem, of_reader, ipcbuf_xfers, ipcbuf_readers, ipcbuf_sodack,
  ipcbuf_eodack, ipcbuf_reader_conn,
}
use mirror_psrdada_code.Process.{M, ◌>>◌, put_handle, put_sync, guard, for_each}
use mirror_psrdada_code.Kernel.{Kernel, no_flags}
use mirror_psrdada_code.Ipcutil.{semop_or_fail}

-- `for (i = 0; i < n; i++) f[i] = v`
unfoldable pub fill_array {ℓ} : {A : Type ℓ} → ℕ → A → (ℕ → A) → ℕ → A
fill_array n v f i = if ltb i n then v else f i

unfoldable pub created : (nbufs bufsz n_readers : ℕ) → Sync → Sync
unfolding fill_array
created nbufs bufsz n_readers s = record {
  nbufs = nbufs;
  bufsz = bufsz;
  w_buf_next = 0;
  w_buf_curr = 0;
  w_state = discon;
  w_xfer = 0;
  r_bufs = fill_array ipcbuf_readers 0 s.r_bufs;
  r_states = fill_array ipcbuf_readers discon s.r_states;
  r_xfers = fill_array ipcbuf_readers 0 s.r_xfers;
  n_readers = n_readers;
  s_buf = fill_array ipcbuf_xfers 0 s.s_buf;
  s_byte = fill_array ipcbuf_xfers 0 s.s_byte;
  eod = fill_array ipcbuf_xfers true s.eod;
  e_buf = fill_array ipcbuf_xfers 0 s.e_buf;
  e_byte = fill_array ipcbuf_xfers 0 s.e_byte;
  count = fill_array nbufs 0 s.count;
}

module _ ⦃k : Kernel⦄ where
  -- the semaphores of one reader
  unfoldable pub open_reader : ℕ → M (Unit {0})
  open_reader i = do
    semop_or_fail (of_reader i ipcbuf_sodack) (pos ipcbuf_xfers) no_flags
    semop_or_fail (of_reader i ipcbuf_eodack) (pos ipcbuf_xfers) no_flags
    semop_or_fail (of_reader i ipcbuf_reader_conn) (pos 1) no_flags

  -- `ipcbuf_create_work`
  unfoldable pub create_work : (sync_ok bufs_ok : Bool) (nbufs bufsz n_readers : ℕ) → M (Unit {0})
  create_work sync_ok bufs_ok nbufs bufsz n_readers = do
    guard sync_ok
    put_handle
        (λ h. record { state = discon; viewbuf = 0; xfer = 0; soclock_buf = 0; iread = none })
    put_sync (created nbufs bufsz n_readers)
    guard bufs_ok
    semop_or_fail write_sem (pos 1) no_flags
    semop_or_fail read_sem (short_of n_readers) no_flags
    for_each n_readers 0 open_reader
    put_handle (λ h. record h { state = viewer })

-- `ipcbuf_connect`
unfoldable pub connect : (sync_ok bufs_ok : Bool) → M (Unit {0})
connect sync_ok bufs_ok = do
  guard sync_ok
  put_handle (λ h. record h { state = discon; viewbuf = 0 })
  guard bufs_ok
  put_handle (λ h. record h { state = viewer })
