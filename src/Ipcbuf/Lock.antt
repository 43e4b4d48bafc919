-- ===== src/Ipcbuf/Lock.antt =====
-- src/ipcbuf.c, the calls that make a process the writer or a reader, and back.
pub mod Exclusive
pub mod Oldest
use mirror_psrdada_code.Prelude.{
  ℕ, zero, suc, ◌-◌, ◌%◌, ◌^◌, Bool, true, false, not, ◌&&◌, ◌||◌, ltb, ◌==◌, if◌then◌else◌, pos,
  negsuc, update, Option, none, some, List, [], ◌∷◌,
}
use mirror_psrdada_code.Shared.{
  State, Sync, Handle, World, discon, viewer, reader, reading, writing, wchange, ◌is◌, is_writer,
  is_reader, write_sem, read_sem, of_reader, ipcbuf_xfers, ipcbuf_reader_conn,
}
use mirror_psrdada_code.Process.{
  Outcome, ok, fail, M, pure, ◌>>=◌, ◌>>◌, get, put_handle, put_sync, guard,
}
use mirror_psrdada_code.Kernel.{Kernel, sem_undo, nowait_undo}
use mirror_psrdada_code.Ipcutil.{Status, success, eagain, minus_one, ipc_semop, semop_or_fail}

-- the writer's state after `ipcbuf_lock_write`
abbrev pub write_state : State → State
write_state s = if s is discon then wchange else writing

-- the reader's state after `ipcbuf_lock_read`
abbrev pub read_state : State → State
read_state s = if s is discon then reader else reading

-- is the position among `xfers_pos[0 .. ipos)`?
unfoldable pub used : List (Option ℕ) → ℕ → Bool
used [] i = false
used (none ∷ ps) i = used ps i
used (some p ∷ ps) i = p == i || used ps i

-- the loop over `iread` of `ipcbuf_lock_read`: `best` is `xfers_val[ipos]` and `at` is
-- `xfers_pos[ipos]`, which is not set before the first hit
unfoldable pub least : (n i : ℕ) → (ℕ → ℕ) → List (Option ℕ) → ℕ → Option ℕ → Option ℕ
least zero i r_bufs taken best at = at
least (suc n) i r_bufs taken best at =
    let hit = ltb (r_bufs i) best && not (used taken i) in
    least n (suc i) r_bufs taken (if hit then r_bufs i else best) (if hit then some i else at)

-- the loop over `ipos`: the positions, the latest first
unfoldable pub positions : (rounds n_readers : ℕ) → (ℕ → ℕ) → List (Option ℕ)
unfolding least used
positions zero n r_bufs = []
positions (suc m) n r_bufs =
    let taken = positions m n r_bufs in least n 0 r_bufs taken (2 ^ 64 - 1) none ∷ taken

unfoldable pub in_order : List (Option ℕ) → List (Option ℕ) → List (Option ℕ)
in_order [] acc = acc
in_order (p ∷ ps) acc = in_order ps (p ∷ acc)

-- `xfers_pos`
unfoldable pub xfers_pos : Sync → List (Option ℕ)
unfolding positions in_order
xfers_pos s = in_order (positions s.n_readers s.n_readers s.r_bufs) []

-- `iread == -1`
abbrev pub is_none : Option ℕ → Bool
is_none none = true
is_none (some _) = false

module _ ⦃k : Kernel⦄ where
  -- `ipcbuf_lock_write`
  unfoldable pub lock_write : M (Unit {0})
  lock_write = do
    w ← get
    guard (w.handle.state is viewer)
    semop_or_fail write_sem (negsuc 0) sem_undo
    u ← get
    put_handle
        (λ h. record h { state = write_state u.sync.w_state; xfer = u.sync.w_xfer % ipcbuf_xfers })
    put_sync (λ s. record s { w_state = write_state u.sync.w_state })

  -- `ipcbuf_unlock_write`
  unfoldable pub unlock_write : M (Unit {0})
  unlock_write = do
    w ← get
    guard (is_writer w.handle)
    semop_or_fail write_sem (pos 1) sem_undo
    put_handle (λ h. record h { state = viewer })
    put_sync (λ s. record s { w_state = discon })

  -- `ipcbuf_relock_write`
  unfoldable pub relock_write : M (Unit {0})
  relock_write = do
    w ← get
    guard (is_writer w.handle)
    put_handle (λ h. record h { state = wchange; xfer = w.sync.w_xfer % ipcbuf_xfers })
    put_sync (λ s. record s { w_state = wchange })

  -- the loop of `ipcbuf_lock_read` that tries READER_CONN, oldest position first
  unfoldable pub claim : List (Option ℕ) → M (Option ℕ)
  claim [] w = (ok none, w)
  claim (none ∷ ps) w = (fail, w)
  claim (some p ∷ ps) w =
      (do
        r ← ipc_semop (of_reader p ipcbuf_reader_conn) (negsuc 0) nowait_undo
        elim r [ success ↦ pure (some p) | eagain ↦ claim ps | minus_one ↦ λ v. (fail, v) ])
        w

  -- the end of `ipcbuf_lock_read`, with the index that was found
  unfoldable pub become_reader : Option ℕ → M (Unit {0})
  become_reader none w = (fail, w)
  become_reader (some i) w =
      (do
        put_handle (λ h. record h {
          iread = some i;
          state = read_state (w.sync.r_states i);
          xfer = w.sync.r_xfers i % ipcbuf_xfers;
        })
        put_sync
            (λ s. record s { r_states = update s.r_states i (read_state (w.sync.r_states i)) }))
        w

  -- `ipcbuf_lock_read`
  unfoldable pub lock_read : M (Unit {0})
  lock_read = do
    w ← get
    guard (w.handle.state is viewer && is_none w.handle.iread)
    semop_or_fail read_sem (negsuc 0) sem_undo
    u ← get
    found ← claim (xfers_pos u.sync)
    become_reader found

  -- `ipcbuf_unlock_read`, with the index of the reader
  unfoldable pub release_reader : Option ℕ → M (Unit {0})
  release_reader none w = (fail, w)
  release_reader (some i) w =
      (do
        guard (ltb i w.sync.n_readers)
        semop_or_fail (of_reader i ipcbuf_reader_conn) (pos 1) sem_undo
        semop_or_fail read_sem (pos 1) sem_undo
        put_handle (λ h. record h { state = viewer; iread = none })
        put_sync (λ s. record s { r_states = update s.r_states i discon }))
        w

  unfoldable pub unlock_read : M (Unit {0})
  unlock_read = do w ← get; guard (is_reader w.handle); release_reader w.handle.iread
