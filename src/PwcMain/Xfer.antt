-- ===== src/PwcMain/Xfer.antt =====
-- src/dada_pwc_main.c: `dada_pwc_main_process_xfer`, by which an observation goes from one transfer to
-- the next. Its value is an `int64_t`.
use mirror_psrdada_code.Prelude.{ℕ, ℤ, pos}
use mirror_psrdada_code.Client.{as_signed}
use mirror_psrdada_code.Ipcbuf.Lock.{lock_write, unlock_write}
use mirror_psrdada_code.Ipcbuf.Writer.{get_next_write}
use mirror_psrdada_code.Ipcio.Block.{close_block_write, update_block_write}
use mirror_psrdada_code.Ipcio.Open.{open_, close}
use mirror_psrdada_code.Ipcio.Stream.{write}
use mirror_psrdada_code.Kernel.{Kernel}
use mirror_psrdada_code.PwcMain.{
  XferStatus, xfer_normal, obs_ending, xfer_ending, Transfers, on_data, on_header, at_header,
  dada_error_hard, dada_error_fatal,
}
use mirror_psrdada_code.PwcMain.Flow.{
  go, Run, pure, get, modify, ◌>>=◌, ◌>>◌, following, or_return, header_bytes, value_of,
  mark_header,
}
use mirror_psrdada_code.PwcMain.Recording.{take_block}

module _ {C : Type 0} where
  abbrev pub xfer_status : Transfers C → Run C XferStatus
  xfer_status t c =
      let (status, context) = t.xfer_pending_function c.context in
      (go status, record c { context = context })

  -- `new_xfer_function`, and what it does to the header
  abbrev pub new_xfer : Transfers C → Run C ℕ
  new_xfer t = do
    m ← header_bytes
    c ← get
    let (first, header, context) = t.new_xfer_function c.context m
    modify (λ d. record d {
      context = context;
      header_block = at_header d.header (λ o. header) d.header_block;
    })
    pure first

  module _ ⦃k : Kernel⦄ where
    -- "OBS_ENDING, write 1 byte to empty DB"
    abbrev pub last_byte : XferStatus → Run C (Unit {0})
    last_byte obs_ending = do n ← or_return dada_error_hard (on_data (write (λ o. b'0') 1)); pure tt
    last_byte _ = pure tt

    -- both blocks are closed and opened again
    abbrev pub reopen : Run C (Unit {0})
    reopen = do
      or_return dada_error_hard (on_data close)
      or_return dada_error_hard (on_header unlock_write)
      or_return dada_error_hard (on_header lock_write)
      or_return dada_error_hard (on_data (open_ b'W'))

    unfoldable pub next_transfer : Transfers C → Run C ℤ
    next_transfer t = do
      last ← header_bytes
      reopen
      b ← following (on_header get_next_write)
      modify (take_block b last)
      first ← new_xfer t
      mark_header
      status ← xfer_status t
      last_byte status
      pure (as_signed first)

    -- what follows the first test of the status; -2 is the value of DADA_ERROR_HARD
    unfoldable pub xfer_with : Transfers C → (buf_bytes : ℕ) → XferStatus → Run C ℤ
    xfer_with t buf_bytes xfer_normal = do
      or_return dada_error_fatal (on_data (close_block_write buf_bytes))
      pure (pos 0)
    xfer_with t buf_bytes obs_ending = pure (pos 0)
    xfer_with t buf_bytes xfer_ending = do
      or_return dada_error_fatal (on_data (update_block_write buf_bytes))
      next_transfer t

    -- `dada_pwc_main_process_xfer`
    unfoldable pub process_xfer : Transfers C → (buf_bytes : ℕ) → Run C ℤ
    process_xfer t buf_bytes = value_of (do status ← xfer_status t; xfer_with t buf_bytes status)
