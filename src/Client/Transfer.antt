-- ===== src/Client/Transfer.antt =====
-- src/dada_client.c: `dada_client_transfer`, and the calls that end a transfer.
use mirror_psrdada_code.Prelude.{
  ℕ, not, ltb, ◌==◌, if◌then◌else◌, ℤ, pos, negsuc, update, Option, none, some,
}
use mirror_psrdada_code.Process.{
  Outcome, ok, fail, asleep, Call, pure, ◌>>=◌, ◌>>◌, get, modify, guard, guard,
}
use mirror_psrdada_code.Kernel.{Kernel}
use mirror_psrdada_code.Ipcbuf.Writer.{mark_filled, enable_eod}
use mirror_psrdada_code.Ipcio.Open.{stop, close}
use mirror_psrdada_code.Client.{
  Memory, is_reading, Client, Functions, Header, own, in_block, on_data, on_header, as_word,
  as_signed,
}
use mirror_psrdada_code.Client.Loop.{io_loop}
use mirror_psrdada_code.Client.BlockLoop.{io_loop_block}

module _ {C : Type 0} ⦃k : Kernel⦄ (f : Functions C) where
  -- `io_function` on the header
  abbrev pub call_header : Header → Call (Client C) ℤ
  call_header (own m) c =
      let (n, written, context) = f.io_function c.context m c.header_size in
      (ok n, record c { context = context; header = own written })
  call_header (in_block b) c =
      let w = c.header_block in
      let (n, written, context) = f.io_function c.context (w.mem b) c.header_size in
      (
        ok n,
        record c { context = context; header_block = record w { mem = update w.mem b written } },
      )

  -- The test `bytes_transferred < header_size` compares an `int64_t` with a `uint64_t`.
  abbrev pub transfer_header : Call (Client C) (Unit {0})
  transfer_header = do
    c ← get
    n ← call_header c.header
    guard (not (ltb (as_word n) c.header_size))

  abbrev pub announce_header : Call (Client C) (Unit {0})
  announce_header = do
    on_header enable_eod
    c ← get
    on_header (mark_filled c.header_block.sync.bufsz)

  -- the return value of a loop as an `int64_t`: an error does not end `dada_client_transfer`
  abbrev pub as_result : Outcome ℕ → Client C → Outcome ℤ × Client C
  as_result (ok n) c = (ok (as_signed n), c)
  as_result fail c = (ok (negsuc 0), c)
  as_result asleep c = (asleep, c)

  abbrev pub either_loop :
      (fuel rounds : ℕ) → Option (C → Memory → ℕ → ℕ → ℤ × Memory × C) → Call (Client C) ℤ
  either_loop fuel rounds (some function) c =
      as_result (io_loop_block fuel function 0 c).0 (io_loop_block fuel function 0 c).1
  either_loop fuel rounds none c =
      as_result (io_loop f fuel rounds 0 c).0 (io_loop f fuel rounds 0 c).1

  abbrev pub call_open : Call (Client C) (Unit {0})
  call_open c = (if (f.open_function c).0 then ok tt else fail, (f.open_function c).1)

  -- the count is an `int64_t` that is passed as a `uint64_t`
  abbrev pub call_close : ℤ → Call (Client C) (Unit {0})
  call_close n c = (
    if (f.close_function c (as_word n)).0 then ok tt else fail,
    (f.close_function c (as_word n)).1,
  )

  -- `dada_client_transfer`
  unfoldable pub transfer : (default_size fuel rounds : ℕ) → Call (Client C) ℤ
  unfolding io_loop io_loop_block
  transfer default_size fuel rounds = do
    call_open
    c ← get
    (if c.quit then pure (pos 0) else (do
      (if c.header_transfer then transfer_header else pure tt)
      (if is_reading c.direction then pure tt else announce_header)
      modify (λ d. record d {
        optimal_bytes = if d.optimal_bytes == 0 then default_size else d.optimal_bytes;
      })
      n ← either_loop fuel rounds f.io_block_function
      call_close n
      pure n))

-- `dada_client_stop`, `dada_client_close`
unfoldable pub client_stop : {C : Type 0} → ⦃k : Kernel⦄ → Call (Client C) (Unit {0})
client_stop = on_data stop

unfoldable pub client_close : {C : Type 0} → ⦃k : Kernel⦄ → Call (Client C) (Unit {0})
client_close = on_data close
