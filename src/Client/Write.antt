-- ===== src/Client/Write.antt =====
-- src/dada_client.c: `dada_client_write`, which puts a header and its data into a ring.
use mirror_psrdada_code.Prelude.{ℕ, ◌==◌, if◌then◌else◌, ℤ, pos, negsuc}
use mirror_psrdada_code.Client.{Client, Functions, in_block, on_header}
use mirror_psrdada_code.Client.Transfer.{transfer}
use mirror_psrdada_code.Ipcbuf.Writer.{get_next_write}
use mirror_psrdada_code.Kernel.{Kernel}
use mirror_psrdada_code.Process.{Outcome, ok, fail, asleep, Call, ◌>>=◌, ◌>>◌, modify}

abbrev pub exit_failure : ℤ
exit_failure = pos 1

module _ {C : Type 0} ⦃k : Kernel⦄ (f : Functions C) (default_size loops rounds : ℕ) where
  -- a negative number of bytes is an error
  abbrev write_status : ℤ → Call (Client C) ℤ
  write_status (pos n) c = (ok (pos 0), c)
  write_status (negsuc n) c = (fail, c)

  abbrev write_data : Outcome ℕ → Client C → Outcome ℤ × Client C
  write_data fail c = (ok exit_failure, c)
  write_data asleep c = (asleep, c)
  write_data (ok b) c =
      (do
        modify (λ d. record d { header = in_block b; header_size = d.header_block.sync.bufsz })
        n ← transfer f default_size loops rounds
        write_status n)
        c

  -- `dada_client_write`, which returns EXIT_FAILURE, which is 1, where there is no block for the header
  unfoldable pub client_write : Call (Client C) ℤ
  unfolding get_next_write transfer
  client_write c =
      if c.header_block.sync.bufsz == 0
      then (ok (pos 0), c)
      else write_data (on_header get_next_write c).0 (on_header get_next_write c).1
