-- ===== src/Ring/OpenBlock.antt =====
-- The writer's `ipcbuf_get_next_write` and its stores keep a running transfer running.
use mirror_psrdada_code.Prelude.{
  ℕ, suc, ◌+◌, ◌%◌, ◌^◌, ◌≤◌, ◌<◌, ◌≡◌, ◌⊎◌, ◌∙◌, inl, inr, sym, inc64, update, update_ne, arith,
  dec_lt,
}
use mirror_psrdada_code.Shared.{Sems, of_reader, ipcbuf_full, ipcbuf_clear}
use mirror_psrdada_code.Process.{ok}
use mirror_psrdada_code.Kernel.{Kernel, Lawful}
use mirror_psrdada_code.Ipcbuf.Writer.{get_next_write}
use mirror_psrdada_code.Ipcbuf.Writer.Next.{Steady, Obtained-of_ok}
use mirror_psrdada_code.Ring.{Ring, Running, writer_view, from_writer}
use mirror_psrdada_code.Ring.Residues.{mod-ne, add-mod_self}

-- the ring after the writer has opened its next block, with the semaphores `v`
abbrev opened : Ring → Sems → Ring
opened s v = record s {
  sync = record s.sync {
    count = update s.sync.count (s.sync.w_buf_next % s.sync.nbufs) 0;
    w_buf_next = inc64 s.sync.w_buf_next;
  };
  sems = v;
}

module _ {lo : ℕ} {s : Ring} (run : Running lo s) where
  -- the count of the block that comes next
  pub next_count :
      s.sync.w_buf_next < s.sync.w_buf_curr + s.sync.nbufs
      → ((s.sync.count (s.sync.w_buf_next % s.sync.nbufs) ≡ 0)
          × (s.sync.w_buf_next < lo + s.sync.nbufs))
        ⊎ ((s.sync.count (s.sync.w_buf_next % s.sync.nbufs) ≡ 1)
            × (s.sync.w_buf_next ≡ lo + s.sync.nbufs)
            × (lo < s.sync.w_buf_curr))
  next_count open_ = elim (dec_lt s.sync.w_buf_next (lo + s.sync.nbufs)) [
    | yes lt ↦ inl (run.free s.sync.w_buf_next run.curr_le lt, lt)
    | no ge ↦ inr (
      ground (arith, run.filled lo, add-mod_self s.sync.nbufs lo, run.next_le, run.lo_le),
      omega (arith, run.next_le),
      omega (arith, run.next_le),
    )
  ]

  -- Opening a block whose count was `c` moves the frontier by `c`.
  opened-Running :
      (c : ℕ) (v : Sems)
      → ((c ≡ 0) × (s.sync.w_buf_next < lo + s.sync.nbufs))
        ⊎ ((c ≡ 1) × (s.sync.w_buf_next ≡ lo + s.sync.nbufs) × (lo < s.sync.w_buf_curr))
      → suc s.sync.w_buf_next < 2 ^ 64
      → s.sync.w_buf_next < s.sync.w_buf_curr + s.sync.nbufs
      → ((j : ℕ)
          → j < s.sync.n_readers
          → v (of_reader j ipcbuf_clear) + c ≡ s.sems (of_reader j ipcbuf_clear))
      → ((j : ℕ) → v (of_reader j ipcbuf_full) ≡ s.sems (of_reader j ipcbuf_full))
      → Running (lo + c) (opened s v)
  opened-Running c v cases small open_ taken same = record {
    some_bufs = run.some_bufs;
    is_writing = run.is_writing;
    curr_le = ground (arith, run.curr_le);
    next_le = ground (arith, run.next_le);
    lo_le = ground (arith, run.lo_le);
    small = ground arith;
    filled = λ j a b. ground (
      arith,
      run.filled j,
      mod-ne s.sync.nbufs lo j s.sync.w_buf_next,
      mod-ne s.sync.nbufs lo lo j,
      add-mod_self s.sync.nbufs lo,
      run.next_le,
      run.curr_le,
      run.lo_le,
    );
    free = λ j a b. ground (arith, run.free j, run.next_le, add-mod_self s.sync.nbufs lo);
    role = run.role;
    full = λ i h. ground (arith, run.full i h, same i);
    clear = λ i h. ground (arith, run.clear i h, taken i h);
    live = run.live;
    content = λ j a b. run.content j (omega arith) b;
  }

  pub open_block-Running :
      ⦃k : Kernel⦄ (law : Lawful k) {b : ℕ}
      → s.sync.w_buf_next < s.sync.w_buf_curr + s.sync.nbufs
      → suc s.sync.w_buf_next < 2 ^ 64
      → (get_next_write (writer_view s)).0 ≡ ok b
      → (lo' : ℕ) × Running lo' (from_writer s (get_next_write (writer_view s)).1)
  open_block-Running law open_ small e =
      let cases = next_count open_ in
      let (_, o, _) = Obtained-of_ok law (writer_view s) steady (ground arith) e in
      (
        lo + s.sync.count (s.sync.w_buf_next % s.sync.nbufs),
        rw (o.sync, o.handle, o.mem)
            (opened-Running (s.sync.count (s.sync.w_buf_next % s.sync.nbufs)) _ (next_count open_)
              small open_ o.taken (λ j. o.others j ipcbuf_full (omega arith))),
      )
    where
      steady : Steady s.writer.state
      steady = rw run.is_writing tt

  -- A store in an open block leaves the blocks that readers may read alone.
  pub store-Running :
      (j offset value : ℕ)
      → s.sync.w_buf_curr ≤ j
      → j < s.sync.w_buf_next
      → Running lo (record s {
        mem = update s.mem (j % s.sync.nbufs) (update (s.mem (j % s.sync.nbufs)) offset value);
      })
  store-Running j offset value a b = record {
    some_bufs = run.some_bufs;
    is_writing = run.is_writing;
    curr_le = run.curr_le;
    next_le = run.next_le;
    lo_le = run.lo_le;
    small = run.small;
    filled = run.filled;
    free = run.free;
    role = run.role;
    full = run.full;
    clear = run.clear;
    live = run.live;
    content = λ i c d.
        update_ne s.mem (j % s.sync.nbufs) (i % s.sync.nbufs) _
          (λ q. mod-ne s.sync.nbufs lo i j c (omega arith) (omega (arith, run.next_le)) (sym q))
        ∙ run.content i c d;
  }
