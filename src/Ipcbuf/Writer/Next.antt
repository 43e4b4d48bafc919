-- ===== src/Ipcbuf/Writer/Next.antt =====
-- src/ipcbuf.c: what `ipcbuf_get_next_write` does for a writer that is not about to change state.
use mirror_psrdada_code.Prelude.{
  ℕ, ◌+◌, ◌%◌, ◌≤◌, ◌<◌, ◌≡◌, ◌≢◌, refl, ap, leb, inc64, update, arith, all_or_some, inl, inr,
}
use mirror_psrdada_code.Shared.{
  World, Sync, State, writer, writing, of_connect, of_reader, ipcbuf_clear,
}
use mirror_psrdada_code.Process.{ok, asleep}
use mirror_psrdada_code.Kernel.{Kernel, Lawful}
use mirror_psrdada_code.Ipcbuf.Writer.{reclaim, sod_on_wchange, get_next_write}
use mirror_psrdada_code.Ipcbuf.Writer.Reclaim.{clear_of, reclaim-Reclaimed, reclaim-asleep}

-- the index of the block that comes next
abbrev pub next_index : World → ℕ
next_index w = w.sync.w_buf_next % w.sync.nbufs

-- `w'` is `w` after the next block was handed to the writer.
pub record Obtained (w w' : World) : Type 0 where
  pub handle : w'.handle ≡ w.handle
  pub mem : w'.mem ≡ w.mem
  pub sync : w'.sync ≡ record w.sync {
    count = update w.sync.count (next_index w) 0;
    w_buf_next = inc64 w.sync.w_buf_next;
  }
  pub taken :
      (j : ℕ) → j < w.sync.n_readers → clear_of w' j + w.sync.count (next_index w) ≡ clear_of w j
  pub others :
      (j num : ℕ) → num ≢ ipcbuf_clear → w'.sems (of_reader j num) ≡ w.sems (of_reader j num)
  pub connect : (num : ℕ) → w'.sems (of_connect num) ≡ w.sems (of_connect num)

-- the states in which `ipcbuf_get_next_write` goes straight to the ring
abbrev pub Steady : State → Type 0
Steady writer = Unit
Steady writing = Unit
Steady _ = ⊥

module _ ⦃k : Kernel⦄ (law : Lawful k) (w : World) (steady : Steady w.handle.state) where
  get_next_write-after :
      (reclaim 256 (next_index w) w).0 ≡ ok tt
      → let w' = (reclaim 256 (next_index w) w).1 in
        get_next_write w ≡ (
          ok (next_index w),
          record w' { sync = record w'.sync { w_buf_next = inc64 w'.sync.w_buf_next } },
        )
  unfolding get_next_write sod_on_wchange
  get_next_write-after e = ground arith

  -- Under a lawful kernel, for a writer in the state WRITER or WRITING: when every reader has cleared
  -- as many blocks as the count of the next one asks for, the call returns that block. Its count is
  -- then zero, every reader's CLEAR has gone down by the count, `w_buf_next` has gone up by one, and no
  -- other semaphore has changed.
  pub get_next_write-Obtained :
      w.sync.count (next_index w) < 256
      → ((j : ℕ) → j < w.sync.n_readers → w.sync.count (next_index w) ≤ clear_of w j)
      → ((get_next_write w).0 ≡ ok (next_index w)) × Obtained w (get_next_write w).1
  get_next_write-Obtained small h =
      let (e, r) = reclaim-Reclaimed law (next_index w) 256 _ w refl small small h in
      rw (get_next_write-after e) (
        refl,
        record {
          handle = r.handle;
          mem = r.mem;
          sync =
              ap {A = Sync} {B = Sync} (λ s. record s { w_buf_next = inc64 s.w_buf_next }) r.sync;
          taken = r.taken;
          others = r.others;
          connect = r.connect;
        },
      )

  -- Under a lawful kernel, for a writer in the state WRITER or WRITING: when the count of the next
  -- block is more than the number of blocks that reader `j` has cleared and that were not taken back,
  -- the call sleeps.
  pub get_next_write-asleep :
      (j : ℕ)
      → w.sync.count (next_index w) < 256
      → j < w.sync.n_readers
      → clear_of w j < w.sync.count (next_index w)
      → (get_next_write w).0 ≡ asleep
  unfolding get_next_write sod_on_wchange
  get_next_write-asleep j small below low = ground (
    arith,
    reclaim-asleep law (next_index w) 256 (w.sync.count (next_index w)) w j refl small small below
        low,
  )

  -- A call that returned had enough cleared blocks.
  pub Obtained-of_ok :
      {b : ℕ}
      → w.sync.count (next_index w) < 256
      → (get_next_write w).0 ≡ ok b
      → (b ≡ next_index w)
        × Obtained w (get_next_write w).1
        × ((j : ℕ) → j < w.sync.n_readers → w.sync.count (next_index w) ≤ clear_of w j)
  Obtained-of_ok small e =
      elim (all_or_some w.sync.n_readers (λ j. leb (w.sync.count (next_index w)) (clear_of w j))) [
        | inl all ↦
            let h : ((j : ℕ) → j < w.sync.n_readers → w.sync.count (next_index w) ≤ clear_of w j) =
              λ j below. ground (arith, all j below) in
            let (q, o) = get_next_write-Obtained small h in (ground arith, o, h)
        | inr one ↦
            let (j, below, low) = one in
            absurd (ground (arith, get_next_write-asleep j small below (ground arith)))
      ]
