-- ===== src/Ipcbuf/Query/Counts.antt =====
-- src/ipcbuf.c: what the counting queries return.
use mirror_psrdada_code.Prelude.{
  ℕ, zero, suc, ◌+◌, ◌-◌, ◌*◌, ◌%◌, ◌^◌, ◌≤◌, ◌<◌, ◌≡◌, ◌⊎◌, inl, inr, refl, ap, ◌∙◌, none, some,
  ltb, if◌then◌else◌, Bool-cases, dec_lt, arith,
}
use mirror_psrdada_code.Shared.{World, Sync, Handle, of_reader, ipcbuf_reader_conn}
use mirror_psrdada_code.Ipcbuf.Query.{
  greatest, value_iread, last_conn, get_reader_conn_iread, get_write_index, tell,
}
use native.Mathlib.Nat.{mod-lt}

greatest-bounds :
    (num n i : ℕ) (w : World) (m : ℕ)
    → (m ≤ greatest num n i w m)
      × ((j : ℕ) → i ≤ j → j < i + n → w.sems (of_reader j num) ≤ greatest num n i w m)
unfolding greatest
greatest-bounds num zero i w m = (omega arith, λ j lo hi. absurd (omega arith))
greatest-bounds num (suc n) i w m =
    let v = w.sems (of_reader i num) in
    let (a, b) = greatest-bounds num n (suc i) w (if ltb m v then v else m) in
    (
      ground arith,
      λ j lo hi. elim (dec_lt i j) [ yes lt ↦ b j lt (omega arith) | no ge ↦ ground arith ],
    )

greatest-attained :
    (num n i : ℕ) (w : World) (m : ℕ)
    → (greatest num n i w m ≡ m)
      ⊎ ((j : ℕ) × (j < i + n) × (greatest num n i w m ≡ w.sems (of_reader j num)))
unfolding greatest
greatest-attained num zero i w m = inl refl
greatest-attained num (suc n) i w m =
    let v = w.sems (of_reader i num) in
    elim (greatest-attained num n (suc i) w (if ltb m v then v else m)) [
      | inl e ↦ elim (Bool-cases (ltb m v)) [
        | inl lt ↦ inr (i, omega arith, ground arith)
        | inr ge ↦ inl (ground arith)
      ]
      | inr found ↦ let (j, below, e) = found in inr (j, omega arith, e)
    ]

value_iread-none :
    (num i : ℕ) (w : World)
    → w.handle.iread ≡ some i
    → value_iread num none w ≡ greatest num w.sync.n_readers 0 w 0
unfolding value_iread
value_iread-none num i w e = ground arith

-- For a process with a reader's index, the number of full blocks (or of any other semaphore) is the
-- greatest of all readers: reader `j` has no more, and some reader has as many, or it is 0.
value_iread-greatest :
    (num i j : ℕ) (w : World)
    → w.handle.iread ≡ some i
    → j < w.sync.n_readers
    → (w.sems (of_reader j num) ≤ value_iread num none w)
      × ((value_iread num none w ≡ 0)
          ⊎ ((l : ℕ) × (l < w.sync.n_readers)
              × (value_iread num none w ≡ w.sems (of_reader l num))))
value_iread-greatest num i j w e below =
    let (a, b) = greatest-bounds num w.sync.n_readers 0 w 0 in
    rw (value_iread-none num i w e) (
      b j (omega arith) (omega arith),
      elim (greatest-attained num w.sync.n_readers 0 w 0) [
        | inl z ↦ inl z
        | inr found ↦ let (l, lt, q) = found in inr (l, omega arith, q)
      ],
    )

last_conn-last :
    (n i : ℕ) (w : World) (m c : ℕ)
    → last_conn (suc n) i w m c ≡ w.sems (of_reader (i + n) ipcbuf_reader_conn)
unfolding last_conn
last_conn-last zero i w m c = ap (λ t. w.sems (of_reader t ipcbuf_reader_conn)) (omega arith)
last_conn-last (suc n) i w m c =
    last_conn-last n (suc i) w
      (if ltb (w.sems (of_reader i ipcbuf_reader_conn)) m
        then w.sems (of_reader i ipcbuf_reader_conn)
        else m)
      (w.sems (of_reader i ipcbuf_reader_conn))
    ∙ ap (λ t. w.sems (of_reader t ipcbuf_reader_conn)) (omega arith)

-- `ipcbuf_get_reader_conn_iread` computes the least value of all readers and returns the last one.
-- Whenever the last reader's role is free and another's is not, the result for a process with a
-- reader's index is above that other's value.
get_reader_conn_iread-last :
    (n i j : ℕ) (w : World)
    → w.handle.iread ≡ some i
    → w.sync.n_readers ≡ suc n
    → w.sems (of_reader n ipcbuf_reader_conn) ≡ 1
    → w.sems (of_reader j ipcbuf_reader_conn) ≡ 0
    → (get_reader_conn_iread none w ≡ 1)
      × (w.sems (of_reader j ipcbuf_reader_conn) < get_reader_conn_iread none w)
unfolding get_reader_conn_iread
get_reader_conn_iread-last n i j w e m last taken = ground (arith, last_conn-last n 0 w 1 0)

-- While the writer has a block open, the write index is that of the block opened last.
get_write_index-opened :
    (s : Sync)
    → 0 < s.nbufs
    → s.w_buf_curr < s.w_buf_next
    → s.w_buf_next < 2 ^ 64
    → (get_write_index s < s.nbufs) × (get_write_index s ≡ (s.w_buf_next - 1) % s.nbufs)
unfolding get_write_index
get_write_index-opened s some_bufs opened small =
    ground (arith, mod-lt (s.w_buf_next - 1) some_bufs)

-- Inside a transfer, the position told for a block grows by the block size from each block to the
-- next, and is the byte after the first `d` blocks less the bytes skipped in the first one.
tell_lem :
    (h : Handle) (s : Sync) (d : ℕ)
    → 0 < d
    → s.s_buf h.xfer + d < 2 ^ 64
    → s.s_byte h.xfer ≤ s.bufsz
    → d * s.bufsz < 2 ^ 64
    → tell h s (s.s_buf h.xfer + d) + s.s_byte h.xfer ≡ d * s.bufsz
unfolding tell
tell_lem h s d p a b c = grind arith
