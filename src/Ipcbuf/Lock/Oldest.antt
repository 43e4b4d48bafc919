-- ===== src/Ipcbuf/Lock/Oldest.antt =====
-- src/ipcbuf.c: `ipcbuf_lock_read` gives a process the role of the reader that is furthest behind.
use mirror_psrdada_code.Prelude.{
  ℕ, zero, suc, ◌+◌, ◌-◌, ◌^◌, ◌≤◌, ◌<◌, ◌≡◌, ◌≢◌, ◌∙◌, sym, ◌⊎◌, inl, inr, refl, true, false, not,
  ◌&&◌, ltb, negsuc, Option, none, some, List, [], ◌∷◌, Bool-cases, arith, dec_lt,
}
use mirror_psrdada_code.Shared.{World, read_sem, of_reader, ipcbuf_reader_conn}
use mirror_psrdada_code.Process.{Outcome, ok, fail, asleep, continue}
use mirror_psrdada_code.Kernel.{Kernel, Lawful, nowait_undo, sem_undo, assign}
use mirror_psrdada_code.Ipcbuf.EachReader.{fits_of_ok, semop_or_fail-fits}
use mirror_psrdada_code.Ipcbuf.Lock.{
  used, least, positions, in_order, xfers_pos, claim, become_reader, lock_read,
}

abbrev pub conn_of : World → ℕ → ℕ
conn_of w j = w.sems (of_reader j ipcbuf_reader_conn)

-- The inner loop over `[i, i + n)`, started with the value `best` at position `at`.
least_lem :
    (n i : ℕ) (r : ℕ → ℕ) (taken : List (Option ℕ)) (best : ℕ) (at : Option ℕ) (q : ℕ)
    → least n i r taken best at ≡ some q
    → ((p : ℕ) → at ≡ some p → r p ≡ best)
    → ((at ≡ some q) ⊎ ((i ≤ q) × (q < i + n)))
      × (r q ≤ best)
      × ((j : ℕ) → i ≤ j → j < i + n → used taken j ≡ false → r j < best → r q ≤ r j)
unfolding least
least_lem zero i r taken best at q e h = (inl e, ground (arith, h q), λ j a b. absurd (omega arith))
least_lem (suc n) i r taken best at q e h =
    elim (Bool-cases (ltb (r i) best && not (used taken i))) [
      | inl hit ↦
          let (a, b, c) =
            least_lem n (suc i) r taken (r i) (some i) q (ground (arith, e))
              (λ p s. ground arith) in
          (
            ground arith,
            ground arith,
            λ j lo hi free low. elim (dec_lt (r j) (r i)) [
              | yes lt ↦ ground (arith, c j)
              | no ge ↦ omega arith
            ],
          )
      | inr miss ↦
          let (a, b, c) = least_lem n (suc i) r taken best at q (ground (arith, e)) h in
          (ground arith, b, λ j lo hi free low. ground (arith, c j))
    ]

-- every position was the least of those not taken before it
abbrev Chain : ℕ → (ℕ → ℕ) → List (Option ℕ) → Type 0
Chain n r [] = Unit {0}
Chain n r (p ∷ ps) = (p ≡ least n 0 r ps (2 ^ 64 - 1) none) × Chain n r ps

positions-Chain : (m n : ℕ) (r : ℕ → ℕ) → Chain n r (positions m n r)
unfolding positions
positions-Chain zero n r = tt
positions-Chain (suc m) n r = (refl, positions-Chain m n r)

-- none of the readers at these positions is free
abbrev AllTaken : World → List (Option ℕ) → Type 0
AllTaken w ps = (j : ℕ) → used ps j ≡ true → conn_of w j ≡ 0

-- reader `q` is free, and was the least after positions of which none is free
abbrev Picked : ℕ → (ℕ → ℕ) → World → ℕ → Type 0
Picked n r w q =
    (ps : List (Option ℕ)) × (least n 0 r ps (2 ^ 64 - 1) none ≡ some q)
    × AllTaken w ps
    × (1 ≤ conn_of w q)

module _ ⦃k : Kernel⦄ (law : Lawful k) where
  claim-taken :
      (p : ℕ) (ps : List (Option ℕ)) (w : World)
      → conn_of w p < 1
      → claim (some p ∷ ps) w ≡ claim ps w
  unfolding claim
  claim-taken p ps w h =
      rw (law.lower_nowait (of_reader p ipcbuf_reader_conn) 0 nowait_undo w.sems h refl)

  claim-free :
      (p : ℕ) (ps : List (Option ℕ)) (w : World)
      → 1 ≤ conn_of w p
      → claim (some p ∷ ps) w ≡ (
        ok (some p),
        record w { sems = assign w.sems (of_reader p ipcbuf_reader_conn) (conn_of w p - 1) },
      )
  unfolding claim
  claim-free p ps w h = rw (law.lower (of_reader p ipcbuf_reader_conn) 0 nowait_undo w.sems h)

  claim-none-ne :
      (acc : List (Option ℕ)) (w : World) (q : ℕ) → (claim (none ∷ acc) w).0 ≢ ok (some q)
  unfolding claim
  claim-none-ne acc w q e = cc

  claim-nil-ne : (w : World) (q : ℕ) → (claim [] w).0 ≢ ok (some q)
  unfolding claim
  claim-nil-ne w q e = cc

  -- The positions `ps`, latest first, are tried before `acc`.
  claim-Picked :
      (n : ℕ) (r : ℕ → ℕ) (ps acc : List (Option ℕ)) (w : World) (q : ℕ)
      → Chain n r ps
      → (claim (in_order ps acc) w).0 ≡ ok (some q)
      → Picked n r w q ⊎ (AllTaken w ps × ((claim acc w).0 ≡ ok (some q)))
  unfolding in_order used
  claim-Picked n r [] acc w q chain e = inr ((λ j u. cc), e)
  claim-Picked n r (none ∷ ps) acc w q chain e =
      elim (claim-Picked n r ps (none ∷ acc) w q chain.1 e) [
        | inl found ↦ inl found
        | inr rest ↦ absurd (claim-none-ne acc w q rest.1)
      ]
  claim-Picked n r (some p ∷ ps) acc w q chain e =
      elim (claim-Picked n r ps (some p ∷ acc) w q chain.1 e) [
        | inl found ↦ inl found
        | inr rest ↦ elim (dec_lt 0 (conn_of w p)) [
          | yes free ↦
              let same : (some p ≡ some q) = ground (arith, claim-free p acc w free) in
              inl (ps, sym chain.0 ∙ same, rest.0, ground arith)
          | no taken ↦
              inr (
                (λ j u. ground (arith, rest.0 j)),
                ground (arith, claim-taken p acc w (omega arith)),
              )
        ]
      ]

  -- what `ipcbuf_lock_read` claims
  claim-oldest :
      (w : World) (q : ℕ)
      → (claim (xfers_pos w.sync) w).0 ≡ ok (some q)
      → Picked w.sync.n_readers w.sync.r_bufs w q
  unfolding xfers_pos
  claim-oldest w q e =
      elim (claim-Picked w.sync.n_readers w.sync.r_bufs
        (positions w.sync.n_readers w.sync.n_readers w.sync.r_bufs) [] w q
        (positions-Chain w.sync.n_readers w.sync.n_readers w.sync.r_bufs) e) [
          | inl found ↦ found
          | inr rest ↦ absurd (claim-nil-ne w q rest.1)
        ]

-- the process holds the READ semaphore, and then claims a role
abbrev admitted : World → World
admitted w = record w { sems = assign w.sems read_sem (w.sems read_sem - 1) }

module _ ⦃k : Kernel⦄ where
  reader_of_claim :
      (o : Outcome (Option ℕ)) (v : World)
      → (continue o v become_reader).0 ≡ ok tt
      → (q : ℕ) × (o ≡ ok (some q)) × ((continue o v become_reader).1.handle.iread ≡ some q)
  unfolding become_reader
  reader_of_claim (ok (some q)) v e = (q, refl, refl)
  reader_of_claim (ok none) v e = cc
  reader_of_claim fail v e = cc
  reader_of_claim asleep v e = cc

  lock_read-admitted :
      Lawful k
      → (w : World) → (lock_read w).0 ≡ ok tt
      → let m = claim (xfers_pos w.sync) (admitted w) in
        lock_read w ≡ continue m.0 m.1 become_reader
  unfolding lock_read
  lock_read-admitted law w e = ground (
    arith,
    fits_of_ok law read_sem (negsuc 0) sem_undo w,
    semop_or_fail-fits law read_sem (negsuc 0) sem_undo w,
  )

-- The process that becomes reader `q` took a role that was free, and no other free role `j` of the
-- ring is further behind: the count of blocks that `q` has read is not above that of `j`.
pub lock_read-oldest :
    ⦃k : Kernel⦄ (law : Lawful k) (w : World) (q j : ℕ)
    → (lock_read w).0 ≡ ok tt
    → (lock_read w).1.handle.iread ≡ some q
    → ((i : ℕ) → i < w.sync.n_readers → w.sync.r_bufs i < 2 ^ 64 - 1)
    → j < w.sync.n_readers
    → 1 ≤ conn_of w j
    → (q < w.sync.n_readers) × (1 ≤ conn_of w q) × (w.sync.r_bufs q ≤ w.sync.r_bufs j)
lock_read-oldest law w q j e i small below free_j =
    let same = lock_read-admitted law w e in
    let m = claim (xfers_pos w.sync) (admitted w) in
    let (p, c, i') = reader_of_claim m.0 m.1 (rw same at e) in
    let pq : (p ≡ q) = ground arith in
    let (ps, l, taken, free) = claim-oldest law (admitted w) p c in
    let (a, b, least_) =
      least_lem w.sync.n_readers 0 w.sync.r_bufs ps (2 ^ 64 - 1) none p l (λ x s. cc) in
    (
      ground arith,
      ground arith,
      ground (arith, small j below, least_ j (omega arith) (omega arith), taken j),
    )
