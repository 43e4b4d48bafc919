-- ===== src/Ipcbuf/Writer/Reclaim.antt =====
-- src/ipcbuf.c: how `ipcbuf_get_next_write` takes back a block, the `while (count[bufnum])` loop.
use mirror_psrdada_code.Prelude.{
  ℕ, zero, suc, ◌+◌, ◌≤◌, ◌<◌, ◌≡◌, ◌≢◌, refl, sym, ap, ◌∙◌, negsuc, dec8, update, update_same,
  update-update, arith, inl, inr, ltb, all_or_some,
}
use mirror_psrdada_code.Shared.{World, of_connect, of_reader, ipcbuf_clear}
use mirror_psrdada_code.Process.{ok, asleep}
use mirror_psrdada_code.Kernel.{Kernel, Lawful, no_flags}
use mirror_psrdada_code.Ipcbuf.EachReader.{
  shift_each, shift_each-connect, shift_each-reader, for_each-fits, for_each-waits,
}
use mirror_psrdada_code.Ipcbuf.Writer.{reclaim}

abbrev pub clear_of : World → ℕ → ℕ
clear_of w j = w.sems (of_reader j ipcbuf_clear)

-- `w'` is `w` with `c` tokens of every CLEAR taken, and entry `b` of `count` zero.
pub record Reclaimed (b c : ℕ) (w w' : World) : Type 0 where
  pub handle : w'.handle ≡ w.handle
  pub mem : w'.mem ≡ w.mem
  pub sync : w'.sync ≡ record w.sync { count = update w.sync.count b 0 }
  pub taken : (j : ℕ) → j < w.sync.n_readers → clear_of w' j + c ≡ clear_of w j
  pub others :
      (j num : ℕ) → num ≢ ipcbuf_clear → w'.sems (of_reader j num) ≡ w.sems (of_reader j num)
  pub connect : (num : ℕ) → w'.sems (of_connect num) ≡ w.sems (of_connect num)

-- the world after one round of the loop
abbrev after_round : ℕ → World → World
after_round b w = record w {
  sems = shift_each (negsuc 0) ipcbuf_clear w.sync.n_readers 0 w.sems;
  sync = record w.sync { count = update w.sync.count b (dec8 (w.sync.count b)) };
}

module _ ⦃k : Kernel⦄ (law : Lawful k) (b : ℕ) where
  reclaim-round :
      (f : ℕ) (w : World)
      → w.sync.count b ≢ 0
      → ((j : ℕ) → j < w.sync.n_readers → 1 ≤ clear_of w j)
      → reclaim (suc f) b w ≡ reclaim f b (after_round b w)
  unfolding reclaim
  reclaim-round f w ne h =
      rw
        (for_each-fits law (negsuc 0) ipcbuf_clear no_flags w.sync.n_readers 0 w
          (λ j lo hi. ground (arith, h j)))
        (ground arith)

  Reclaimed-round :
      (c : ℕ) (w w' : World)
      → w.sync.count b ≡ suc c
      → ((j : ℕ) → j < w.sync.n_readers → 1 ≤ clear_of w j)
      → Reclaimed b c (after_round b w) w'
      → Reclaimed b (suc c) w w'
  Reclaimed-round c w w' e h r = record {
    handle = r.handle;
    mem = r.mem;
    sync = r.sync ∙ ap (λ t. record w.sync { count = t }) (update-update w.sync.count b _ 0);
    taken = λ j lt. ground (
      arith,
      r.taken j,
      h j,
      shift_each-reader (negsuc 0) ipcbuf_clear w.sync.n_readers 0 w.sems j ipcbuf_clear,
    );
    others = λ j num ne.
        r.others j num ne
        ∙ (shift_each-reader (negsuc 0) ipcbuf_clear w.sync.n_readers 0 w.sems j num
            ∙ ground arith);
    connect = λ num.
        r.connect num ∙ shift_each-connect (negsuc 0) ipcbuf_clear w.sync.n_readers 0 w.sems num;
  }

  pub reclaim-zero : (f : ℕ) (w : World) → w.sync.count b ≡ 0 → reclaim (suc f) b w ≡ (ok tt, w)
  unfolding reclaim
  reclaim-zero f w e = rw e

  reclaim-blocked :
      (f : ℕ) (w : World) (j : ℕ)
      → w.sync.count b ≢ 0
      → j < w.sync.n_readers
      → clear_of w j < 1
      → (reclaim (suc f) b w).0 ≡ asleep
  unfolding reclaim
  reclaim-blocked f w j ne below low = ground (
    arith,
    for_each-waits law ipcbuf_clear 0 no_flags w.sync.n_readers 0 w j refl (omega arith)
        (omega arith) low,
  )

  Reclaimed-zero : (w : World) → w.sync.count b ≡ 0 → Reclaimed b 0 w w
  Reclaimed-zero w e = record {
    handle = refl;
    mem = refl;
    sync = ap (λ t. record w.sync { count = t }) (sym (update_same w.sync.count b 0 e));
    taken = λ j lt. omega arith;
    others = λ j num ne. refl;
    connect = λ num. refl;
  }

  -- Enough tokens: the loop ends, and has taken as many as the count said.
  pub reclaim-Reclaimed :
      (f c : ℕ) (w : World)
      → w.sync.count b ≡ c
      → c < f
      → c < 256
      → ((j : ℕ) → j < w.sync.n_readers → c ≤ clear_of w j)
      → ((reclaim f b w).0 ≡ ok tt) × Reclaimed b c w (reclaim f b w).1
  reclaim-Reclaimed zero c w e lt small h = absurd (omega arith)
  reclaim-Reclaimed (suc f) zero w e lt small h = rw (reclaim-zero f w e) (refl, Reclaimed-zero w e)
  reclaim-Reclaimed (suc f) (suc c) w e lt small h =
      let one : ((j : ℕ) → j < w.sync.n_readers → 1 ≤ clear_of w j) =
        λ j below. omega (arith, h j) in
      let (done, left) =
        reclaim-Reclaimed f c (after_round b w) (ground arith) (omega arith) (omega arith)
          (enough one) in
      rw (reclaim-round f w (omega arith) one) (done, Reclaimed-round c w _ e one left)
    where
      enough :
          ((j : ℕ) → j < w.sync.n_readers → 1 ≤ clear_of w j)
          → (j : ℕ) → j < w.sync.n_readers
          → c ≤ clear_of (after_round b w) j
      enough one j below = ground (
        arith,
        h j,
        shift_each-reader (negsuc 0) ipcbuf_clear w.sync.n_readers 0 w.sems j ipcbuf_clear,
      )

  -- Too few tokens of some reader: the writer sleeps.
  pub reclaim-asleep :
      (f c : ℕ) (w : World) (j : ℕ)
      → w.sync.count b ≡ c
      → c < f
      → c < 256
      → j < w.sync.n_readers
      → clear_of w j < c
      → (reclaim f b w).0 ≡ asleep
  reclaim-asleep zero c w j e lt small below low = absurd (omega arith)
  reclaim-asleep (suc f) zero w j e lt small below low = absurd (omega arith)
  reclaim-asleep (suc f) (suc c) w j e lt small below low =
      elim (all_or_some w.sync.n_readers (λ i. ltb 0 (clear_of w i))) [
        | inl all ↦ rw (reclaim-round f w (omega arith) (λ i h. ground (arith, all i h))) (
            reclaim-asleep f c (after_round b w) j (ground arith) (omega arith) (omega arith) below
              (ground (
                arith,
                all j,
                shift_each-reader (negsuc 0) ipcbuf_clear w.sync.n_readers 0 w.sems j ipcbuf_clear,
              )))
        | inr one ↦ let (i, h, q) = one in reclaim-blocked f w i (omega arith) h (ground arith)
      ]
