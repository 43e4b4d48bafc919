-- ===== src/Hdu/Kept.antt =====
-- src/ipcbuf.c: the size of the blocks while a header is read.
use mirror_psrdada_code.Prelude.{
  ℕ, zero, suc, ◌≡◌, refl, ap, ◌∙◌, Bool-cases, ◌==◌, true, arith, inl, inr, if◌then◌else◌,
}
use mirror_psrdada_code.Ipcbuf.Reader.{
  get_next_read, get_next_read_work, read_block, start_reading, view_block, start_viewing,
  await_block, mark_cleared, stop_reading,
}
use mirror_psrdada_code.Hdu.{clear_if_reader, skip_empty, next_header}
use mirror_psrdada_code.Ipcbuf.Reset.{reset}
use mirror_psrdada_code.Process.{Outcome, ok, fail, asleep, continue, pure, ignored, ignore_status}
use mirror_psrdada_code.Kernel.{Kernel}
use mirror_psrdada_code.Shared.{World, is_reader, is_eod}

module _ ⦃k : Kernel⦄ where
  get_next_read-bufsz : (w : World) → (get_next_read w).1.sync.bufsz ≡ w.sync.bufsz
  unfolding get_next_read get_next_read_work read_block start_reading view_block start_viewing
      await_block
  get_next_read-bufsz w = ground arith

  mark_cleared-bufsz : (w : World) → (mark_cleared w).1.sync.bufsz ≡ w.sync.bufsz
  unfolding mark_cleared stop_reading
  mark_cleared-bufsz w = ground arith

  reset-bufsz : (w : World) → is_reader w.handle ≡ true → (reset w).1.sync.bufsz ≡ w.sync.bufsz
  unfolding reset
  reset-bufsz w reads = ground arith

  ignored-world : (o : Outcome (Unit {0})) (w : World) → (ignored o w).1 ≡ w
  ignored-world (ok u) w = refl
  ignored-world fail w = refl
  ignored-world asleep w = refl

  clear_if_reader-bufsz : (w : World) → (clear_if_reader w).1.sync.bufsz ≡ w.sync.bufsz
  clear_if_reader-bufsz w = elim (Bool-cases (is_reader w.handle)) [
    | inl reads ↦ rw reads (
        ap (λ v. v.sync.bufsz) (ignored-world (mark_cleared w).0 (mark_cleared w).1)
        ∙ mark_cleared-bufsz w)
    | inr other ↦ rw other refl
  ]

  rest-bufsz :
      (w : World)
      → ((if is_eod w.handle
            then (if is_reader w.handle then ignore_status reset else pure tt)
            else (λ v. (fail, v)))
          w).1.sync.bufsz
        ≡ w.sync.bufsz
  rest-bufsz w = elim (Bool-cases (is_eod w.handle)) [
    | inr on ↦ rw on refl
    | inl over ↦ elim (Bool-cases (is_reader w.handle)) [
      | inr other ↦ rw (over, other) refl
      | inl reads ↦
          rw (over, reads)
            (ap (λ v. v.sync.bufsz) (ignored-world (reset w).0 (reset w).1) ∙ reset-bufsz w reads)
    ]
  ]

  -- what follows an outcome, when it keeps the size
  continue-bufsz :
      {A B : Type 0} (o : Outcome A) (w : World) (f : A → World → Outcome B × World) (n : ℕ)
      → w.sync.bufsz ≡ n
      → ((a : A) → (f a w).1.sync.bufsz ≡ w.sync.bufsz)
      → (continue o w f).1.sync.bufsz ≡ n
  continue-bufsz (ok a) w f n e same = same a ∙ e
  continue-bufsz fail w f n e same = e
  continue-bufsz asleep w f n e same = e

  skip_empty-bufsz : (w : World) → (skip_empty w).1.sync.bufsz ≡ w.sync.bufsz
  skip_empty-bufsz w =
      continue-bufsz (clear_if_reader w).0 (clear_if_reader w).1 _ w.sync.bufsz
        (clear_if_reader-bufsz w) (λ u. rest-bufsz (clear_if_reader w).1)

  pub next_header-bufsz : (fuel : ℕ) (w : World) → (next_header fuel w).1.sync.bufsz ≡ w.sync.bufsz
  unfolding next_header
  next_header-bufsz zero w = refl
  next_header-bufsz (suc fuel) w =
      continue-bufsz (get_next_read w).0 (get_next_read w).1 _ w.sync.bufsz (get_next_read-bufsz w)
        (λ b. elim (Bool-cases (b.bytes == 0)) [
          | inr full ↦ rw full refl
          | inl empty ↦ rw empty (
              continue-bufsz (skip_empty (get_next_read w).1).0 (skip_empty (get_next_read w).1).1 _
                (get_next_read w).1.sync.bufsz (skip_empty-bufsz (get_next_read w).1)
                (λ u. next_header-bufsz fuel (skip_empty (get_next_read w).1).1))
        ])
