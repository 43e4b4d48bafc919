-- ===== src/Ipcbuf/EachReader.antt =====
-- The loops of src/ipcbuf.c that apply one semaphore operation to every reader, under a lawful
-- kernel.
use mirror_psrdada_code.Prelude.{
  ℕ, zero, suc, ◌+◌, ◌-◌, ◌≤◌, ◌<◌, ◌≡◌, refl, ◌∙◌, ◌≢◌, Bool, true, false, ◌&&◌, leb, ltb, ◌==◌,
  if◌then◌else◌, ℤ, pos, negsuc, arith, dec_lt, Bool-cases, inl, inr,
}
use mirror_psrdada_code.Shared.{Sem, of_connect, of_reader, Sems, World}
use mirror_psrdada_code.Process.{ok, asleep, pure, for_each}
use mirror_psrdada_code.Kernel.{
  Kernel, Lawful, Reply, done, again, error, waits, Flags, semvmx, assign,
}
use mirror_psrdada_code.Ipcutil.{semop_or_fail}

-- the value after an operation, and whether the operation can be done at once
abbrev pub moved : ℤ → ℕ → ℕ
moved (pos n) v = v + n
moved (negsuc n) v = v - suc n

abbrev pub fits : ℤ → ℕ → Bool
fits (pos zero) v = v == 0
fits (pos (suc n)) v = leb (v + suc n) semvmx
fits (negsuc n) v = leb (suc n) v

-- the values after the operation on `num` of the readers `i, …, i + n - 1`
abbrev pub shift_each : ℤ → (num n i : ℕ) → Sems → Sems
shift_each op num zero i v = v
shift_each op num (suc n) i v =
    shift_each op num n (suc i) (assign v (of_reader i num) (moved op (v (of_reader i num))))

pub shift_each-connect :
    (op : ℤ) (num n i : ℕ) (v : Sems) (c : ℕ)
    → shift_each op num n i v (of_connect c) ≡ v (of_connect c)
shift_each-connect op num zero i v c = refl
shift_each-connect op num (suc n) i v c = shift_each-connect op num n (suc i) _ c

-- Only semaphore `num` of the readers in the range changes.
pub shift_each-reader :
    (op : ℤ) (num n i : ℕ) (v : Sems) (j m : ℕ)
    → shift_each op num n i v (of_reader j m) ≡ (
        if num == m && (leb i j && ltb j (i + n))
        then moved op (v (of_reader j m))
        else v (of_reader j m))
shift_each-reader op num zero i v j m = ground arith
shift_each-reader op num (suc n) i v j m = shift_each-reader op num n (suc i) _ j m ∙ ground arith

module _ ⦃k : Kernel⦄ (law : Lawful k) where
  semop-fits :
      (s : Sem) (op : ℤ) (f : Flags) (v : Sems)
      → fits op (v s) ≡ true
      → k.semop s op f v ≡ (done, assign v s (moved op (v s)))
  semop-fits s (pos zero) f v h = ground (arith, law.zero_done s f v)
  semop-fits s (pos (suc n)) f v h = law.raise s n f v (ground arith)
  semop-fits s (negsuc n) f v h = law.lower s n f v (ground arith)

  -- An operation that does not fit changes nothing and is not done.
  semop-unfit :
      (s : Sem) (op : ℤ) (f : Flags) (v : Sems)
      → fits op (v s) ≡ false
      → (r : Reply) × (k.semop s op f v ≡ (r, v)) × (r ≢ done)
  semop-unfit s (pos zero) f v h = elim (Bool-cases f.nowait) [
    | inl e ↦ (again, law.zero_nowait s f v (ground arith) e, cc)
    | inr e ↦ (waits, law.zero_wait s f v (ground arith) e, cc)
  ]
  semop-unfit s (pos (suc n)) f v h = (error, law.raise_over s n f v (ground arith), cc)
  semop-unfit s (negsuc n) f v h = elim (Bool-cases f.nowait) [
    | inl e ↦ (again, law.lower_nowait s n f v (ground arith) e, cc)
    | inr e ↦ (waits, law.lower_wait s n f v (ground arith) e, cc)
  ]

  pub semop_or_fail-fits :
      (s : Sem) (op : ℤ) (f : Flags) (w : World)
      → fits op (w.sems s) ≡ true
      → semop_or_fail s op f w ≡ (ok tt, record w { sems = assign w.sems s (moved op (w.sems s)) })
  semop_or_fail-fits s op f w h = rw (semop-fits s op f w.sems h)

  pub fits_of_ok :
      (s : Sem) (op : ℤ) (f : Flags) (w : World)
      → (semop_or_fail s op f w).0 ≡ ok tt
      → fits op (w.sems s) ≡ true
  fits_of_ok s op f w h = elim (Bool-cases (fits op (w.sems s))) [
    | inl e ↦ e
    | inr e ↦ let (r, q, ne) = semop-unfit s op f w.sems e in ground (arith, ne)
  ]

  pub semop_or_fail-waits :
      (s : Sem) (n : ℕ) (f : Flags) (w : World)
      → f.nowait ≡ false
      → w.sems s < suc n
      → semop_or_fail s (negsuc n) f w ≡ (asleep, w)
  semop_or_fail-waits s n f w b h = rw (law.lower_wait s n f w.sems h b)

module _ ⦃k : Kernel⦄ (law : Lawful k) (op : ℤ) (num : ℕ) (f : Flags) where
  -- If the operation fits every reader's semaphore, the loop does them all.
  pub for_each-fits :
      (n i : ℕ) (w : World)
      → ((j : ℕ) → i ≤ j → j < i + n → fits op (w.sems (of_reader j num)) ≡ true)
      → for_each n i (λ j. semop_or_fail (of_reader j num) op f) w
        ≡ (ok tt, record w { sems = shift_each op num n i w.sems })
  unfolding for_each
  for_each-fits zero i w h = refl
  for_each-fits (suc n) i w h =
      rw (semop_or_fail-fits law (of_reader i num) op f w (h i (omega arith) (omega arith)))
        (for_each-fits n (suc i) _ λ j lo hi. ground (arith, h j))

  -- If the loop returns, the operation fitted every reader's semaphore.
  pub fits_of_for_each :
      (n i : ℕ) (w : World)
      → (for_each n i (λ j. semop_or_fail (of_reader j num) op f) w).0 ≡ ok tt
      → (j : ℕ) → i ≤ j
      → j < i + n
      → fits op (w.sems (of_reader j num)) ≡ true
  unfolding for_each
  fits_of_for_each zero i w h j lo hi = absurd (omega arith)
  fits_of_for_each (suc n) i w h j lo hi = elim (Bool-cases (fits op (w.sems (of_reader i num)))) [
    | inl e ↦
        let q = semop_or_fail-fits law (of_reader i num) op f w e in
        elim (dec_lt i j) [
          | yes lt ↦ ground (
            arith,
            fits_of_for_each n (suc i)
                (record w {
                  sems = assign w.sems (of_reader i num) (moved op (w.sems (of_reader i num)));
                })
                (rw q at h) j,
          )
          | no ge ↦ ground arith
        ]
    | inr e ↦ let (r, q, ne) = semop-unfit law (of_reader i num) op f w.sems e in ground (arith, ne)
  ]

-- A blocking decrement sleeps at the first reader whose semaphore is too low.
pub for_each-waits :
    ⦃k : Kernel⦄ (law : Lawful k) (num m : ℕ) (f : Flags) (n i : ℕ) (w : World) (j : ℕ)
    → f.nowait ≡ false
    → i ≤ j
    → j < i + n
    → w.sems (of_reader j num) < suc m
    → (for_each n i (λ r. semop_or_fail (of_reader r num) (negsuc m) f) w).0 ≡ asleep
unfolding for_each
for_each-waits law num m f zero i w j b lo hi low = absurd (omega arith)
for_each-waits law num m f (suc n) i w j b lo hi low =
    elim (Bool-cases (leb (suc m) (w.sems (of_reader i num)))) [
      | inl e ↦
          rw (semop_or_fail-fits law (of_reader i num) (negsuc m) f w e)
            (for_each-waits law num m f n (suc i) _ j b (ground arith) (omega arith) (ground arith))
      | inr e ↦ rw (semop_or_fail-waits law (of_reader i num) m f w b (ground arith))
    ]

pub for_each-pure : (n i : ℕ) (w : World) → for_each n i (λ j. pure tt) w ≡ (ok tt, w)
unfolding for_each
for_each-pure zero i w = refl
for_each-pure (suc n) i w = for_each-pure n (suc i) w
