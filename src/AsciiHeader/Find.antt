-- ===== src/AsciiHeader/Find.antt =====
-- src/ascii_header.c: which occurrence of a keyword `ascii_header_find` returns.
use mirror_psrdada_code.Prelude.{
  ℕ, zero, suc, ◌+◌, ◌-◌, ◌≤◌, ◌<◌, ◌≡◌, inl, inr, refl, ap, sym, ◌∙◌, Bool, true, false, ◌&&◌,
  ◌||◌, ◌==◌, [], ◌∷◌, Option, none, some, Bool-cases, dec_lt, ℕ_discrete, arith,
}
use mirror_psrdada_code.AsciiHeader.{
  Bytes, length, drop, starts, strstr, at_line_start, find_loop, find,
}

-- What strstr returns: the first occurrence, `d` bytes on, or none, where there is none.
abbrev Occurs : Bytes → ℕ → Bytes → Option ℕ → Type 0
Occurs s at k (some q) =
    (d : ℕ) × (q ≡ at + d)
    × (d < length s)
    × (starts (drop d s) k ≡ true)
    × ((j : ℕ) → j < d → starts (drop j s) k ≡ false)
Occurs s at k none = (j : ℕ) → starts (drop j s) k ≡ false

drop_nil : (j : ℕ) → drop j [] ≡ []
drop_nil zero = refl
drop_nil (suc j) = refl

absent_later :
    (c : ℕ) (s k : Bytes)
    → starts (c ∷ s) k ≡ false
    → ((j : ℕ) → starts (drop j s) k ≡ false)
    → (j : ℕ) → starts (drop j (c ∷ s)) k ≡ false
absent_later c s k n f zero = n
absent_later c s k n f (suc j) = f j

absent_below :
    (c : ℕ) (s k : Bytes) (d : ℕ)
    → starts (c ∷ s) k ≡ false
    → ((j : ℕ) → j < d → starts (drop j s) k ≡ false)
    → (j : ℕ) → j < suc d
    → starts (drop j (c ∷ s)) k ≡ false
absent_below c s k d n f zero lt = n
absent_below c s k d n f (suc j) lt = f j (omega arith)

Occurs-later :
    (c : ℕ) (s : Bytes) (at : ℕ) (k : Bytes)
    → starts (c ∷ s) k ≡ false
    → (r : Option ℕ) → Occurs s (suc at) k r
    → Occurs (c ∷ s) at k r
unfolding length
Occurs-later c s at k n none o = absent_later c s k n o
Occurs-later c s at k n (some q) o =
    let (d, e, le, here, before) = o in
    (suc d, omega arith, omega arith, here, absent_below c s k d n before)

strstr-Occurs : (s : Bytes) (at x : ℕ) (k : Bytes) → Occurs s at (x ∷ k) (strstr s at (x ∷ k))
unfolding strstr length
strstr-Occurs [] at x k = λ j. ap (λ t. starts t (x ∷ k)) (drop_nil j)
strstr-Occurs (c ∷ s) at x k = elim (Bool-cases (starts (c ∷ s) (x ∷ k))) [
  | inl e ↦ rw e (0, omega arith, omega arith, e, (λ j lt. absurd (omega arith)))
  | inr n ↦
      rw n
        (Occurs-later c s at (x ∷ k) n (strstr s (suc at) (x ∷ k)) (strstr-Occurs s (suc at) x k))
]

drop-drop : (m n : ℕ) (s : Bytes) → drop n (drop m s) ≡ drop (m + n) s
drop-drop zero n s = ap (λ t. drop t s) (omega arith)
drop-drop (suc m) n [] = drop_nil n ∙ sym (drop_nil (suc m + n))
drop-drop (suc m) n (c ∷ s) =
    let e : (suc (m + n) ≡ suc m + n) = omega arith in drop-drop m n s ∙ ap (λ t. drop t (c ∷ s)) e

length-drop : (n : ℕ) (s : Bytes) → length (drop n s) ≡ length s - n
unfolding length
length-drop zero s = omega arith
length-drop (suc n) [] = omega arith
length-drop (suc n) (c ∷ s) = omega (arith, length-drop n s)

-- the occurrences that count: on the first byte of the header, or on their own at the start of a line
abbrev pub is_keyword : Bytes → Bytes → ℕ → Bool
is_keyword h k p = starts (drop p h) k && (p == 0 || at_line_start h k p)

abbrev pub First : Bytes → Bytes → Option ℕ → Type 0
First h k (some p) = (is_keyword h k p ≡ true) × ((j : ℕ) → j < p → is_keyword h k j ≡ false)
First h k none = (j : ℕ) → is_keyword h k j ≡ false

not_keyword : (h k : Bytes) (j : ℕ) → starts (drop j h) k ≡ false → is_keyword h k j ≡ false
not_keyword h k j n = rw n refl

-- what is known of the bytes from `m` on, said of the header
not_keyword_past :
    (h k : Bytes) (m j : ℕ)
    → m ≤ j
    → starts (drop (j - m) (drop m h)) k ≡ false
    → is_keyword h k j ≡ false
not_keyword_past h k m j le n =
    let e : (j ≡ m + (j - m)) = omega arith in
    not_keyword h k j
      (ap (λ t. starts t k) (ap (λ i. drop i h) e ∙ sym (drop-drop m (j - m) h)) ∙ n)

not_keyword_until :
    (h k : Bytes) (m d : ℕ)
    → ((j : ℕ) → j < m → is_keyword h k j ≡ false)
    → ((j : ℕ) → j < d → starts (drop j (drop m h)) k ≡ false)
    → (j : ℕ) → j < m + d
    → is_keyword h k j ≡ false
not_keyword_until h k m d before until j lt = elim (dec_lt j m) [
  | yes below ↦ before j below
  | no above ↦ not_keyword_past h k m j (omega arith) (until (j - m) (omega arith))
]

-- where the loop stands: before `m` no occurrence counts, and from `m` on strstr has found `r`
find_loop-First :
    (fuel : ℕ) (h : Bytes) (x : ℕ) (k : Bytes) (m : ℕ) (r : Option ℕ)
    → length h + 1 ≤ fuel + m
    → ((j : ℕ) → j < m → is_keyword h (x ∷ k) j ≡ false)
    → Occurs (drop m h) m (x ∷ k) r
    → First h (x ∷ k) (find_loop fuel h (x ∷ k) r)
unfolding find_loop
find_loop-First fuel h x k m none enough before o = λ j. elim (dec_lt j m) [
  | yes below ↦ before j below
  | no above ↦ not_keyword_past h (x ∷ k) m j (omega arith) (o (j - m))
]
find_loop-First zero h x k m (some p) enough before o =
    let (d, e, lt, here, until) = o in absurd (omega (arith, length-drop m h))
find_loop-First (suc fuel) h x k m (some p) enough before o =
    let (d, e, lt, here, until) = o in
    let earlier : ((j : ℕ) → j < p → is_keyword h (x ∷ k) j ≡ false) =
      λ j below. not_keyword_until h (x ∷ k) m d before until j (omega arith) in
    let there : (starts (drop p h) (x ∷ k) ≡ true) =
      ap (λ t. starts t (x ∷ k)) (ap (λ i. drop i h) e ∙ sym (drop-drop m d h)) ∙ here in
    elim (Bool-cases (p == 0)) [
      | inl z ↦ rw z (rw (there, z) refl, earlier)
      | inr nz ↦ elim (Bool-cases (at_line_start h (x ∷ k) p)) [
        | inl own ↦ rw (nz, own) (rw (there, nz, own) refl, earlier)
        | inr other ↦
            rw (nz, other)
              (find_loop-First fuel h x k (suc p) (strstr (drop (suc p) h) (suc p) (x ∷ k))
                (omega arith)
                (λ j below. elim (ℕ_discrete j p) [
                  | yes same ↦ rw same (rw (there, nz, other) refl)
                  | no apart ↦ earlier j (omega arith)
                ])
                (strstr-Occurs (drop (suc p) h) (suc p) x k))
      ]
    ]

-- `ascii_header_find` returns the first occurrence of a keyword that stands on the first byte of the
-- header, or follows a newline or a backslash and is followed by a blank or a tab; it returns none when
-- there is no such occurrence. The rounds of its loop are enough for every header.
pub find-First : (h : Bytes) (x : ℕ) (k : Bytes) → First h (x ∷ k) (find h (x ∷ k))
unfolding find
find-First h x k =
    find_loop-First (suc (length h)) h x k 0 (strstr h 0 (x ∷ k)) (omega arith)
      (λ j below. absurd (omega arith)) (strstr-Occurs h 0 x k)
