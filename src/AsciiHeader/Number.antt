-- ===== src/AsciiHeader/Number.antt =====
-- src/ascii_header.c: a number that is set with "%lu" is the number that is got with "%lu".
use mathlib.Core.Path.{subst}
use mirror_psrdada_code.Prelude.{
  ℕ, zero, suc, ◌+◌, ◌-◌, ◌*◌, ◌/◌, ◌%◌, ◌^◌, ◌<◌, ◌≡◌, inl, inr, refl, ap, sym, ◌∙◌, Bool, true,
  false, ◌&&◌, ltb, ◌==◌, [], ◌∷◌, some, Bool-cases, arith,
}
use mirror_psrdada_code.AsciiHeader.{
  Bytes, codes, among, find, set, get, scan_word, word_from, value, is_digit, scan_digits,
  scan_number, digits, print_u64, number, signed,
}
use mirror_psrdada_code.AsciiHeader.RoundTrip.{get-set}
use mirror_psrdada_code.AsciiHeader.Text.{plain, both_true}

abbrev pub all_digits : Bytes → Bool
all_digits [] = true
all_digits (c ∷ s) = is_digit c && all_digits s

is_digit-not_blank : (c : ℕ) → is_digit c ≡ true → among c (codes " \t\n") ≡ false
is_digit-not_blank c e = ground arith

blank-not_digit : (c : ℕ) → among c (codes " \t\n") ≡ true → is_digit c ≡ false
blank-not_digit c e = ground arith

all_digits-plain : (s : Bytes) → all_digits s ≡ true → plain s ≡ true
all_digits-plain [] e = refl
all_digits-plain (c ∷ s) e =
    let (d, rest) = both_true (is_digit c) (all_digits s) e in
    rw (is_digit-not_blank c d, all_digits-plain s rest) refl

digit-is_digit : (n : ℕ) → is_digit (b'0' + n % 10) ≡ true
digit-is_digit n = ground arith

pub digits-all_digits :
    (fuel n : ℕ) (out : Bytes) → all_digits out ≡ true → all_digits (digits fuel n out) ≡ true
unfolding digits
digits-all_digits zero n out e = e
digits-all_digits (suc fuel) n out e =
    let front : (all_digits ((b'0' + n % 10) ∷ out) ≡ true) = rw (digit-is_digit n, e) refl in
    elim (Bool-cases (ltb n 10)) [
      | inl small ↦ rw small front
      | inr large ↦ rw large (digits-all_digits fuel (n / 10) ((b'0' + n % 10) ∷ out) front)
    ]

-- the digits are never none
digits-cons :
    (fuel n d : ℕ) (out : Bytes) → (c : ℕ) × (s : Bytes) × (digits fuel n (d ∷ out) ≡ c ∷ s)
unfolding digits
digits-cons zero n d out = (d, out, refl)
digits-cons (suc fuel) n d out = elim (Bool-cases (ltb n 10)) [
  | inl small ↦ (b'0' + n % 10, d ∷ out, rw small refl)
  | inr large ↦
      let (c, s, e) = digits-cons fuel (n / 10) (b'0' + n % 10) (d ∷ out) in (c, s, rw large e)
]

print_u64-cons : (n : ℕ) → (c : ℕ) × (s : Bytes) × (print_u64 n ≡ c ∷ s)
unfolding print_u64 digits
print_u64-cons n = elim (Bool-cases (ltb n 10)) [
  | inl small ↦ (b'0' + n % 10, [], rw small refl)
  | inr large ↦ let (c, s, e) = digits-cons 19 (n / 10) (b'0' + n % 10) [] in (c, s, rw large e)
]

scan_digits-digit :
    (n m : ℕ) (out : Bytes)
    → scan_digits ((b'0' + n % 10) ∷ out) m ≡ scan_digits out (m * 10 + n % 10)
unfolding scan_digits
scan_digits-digit n m out =
    let same : (m * 10 + (b'0' + n % 10 - b'0') ≡ m * 10 + n % 10) = omega arith in
    rw (digit-is_digit n, same) refl

scan_digits-digits :
    (fuel n : ℕ) (out : Bytes)
    → n < 10 ^ fuel
    → scan_digits (digits fuel n out) 0 ≡ scan_digits out n
unfolding digits
scan_digits-digits zero n out lt = let z : (n ≡ 0) = omega arith in ap (scan_digits out) (sym z)
scan_digits-digits (suc fuel) n out lt = elim (Bool-cases (ltb n 10)) [
  | inl small ↦
      let same : (0 * 10 + n % 10 ≡ n) = ground arith in
      rw small (scan_digits-digit n 0 out ∙ ap (scan_digits out) same)
  | inr large ↦
      let same : (n / 10 * 10 + n % 10 ≡ n) = omega arith in
      rw large (
        scan_digits-digits fuel (n / 10) ((b'0' + n % 10) ∷ out) (omega arith)
        ∙ scan_digits-digit n (n / 10) out
        ∙ ap (scan_digits out) same)
]

-- a number ends where the word does
scan_digits-word_from : (s : Bytes) (n : ℕ) → scan_digits s n ≡ scan_digits (word_from s) n
unfolding scan_digits word_from
scan_digits-word_from [] n = refl
scan_digits-word_from (c ∷ s) n = elim (Bool-cases (among c (codes " \t\n"))) [
  | inl blank ↦ rw (blank, blank-not_digit c blank) refl
  | inr other ↦ rw (other, scan_digits-word_from s (n * 10 + (c - b'0'))) refl
]

-- a digit is no sign
number-digit :
    (c : ℕ) (s : Bytes)
    → is_digit c ≡ true
    → number 64 (signed c s).0 (signed c s).1 ≡ value (scan_digits (c ∷ s) 0 % 2 ^ 64)
unfolding scan_digits
number-digit c s d =
    let no_minus : ((c == b'-') ≡ false) = ground arith in
    let no_plus : ((c == b'+') ≡ false) = ground arith in rw (no_minus, no_plus, d) refl

scan_number-word :
    (t : Bytes) (c : ℕ) (s : Bytes)
    → scan_word t ≡ c ∷ s
    → all_digits (c ∷ s) ≡ true
    → scan_number 64 t ≡ value (scan_digits (c ∷ s) 0 % 2 ^ 64)
unfolding scan_word word_from scan_number
scan_number-word [] c s e ds = absurd cc
scan_number-word (x ∷ t) c s e ds = elim (Bool-cases (among x (codes " \t\n"))) [
  | inl blank ↦
      let rest : (scan_word t ≡ c ∷ s) = rw blank at e in rw blank (scan_number-word t c s rest ds)
  | inr other ↦
      let rest : (x ∷ word_from t ≡ c ∷ s) = rw other at e in
      let head : (x ≡ c) = cc in
      let digit : (is_digit x ≡ true) = rw head (both_true (is_digit c) (all_digits s) ds).0 in
      let word : (word_from (x ∷ t) ≡ c ∷ s) = rw other rest in
      rw other (
        number-digit x t digit
        ∙ ap (λ n. value (n % 2 ^ 64))
            (scan_digits-word_from (x ∷ t) 0 ∙ ap (λ u. scan_digits u 0) word))
]

-- A keyword that is in the header, without blanks: a 64-bit number that is set for it with "%lu" is the
-- number that "%lu" then reads, whatever the header.
pub get-set_u64 :
    (h : Bytes) (x : ℕ) (k : Bytes) (n p : ℕ)
    → find h (x ∷ k) ≡ some p
    → plain (x ∷ k) ≡ true
    → n < 2 ^ 64
    → (t : Bytes) × (get (set h (x ∷ k) (print_u64 n)) (x ∷ k) ≡ some t)
      × (scan_number 64 t ≡ value n)
unfolding print_u64 scan_digits
get-set_u64 h x k n p found e lt =
    let (c, s, printed) = print_u64-cons n in
    let ds : (all_digits (c ∷ s) ≡ true) =
      subst (λ u. all_digits u ≡ true) printed (digits-all_digits 20 n [] refl) in
    let (t, got, word) = get-set h x k c s p found e (all_digits-plain (c ∷ s) ds) in
    let read : (scan_digits (c ∷ s) 0 ≡ n) =
      ap (λ u. scan_digits u 0) (sym printed) ∙ scan_digits-digits 20 n [] (omega arith) in
    let whole : (n % 2 ^ 64 ≡ n) = omega arith in
    (
      t,
      ap (λ v. get (set h (x ∷ k) v) (x ∷ k)) printed ∙ got,
      scan_number-word t c s word ds ∙ ap (λ m. value (m % 2 ^ 64)) read ∙ ap value whole,
    )
