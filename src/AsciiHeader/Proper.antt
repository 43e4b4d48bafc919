-- ===== src/AsciiHeader/Proper.antt =====
-- src/ascii_header.c: texts without a null in them stay so.
use mirror_psrdada_code.Prelude.{
  ℕ, zero, suc, ◌-◌, ◌≡◌, refl, Bool, true, not, ◌&&◌, leb, ◌==◌, [], ◌∷◌, ◌++◌, some, arith,
}
use mirror_psrdada_code.AsciiHeader.{
  Bytes, codes, length, drop, take, strcspn, find, spaces, pad, line, set,
}
use mirror_psrdada_code.AsciiHeader.Number.{all_digits}
use mirror_psrdada_code.AsciiHeader.Text.{both_true}

-- a text without a null in it
abbrev pub proper : Bytes → Bool
proper [] = true
proper (c ∷ s) = not (c == 0) && proper s

proper-append : (a b : Bytes) → proper a ≡ true → proper b ≡ true → proper (a ++ b) ≡ true
proper-append [] b e f = f
proper-append (c ∷ a) b e f =
    let (x, rest) = both_true (not (c == 0)) (proper a) e in rw (x, proper-append a b rest f) refl

proper-take : (n : ℕ) (s : Bytes) → proper s ≡ true → proper (take n s) ≡ true
proper-take zero s e = refl
proper-take (suc n) [] e = refl
proper-take (suc n) (c ∷ s) e =
    let (x, rest) = both_true (not (c == 0)) (proper s) e in rw (x, proper-take n s rest) refl

proper-drop : (n : ℕ) (s : Bytes) → proper s ≡ true → proper (drop n s) ≡ true
proper-drop zero s e = e
proper-drop (suc n) [] e = refl
proper-drop (suc n) (c ∷ s) e = proper-drop n s (both_true (not (c == 0)) (proper s) e).1

proper-spaces : (n : ℕ) → proper (spaces n) ≡ true
proper-spaces zero = refl
proper-spaces (suc n) = proper-spaces n

proper-line : (k v : Bytes) → proper k ≡ true → proper v ≡ true → proper (line k v) ≡ true
proper-line k v e f =
    proper-append (pad 12 k) (b' ' ∷ (pad 20 v ++ spaces 3))
      (proper-append k (spaces (12 - length k)) e (proper-spaces (12 - length k)))
      (proper-append (pad 20 v) (spaces 3)
        (proper-append v (spaces (20 - length v)) f (proper-spaces (20 - length v))) refl)

pub proper-set :
    (h k v : Bytes) {p : ℕ}
    → find h k ≡ some p
    → proper h ≡ true
    → proper k ≡ true
    → proper v ≡ true
    → proper (set h k v) ≡ true
unfolding set
proper-set h k v {p} found e f g =
    let stop = strcspn (drop p h) (codes "#\n") in
    rw found (
      proper-append (take p h) (line k v ++ drop stop (drop p h)) (proper-take p h e) (
        proper-append (line k v) (drop stop (drop p h)) (proper-line k v f g)
          (proper-drop stop (drop p h) (proper-drop p h e))))

pub all_digits-proper : (s : Bytes) → all_digits s ≡ true → proper s ≡ true
all_digits-proper [] e = refl
all_digits-proper (c ∷ s) e =
    let (d, rest) = both_true (leb b'0' c && leb c b'9') (all_digits s) e in
    let some_char : (not (c == 0) ≡ true) = ground arith in
    rw (some_char, all_digits-proper s rest) refl
