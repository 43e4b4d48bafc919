-- ===== src/AsciiHeader/Text.antt =====
-- src/ascii_header.c: what the string functions that it uses come to on joined texts.
use mirror_psrdada_code.Prelude.{
  ℕ, zero, suc, ◌+◌, ◌≤◌, ◌<◌, ◌≡◌, refl, ap, Bool, true, false, not, ◌&&◌, ◌==◌, [], ◌∷◌, ◌++◌,
  arith,
}
use mirror_psrdada_code.AsciiHeader.{
  Bytes, codes, length, drop, take, byte, starts, strcspn, among, spaces, word_from, scan_word,
}

pub starts-prefix : (b r k : Bytes) → length k ≤ length b → starts (b ++ r) k ≡ starts b k
unfolding length
starts-prefix b r [] le = refl
starts-prefix [] r (x ∷ k) le = absurd (omega arith)
starts-prefix (c ∷ b) r (x ∷ k) le = ap (λ t. c == x && t) (starts-prefix b r k (omega arith))

pub byte-prefix : (b r : Bytes) (i : ℕ) → i < length b → byte (b ++ r) i ≡ byte b i
unfolding length
byte-prefix [] r i lt = absurd (omega arith)
byte-prefix (c ∷ b) r zero lt = refl
byte-prefix (c ∷ b) r (suc i) lt = byte-prefix b r i (omega arith)

pub drop-prefix : (a r : Bytes) (j : ℕ) → j ≤ length a → drop j (a ++ r) ≡ drop j a ++ r
unfolding length
drop-prefix a r zero le = refl
drop-prefix [] r (suc j) le = absurd (omega arith)
drop-prefix (c ∷ a) r (suc j) le = drop-prefix a r j (omega arith)

pub length-append : (a b : Bytes) → length (a ++ b) ≡ length a + length b
unfolding length
length-append [] b = omega arith
length-append (c ∷ a) b = omega (arith, length-append a b)

pub drop-length : (a r : Bytes) → drop (length a) (a ++ r) ≡ r
unfolding length
drop-length [] r = refl
drop-length (c ∷ a) r = drop-length a r

pub length-drop_le : (j : ℕ) (a : Bytes) → j ≤ length a → length (drop j a) + j ≡ length a
unfolding length
length-drop_le zero a le = omega arith
length-drop_le (suc j) [] le = absurd (omega arith)
length-drop_le (suc j) (c ∷ a) le = omega (arith, length-drop_le j a (omega arith))

pub both_true : (a b : Bool) → (a && b) ≡ true → (a ≡ true) × (b ≡ true)
both_true true b e = (refl, e)
both_true false b e = absurd cc

pub ==_sound : (a b : ℕ) → (a == b) ≡ true → a ≡ b
==_sound a b e = ground arith

pub starts_split : (s k : Bytes) → starts s k ≡ true → s ≡ k ++ drop (length k) s
unfolding length
starts_split s [] e = refl
starts_split [] (x ∷ k) e = absurd cc
starts_split (c ∷ s) (x ∷ k) e =
    let (same, rest) = both_true (c == x) (starts s k) e in
    rw (==_sound c x same) (ap (λ t. x ∷ t) (starts_split s k rest))

pub starts_self : (k r : Bytes) → starts (k ++ r) k ≡ true
starts_self [] r = refl
starts_self (x ∷ k) r = rw (starts_self k r) (ground arith)

pub take-drop : (p : ℕ) (s : Bytes) → s ≡ take p s ++ drop p s
take-drop zero s = refl
take-drop (suc p) [] = refl
take-drop (suc p) (c ∷ s) = ap (λ t. c ∷ t) (take-drop p s)

pub length-take :
    (p : ℕ) (s : Bytes) (x : ℕ) (k : Bytes)
    → starts (drop p s) (x ∷ k) ≡ true
    → length (take p s) ≡ p
unfolding length
length-take zero s x k e = refl
length-take (suc p) [] x k e = absurd cc
length-take (suc p) (c ∷ s) x k e = omega (arith, length-take p s x k e)

-- a text without blanks, tabs and newlines
abbrev pub plain : Bytes → Bool
plain [] = true
plain (c ∷ s) = not (among c (codes " \t\n")) && plain s

pub not-true : (b : Bool) → not b ≡ true → b ≡ false
not-true true e = absurd cc
not-true false e = refl

pub plain_cons :
    (c : ℕ) (s : Bytes)
    → plain (c ∷ s) ≡ true
    → (among c (codes " \t\n") ≡ false) × (plain s ≡ true)
plain_cons c s e =
    let (n, rest) = both_true (not (among c (codes " \t\n"))) (plain s) e in
    (not-true (among c (codes " \t\n")) n, rest)

pub strcspn-plain :
    (s z : Bytes) → plain s ≡ true → strcspn (s ++ (b' ' ∷ z)) (codes " \t\n") ≡ length s
unfolding strcspn length
strcspn-plain [] z e = refl
strcspn-plain (c ∷ s) z e = let (n, rest) = plain_cons c s e in rw (n, strcspn-plain s z rest) refl

pub word_from-plain : (s z : Bytes) → plain s ≡ true → word_from (s ++ (b' ' ∷ z)) ≡ s
unfolding word_from
word_from-plain [] z e = refl
word_from-plain (c ∷ s) z e =
    let (n, rest) = plain_cons c s e in rw (n, word_from-plain s z rest) refl

pub scan_word-spaces : (n : ℕ) (s : Bytes) → scan_word (spaces n ++ s) ≡ scan_word s
unfolding scan_word
scan_word-spaces zero s = refl
scan_word-spaces (suc n) s = scan_word-spaces n s

pub scan_word-plain :
    (c : ℕ) (s z : Bytes) → plain (c ∷ s) ≡ true → scan_word ((c ∷ s) ++ (b' ' ∷ z)) ≡ c ∷ s
unfolding scan_word
scan_word-plain c s z e =
    let (n, rest) = plain_cons c s e in rw n (ap (λ t. c ∷ t) (word_from-plain s z rest))

pub spaces-shift : (n : ℕ) (z : Bytes) → spaces n ++ (b' ' ∷ z) ≡ b' ' ∷ (spaces n ++ z)
spaces-shift zero z = refl
spaces-shift (suc n) z = ap (λ t. b' ' ∷ t) (spaces-shift n z)
