-- ===== src/AsciiHeader/RoundTrip.antt =====
-- src/ascii_header.c: a value that is set is the value that is got.
use mathlib.Core.Path.{subst}
use mathlib.Core.List.{append_assoc}
use mirror_psrdada_code.Prelude.{
  ℕ, suc, ◌+◌, ◌-◌, ◌<◌, ◌≡◌, inl, inr, refl, ap, sym, ◌∙◌, Bool, true, false, ◌||◌, ◌==◌, [], ◌∷◌,
  ◌++◌, Option, none, some, Bool-cases, dec_lt, arith,
}
use mirror_psrdada_code.AsciiHeader.{
  Bytes, codes, length, drop, take, byte, strcspn, find, spaces, pad, line, set, get, scan_word,
}
use mirror_psrdada_code.AsciiHeader.Text.{
  plain, starts-prefix, byte-prefix, drop-prefix, length-append, drop-length, length-drop_le,
  both_true, starts_split, starts_self, take-drop, length-take, strcspn-plain, scan_word-spaces,
  scan_word-plain, spaces-shift,
}
use mirror_psrdada_code.AsciiHeader.Find.{is_keyword, First, find-First}

-- an occurrence with a byte behind it depends on nothing further on
is_keyword_within :
    (b r k : Bytes) (j : ℕ) → j + length k < length b → is_keyword (b ++ r) k j ≡ is_keyword b k j
is_keyword_within b r k j lt =
    rw
      (
        drop-prefix b r j (omega arith),
        starts-prefix (drop j b) r k (omega (arith, length-drop_le j b (omega arith))),
        byte-prefix b r (j - 1) (omega arith),
        byte-prefix b r (j + length k) lt,
      )
      refl

-- an occurrence that begins in `a` reads nothing behind the keyword that follows `a`
is_keyword_same :
    (a k r t : Bytes) (j : ℕ)
    → j < length a
    → is_keyword (a ++ (k ++ r)) k j ≡ is_keyword (a ++ (k ++ t)) k j
is_keyword_same a k r t j lt =
    let within : (j + length k < length (a ++ k)) = omega (arith, length-append a k) in
    ap (λ h. is_keyword h k j) (sym (append_assoc a k r))
    ∙ is_keyword_within (a ++ k) r k j within
    ∙ sym (is_keyword_within (a ++ k) t k j within)
    ∙ ap (λ h. is_keyword h k j) (append_assoc a k t)

-- there is one first occurrence
First-unique :
    (h k : Bytes) (r : Option ℕ) (p : ℕ)
    → First h k r
    → is_keyword h k p ≡ true
    → ((j : ℕ) → j < p → is_keyword h k j ≡ false)
    → r ≡ some p
First-unique h k none p f here before = absurd (cc (f p, here))
First-unique h k (some q) p f here before =
    let (own, none_before) = f in
    elim (dec_lt p q) [
      | yes below ↦ absurd (cc (none_before p below, here))
      | no above ↦ elim (dec_lt q p) [
        | yes less ↦ absurd (cc (before q less, own))
        | no not_less ↦ let e : (q ≡ p) = omega arith in ap (λ n. some n) e
      ]
    ]

-- the line that is written, from its keyword on
line_split :
    (k v t : Bytes)
    → line k v ++ t ≡ k ++ (b' ' ∷ (spaces (12 - length k) ++ (pad 20 v ++ (spaces 3 ++ t))))
line_split k v t =
    let n = 12 - length k in
    append_assoc (pad 12 k) (b' ' ∷ (pad 20 v ++ spaces 3)) t
    ∙ append_assoc k (spaces n) (b' ' ∷ ((pad 20 v ++ spaces 3) ++ t))
    ∙ ap (λ z. k ++ (spaces n ++ (b' ' ∷ z))) (append_assoc (pad 20 v) (spaces 3) t)
    ∙ ap (λ z. k ++ z) (spaces-shift n (pad 20 v ++ (spaces 3 ++ t)))

-- the value in it
scan_word-line :
    (n y : ℕ) (v t : Bytes)
    → plain (y ∷ v) ≡ true
    → scan_word (b' ' ∷ (spaces n ++ (pad 20 (y ∷ v) ++ (spaces 3 ++ t)))) ≡ y ∷ v
scan_word-line n y v t e =
    let m = 20 - length (y ∷ v) in
    scan_word-spaces (suc n) (pad 20 (y ∷ v) ++ (spaces 3 ++ t))
    ∙ ap scan_word (
        append_assoc (y ∷ v) (spaces m) (spaces 3 ++ t)
        ∙ ap (λ z. (y ∷ v) ++ z) (spaces-shift m (spaces 2 ++ t)))
    ∙ scan_word-plain y v (spaces m ++ (spaces 2 ++ t)) e

byte_next : (b r : Bytes) (c : ℕ) → byte (b ++ (c ∷ r)) (length b) ≡ c
unfolding length
byte_next [] r c = refl
byte_next (x ∷ b) r c = byte_next b r c

byte_after : (a k r : Bytes) (c : ℕ) → byte (a ++ (k ++ (c ∷ r))) (length a + length k) ≡ c
byte_after a k r c =
    ap (λ s. byte s (length a + length k)) (sym (append_assoc a k (c ∷ r)))
    ∙ ap (λ i. byte ((a ++ k) ++ (c ∷ r)) i) (sym (length-append a k))
    ∙ byte_next (a ++ k) r c

or_right : (a b : Bool) → a ≡ false → (a || b) ≡ true → b ≡ true
or_right true b n e = absurd cc
or_right false b n e = e

is_keyword_after :
    (a k r z : Bytes)
    → is_keyword (a ++ (k ++ r)) k (length a) ≡ true
    → is_keyword (a ++ (k ++ (b' ' ∷ z))) k (length a) ≡ true
is_keyword_after a k r z own =
    let rest = k ++ (b' ' ∷ z) in
    elim (Bool-cases (length a == 0)) [
      | inl none_before ↦ rw (drop-length a rest, starts_self k (b' ' ∷ z), none_before) refl
      | inr nz ↦
          let i = length a - 1 in
          let lt : (i < length a) = ground arith in
          let (s, c) = both_true _ _ own in
          let (alone, behind) = both_true _ _ (or_right (length a == 0) _ nz c) in
          let before : ((byte a i == b'\n' || byte a i == b'\\') ≡ true) =
            ap (λ b. b == b'\n' || b == b'\\') (sym (byte-prefix a (k ++ r) i lt)) ∙ alone in
          rw
            (
              drop-length a rest,
              starts_self k (b' ' ∷ z),
              nz,
              byte-prefix a rest i lt,
              byte_after a k z b' ',
              before,
            )
            refl
    ]

-- What follows a keyword may be changed, if it starts with a blank: the first occurrence that counts
-- stays the first.
find-changed :
    (a : Bytes) (x : ℕ) (k r z : Bytes)
    → First (a ++ ((x ∷ k) ++ r)) (x ∷ k) (some (length a))
    → find (a ++ ((x ∷ k) ++ (b' ' ∷ z))) (x ∷ k) ≡ some (length a)
find-changed a x k r z f =
    let h = a ++ ((x ∷ k) ++ (b' ' ∷ z)) in
    let (own, before) = f in
    First-unique h (x ∷ k) (find h (x ∷ k)) (length a) (find-First h x k)
      (is_keyword_after a (x ∷ k) r z own)
      (λ j below. is_keyword_same a (x ∷ k) (b' ' ∷ z) r j below ∙ before j below)

-- the text behind the keyword
get-found :
    (a : Bytes) (x : ℕ) (k z : Bytes)
    → plain (x ∷ k) ≡ true
    → find (a ++ ((x ∷ k) ++ (b' ' ∷ z))) (x ∷ k) ≡ some (length a)
    → get (a ++ ((x ∷ k) ++ (b' ' ∷ z))) (x ∷ k) ≡ some (b' ' ∷ z)
unfolding get
get-found a x k z e f =
    rw
      (
        f,
        drop-length a ((x ∷ k) ++ (b' ' ∷ z)),
        strcspn-plain (x ∷ k) z e,
        drop-length (x ∷ k) (b' ' ∷ z),
      )
      refl

-- A keyword that is in the header, without blanks in it or in the value: the value that is set is the
-- first word of the text that is then got for the keyword, whatever the header.
pub get-set :
    (h : Bytes) (x : ℕ) (k : Bytes) (y : ℕ) (v : Bytes) (p : ℕ)
    → find h (x ∷ k) ≡ some p
    → plain (x ∷ k) ≡ true
    → plain (y ∷ v) ≡ true
    → (t : Bytes) × (get (set h (x ∷ k) (y ∷ v)) (x ∷ k) ≡ some t) × (scan_word t ≡ y ∷ v)
unfolding set
get-set h x k y v p found e f =
    let K = x ∷ k in
    let a = take p h in
    let first : First h K (some p) = subst (λ o. First h K o) found (find-First h x k) in
    let (here, _) = both_true _ _ first.0 in
    let r = drop (length K) (drop p h) in
    let parts : (h ≡ a ++ (K ++ r)) =
      take-drop p h ∙ ap (λ t. a ++ t) (starts_split (drop p h) K here) in
    let first_here : First (a ++ (K ++ r)) K (some (length a)) =
      subst (λ s. First s K (some (length a))) parts
        (subst (λ q. First h K (some q)) (sym (length-take p h x k here)) first) in
    let t = drop (strcspn (drop p h) (codes "#\n")) (drop p h) in
    let z = spaces (12 - length K) ++ (pad 20 (y ∷ v) ++ (spaces 3 ++ t)) in
    rw found (
      b' ' ∷ z,
      ap (λ u. get (a ++ u) K) (line_split K (y ∷ v) t)
          ∙ get-found a x k z e (find-changed a x k r z first_here),
      scan_word-line (12 - length K) y v t f,
    )
