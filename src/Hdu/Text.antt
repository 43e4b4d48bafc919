-- ===== src/Hdu/Text.antt =====
-- src/dada_hdu.c: the texts of headers in memory.
use mirror_psrdada_code.Prelude.{
  ℕ, zero, suc, ◌+◌, ◌-◌, ◌<◌, ◌≤◌, ◌≡◌, inl, inr, refl, ap, ◌∙◌, true, false, not, leb, ◌==◌, [],
  ◌∷◌, Bool-cases, arith,
}
use mirror_psrdada_code.AsciiHeader.{Bytes, length, byte}
use mirror_psrdada_code.AsciiHeader.Proper.{proper}
use mirror_psrdada_code.AsciiHeader.Text.{both_true}
use mirror_psrdada_code.Hdu.{Memory, text_of, with_text}

pub proper-text_of : (n : ℕ) (m : Memory) (i : ℕ) → proper (text_of n m i) ≡ true
unfolding text_of
proper-text_of zero m i = refl
proper-text_of (suc n) m i = elim (Bool-cases (m i == 0)) [
  | inl null ↦ rw null refl
  | inr other ↦ rw (other, proper-text_of n m (suc i)) (rw other refl)
]

-- the text in a memory that has its bytes and a null behind them
text_of-bytes :
    (s : Bytes) (n : ℕ) (m : Memory) (i : ℕ)
    → proper s ≡ true
    → length s < n
    → ((j : ℕ) → j ≤ length s → m (i + j) ≡ byte s j)
    → text_of n m i ≡ s
unfolding text_of length
text_of-bytes s zero m i e lt same = absurd (omega (arith, lt))
text_of-bytes [] (suc n) m i e lt same =
    let null : (m i ≡ 0) = ap m (omega arith) ∙ same 0 (omega arith) in rw null refl
text_of-bytes (c ∷ s) (suc n) m i e lt same =
    let (x, rest) = both_true (not (c == 0)) (proper s) e in
    let first : (m i ≡ c) = ap m (omega arith) ∙ same 0 (omega arith) in
    let other : ((c == 0) ≡ false) = ground arith in
    let tail : (text_of n m (suc i) ≡ s) =
      text_of-bytes s n m (suc i) rest (omega (arith, lt))
        (λ j le. ap m (omega arith) ∙ same (suc j) (omega (arith, le))) in
    rw (first, other, tail) refl

pub text_of-with_text :
    (s : Bytes) (n : ℕ) (m : Memory)
    → proper s ≡ true
    → length s < n
    → text_of n (with_text s 0 m) 0 ≡ s
text_of-with_text s n m e lt = text_of-bytes s n (with_text s 0 m) 0 e lt (λ j le.
    let low : (leb 0 (0 + j) ≡ true) = ground arith in
    let high : (leb (0 + j) (0 + length s) ≡ true) = ground arith in
    let here : (0 + j - 0 ≡ j) = omega arith in rw (low, high, here) refl)
