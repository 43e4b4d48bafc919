-- ===== src/Prelude/Tests.antt =====
-- Boolean tests on the native numbers, and the conditional.
use Prim.Native.Nat.{ℕ, zero, suc, ◌≤◌, ◌<◌, compare, Ordering}
use mathlib.Core.Path.{◌≡◌, refl}
use mathlib.Core.Logic.{◌⊎◌, inl, inr}
use mathlib.Core.Bool.{Bool, true, false}
use native.Mathlib.Decide.{dec_lt}
use native.Mathlib.Omega.{arith}

abbrev pub ltb : ℕ → ℕ → Bool
ltb a b = elim (compare a b) [ Ordering.lt ↦ true | _ ↦ false ]

abbrev pub leb : ℕ → ℕ → Bool
leb a b = elim (compare a b) [ Ordering.gt ↦ false | _ ↦ true ]

infix 50 ◌==◌
abbrev pub ◌==◌ : ℕ → ℕ → Bool
a == b = elim (compare a b) [ Ordering.eq ↦ true | _ ↦ false ]

infix 1 if◌then◌else◌
abbrev pub if◌then◌else◌ {ℓ} : {A : Type ℓ} → Bool → A → A → A
if true then x else y = x
if false then x else y = y

-- To split on a computed test and keep the equation.
pub Bool-cases : (b : Bool) → (b ≡ true) ⊎ (b ≡ false)
Bool-cases true = inl refl
Bool-cases false = inr refl

pub ==_refl : (a : ℕ) → (a == a) ≡ true
==_refl a = ground arith

pub ltb_of_lt : {a b : ℕ} → a < b → ltb a b ≡ true
ltb_of_lt h = ground arith

pub leb_of_le : {a b : ℕ} → a ≤ b → leb a b ≡ true
leb_of_le h = ground arith

-- A test on the numbers below `n` holds everywhere, or fails somewhere.
pub all_or_some :
    (n : ℕ) (p : ℕ → Bool) → ((j : ℕ) → j < n → p j ≡ true) ⊎ ((j : ℕ) × (j < n) × (p j ≡ false))
all_or_some zero p = inl (λ j h. absurd (omega arith))
all_or_some (suc n) p = elim (all_or_some n p) [
  | inl all ↦ elim (Bool-cases (p n)) [
    | inl e ↦ inl (λ j h. elim (dec_lt j n) [ yes lt ↦ all j lt | no ge ↦ ground arith ])
    | inr e ↦ inr (n, omega arith, e)
  ]
  | inr some_j ↦ let (j, h, e) = some_j in inr (j, omega arith, e)
]
