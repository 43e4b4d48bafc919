-- ===== src/Prelude/Words.antt =====
-- C integer types: `uint64_t`, the bytes of `char` and the signed 16-bit `short` of `sem_op`.
use Prim.Native.Nat.{ℕ, ◌+◌, ◌-◌, ◌*◌, ◌%◌, ◌^◌, ◌<◌, ◌≤◌}
use mathlib.Core.Path.{◌≡◌}
use native.Mathlib.Omega.{arith}
use mathlib.Core.Bool.{Bool, true, false}
use mirror_psrdada_code.Prelude.Tests.{ltb, ◌==◌, if◌then◌else◌}

-- `negsuc n` is -(n + 1).
pub data ℤ : Type 0 where
  pos : ℕ → ℤ
  negsuc : ℕ → ℤ

-- `uint64_t` addition, subtraction and increment
abbrev pub add64 : ℕ → ℕ → ℕ
add64 a b = (a + b) % 2 ^ 64

abbrev pub sub64 : ℕ → ℕ → ℕ
sub64 a b = (a + 2 ^ 64 - b) % 2 ^ 64

abbrev pub mul64 : ℕ → ℕ → ℕ
mul64 a b = (a * b) % 2 ^ 64

abbrev pub inc64 : ℕ → ℕ
inc64 a = (a + 1) % 2 ^ 64

-- `char` increment and decrement, by the bit pattern
abbrev pub inc8 : ℕ → ℕ
inc8 c = (c + 1) % 256

abbrev pub dec8 : ℕ → ℕ
dec8 c = (c + 255) % 256

-- the conversion of a `uint64_t` argument to `short`
unfoldable pub short_of : ℕ → ℤ
short_of n =
    if ltb (n % 2 ^ 16) (2 ^ 15) then pos (n % 2 ^ 16) else negsuc (2 ^ 16 - 1 - n % 2 ^ 16)

pub short_of-small : (n : ℕ) → n < 2 ^ 15 → short_of n ≡ pos n
unfolding short_of
short_of-small n h = ground arith

-- A small difference that wrapped below zero comes out negative.
pub short_of-wrapped :
    (a b : ℕ) → a < 2 ^ 64 → a < b → b ≤ a + 2 ^ 15 → short_of (sub64 a b) ≡ negsuc (b - a - 1)
unfolding short_of
short_of-wrapped a b h lt small = ground arith

-- `unsigned` multiplication
abbrev pub mul32 : ℕ → ℕ → ℕ
mul32 a b = (a * b) % 2 ^ 32

-- `time_t`, a signed count of seconds: `!t`, `a < b`, and `a - b` as a `uint64_t`
abbrev pub is_zero : ℤ → Bool
is_zero (pos n) = n == 0
is_zero (negsuc n) = false

abbrev pub before : ℤ → ℤ → Bool
before (pos a) (pos b) = ltb a b
before (pos a) (negsuc b) = false
before (negsuc a) (pos b) = true
before (negsuc a) (negsuc b) = ltb b a

abbrev pub seconds_since : ℤ → ℤ → ℕ
seconds_since (pos a) (pos b) = sub64 a b
seconds_since (pos a) (negsuc b) = (a + b + 1) % 2 ^ 64
seconds_since (negsuc a) (pos b) = sub64 0 ((a + b + 1) % 2 ^ 64)
seconds_since (negsuc a) (negsuc b) = sub64 b a
