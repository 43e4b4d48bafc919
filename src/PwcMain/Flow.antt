-- ===== src/PwcMain/Flow.antt =====
-- src/dada_pwc_main.c: functions that return early. A step of such a function goes on with a value, or
-- the function returns a number, or it waits, or the program stops at a null pointer or an assertion.
use mirror_psrdada_code.Prelude.{
  ℕ, ◌%◌, ◌^◌, ◌-◌, Bool, ltb, if◌then◌else◌, ℤ, pos, negsuc, Option, none, some,
}
use mirror_psrdada_code.Client.{as_word}
use mirror_psrdada_code.Hdu.{Memory}
use mirror_psrdada_code.Ipcbuf.Writer.{mark_filled}
use mirror_psrdada_code.Kernel.{Kernel}
use mirror_psrdada_code.Process.{Outcome, ok, fail, asleep, Call}
use mirror_psrdada_code.PwcMain.{Main, Program, validated, on_header, dada_error_hard}

pub data Flow {ℓ} (A : Type ℓ) : Type ℓ where
  go : A → Flow A
  leave : ℤ → Flow A
  crash sleep : Flow A

-- an `int64_t` as an `int`
abbrev pub as_int : ℤ → ℤ
as_int z = let w = as_word z % 2 ^ 32 in if ltb w (2 ^ 31) then pos w else negsuc (2 ^ 32 - 1 - w)

-- a call whose failure makes the function return `code`; one whose failure is not looked at; and one
-- whose null result is followed
abbrev pub checked {ℓ} : {A : Type ℓ} → ℤ → Outcome A → Flow A
checked code (ok a) = go a
checked code fail = leave code
checked code asleep = sleep

abbrev pub unchecked {ℓ} : {A : Type ℓ} → Outcome A → Flow (Unit {0})
unchecked (ok a) = go tt
unchecked fail = go tt
unchecked asleep = sleep

-- an `int64_t` result that is compared as a `uint64_t`, where -1 is the greatest number
abbrev pub unsigned : Outcome ℕ → Flow ℕ
unsigned (ok n) = go n
unsigned fail = go (2 ^ 64 - 1)
unsigned asleep = sleep

abbrev pub followed {ℓ} : {A : Type ℓ} → Outcome A → Flow A
followed (ok a) = go a
followed fail = crash
followed asleep = sleep

-- a function that returned, to its caller
abbrev pub returned : Flow ℤ → Flow ℤ
returned (go r) = go r
returned (leave r) = go r
returned crash = crash
returned sleep = sleep

abbrev pub Run {ℓ} : Type 0 → Type ℓ → Type ℓ
Run C A = Main C → Flow A × Main C

module _ {C : Type 0} where
  abbrev pub after {ℓ κ} :
      {A : Type ℓ} {B : Type κ} → Flow A → Main C → (A → Run C B) → Flow B × Main C
  after (go a) c f = f a c
  after (leave r) c f = (leave r, c)
  after crash c f = (crash, c)
  after sleep c f = (sleep, c)

  infixl 5 ◌>>=◌ ◌>>◌
  unfoldable pub ◌>>=◌ {ℓ κ} : {A : Type ℓ} {B : Type κ} → Run C A → (A → Run C B) → Run C B
  ◌>>=◌ m f c = after (m c).0 (m c).1 f

  abbrev pub ◌>>◌ {ℓ} : {B : Type ℓ} → Run C (Unit {0}) → Run C B → Run C B
  m >> k = m >>= λ u. k

  abbrev pub pure {ℓ} : {A : Type ℓ} → A → Run C A
  pure a c = (go a, c)

  abbrev pub give_up {ℓ} : {A : Type ℓ} → ℤ → Run C A
  give_up r c = (leave r, c)

  abbrev pub die {ℓ} : {A : Type ℓ} → Run C A
  die c = (crash, c)

  abbrev pub get : Run C (Main C)
  get c = (go c, c)

  abbrev pub modify : (Main C → Main C) → Run C (Unit {0})
  modify f c = (go tt, f c)

  abbrev pub when : Bool → Run C (Unit {0}) → Run C (Unit {0})
  when b m = if b then m else pure tt

  abbrev pub or_return {ℓ} : {A : Type ℓ} → ℤ → Call (Main C) A → Run C A
  or_return code m c = (checked code (m c).0, (m c).1)

  abbrev pub ignoring {ℓ} : {A : Type ℓ} → Call (Main C) A → Run C (Unit {0})
  ignoring m c = (unchecked (m c).0, (m c).1)

  abbrev pub unsigned_result : Call (Main C) ℕ → Run C ℕ
  unsigned_result m c = (unsigned (m c).0, (m c).1)

  abbrev pub following {ℓ} : {A : Type ℓ} → Call (Main C) A → Run C A
  following m c = (followed (m c).0, (m c).1)

  abbrev pub value_of : Run C ℤ → Run C ℤ
  value_of m c = (returned (m c).0, (m c).1)

  -- what a pointer points to
  abbrev pub target_of {ℓ} : {A : Type ℓ} → Option A → Run C A
  target_of none = die
  target_of (some a) = pure a

  -- the bytes of the block that `header` points to
  abbrev pub header_bytes : Run C Memory
  header_bytes = do c ← get; b ← target_of c.header; pure (c.header_block.mem b)

  module _ ⦃k : Kernel⦄ where
    abbrev pub mark_header : Run C (Unit {0})
    mark_header = do c ← get; or_return dada_error_hard (on_header (mark_filled c.header_size))

    -- `header_valid` is set by the program's function, which may be null
    abbrev pub validate : Program C → Run C Bool
    validate f = do modify (validated f.header_valid_function); c ← get; pure c.header_valid
