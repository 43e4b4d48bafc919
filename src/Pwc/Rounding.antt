-- ===== src/Pwc/Rounding.antt =====
-- src/dada_pwc.c: the byte at which a command with a time takes effect.
use native.Mathlib.Nat.{div-add-mod', mod-lt, mul-mod_left}
use mirror_psrdada_code.Prelude.{
  ℕ, ◌+◌, ◌*◌, ◌/◌, ◌%◌, ◌^◌, ◌≤◌, ◌<◌, ◌≡◌, ◌⊎◌, inl, inr, refl, ap, ◌∙◌, Bool, ◌||◌, Bool-cases,
  true, false, pos, dec_lt, arith,
}
use mirror_psrdada_code.Process.{ok}
use mirror_psrdada_code.Pwc.{record_stop, stop, Code, ◌is_code◌, Command, Primary}
use mirror_psrdada_code.Pwc.Request.{round_bytes, command_set_byte_count}

round_bytes-down :
    (code : Code) (r n : ℕ)
    → 1 < r
    → n + r < 2 ^ 64
    → code is_code record_stop ≡ false
    → code is_code stop ≡ false
    → round_bytes code r n ≡ n / r * r
unfolding round_bytes
round_bytes-down code r n h fits a b = ground (arith, div-add-mod' n r)

round_bytes-up :
    (code : Code) (r n : ℕ)
    → 1 < r
    → n + r < 2 ^ 64
    → (code is_code record_stop || code is_code stop) ≡ true
    → round_bytes code r n ≡ n / r * r + r
unfolding round_bytes
round_bytes-up code r n h fits a = ground (arith, div-add-mod' n r)

round_bytes-whole : (code : Code) (r n : ℕ) → 1 < r → n + r < 2 ^ 64 → round_bytes code r n % r ≡ 0
round_bytes-whole code r n h fits =
    elim (Bool-cases (code is_code record_stop || code is_code stop)) [
      | inl up ↦
          ap (λ t. t % r) (round_bytes-up code r n h fits up ∙ grind arith)
          ∙ mul-mod_left (n / r + 1) r
      | inr down ↦
          ap (λ t. t % r)
            (round_bytes-down code r n h fits (ground (arith, down)) (ground (arith, down)))
          ∙ mul-mod_left (n / r) r
    ]

abbrev pub Near : (code : Code) (r n b : ℕ) → Type 0
Near code r n b =
    (code is_code record_stop ≡ false) × (code is_code stop ≡ false) × (b ≤ n) × (n < b + r)
    ⊎ ((code is_code record_stop ≡ true) ⊎ (code is_code stop ≡ true)) × (n < b) × (b ≤ n + r)

or_cases : (a b : Bool) → (a ≡ true) ⊎ (b ≡ true) ⊎ ((a ≡ false) × (b ≡ false))
or_cases true b = inl refl
or_cases false true = inr (inl refl)
or_cases false false = inr (inr (refl, refl))

quotient_near : (n r : ℕ) → 0 < r → (n / r * r ≤ n) × (n < n / r * r + r)
quotient_near n r h = (omega (arith, div-add-mod' n r), omega (arith, div-add-mod' n r, mod-lt n h))

round_bytes-Near :
    (code : Code) (r n : ℕ) → 1 < r → n + r < 2 ^ 64 → Near code r n (round_bytes code r n)
round_bytes-Near code r n h fits = elim (or_cases (code is_code record_stop) (code is_code stop)) [
  | inl a ↦
      let (near, over) = quotient_near n r (omega arith) in
      let e = round_bytes-up code r n h fits (rw a refl) in
      rw e (inr (inl a, over, omega (arith, near)))
  | inr (inl b) ↦
      let (near, over) = quotient_near n r (omega arith) in
      let e = round_bytes-up code r n h fits (grind (arith, code is_code record_stop)) in
      rw e (inr (inr b, over, omega (arith, near)))
  | inr (inr (a, b)) ↦
      let (near, over) = quotient_near n r (omega arith) in
      let e = round_bytes-down code r n h fits a b in rw e (inl (a, b, near, over))
]

command_set_byte_count-value :
    (p : Primary) (c : Command) (t0 t : ℕ)
    → p.convert_to_bytes ≡ true
    → p.utc_start ≡ pos (1 + t0)
    → c.utc ≡ pos (1 + t0 + t)
    → 1 + t0 + t < 2 ^ 63
    → 0 < p.bytes_per_second
    → t * p.bytes_per_second + p.byte_resolution < 2 ^ 64
    → command_set_byte_count p c
      ≡ ok (record c { byte_count = round_bytes c.code p.byte_resolution (t * p.bytes_per_second) })
unfolding command_set_byte_count
command_set_byte_count-value p c t0 t a b e word rate fits = rw (a, b, e) (ground arith)

round_bytes-plain : (code : Code) (r n : ℕ) → r ≤ 1 → round_bytes code r n ≡ n
unfolding round_bytes
round_bytes-plain code r n le = ground arith

-- the byte `b` of a command for the exact byte `n`
abbrev pub Rounded : (code : Code) (r n b : ℕ) → Type 0
Rounded code r n b = ((r ≤ 1) × (b ≡ n)) ⊎ ((1 < r) × (b % r ≡ 0) × Near code r n b)

-- A start or a stop at `t` seconds after the start of the data, when the byte counts fit in 64 bits:
-- with a resolution of a byte (or 0), the bytes of `t` seconds at the data's rate. With a resolution of
-- more, a multiple of it: a stop is above the exact byte by one packet at most, so that the packet that
-- the exact byte is in is recorded; anything else is the start of the packet that the exact byte is in.
pub command_set_byte_count-rounds :
    (p : Primary) (c : Command) (t0 t : ℕ)
    → p.convert_to_bytes ≡ true
    → p.utc_start ≡ pos (1 + t0)
    → c.utc ≡ pos (1 + t0 + t)
    → 1 + t0 + t < 2 ^ 63
    → 0 < p.bytes_per_second
    → t * p.bytes_per_second + p.byte_resolution < 2 ^ 64
    → (d : Command) × (command_set_byte_count p c ≡ ok d)
      × (d.code ≡ c.code)
      × (d.utc ≡ c.utc)
      × Rounded c.code p.byte_resolution (t * p.bytes_per_second) d.byte_count
command_set_byte_count-rounds p c t0 t a b e word rate fits =
    let n = t * p.bytes_per_second in
    let r = p.byte_resolution in
    (
      record c { byte_count = round_bytes c.code r n },
      command_set_byte_count-value p c t0 t a b e word rate fits,
      refl,
      refl,
      elim (dec_lt 1 r) [
        | yes more ↦
            inr
              (more, round_bytes-whole c.code r n more fits, round_bytes-Near c.code r n more fits)
        | no one ↦ inl (omega (arith, one), round_bytes-plain c.code r n (omega (arith, one)))
      ],
    )
