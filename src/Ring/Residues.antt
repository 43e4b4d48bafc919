-- ===== src/Ring/Residues.antt =====
-- Counts of blocks modulo the number of blocks in the ring.
use mirror_psrdada_code.Prelude.{ℕ, ◌+◌, ◌%◌, ◌≤◌, ◌<◌, ◌≡◌, ◌≢◌, arith}
use native.Mathlib.Nat.{div-add-mod}

-- Two counts less than `n` apart fall on different blocks.
pub mod-ne : (n lo j l : ℕ) → lo ≤ j → j < l → l < lo + n → j % n ≢ l % n
mod-ne n lo j l a b c e = grind (arith, div-add-mod)

pub add-mod_self : (n lo : ℕ) → (lo + n) % n ≡ lo % n
add-mod_self n lo = grind arith
