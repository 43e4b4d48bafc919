-- ===== src/PwcMain/Course/Exact.antt =====
-- src/dada_pwc_main.c: the arithmetic of the transit byte. `OnWay` holds of a course that has no byte
-- for a change of state, or has not passed it; `Before` is the same with the byte still to come.
use mirror_psrdada_code.Prelude.{◌≡◌, ◌⊎◌, ℕ, ◌+◌, ◌-◌, ◌<◌, ◌^◌, true, false, arith}
use mirror_psrdada_code.PwcMain.Course.{Course, dated, share, advanced, at_transit}

abbrev pub OnWay : Course → Type 0
OnWay p = (p.transit ≡ 0) ⊎ ((p.total + p.left ≡ p.transit) × (p.transit < 2 ^ 64))

abbrev pub Before : Course → Type 0
Before p =
    (p.transit ≡ 0)
    ⊎ ((p.total < p.transit) × (p.left ≡ p.transit - p.total) × (p.transit < 2 ^ 64))

pub Before-OnWay : (p : Course) → Before p → OnWay p
Before-OnWay p b = ground arith

pub dated-OnWay : (n : ℕ) (p : Course) → n < 2 ^ 64 → p.total < n → OnWay (dated n p)
dated-OnWay n p small lt = ground arith

pub advanced-OnWay : (n : ℕ) (p : Course) → OnWay p → OnWay (advanced (share n p) p)
advanced-OnWay n p o = ground arith

pub OnWay-Before : (p : Course) → OnWay p → at_transit p ≡ false → Before p
OnWay-Before p o e = ground arith

pub OnWay-at_transit : (p : Course) → OnWay p → at_transit p ≡ true → p.total ≡ p.transit
OnWay-at_transit p o e = ground arith
