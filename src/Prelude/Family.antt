-- ===== src/Prelude/Family.antt =====
-- C arrays as functions of their index. The indices that the code uses are bounded by theorems.
use Prim.Native.Nat.{ℕ}
use mathlib.Core.Path.{◌≡◌, fun_ext}
use mathlib.Core.Logic.{◌≢◌}
use native.Mathlib.Omega.{arith}
use mirror_psrdada_code.Prelude.Tests.{◌==◌, if◌then◌else◌}

abbrev pub update {ℓ} : {A : Type ℓ} → (ℕ → A) → ℕ → A → ℕ → A
update f i v j = if i == j then v else f j

pub update_self {ℓ} : {A : Type ℓ} (f : ℕ → A) (i : ℕ) (v : A) → update f i v i ≡ v
update_self f i v = ground arith

pub update_ne {ℓ} : {A : Type ℓ} (f : ℕ → A) (i j : ℕ) (v : A) → i ≢ j → update f i v j ≡ f j
update_ne f i j v h = ground arith

pub update-update {ℓ} :
    {A : Type ℓ} (f : ℕ → A) (i : ℕ) (v w : A) → update (update f i v) i w ≡ update f i w
update-update f i v w = fun_ext λ j. ground arith

pub update_same {ℓ} : {A : Type ℓ} (f : ℕ → A) (i : ℕ) (v : A) → f i ≡ v → update f i v ≡ f
update_same f i v h = fun_ext λ j. ground arith
