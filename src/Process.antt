-- ===== src/Process.antt =====
-- What a call of a process can come to, and the monad in which the calls are written. A C function
-- that returns -1 or NULL fails; a call that must wait for another process is asleep. The world
-- beside the outcome is the one at that moment: what ran before an error stays done.
use mirror_psrdada_code.Prelude.{ℕ, zero, suc, Bool, true, false}
use mirror_psrdada_code.Shared.{Sync, Handle, World}

pub data Outcome {ℓ} (A : Type ℓ) : Type ℓ where
  ok : A → Outcome A
  fail : Outcome A
  asleep : Outcome A

-- a call on a state of type `S`, and on what an ipcbuf process sees
abbrev pub Call {ℓ} : Type 0 → Type ℓ → Type ℓ
Call S A = S → Outcome A × S

abbrev pub M {ℓ} : Type ℓ → Type ℓ
M A = Call World A

module _ {S : Type 0} where
  abbrev pub pure {ℓ} : {A : Type ℓ} → A → Call S A
  pure a w = (ok a, w)

  -- the rest of a function, after a call that came to an outcome
  abbrev pub continue {ℓ κ} :
      {A : Type ℓ} {B : Type κ} → Outcome A → S → (A → Call S B) → Outcome B × S
  continue (ok a) w f = f a w
  continue fail w f = (fail, w)
  continue asleep w f = (asleep, w)

  infixl 5 ◌>>=◌ ◌>>◌
  abbrev pub ◌>>=◌ {ℓ κ} : {A : Type ℓ} {B : Type κ} → Call S A → (A → Call S B) → Call S B
  ◌>>=◌ m f w = continue (m w).0 (m w).1 f

  abbrev pub ◌>>◌ {ℓ} : {B : Type ℓ} → Call S (Unit {0}) → Call S B → Call S B
  ◌>>◌ m k w = continue (m w).0 (m w).1 (λ _. k)

  abbrev pub get : Call S S
  get w = (ok w, w)

  -- `if (!b) return -1;`
  abbrev pub guard : Bool → Call S (Unit {0})
  guard true w = (ok tt, w)
  guard false w = (fail, w)

  abbrev pub modify : (S → S) → Call S (Unit {0})
  modify f w = (ok tt, f w)

abbrev pub put_handle : (Handle → Handle) → M (Unit {0})
put_handle f w = (ok tt, record w { handle = f w.handle })

abbrev pub put_sync : (Sync → Sync) → M (Unit {0})
put_sync f w = (ok tt, record w { sync = f w.sync })

-- A call whose status the caller does not look at.
abbrev pub ignored {ℓ} : {A : Type ℓ} → Outcome A → World → Outcome (Unit {0}) × World
ignored (ok a) w = (ok tt, w)
ignored fail w = (ok tt, w)
ignored asleep w = (asleep, w)

abbrev pub ignore_status {ℓ} : {A : Type ℓ} → M A → M (Unit {0})
ignore_status m w = ignored (m w).0 (m w).1

-- `for (iread = i; n more rounds; iread++) body`
unfoldable pub for_each : (n i : ℕ) → (ℕ → M (Unit {0})) → M (Unit {0})
for_each zero i body = pure tt
for_each (suc n) i body = λ w. continue (body i w).0 (body i w).1 (λ _. for_each n (suc i) body)
