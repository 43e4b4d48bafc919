-- ===== src/PwcMain/Rules.antt =====
-- src/dada_pwc_main.c: what holds throughout a function that returns early. `Always J m Q` says of `m`
-- that it keeps the property `J` of the primary, however it ends, and that `Q` holds of its value.
use mathlib.Core.Path.{subst}
use mirror_psrdada_code.Prelude.{
  sym, ℕ, ◌≡◌, refl, ◌<◌, ◌^◌, Bool, true, false, ℤ, Option, none, some, if◌then◌else◌,
}
use mirror_psrdada_code.Ipcbuf.Writer.{mark_filled}
use mirror_psrdada_code.Ipcio.{Io}
use mirror_psrdada_code.Kernel.{Kernel}
use mirror_psrdada_code.Process.{Outcome, ok, fail, asleep, Call, M}
use mirror_psrdada_code.Pwc.{
  PwcState, clocking, recording, Command, Primary, set_state, command_get,
}
use mirror_psrdada_code.Pwc.Header.{Environment}
use mirror_psrdada_code.Pwc.Session.{Request, perform}
use mirror_psrdada_code.PwcMain.{
  Main, Program, dada_error_hard, enter_state, validated, on_data, on_header,
}
use mirror_psrdada_code.PwcMain.Flow.{
  Flow, go, leave, crash, sleep, checked, unchecked, unsigned, followed, returned, Run, after,
  ◌>>=◌, pure, give_up, die, get, modify, when, or_return, ignoring, unsigned_result, following,
  target_of, value_of, validate, header_bytes, mark_header,
}

abbrev pub Ensures : {A : Type 0} → (A → Type 0) → Flow A → Type 0
Ensures Q (go a) = Q a
Ensures Q (leave r) = Unit {0}
Ensures Q crash = Unit {0}
Ensures Q sleep = Unit {0}

abbrev pub Any : {A : Type 0} → A → Type 0
Any a = Unit {0}

-- a property of the primary that every call of both threads keeps, and that bounds the pending command
pub record Stable (J : Primary → Command → Type 0) : Type 0 where
  pub word : (p : Primary) (c : Command) → J p c → p.command.byte_count < 2 ^ 64
  pub take : (p : Primary) (c d : Command) → J p c → J p d
  pub get : (p : Primary) (c : Command) → J p c → J (command_get p).1 c
  pub clocks : (utc : ℤ) (p : Primary) (c : Command) → J p c → J (set_state clocking utc p).1 c
  pub records : (utc : ℤ) (p : Primary) (c : Command) → J p c → J (set_state recording utc p).1 c
  pub request :
      (e : Environment) (r : Request) (p : Primary) (c : Command) → J p c → J (perform e r p).1 c

-- the same for every change of state, and of what the main loop changes in the primary besides
pub record AlwaysStable (J : Primary → Command → Type 0) : Type 0 where
  pub stable : Stable J
  pub set : (s : PwcState) (utc : ℤ) (p : Primary) (c : Command) → J p c → J (set_state s utc p).1 c
  pub time : (utc : ℤ) (p : Primary) (c : Command) → J p c → J (record p { utc_start = utc }) c
  pub quits : (p : Primary) (c : Command) → J p c → J (record p { quit = true }) c

Ensures-mono :
    {A : Type 0} {Q R : A → Type 0}
    → (x : Flow A) → ((a : A) → Q a → R a)
    → Ensures Q x
    → Ensures R x
Ensures-mono (go a) f q = f a q
Ensures-mono (leave r) f q = tt
Ensures-mono crash f q = tt
Ensures-mono sleep f q = tt

checked-Any : {A : Type 0} (r : ℤ) (o : Outcome A) → Ensures Any (checked r o)
checked-Any r (ok a) = tt
checked-Any r fail = tt
checked-Any r asleep = tt

unchecked-Any : {A : Type 0} (o : Outcome A) → Ensures Any (unchecked o)
unchecked-Any (ok a) = tt
unchecked-Any fail = tt
unchecked-Any asleep = tt

unsigned-Any : (o : Outcome ℕ) → Ensures Any (unsigned o)
unsigned-Any (ok n) = tt
unsigned-Any fail = tt
unsigned-Any asleep = tt

pub followed-Any : {A : Type 0} (o : Outcome A) → Ensures Any (followed o)
followed-Any (ok a) = tt
followed-Any fail = tt
followed-Any asleep = tt

returned-Any : (x : Flow ℤ) → Ensures Any (returned x)
returned-Any (go r) = tt
returned-Any (leave r) = tt
returned-Any crash = tt
returned-Any sleep = tt

module _ {C : Type 0} where
  abbrev pub Held : (Primary → Command → Type 0) → Main C → Type 0
  Held J c = J c.pwc c.command × (c.command.byte_count < 2 ^ 64)

  pub record Always (J : Primary → Command → Type 0) {A : Type 0} (m : Run C A) (Q : A → Type 0)
      : Type 0 where
    pub keeps : (c : Main C) → Held J c → Held J (m c).1 × Ensures Q (m c).0

  module _ ⦃k : Kernel⦄ where
    validated-same :
        (h : Option (C → Bool × C)) (c : Main C)
        → ((validated h c).pwc ≡ c.pwc) × ((validated h c).command ≡ c.command)
    validated-same none c = (refl, refl)
    validated-same (some h) c = (refl, refl)

  module _ {J : Primary → Command → Type 0} where
    after-Always :
        {A B : Type 0} {Q : A → Type 0} {R : B → Type 0}
        → (x : Flow A) (d : Main C) (f : A → Run C B) → Held J d × Ensures Q x
        → ((a : A) → Q a → Always J (f a) R)
        → Held J (after x d f).1 × Ensures R (after x d f).0
    after-Always (go a) d f (j, q) rest = (rest a q).keeps d j
    after-Always (leave r) d f (j, q) rest = (j, tt)
    after-Always crash d f (j, q) rest = (j, tt)
    after-Always sleep d f (j, q) rest = (j, tt)

    pub bind :
        {A B : Type 0} {Q : A → Type 0} {R : B → Type 0} {m : Run C A} {f : A → Run C B}
        → Always J m Q
        → ((a : A) → Q a → Always J (f a) R)
        → Always J (m >>= f) R
    unfolding ◌>>=◌
    bind {m} {f} first rest = record {
      keeps = λ c j. after-Always (m c).0 (m c).1 f (first.keeps c j) rest;
    }

    pub weaken :
        {A : Type 0} {Q R : A → Type 0} {m : Run C A}
        → Always J m Q
        → ((a : A) → Q a → R a)
        → Always J m R
    weaken {Q} {R} {m} always f = record {
      keeps = λ c j. let (i, q) = always.keeps c j in (i, Ensures-mono {Q = Q} {R = R} (m c).0 f q);
    }

    pub value : {A : Type 0} {Q : A → Type 0} (a : A) → Q a → Always J {A = A} (pure a) Q
    value a q = record { keeps = λ c j. (j, q) }

    pub gone : {A : Type 0} {Q : A → Type 0} (r : ℤ) → Always J {A = A} (give_up r) Q
    gone r = record { keeps = λ c j. (j, tt) }

    pub dead : {A : Type 0} {Q : A → Type 0} → Always J {A = A} die Q
    dead = record { keeps = λ c j. (j, tt) }

    pub got : Always J get (Held J)
    got = record { keeps = λ c j. (j, j) }

    -- a change of what is neither the primary nor the command
    pub elsewhere :
        (f : Main C → Main C)
        → ((c : Main C) → ((f c).pwc ≡ c.pwc) × ((f c).command ≡ c.command))
        → Always J (modify f) Any
    elsewhere f same = record {
      keeps = λ c j.
          let (p, q) = same c in
          (
            (
              subst (λ x. J x (f c).command) (sym p) (subst (J c.pwc) (sym q) j.0),
              subst (λ x. x.byte_count < 2 ^ 64) (sym q) j.1,
            ),
            tt,
          );
    }

    pub either :
        {A : Type 0} {Q : A → Type 0} {m n : Run C A} (b : Bool)
        → Always J m Q
        → Always J n Q
        → Always J (if b then m else n) Q
    either true yes_m no_m = yes_m
    either false yes_m no_m = no_m

    pub perhaps : {m : Run C (Unit {0})} (b : Bool) → Always J m Any → Always J (when b m) Any
    perhaps true a = a
    perhaps false a = value tt tt

    pub on_data-checked :
        {A : Type 0} (r : ℤ) (m : Call Io A) → Always J (or_return r (on_data m)) Any
    on_data-checked r m = record { keeps = λ c j. (j, checked-Any r (m c.data_block).0) }

    pub on_data-ignored : {A : Type 0} (m : Call Io A) → Always J (ignoring (on_data m)) Any
    on_data-ignored m = record { keeps = λ c j. (j, unchecked-Any (m c.data_block).0) }

    pub on_data-unsigned : (m : Call Io ℕ) → Always J (unsigned_result (on_data m)) Any
    on_data-unsigned m = record { keeps = λ c j. (j, unsigned-Any (m c.data_block).0) }

    pub on_header-checked :
        {A : Type 0} (r : ℤ) (m : M A) → Always J (or_return r (on_header m)) Any
    on_header-checked r m = record { keeps = λ c j. (j, checked-Any r (m c.header_block).0) }

    pub on_header-followed : {A : Type 0} (m : M A) → Always J (following (on_header m)) Any
    on_header-followed m = record { keeps = λ c j. (j, followed-Any (m c.header_block).0) }

    pub target-Any : {A : Type 0} (o : Option A) → Always J (target_of o) Any
    target-Any none = dead
    target-Any (some a) = value a tt

    pub header_bytes-Any : Always J header_bytes Any
    header_bytes-Any =
        bind got (λ c j. bind (target-Any c.header) (λ b u. value (c.header_block.mem b) tt))

    pub value_of-Any : {m : Run C ℤ} → Always J m Any → Always J (value_of m) Any
    value_of-Any {m} a = record { keeps = λ c j. ((a.keeps c j).0, returned-Any (m c).0) }

    module _ ⦃k : Kernel⦄ where
      pub validate-Any : (f : Program C) → Always J (validate f) Any
      validate-Any f =
          bind
            (elsewhere (validated f.header_valid_function) (validated-same f.header_valid_function))
            (λ u t. bind got (λ c j. value c.header_valid tt))

      pub mark_header-Any : Always J mark_header Any
      mark_header-Any =
          bind got (λ c j. on_header-checked dada_error_hard (mark_filled c.header_size))

      pub entered :
          (s : PwcState) (utc : ℤ)
          → ((p : Primary) → (c : Command) → J p c → J (set_state s utc p).1 c)
          → Always J (modify (enter_state s utc)) Any
      entered s utc kept = record { keeps = λ c j. ((kept c.pwc c.command j.0, j.1), tt) }
