-- ===== src/PwcMain/Runs.antt =====
-- src/dada_pwc_main.c: what holds of the value of a function and of the client that it leaves. `Runs P
-- m Q` says of `m`, run on a client with `P`, that `Q` holds of its value and of the client where it
-- goes on.
use mirror_psrdada_code.Prelude.{◌≡◌, refl, ℤ, Bool, true, false, if◌then◌else◌}
use mirror_psrdada_code.Pwc.{Command, Primary}
use mirror_psrdada_code.PwcMain.{Main}
use mirror_psrdada_code.PwcMain.Flow.{
  Flow, go, leave, crash, sleep, Run, after, pure, give_up, get, ◌>>=◌,
}
use mirror_psrdada_code.PwcMain.Rules.{Ensures, Always, Held}

Ensures-both :
    {A : Type 0} (Q R : A → Type 0) (x : Flow A)
    → Ensures Q x
    → Ensures R x
    → Ensures (λ a. Q a × R a) x
Ensures-both Q R (go a) q r = (q, r)
Ensures-both Q R (leave s) q r = tt
Ensures-both Q R crash q r = tt
Ensures-both Q R sleep q r = tt

Ensures-change :
    {A : Type 0} (Q R : A → Type 0) (x : Flow A) → ((a : A) → Q a → R a) → Ensures Q x → Ensures R x
Ensures-change Q R (go a) f q = f a q
Ensures-change Q R (leave s) f q = tt
Ensures-change Q R crash f q = tt
Ensures-change Q R sleep f q = tt

module _ {C : Type 0} where
  pub record Runs {A : Type 0} (P : Main C → Type 0) (m : Run C A) (Q : A → Main C → Type 0)
      : Type 0 where
    pub keeps : (c : Main C) → P c → Ensures (λ a. Q a (m c).1) (m c).0

  after-Runs :
      {A B : Type 0} {Q : A → Main C → Type 0} {R : B → Main C → Type 0}
      → (x : Flow A) (d : Main C) (f : A → Run C B) → Ensures (λ a. Q a d) x
      → ((a : A) → Runs (Q a) (f a) R)
      → Ensures (λ b. R b (after x d f).1) (after x d f).0
  after-Runs (go a) d f q rest = (rest a).keeps d q
  after-Runs (leave r) d f q rest = tt
  after-Runs crash d f q rest = tt
  after-Runs sleep d f q rest = tt

  pub runs_bind :
      {A B : Type 0} {P : Main C → Type 0} {Q : A → Main C → Type 0} {R : B → Main C → Type 0}
      {m : Run C A} {f : A → Run C B}
      → Runs P m Q
      → ((a : A) → Runs (Q a) (f a) R)
      → Runs P (m >>= f) R
  unfolding ◌>>=◌
  runs_bind {Q} {R} {m} {f} first rest = record {
    keeps = λ c p. after-Runs {Q = Q} {R = R} (m c).0 (m c).1 f (first.keeps c p) rest;
  }

  pub runs_value :
      {A : Type 0} {P : Main C → Type 0} {Q : A → Main C → Type 0} (a : A)
      → ((c : Main C) → P c → Q a c)
      → Runs P (pure a) Q
  runs_value a q = record { keeps = q }

  pub runs_gone :
      {A : Type 0} {P : Main C → Type 0} {Q : A → Main C → Type 0} (r : ℤ) → Runs P (give_up r) Q
  runs_gone r = record { keeps = λ c p. tt }

  pub runs_got : {P : Main C → Type 0} → Runs P get (λ c d. P d × (c ≡ d))
  runs_got = record { keeps = λ c p. (p, refl) }

  pub runs_either :
      {A : Type 0} {P : Main C → Type 0} {Q : A → Main C → Type 0} {m n : Run C A} (b : Bool)
      → Runs P m Q
      → Runs P n Q
      → Runs P (if b then m else n) Q
  runs_either true m n = m
  runs_either false m n = n

  pub runs_both :
      {A : Type 0} {P : Main C → Type 0} {Q R : A → Main C → Type 0} {m : Run C A}
      → Runs P m Q
      → Runs P m R
      → Runs P m (λ a d. Q a d × R a d)
  runs_both {Q} {R} {m} q r = record {
    keeps = λ c p.
        Ensures-both (λ a. Q a (m c).1) (λ a. R a (m c).1) (m c).0 (q.keeps c p) (r.keeps c p);
  }

  -- other conditions, a stronger one before and a weaker one after
  pub runs_change :
      {A : Type 0} {P O : Main C → Type 0} {Q R : A → Main C → Type 0} {m : Run C A}
      → ((c : Main C) → O c → P c)
      → ((a : A) → (d : Main C) → Q a d → R a d)
      → Runs P m Q
      → Runs O m R
  runs_change {Q} {R} {m} before after runs = record {
    keeps = λ c o.
        Ensures-change (λ a. Q a (m c).1) (λ a. R a (m c).1) (m c).0 (λ a q. after a (m c).1 q)
          (runs.keeps c (before c o));
  }

  held_value :
      (J : Primary → Command → Type 0) {A : Type 0} (Q : A → Type 0) (x : Flow A) (d : Main C)
      → Held J d
      → Ensures Q x
      → Ensures (λ a. Held J d × Q a) x
  held_value J Q (go a) d h q = (h, q)
  held_value J Q (leave r) d h q = tt
  held_value J Q crash d h q = tt
  held_value J Q sleep d h q = tt

  pub runs_always :
      {J : Primary → Command → Type 0} {A : Type 0} {Q : A → Type 0} {m : Run C A}
      → Always J m Q
      → Runs (Held J) m (λ a d. Held J d × Q a)
  runs_always {J} {Q} {m} always = record {
    keeps = λ c h. let (held, q) = always.keeps c h in held_value J Q (m c).0 (m c).1 held q;
  }
