-- ===== src/PwcMain/Course/Change.antt =====
-- src/dada_pwc_main.c: the changes of state keep what is `Stable`, and what arrives at the control port
-- does.
use mathlib.Core.Path.{subst}
use mirror_psrdada_code.Prelude.{
  sym, ◌≡◌, refl, ℕ, ◌<◌, ◌^◌, not, ◌==◌, ℤ, pos, List, [], ◌∷◌, Option, none, some, arith,
}
use mirror_psrdada_code.AsciiHeader.{Bytes, codes}
use mirror_psrdada_code.Ipcbuf.Writer.{get_next_write}
use mirror_psrdada_code.Ipcio.Open as Open
use mirror_psrdada_code.Kernel.{Kernel}
use mirror_psrdada_code.Pwc.{
  clocking, recording, Code, clock, record_start, record_stop, start, stop, set_utc_start, Command,
  Primary,
}
use mirror_psrdada_code.Pwc.Header.{Environment}
use mirror_psrdada_code.Pwc.Session.{Request, perform}
use mirror_psrdada_code.PwcMain.{
  Main, Program, Transfers, with_key, dada_error_hard, dada_error_fatal,
}
use mirror_psrdada_code.PwcMain.Course.{
  Course, arrive, unexpected_late, ending, change_state, first_total, known, begin,
}
use mirror_psrdada_code.PwcMain.Course.Kept.{process_xfer-Any, new_xfer-Any}
use mirror_psrdada_code.PwcMain.Course.Exact.{Before}
use mirror_psrdada_code.PwcMain.Flow.{modify}
use mirror_psrdada_code.PwcMain.Recording.{
  next_header, delay, show_header, asked_byte, take_block, start_byte,
}
use mirror_psrdada_code.PwcMain.Recording as Recording
use mirror_psrdada_code.PwcMain.Rules.{
  Any, Stable, Always, Held, bind, weaken, value, gone, got, elsewhere, either, perhaps,
  on_data-checked, on_header-followed, header_bytes-Any, validate-Any, mark_header-Any, entered,
}

module _ {C : Type 0} where
  delay-pwc : (c : Main C) → (delay c).pwc ≡ c.pwc
  delay-pwc c = ground arith

  delay-small : (c : Main C) → c.command.byte_count < 2 ^ 64 → (delay c).command.byte_count < 2 ^ 64
  delay-small c small = ground arith

module _ {C : Type 0} ⦃k : Kernel⦄ {J : Primary → Command → Type 0} where
  delay-Any : Stable J → Always {C = C} J (modify delay) Any
  delay-Any st = record {
    keeps = λ c j.
        let taken = st.take c.pwc c.command (delay c).command j.0 in
        ((subst (λ p. J p (delay c).command) (sym (delay-pwc c)) taken, delay-small c j.1), tt);
  }

  next_header-Any : Always {C = C} J next_header Any
  next_header-Any =
      bind (on_header-followed get_next_write)
        (λ b u. bind header_bytes-Any (λ last v. elsewhere (take_block b last) (λ c. (refl, refl))))

  show_header-Any : (f : Program C) → Always J (show_header f) Any
  show_header-Any f = bind got (λ c j.
      perhaps (not c.header_valid)
        (bind (validate-Any f) (λ valid u. either valid mark_header-Any (gone dada_error_hard))))

  record_start-Any :
      Stable J
      → (format_time : ℤ → Bytes) (f : Program C)
      → Always J (Recording.record_start format_time f) Any
  unfolding Recording.record_start
  record_start-Any st format_time f = bind got (λ c j. bind (delay-Any st) (λ a u.
      bind next_header-Any (λ b v.
        bind
          (elsewhere (with_key (codes "UTC_START") (format_time c.command.utc)) (λ d. (refl, refl)))
          (λ x y.
            bind (elsewhere (with_key (codes "OBS_OFFSET") (codes "0")) (λ d. (refl, refl))) (λ z w.
              bind (on_data-checked dada_error_hard (Open.start (start_byte c)))
                (λ s t. show_header-Any f))))))

  ending-Any : (t : Option (Transfers C)) (n : ℕ) → Always J (ending t n) Any
  ending-Any none n = gone (pos 0)
  ending-Any (some t) n = bind (process_xfer-Any t n) (λ r u. gone (pos 0))

  late-Any : (p : Course) → Always {C = C} J (unexpected_late p) Any
  late-Any p = perhaps (not (p.total == 0)) (gone dada_error_hard)

  pub change_state-Any :
      Stable J
      → (format_time : ℤ → Bytes) (f : Program C) (n : ℕ) (code : Code) (p : Course)
      → Always J (change_state format_time f n code p) Any
  unfolding change_state
  change_state-Any st format_time f n record_stop p =
      bind (on_data-checked dada_error_fatal Open.stop)
        (λ u v. entered clocking (pos 0) (st.clocks (pos 0)))
  change_state-Any st format_time f n record_start p =
      bind (record_start-Any st format_time f)
        (λ u v. entered recording (pos 0) (st.records (pos 0)))
  change_state-Any st format_time f n stop p = ending-Any f.transfers n
  change_state-Any st format_time f n set_utc_start p = late-Any p
  change_state-Any st format_time f n clock p = late-Any p
  change_state-Any st format_time f n start p = late-Any p
  change_state-Any st format_time f n _ p = gone dada_error_hard

  pub arrive-Held :
      Stable J
      → (e : Environment) (rs : List Request) (c : Main C) → Held J c
      → Held J (arrive e rs c)
  unfolding arrive
  arrive-Held st e [] c j = j
  arrive-Held st e (r ∷ rs) c (j, small) =
      arrive-Held st e rs (record c { pwc = (perform e r c.pwc).1 })
        (st.request e r c.pwc c.command j, small)

  pub arrive-Any :
      Stable J → (e : Environment) (rs : List Request) → Always {C = C} J (modify (arrive e rs)) Any
  arrive-Any st e rs = record { keeps = λ c j. (arrive-Held st e rs c j, tt) }

  pub first_total-zero :
      (t : Option (Transfers C)) → Always J (first_total t) (λ n. t ≡ none → n ≡ 0)
  first_total-zero none = value 0 (λ e. refl)
  first_total-zero (some t) = weaken (new_xfer-Any t) (λ n u e. absurd cc)

  pub known-Any : (o : Option Bytes) → Always {C = C} J (known o) Any
  known-Any none = gone dada_error_hard
  known-Any (some text) = value text tt

  -- without several transfers the first byte is byte 0, and the byte of the command is to come
  pub begin-Before :
      (f : Program C) → Always J (begin f) (λ p. f.transfers ≡ none → (p.total < 2 ^ 64) × Before p)
  unfolding begin
  begin-Before f = bind got (λ c j. bind (first_total-zero f.transfers) (λ total zero.
      bind header_bytes-Any (λ m u.
        bind (known-Any _) (λ utc v. value _ (λ without. ground (arith, zero without, j.1))))))
