-- ===== src/PwcMain/Course/Kept.antt =====
-- src/dada_pwc_main.c: the parts that both transfer loops share keep what is `Stable`.
use mirror_psrdada_code.Prelude.{
  ◌≡◌, refl, inl, inr, ℕ, ◌<◌, ◌^◌, Bool, true, false, not, ◌&&◌, Bool-cases, if◌then◌else◌, ltb, ℤ,
  pos, before, arith,
}
use mirror_psrdada_code.AsciiHeader.{Bytes}
use mirror_psrdada_code.Client.{as_signed}
use mirror_psrdada_code.Ipcbuf.Lock.{lock_write, unlock_write}
use mirror_psrdada_code.Ipcbuf.Writer.{get_next_write}
use mirror_psrdada_code.Ipcio.Block.{close_block_write, update_block_write}
use mirror_psrdada_code.Ipcio.Open as Open
use mirror_psrdada_code.Ipcio.Stream.{write}
use mirror_psrdada_code.Kernel.{Kernel}
use mirror_psrdada_code.Pwc.{
  recording, ◌in_state◌, Code, no_command, record_start, record_stop, stop, set_utc_start,
  ◌is_code◌, Command, Primary, command_get,
}
use mirror_psrdada_code.PwcMain.{
  Program, XferStatus, xfer_normal, obs_ending, xfer_ending, Transfers, with_start, at_header,
  dada_error_hard, dada_error_fatal,
}
use mirror_psrdada_code.PwcMain.Course.{
  Course, dated, publish, late_header, set_start, scheduled, accept, receive, on_pwc,
}
use mirror_psrdada_code.PwcMain.Flow.{pure, die, followed, following, modify}
use mirror_psrdada_code.PwcMain.Recording.{take_block}
use mirror_psrdada_code.PwcMain.Rules.{
  Any, Ensures, Stable, Always, bind, value, gone, dead, got, elsewhere, either, perhaps,
  on_data-checked, on_header-checked, on_header-followed, target-Any, header_bytes-Any,
  value_of-Any, validate-Any, mark_header-Any,
}
use mirror_psrdada_code.PwcMain.Xfer.{
  new_xfer, xfer_status, last_byte, reopen, next_transfer, xfer_with, process_xfer,
}

abbrev pub IsSmall : Command → Type 0
IsSmall c = c.byte_count < 2 ^ 64

pub command_get-IsSmall :
    (p : Primary) → p.command.byte_count < 2 ^ 64 → Ensures IsSmall (followed (command_get p).0)
unfolding command_get
command_get-IsSmall p small = elim (Bool-cases (p.command.code is_code no_command)) [
  | inl yes' ↦ rw yes' tt
  | inr filled ↦ rw filled small
]

chosen :
    (Q : Course → Type 0) (at_once : Course → Course) (p : Course) (n : ℕ) (b : Bool)
    → ltb p.total n ≡ b
    → (p.total < n → Q (dated n p))
    → Q (at_once p)
    → Q (if b then dated n p else at_once p)
chosen Q at_once p n true e q q' = q (ground arith)
chosen Q at_once p n false e q q' = q'

module _ {C : Type 0} ⦃k : Kernel⦄ {J : Primary → Command → Type 0} where
  publish-Any : (f : Program C) → Always J (publish f) Any
  publish-Any f = bind (validate-Any f) (λ valid u. perhaps valid mark_header-Any)

  pub late_header-Any : (f : Program C) → Always J (late_header f) Any
  late_header-Any f = bind got (λ c j.
      perhaps (not c.header_valid && c.pwc.state in_state recording)
        (bind (target-Any f.header_valid_function) (λ h u. publish-Any f)))

  asserted : (b : Bool) → Always {C = C} J {A = Unit {0}} (if b then pure tt else die) Any
  asserted b = either b (value tt tt) dead

  pub command_get-Always : Stable J → Always {C = C} J (following (on_pwc command_get)) IsSmall
  command_get-Always st = record {
    keeps = λ c j. (
      (st.get c.pwc c.command j.0, j.1),
      command_get-IsSmall c.pwc (st.word c.pwc c.command j.0),
    );
  }

  pub command_set-Always :
      Stable J
      → (command : Command) → IsSmall command
      → Always {C = C} J (modify (λ d. record d { command = command })) Any
  command_set-Always st command small = record {
    keeps = λ c j. ((st.take c.pwc c.command command j.0, small), tt);
  }

  module _ {Q : Course → Type 0} where
    pub set_start-Always :
        (format_time : ℤ → Bytes) (f : Program C) (p : Course)
        → Q p
        → Q (record p { start_set = true })
        → Always J (set_start format_time f p) Q
    set_start-Always format_time f p q q' = bind got (λ c j.
        bind (asserted (before (pos 0) c.command.utc)) (λ u t. either p.start_set (value p q) (
          bind (elsewhere (with_start (format_time c.command.utc)) (λ d. (refl, refl))) (λ v s.
            bind (perhaps (c.pwc.state in_state recording) (publish-Any f))
              (λ w r. value (record p { start_set = true }) q')))))

    scheduled-Always :
        (at_once : Course → Course) (p : Course)
        → ((n : ℕ) → n < 2 ^ 64 → p.total < n → Q (dated n p))
        → Q (at_once p)
        → Always J (scheduled {C = C} at_once p) Q
    scheduled-Always at_once p q q' = bind got (λ c j. value _ (
        chosen Q at_once p c.command.byte_count (ltb p.total c.command.byte_count) refl
          (q c.command.byte_count j.1) q'))

    accept-Always :
        (at_once : Course → Course) (format_time : ℤ → Bytes) (f : Program C) (code : Code)
        (p : Course)
        → Q p
        → Q (record p { start_set = true })
        → ((n : ℕ) → n < 2 ^ 64 → p.total < n → Q (dated n p))
        → Q (at_once p)
        → Always J (accept at_once format_time f code p) Q
    unfolding accept
    accept-Always at_once format_time f set_utc_start p q s d o =
        set_start-Always format_time f p q s
    accept-Always at_once format_time f record_stop p q s d o = scheduled-Always at_once p d o
    accept-Always at_once format_time f record_start p q s d o = scheduled-Always at_once p d o
    accept-Always at_once format_time f stop p q s d o = scheduled-Always at_once p d o
    accept-Always at_once format_time f _ p q s d o = gone dada_error_hard

    pub receive-Always :
        Stable J
        → (at_once : Course → Course) (format_time : ℤ → Bytes) (f : Program C) (p : Course) → Q p
        → Q (record p { start_set = true })
        → ((n : ℕ) → n < 2 ^ 64 → p.total < n → Q (dated n p))
        → Q (at_once p)
        → Always J (receive at_once format_time f p) Q
    unfolding receive
    receive-Always st at_once format_time f p q s d o = bind got (λ c j.
        either (c.pwc.command.code is_code no_command) (value p q) (
          bind (command_get-Always st) (λ command small.
            bind (command_set-Always st command small)
              (λ u t. accept-Always at_once format_time f command.code p q s d o))))

  -- `dada_pwc_main_process_xfer`
  pub new_xfer-Any : (t : Transfers C) → Always J (new_xfer t) Any
  new_xfer-Any t = bind header_bytes-Any (λ m u. bind got (λ c j.
      let (first, text, context) = t.new_xfer_function c.context m in
      bind
        (elsewhere
          (λ d. record d {
            context = context;
            header_block = at_header d.header (λ o. text) d.header_block;
          })
          (λ d. (refl, refl)))
        (λ v s. value first tt)))

  xfer_status-Any : (t : Transfers C) → Always J (xfer_status t) Any
  xfer_status-Any t = record { keeps = λ c j. (j, tt) }

  last_byte-Any : (s : XferStatus) → Always {C = C} J (last_byte s) Any
  last_byte-Any obs_ending =
      bind (on_data-checked dada_error_hard (write (λ o. b'0') 1)) (λ n u. value tt tt)
  last_byte-Any xfer_normal = value tt tt
  last_byte-Any xfer_ending = value tt tt

  reopen-Any : Always {C = C} J reopen Any
  reopen-Any = bind (on_data-checked dada_error_hard Open.close) (λ a u.
      bind (on_header-checked dada_error_hard unlock_write) (λ b v.
        bind (on_header-checked dada_error_hard lock_write)
          (λ d w. on_data-checked dada_error_hard (Open.open_ b'W'))))

  next_transfer-Any : (t : Transfers C) → Always J (next_transfer t) Any
  unfolding next_transfer
  next_transfer-Any t = bind header_bytes-Any (λ last u. bind reopen-Any (λ a v.
      bind (on_header-followed get_next_write) (λ b w.
        bind (elsewhere (take_block b last) (λ c. (refl, refl))) (λ d x.
          bind (new_xfer-Any t) (λ first y. bind mark_header-Any (λ e z.
            bind (xfer_status-Any t)
              (λ status r. bind (last_byte-Any status) (λ g s. value (as_signed first) tt))))))))

  xfer_with-Any :
      (t : Transfers C) (buf_bytes : ℕ) (s : XferStatus) → Always J (xfer_with t buf_bytes s) Any
  unfolding xfer_with
  xfer_with-Any t n xfer_normal =
      bind (on_data-checked dada_error_fatal (close_block_write n)) (λ a u. value (pos 0) tt)
  xfer_with-Any t n obs_ending = value (pos 0) tt
  xfer_with-Any t n xfer_ending =
      bind (on_data-checked dada_error_fatal (update_block_write n)) (λ a u. next_transfer-Any t)

  pub process_xfer-Any : (t : Transfers C) (buf_bytes : ℕ) → Always J (process_xfer t buf_bytes) Any
  unfolding process_xfer
  process_xfer-Any t n = value_of-Any (bind (xfer_status-Any t) (λ s u. xfer_with-Any t n s))
