-- ===== src/PwcMain/Course.antt =====
-- src/dada_pwc_main.c: what `dada_pwc_main_transfer_data` and `dada_pwc_main_transfer_data_block`
-- share, in the same words: the count of the bytes, the commands that arrive, and the change of state
-- at the byte of a command.
pub mod Kept
pub mod Change
pub mod Exact
pub mod Aim
use mirror_psrdada_code.Prelude.{
  ℕ, zero, suc, ◌+◌, ◌%◌, ◌^◌, ◌==◌, Bool, true, false, not, ◌&&◌, ◌||◌, ltb, leb, if◌then◌else◌,
  add64, sub64, ℤ, pos, before, List, [], ◌∷◌, Option, none, some,
}
use mirror_psrdada_code.AsciiHeader.{Bytes, codes}
use mirror_psrdada_code.AsciiHeader as AsciiHeader
use mirror_psrdada_code.Hdu.{Memory, text_of}
use mirror_psrdada_code.Ipcio.Open as Open
use mirror_psrdada_code.Kernel.{Kernel}
use mirror_psrdada_code.Process.{Call}
use mirror_psrdada_code.Pwc.{
  PwcState, clocking, recording, ◌in_state◌, Code, no_command, clock, record_start, record_stop,
  start, stop, set_utc_start, ◌is_code◌, Command, Primary, command_get, set_state,
}
use mirror_psrdada_code.Pwc.Header.{Environment}
use mirror_psrdada_code.Pwc.Session.{Request, perform}
use mirror_psrdada_code.PwcMain.{
  Main, Program, Transfers, with_start, enter_state, on_data, dada_error_hard, dada_error_fatal,
}
use mirror_psrdada_code.PwcMain.Flow.{
  Flow, Run, pure, give_up, die, get, modify, when, ◌>>=◌, ◌>>◌, following, or_return, target_of,
  header_bytes, validate, mark_header,
}
use mirror_psrdada_code.PwcMain.Recording as Recording
use mirror_psrdada_code.PwcMain.Xfer.{new_xfer, process_xfer}

-- The variables of the loop: `total_bytes_written`, `transit_byte`, `bytes_to_write` and
-- `utc_start_set`.
pub record Course : Type 0 where
  pub total : ℕ
  pub transit : ℕ
  pub left : ℕ
  pub start_set : Bool

abbrev pub is_space : ℕ → Bool
is_space c = c == b' ' || ltb 8 c && ltb c 14

-- "%s" of sscanf: the first word; none if there is none
abbrev pub word : Bytes → Bytes
word [] = []
word (c ∷ s) = if is_space c then [] else c ∷ word s

abbrev pub first_word : Bytes → Option Bytes
first_word [] = none
first_word (c ∷ s) = if is_space c then first_word s else some (c ∷ word s)

abbrev pub value_word : Option Bytes → Option Bytes
value_word none = none
value_word (some text) = first_word text

abbrev pub same_text : Bytes → Bytes → Bool
same_text [] [] = true
same_text (c ∷ s) (d ∷ t) = c == d && same_text s t
same_text _ _ = false

-- a command that takes effect at a byte to come
abbrev pub dated : ℕ → Course → Course
dated byte p = record p { transit = byte; left = sub64 byte p.total }

-- is there data to get, and how much of `n` bytes is for the state that the client is in?
abbrev pub wants_data : Course → Bool
wants_data p = p.transit == 0 || not (p.left == 0)

abbrev pub share : (n : ℕ) → Course → ℕ
share n p = if not (p.transit == 0) && ltb p.left n then p.left else n

abbrev pub advanced : (buf_bytes : ℕ) → Course → Course
advanced n p = record p {
  total = add64 p.total n;
  left = if p.left == 0 then 0 else sub64 p.left n;
}

abbrev pub at_transit : Course → Bool
at_transit p = not (p.transit == 0) && leb p.transit p.total

module _ {C : Type 0} where
  abbrev on_pwc {ℓ} : {A : Type ℓ} → Call Primary A → Call (Main C) A
  on_pwc m c = ((m c.pwc).0, record c { pwc = (m c.pwc).1 })

  -- the requests that reach the control port before a round
  unfoldable pub arrive : Environment → List Request → Main C → Main C
  arrive e [] c = c
  arrive e (r ∷ rs) c = arrive e rs (record c { pwc = (perform e r c.pwc).1 })

  -- the byte at which the data of the first transfer start
  abbrev first_total : Option (Transfers C) → Run C ℕ
  first_total none = pure 0
  first_total (some t) = new_xfer t

  -- the value that was read
  abbrev known : Option Bytes → Run C Bytes
  known none = give_up dada_error_hard
  known (some text) = pure text

  -- before the loop
  unfoldable pub begin : Program C → Run C Course
  unfolding text_of AsciiHeader.get AsciiHeader.find AsciiHeader.find_loop AsciiHeader.strstr
      AsciiHeader.strcspn
  begin f = do
    c ← get
    total ← first_total f.transfers
    m ← header_bytes
    utc ← known (value_word (AsciiHeader.get (text_of c.header_size m 0) (codes "UTC_START")))
    pure (record {
      total = total;
      transit = c.command.byte_count;
      left = c.command.byte_count;
      start_set = not (same_text utc (codes "UNKNOWN"));
    })

  module _ ⦃k : Kernel⦄ where
    -- a header that is not valid yet, while data are recorded
    abbrev pub publish : Program C → Run C (Unit {0})
    publish f = do valid ← validate f; when valid mark_header

    -- the same in the middle of the transfer, where a null `header_valid_function` would be called
    abbrev pub late_header : Program C → Run C (Unit {0})
    late_header f = do
      c ← get
      when (not c.header_valid && c.pwc.state in_state recording)
          (do h ← target_of f.header_valid_function; publish f)

    -- `set_utc_start`
    abbrev set_start : (format_time : ℤ → Bytes) → Program C → Course → Run C Course
    set_start format_time f p = do
      c ← get
      (if before (pos 0) c.command.utc then pure tt else die)
      (if p.start_set then pure p else (do
        modify (with_start (format_time c.command.utc))
        when (c.pwc.state in_state recording) (publish f)
        pure (record p { start_set = true })))

    abbrev scheduled : (Course → Course) → Course → Run C Course
    scheduled at_once p = do
      c ← get
      pure (if ltb p.total c.command.byte_count then dated c.command.byte_count p else at_once p)

    -- what the loop does with a new command. `at_once` is what it does for a byte that has been passed.
    unfoldable pub accept :
        (Course → Course) → (ℤ → Bytes) → Program C → Code → Course → Run C Course
    accept at_once format_time f set_utc_start p = set_start format_time f p
    accept at_once format_time f record_stop p = scheduled at_once p
    accept at_once format_time f record_start p = scheduled at_once p
    accept at_once format_time f stop p = scheduled at_once p
    accept at_once format_time f _ p = give_up dada_error_hard

    -- `dada_pwc_command_check` and what follows it
    unfoldable pub receive : (Course → Course) → (ℤ → Bytes) → Program C → Course → Run C Course
    unfolding accept command_get
    receive at_once format_time f p = do
      c ← get
      (if c.pwc.command.code is_code no_command then pure p else (do
        command ← following (on_pwc command_get)
        modify (λ d. record d { command = command })
        accept at_once format_time f command.code p))

    abbrev unexpected_late : Course → Run C (Unit {0})
    unexpected_late p = when (not (p.total == 0)) (give_up dada_error_hard)

    abbrev ending : Option (Transfers C) → (buf_bytes : ℕ) → Run C (Unit {0})
    ending none buf_bytes = give_up (pos 0)
    ending (some t) buf_bytes = do r ← process_xfer t buf_bytes; give_up (pos 0)

    -- The change of state. `transit_byte` is 0 by now; `buf_bytes` is what `process_xfer` is given.
    unfoldable pub change_state :
        (ℤ → Bytes) → Program C → (buf_bytes : ℕ) → Code → Course → Run C (Unit {0})
    unfolding set_state
    change_state format_time f buf_bytes record_stop p = do
      or_return dada_error_fatal (on_data Open.stop)
      modify (enter_state clocking (pos 0))
    change_state format_time f buf_bytes record_start p = do
      Recording.record_start format_time f
      modify (enter_state recording (pos 0))
    change_state format_time f buf_bytes stop p = ending f.transfers buf_bytes
    change_state format_time f buf_bytes set_utc_start p = unexpected_late p
    change_state format_time f buf_bytes clock p = unexpected_late p
    change_state format_time f buf_bytes start p = unexpected_late p
    change_state format_time f buf_bytes _ p = give_up dada_error_hard
