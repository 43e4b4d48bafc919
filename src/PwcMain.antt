-- ===== src/PwcMain.antt =====
-- src/dada_pwc_main.h, src/dada_pwc_main.c: the primary write client, with the steps of its main loop
-- before and after the transfer of the data. The functions of the client's program are parameters,
-- which act on a state of their own, of type `C`. A return value is the `int` of the C function: 0, or
-- DADA_ERROR_SOFT (-1), DADA_ERROR_HARD (-2) or DADA_ERROR_FATAL (-3). `ascii_header_set` fails only
-- where the printing functions of C do, which is not modelled.
pub mod Errors
mod Flow
mod Recording
mod Xfer
mod Course
mod Copy
mod Block
mod Rules
mod Runs
pub mod Loop
mod Steps
mod Stability
pub mod Lost
mod Path
pub mod Within
mod Failure
pub mod Prepare
pub mod Start
pub mod Stop
mod Tests
mod TransferTests
use mirror_psrdada_code.Prelude.{
  ℕ, zero, suc, ◌+◌, ◌-◌, Bool, true, false, not, ◌&&◌, ◌||◌, ltb, ◌==◌, if◌then◌else◌, ℤ, pos,
  negsuc, Option, none, some, List, update, is_zero, before,
}
use mirror_psrdada_code.AsciiHeader.{Bytes, codes, byte, set}
use mirror_psrdada_code.Hdu.{Memory, text_of, with_text}
use mirror_psrdada_code.Ipcbuf.Query.{set_soclock_buf}
use mirror_psrdada_code.Ipcbuf.Writer.{get_next_write, mark_filled}
use mirror_psrdada_code.Ipcio.Open.{is_open, open_, close}
use mirror_psrdada_code.Ipcio.{Io}
use mirror_psrdada_code.Kernel.{Kernel}
use mirror_psrdada_code.Process.{Outcome, ok, fail, asleep, Call, M}
use mirror_psrdada_code.Pwc.{
  PwcState, idle, prepared, clocking, recording, soft_error, hard_error, fatal_error, ◌in_state◌,
  Code, reset, header, clock, start, stop, ◌is_code◌, Command, Primary, set_state, command_get,
}
use mirror_psrdada_code.Shared.{World}

-- `dada_pwc_main_t`, less the log and what the transfer of the data needs. Both blocks are there.
-- `header` is the block of the header ring that `header` points to.
record Main (C : Type 0) : Type 0 where
  pwc : Primary
  data_block : Io
  header_block : World
  header : Option ℕ
  header_size : ℕ
  header_valid : Bool
  command : Command
  context : C

-- DADA_XFER_NORMAL, DADA_OBS_ENDING, and DADA_XFER_ENDING or any other number
pub data XferStatus : Type 0 where
  xfer_normal obs_ending xfer_ending : XferStatus

-- The functions of a program that makes several transfers in an observation; it has both or none.
-- `new_xfer_function` changes the header.
pub record Transfers (C : Type 0) : Type 0 where
  pub xfer_pending_function : C → XferStatus × C
  pub new_xfer_function : C → Memory → ℕ × Memory × C

-- what the client's program supplies; none for a null pointer
record Program (C : Type 0) : Type 0 where
  start_function : C → ℤ → ℤ × C
  stop_function : C → Bool × C
  header_valid_function : Option (C → Bool × C)
  -- a buffer of data and its size
  buffer_function : C → Option Memory × ℤ × C
  -- fills a block of `size` bytes with the index `block_id`
  -- is there a `block_function`? It is not called otherwise.
  has_block_function : Bool
  block_function : C → Memory → (size block_id : ℕ) → ℤ × Memory × C
  error_function : Option (C → ℤ × C)
  transfers : Option (Transfers C)

abbrev dada_error_soft : ℤ
dada_error_soft = negsuc 0

abbrev dada_error_hard : ℤ
dada_error_hard = negsuc 1

abbrev dada_error_fatal : ℤ
dada_error_fatal = negsuc 2

-- the state that `dada_pwc_main_process_error` asks for
unfoldable error_state : ℤ → PwcState → PwcState
error_state (pos n) s = fatal_error
error_state (negsuc zero) s =
    if s in_state hard_error || s in_state fatal_error then s else soft_error
error_state (negsuc (suc zero)) s = if s in_state fatal_error then s else hard_error
error_state (negsuc (suc (suc n))) s = fatal_error

-- `dada_pwc_main_process_error`
unfoldable process_error : ℤ → Primary → Primary
unfolding error_state set_state
process_error rval p = (set_state (error_state rval p.state) (pos 0) p).1

-- what follows a call whose failure is tested
abbrev attempt {ℓ} :
    {S A : Type 0} {B : Type ℓ}
    → Outcome A
    → S
    → (S → Outcome B × S)
    → (A → S → Outcome B × S)
    → Outcome B × S
attempt (ok a) s refused done = done a s
attempt fail s refused done = refused s
attempt asleep s refused done = (asleep, s)

-- the bytes of the block that `header` points to
abbrev at_header : Option ℕ → (Memory → Memory) → World → World
at_header none f w = w
at_header (some b) f w = record w { mem = update w.mem b (f (w.mem b)) }

-- strncpy: the text, and nulls up to `size`
abbrev copied_text : Bytes → (size : ℕ) → Memory → Memory
copied_text text size m o = if ltb o size then byte text o else m o

abbrev return_value {ℓ} : {S : Type 0} {A : Type ℓ} → A → S → Outcome A × S
return_value r s = (ok r, s)

abbrev state_entered : Outcome (Unit {0}) → ℤ
state_entered (ok u) = pos 0
state_entered _ = negsuc 0

module _ {C : Type 0} where
  abbrev on_data {ℓ} : {A : Type ℓ} → Call Io A → Call (Main C) A
  on_data m c = ((m c.data_block).0, record c { data_block = (m c.data_block).1 })

  abbrev on_header {ℓ} : {A : Type ℓ} → M A → Call (Main C) A
  on_header m c = ((m c.header_block).0, record c { header_block = (m c.header_block).1 })

  -- `dada_pwc_set_state`, whose status is not looked at
  abbrev enter_state : PwcState → ℤ → Main C → Main C
  enter_state s utc c = record c { pwc = (set_state s utc c.pwc).1 }

  module _ ⦃k : Kernel⦄ where
    -- `dada_pwc_main_prepare` before its loop
    unfoldable prepare_blocks : Call (Main C) ℤ
    prepare_blocks c =
        let d = record c { header_size = c.header_block.sync.bufsz } in
        attempt (on_header get_next_write d).0 (on_header get_next_write d).1
          (return_value dada_error_hard)
          (λ b e.
            let f = record e { header = some b } in
            if is_open f.data_block
            then attempt (on_data close f).0 (on_data close f).1 (return_value dada_error_hard)
                (λ u. return_value (pos 0))
            else (ok (pos 0), f))

    -- `if (… && ipcio_open (pwcm->data_block, mode) < 0) return DADA_ERROR_HARD; return 0;`
    abbrev open_and_leave : (mode : ℕ) → Call (Main C) (Option ℤ)
    open_and_leave mode c =
        attempt (on_data (open_ mode) c).0 (on_data (open_ mode) c).1
          (return_value (some dada_error_hard)) (λ u. return_value (some (pos 0)))

    -- what the loop of `dada_pwc_main_prepare` does with a command; none if the loop goes on
    unfoldable prepare_command : Code → Call (Main C) (Option ℤ)
    prepare_command reset c = (ok none, enter_state idle (pos 0) c)
    prepare_command header c = (
      ok none,
      enter_state prepared (pos 0) (record c {
        header_block = at_header c.header (copied_text c.pwc.text c.header_size) c.header_block;
      }),
    )
    prepare_command clock c =
        if not (c.command.byte_count == 0)
        then (ok (some dada_error_soft), c)
        else open_and_leave b'w' c
    prepare_command start c = open_and_leave b'W' c
    prepare_command stop c = (ok none, enter_state idle (pos 0) c)
    prepare_command _ c = (ok (some dada_error_hard), c)

    -- the body of the loop of `dada_pwc_main_prepare`
    abbrev prepare_body : Call (Main C) (Option ℤ)
    prepare_body c =
        attempt (command_get c.pwc).0 (record c { pwc = (command_get c.pwc).1 })
          (return_value (some dada_error_hard))
          (λ command d.
            let e = record d { command = command } in
            if e.pwc.quit then (ok (some (pos 0)), e) else prepare_command command.code e)

    -- a round of that loop, with its test
    unfoldable prepare_round : Call (Main C) (Option ℤ)
    unfolding prepare_command command_get
    prepare_round c = if c.pwc.quit then (ok (some (pos 0)), c) else prepare_body c

    -- the test of `header_valid_function`
    abbrev validated : Option (C → Bool × C) → Main C → Main C
    validated none c = record c { header_valid = true }
    validated (some f) c = record c { header_valid = (f c.context).0; context = (f c.context).1 }

    -- the part of `dada_pwc_main_start_transfer` for a start command
    abbrev publish_header : Program C → Call (Main C) ℤ
    publish_header f c =
        let d = validated f.header_valid_function c in
        if d.header_valid
        then attempt (on_header (mark_filled d.header_size) d).0
            (on_header (mark_filled d.header_size) d).1 (return_value dada_error_hard)
            (λ u. return_value (pos 0))
        else (ok (pos 0), d)

    -- the end of `dada_pwc_main_start_transfer`; the header is published, or that failed
    abbrev enter_transfer : ℤ → ℤ → Call (Main C) ℤ
    enter_transfer utc (negsuc n) c = (ok (negsuc n), c)
    enter_transfer utc (pos n) c =
        let w = c.data_block.world in
        let d = record c {
          data_block = record c.data_block {
            world = record w { handle = set_soclock_buf w.sync w.handle };
          };
        } in
        if d.command.code is_code clock
        then (ok (state_entered (set_state clocking utc d.pwc).0), enter_state clocking utc d)
        else if d.command.code is_code start
        then (ok (state_entered (set_state recording utc d.pwc).0), enter_state recording utc d)
        else (ok dada_error_hard, d)

    -- `ascii_header_set` on the header
    abbrev with_key : (key value : Bytes) → Main C → Main C
    with_key key value c =
        let size = c.header_size in
        record c {
          header_block =
              at_header c.header (λ m. with_text (set (text_of size m 0) key value) 0 m)
                c.header_block;
        }

    abbrev with_start : Bytes → Main C → Main C
    with_start = with_key (codes "UTC_START")

    -- `dada_pwc_main_start_transfer`; `format_time` is strftime, with the text for an unknown time
    unfoldable start_transfer : (format_time : ℤ → Bytes) → Program C → Call (Main C) ℤ
    unfolding set_state text_of
    start_transfer format_time f c =
        let (utc, context) = f.start_function c.context c.command.utc in
        let d = record c { context = context } in
        if before utc (pos 0)
        then (ok dada_error_hard, d)
        else let time = if is_zero utc then codes "UNKNOWN" else format_time utc in
          let e = with_start time d in
          let g =
            if before (pos 0) utc then record e { pwc = record e.pwc { utc_start = utc } } else e in
          if g.command.code is_code start
          then attempt (publish_header f g).0 (publish_header f g).1 (return_value dada_error_hard)
              (enter_transfer utc)
          else enter_transfer utc (pos 0) g

    -- the end of `dada_pwc_main_stop_transfer`
    abbrev leave_transfer : Call (Main C) ℤ
    leave_transfer c =
        let s = c.pwc.state in
        if s in_state soft_error || (s in_state hard_error || s in_state fatal_error)
        then (ok (pos 0), c)
        else (ok (pos 0), enter_state idle (pos 0) c)

    -- `dada_pwc_main_stop_transfer`
    unfoldable stop_transfer : Program C → Call (Main C) ℤ
    unfolding set_state
    stop_transfer f c =
        let (done, context) = f.stop_function c.context in
        let d = record c { header_valid = false; context = context } in
        if not done
        then (ok dada_error_hard, d)
        else attempt (on_data close d).0 (on_data close d).1 (return_value dada_error_fatal)
            (λ u. leave_transfer)
