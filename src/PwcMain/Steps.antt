-- ===== src/PwcMain/Steps.antt =====
-- src/dada_pwc_main.c: the steps of the main loop keep what is `Stable`.
use mirror_psrdada_code.Prelude.{
  ℕ, Bool, true, false, not, ◌==◌, before, is_zero, if◌then◌else◌, ℤ, pos, negsuc, Option, none,
  some,
}
use mirror_psrdada_code.AsciiHeader.{Bytes, codes}
use mirror_psrdada_code.Ipcbuf.Writer.{get_next_write, mark_filled}
use mirror_psrdada_code.Ipcio.Open.{open_, close, is_open}
use mirror_psrdada_code.Kernel.{Kernel}
use mirror_psrdada_code.Process.{Outcome, ok, fail, asleep}
use mirror_psrdada_code.Pwc.{
  PwcState, idle, prepared, clocking, recording, Code, reset, header, clock, start, stop, ◌is_code◌,
  Command, Primary, command_get,
}
use mirror_psrdada_code.PwcMain.{
  Main, Program, attempt, return_value, enter_state, at_header, copied_text, prepare_blocks,
  prepare_command, prepare_body, prepare_round, open_and_leave, start_transfer, stop_transfer,
  leave_transfer, process_error, error_state, publish_header, enter_transfer, validated, with_start,
  dada_error_hard,
}
use mirror_psrdada_code.PwcMain.Course.Kept.{IsSmall, command_get-IsSmall}
use mirror_psrdada_code.PwcMain.Flow.{followed}
use mirror_psrdada_code.PwcMain.Rules.{Ensures, Held, AlwaysStable}

module _ {C : Type 0} (J : Primary → Command → Type 0) where
  -- a call with an error path
  attempt-Held :
      {A B : Type 0} (o : Outcome A) (s : Main C) (refused : Main C → Outcome B × Main C)
      (done : A → Main C → Outcome B × Main C)
      → Held J s
      → Held J (refused s).1
      → ((a : A) → Held J (done a s).1)
      → Held J (attempt o s refused done).1
  attempt-Held (ok a) s refused done h r d = d a
  attempt-Held fail s refused done h r d = r
  attempt-Held asleep s refused done h r d = h

  branch-Held :
      {B : Type 0} (b : Bool) (x y : Outcome B × Main C)
      → Held J x.1
      → Held J y.1
      → Held J (if b then x else y).1
  branch-Held true x y h h' = h
  branch-Held false x y h h' = h'

  entered-Held :
      AlwaysStable J
      → (s : PwcState) (utc : ℤ) (c : Main C) → Held J c
      → Held J (enter_state s utc c)
  entered-Held st s utc c (j, small) = (st.set s utc c.pwc c.command j, small)

  module _ ⦃k : Kernel⦄ where
    pub prepare_blocks-Held : (c : Main C) → Held J c → Held J (prepare_blocks c).1
    unfolding prepare_blocks
    prepare_blocks-Held c h = attempt-Held (get_next_write c.header_block).0 _ _ _ h h (λ b.
        branch-Held (is_open c.data_block) _ _
          (attempt-Held (close c.data_block).0 _ _ _ h h (λ u. h)) h)

    open_and_leave-Held : (mode : ℕ) (c : Main C) → Held J c → Held J (open_and_leave mode c).1
    open_and_leave-Held mode c h = attempt-Held (open_ mode c.data_block).0 _ _ _ h h (λ u. h)

    prepare_command-Held :
        AlwaysStable J → (code : Code) (c : Main C) → Held J c → Held J (prepare_command code c).1
    unfolding prepare_command
    prepare_command-Held st reset c h = entered-Held st idle (pos 0) c h
    prepare_command-Held st header c h =
        entered-Held st prepared (pos 0)
          (record c {
            header_block = at_header c.header (copied_text c.pwc.text c.header_size) c.header_block;
          })
          h
    prepare_command-Held st clock c h =
        branch-Held (not (c.command.byte_count == 0)) _ _ h (open_and_leave-Held b'w' c h)
    prepare_command-Held st start c h = open_and_leave-Held b'W' c h
    prepare_command-Held st stop c h = entered-Held st idle (pos 0) c h
    prepare_command-Held st _ c h = h

    with_command-Held :
        (o : Outcome Command) (s : Main C) (used : Command → Main C → Outcome (Option ℤ) × Main C)
        → Ensures IsSmall (followed o)
        → Held J s
        → ((a : Command) → IsSmall a → Held J (used a s).1)
        → Held J (attempt o s (return_value (some dada_error_hard)) used).1
    with_command-Held (ok a) s used small h u = u a small
    with_command-Held fail s used small h u = h
    with_command-Held asleep s used small h u = h

    pub prepare_body-Held : AlwaysStable J → (c : Main C) → Held J c → Held J (prepare_body c).1
    prepare_body-Held st c (j, small) =
        let got = st.stable.get c.pwc c.command j in
        let taken =
          λ (command : Command). st.stable.take (command_get c.pwc).1 c.command command got in
        with_command-Held (command_get c.pwc).0 (record c { pwc = (command_get c.pwc).1 })
          (λ command d.
            let e = record d { command = command } in
            if e.pwc.quit then (ok (some (pos 0)), e) else prepare_command command.code e)
          (command_get-IsSmall c.pwc (st.stable.word c.pwc c.command j))
          (st.stable.get c.pwc c.command j, small)
          (λ command s.
            let e = record c { pwc = (command_get c.pwc).1; command = command } in
            branch-Held e.pwc.quit (ok (some (pos 0)), e) (prepare_command command.code e)
              (taken command, s) (prepare_command-Held st command.code e (taken command, s)))

    pub prepare_round-Held : AlwaysStable J → (c : Main C) → Held J c → Held J (prepare_round c).1
    unfolding prepare_round
    prepare_round-Held st c h =
        branch-Held c.pwc.quit (ok (some (pos 0)), c) (prepare_body c) h (prepare_body-Held st c h)

    validated-Held : (f : Option (C → Bool × C)) (c : Main C) → Held J c → Held J (validated f c)
    validated-Held none c h = h
    validated-Held (some f) c h = h

    publish_header-Held : (f : Program C) (c : Main C) → Held J c → Held J (publish_header f c).1
    publish_header-Held f c h =
        let d = validated f.header_valid_function c in
        let i = validated-Held f.header_valid_function c h in
        branch-Held d.header_valid _ _
          (attempt-Held (mark_filled d.header_size d.header_block).0 _ _ _ i i (λ u. i)) i

    enter_transfer-Held :
        AlwaysStable J → (utc r : ℤ) (c : Main C) → Held J c → Held J (enter_transfer utc r c).1
    enter_transfer-Held st utc (negsuc n) c h = h
    enter_transfer-Held st utc (pos n) c h =
        branch-Held (c.command.code is_code clock) _ _ (entered-Held st clocking utc c h)
          (branch-Held (c.command.code is_code start) _ _ (entered-Held st recording utc c h) h)

    timed-Held :
        AlwaysStable J
        → (b : Bool) (utc : ℤ) (e : Main C) → Held J e
        → Held J (if b then record e { pwc = record e.pwc { utc_start = utc } } else e)
    timed-Held st true utc e (j, small) = (st.time utc e.pwc e.command j, small)
    timed-Held st false utc e h = h

    pub start_transfer-Held :
        AlwaysStable J
        → (format_time : ℤ → Bytes) (f : Program C) (c : Main C) → Held J c
        → Held J (start_transfer format_time f c).1
    unfolding start_transfer
    start_transfer-Held st format_time f c h =
        let utc = (f.start_function c.context c.command.utc).0 in
        let d = record c { context = (f.start_function c.context c.command.utc).1 } in
        let e = with_start (if is_zero utc then codes "UNKNOWN" else format_time utc) d in
        let g =
          if before (pos 0) utc then record e { pwc = record e.pwc { utc_start = utc } } else e in
        let i = timed-Held st (before (pos 0) utc) utc e h in
        branch-Held (before utc (pos 0)) _ _ h (
          branch-Held (g.command.code is_code start) _ _
            (attempt-Held (publish_header f g).0 _ _ _ (publish_header-Held f g i)
              (publish_header-Held f g i)
              (λ r.
                enter_transfer-Held st utc r (publish_header f g).1 (publish_header-Held f g i)))
            (enter_transfer-Held st utc (pos 0) g i))

    leave_transfer-Held : AlwaysStable J → (c : Main C) → Held J c → Held J (leave_transfer c).1
    leave_transfer-Held st c h = branch-Held _ _ _ h (entered-Held st idle (pos 0) c h)

    pub stop_transfer-Held :
        AlwaysStable J → (f : Program C) (c : Main C) → Held J c → Held J (stop_transfer f c).1
    unfolding stop_transfer
    stop_transfer-Held st f c h =
        let d = record c { header_valid = false; context = (f.stop_function c.context).1 } in
        branch-Held (not (f.stop_function c.context).0) _ _ h (
          attempt-Held (close c.data_block).0 _ _ _ h h
            (λ u. leave_transfer-Held st (record d { data_block = (close c.data_block).1 }) h))

    pub process_error-Held :
        AlwaysStable J
        → (rval : ℤ) (c : Main C) → Held J c
        → Held J (record c { pwc = process_error rval c.pwc })
    unfolding process_error
    process_error-Held st rval c (j, small) =
        (st.set (error_state rval c.pwc.state) (pos 0) c.pwc c.command j, small)
