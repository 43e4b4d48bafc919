-- ===== src/PwcMain/Copy.antt =====
-- src/dada_pwc_main.c: `dada_pwc_main_transfer_data`, which copies data from the buffers that the
-- client's program supplies.
pub mod Exact
pub mod Aim
pub mod Transit
use mirror_psrdada_code.Prelude.{
  ℕ, ◌+◌, ◌==◌, Bool, true, false, not, ◌&&◌, ◌||◌, ltb, leb, if◌then◌else◌, add64, sub64, ℤ, pos,
  negsuc, zero, suc, List, [], ◌∷◌, Option, none, some,
}
use mirror_psrdada_code.AsciiHeader.{Bytes}
use mirror_psrdada_code.Client.{as_word}
use mirror_psrdada_code.Hdu.{Memory}
use mirror_psrdada_code.Ipcio.Input.{space_left}
use mirror_psrdada_code.Ipcio.Stream.{write}
use mirror_psrdada_code.Kernel.{Kernel}
use mirror_psrdada_code.Pwc.Header.{Environment}
use mirror_psrdada_code.Pwc.Session.{Request}
use mirror_psrdada_code.PwcMain.{
  Main, Program, Transfers, on_data, dada_error_hard, dada_error_fatal,
}
use mirror_psrdada_code.PwcMain.Course.{
  Course, wants_data, share, advanced, at_transit, arrive, begin, receive, late_header,
  change_state,
}
use mirror_psrdada_code.PwcMain.Flow.{
  Run, as_int, pure, give_up, get, modify, when, ◌>>=◌, ◌>>◌, ignoring, unsigned_result, or_return,
  target_of,
}
use mirror_psrdada_code.PwcMain.Xfer.{process_xfer}

-- The variables of the loop. `buffer` and the sizes keep their values from one round to the next.
pub record Copying : Type 0 where
  pub course : Course
  pub error_state : ℕ
  pub buffer : Option Memory
  pub buffer_size : ℕ
  pub buf_bytes : ℕ

-- a command for a byte that has been passed takes effect at once, which is at byte 1 before any data
abbrev pub at_once : Course → Course
at_once p =
    let total = if p.total == 0 then 1 else p.total in
    record p { total = total; transit = total; left = 0 }

abbrev pub shifted : ℕ → Option Memory → Option Memory
shifted n none = none
shifted n (some ptr) = some (λ o. ptr (n + o))

-- what `process_xfer` returned is an error, the end, the wait for data, or the byte to go on with
abbrev pub xfer_course : {C : Type 0} → ℤ → Course → Run C Course
xfer_course (negsuc zero) p = give_up (pos 0)
xfer_course (negsuc (suc zero)) p = give_up dada_error_hard
xfer_course (pos zero) p = pure p
xfer_course r p = pure (record p { total = as_word r })

module _ {C : Type 0} where
  -- the error function of the program; without one there is no way on
  abbrev recover : Option (C → ℤ × C) → Run C ℕ
  recover none c = pure 2 c
  recover (some f) c =
      let (n, context) = f c.context in pure (as_word n) (record c { context = context })

  abbrev call_buffer : Program C → Run C (Option Memory × ℤ)
  call_buffer f c =
      let (buffer, size, context) = f.buffer_function c.context in
      pure (buffer, size) (record c { context = context })

  module _ ⦃k : Kernel⦄ where
    -- a byte is written, so that a reader may acknowledge the start and the end of the data
    abbrev hopeless : Option Memory → Run C (Unit {0})
    hopeless buffer = do
      ptr ← target_of buffer
      ignoring (on_data (write ptr 1))
      give_up dada_error_hard

    -- `buffer_size == 0`
    unfoldable pub no_data : Option (Transfers C) → Program C → Copying → Run C Copying
    unfolding process_xfer
    no_data (some t) f g = do
      r ← process_xfer t 0
      course ← xfer_course r g.course
      pure (record g { course = course })
    no_data none f g = do
      state ← recover f.error_function
      (if state == 2 then hopeless g.buffer else pure tt)
      pure (record g { error_state = state })

    -- the result of `buffer_function`
    abbrev taken : Program C → ℤ → Copying → Run C Copying
    taken f (negsuc n) g = give_up (as_int (negsuc n))
    taken f (pos zero) g = no_data f.transfers f (record g { buffer_size = 0 })
    taken f (pos (suc n)) g = pure (record g { buffer_size = suc n; error_state = 0 })

    -- "If we run out of empty buffers and don't yet have a UTC_START, fail"
    abbrev need_start : (bytes : ℕ) → Course → Run C (Unit {0})
    need_start bytes p = do
      c ← get
      when (not p.start_set && ltb (space_left c.data_block) bytes) (give_up dada_error_fatal)

    -- the part of the buffer that belongs to the present state
    abbrev store_share : Memory → Copying → Run C Copying
    store_share ptr g = do
      let n = share g.buffer_size g.course
      need_start n g.course
      m ← or_return dada_error_fatal (on_data (write ptr n))
      when (ltb m n) (give_up dada_error_fatal)
      pure (record g { course = advanced n g.course; buf_bytes = n })

    -- the buffer, which may be null
    abbrev store : Program C → Option Memory → Copying → Run C Copying
    store f none g = give_up dada_error_hard
    store f (some ptr) g = do late_header f; store_share ptr g

    -- data are got and written
    unfoldable pub fill : Program C → Copying → Run C Copying
    unfolding no_data
    fill f g = do b ← call_buffer f; h ← taken f b.1 (record g { buffer = b.0 }); store f b.0 h

    -- the rest of the buffer after a change of state
    unfoldable pub store_rest : Copying → Run C Copying
    store_rest g = do
      let rest = sub64 g.buffer_size g.buf_bytes
      let h = record g { buffer = shifted g.buf_bytes g.buffer; buf_bytes = rest }
      (if rest == 0 then pure h else (do
        need_start rest g.course
        ptr ← target_of h.buffer
        m ← unsigned_result (on_data (write ptr rest))
        when (ltb m rest) (give_up dada_error_fatal)
        pure (record h { course = record h.course { total = add64 h.course.total rest } })))

    -- the test of the transit byte, and what follows
    unfoldable pub turn : (ℤ → Bytes) → Program C → Copying → Run C Copying
    unfolding change_state store_rest
    turn format_time f g = if not (at_transit g.course) then pure g else (do
      c ← get
      let p = record g.course { transit = 0 }
      change_state format_time f 2 c.command.code p
      store_rest (record g { course = p }))

    -- a round of the loop up to the test of the transit byte
    unfoldable pub advance : (ℤ → Bytes) → Program C → Copying → Run C Copying
    unfolding receive fill
    advance format_time f g = do
      course ← receive at_once format_time f g.course
      let h = record g { course = course }
      (if wants_data course then fill f h else pure h)

    -- a round of the loop
    unfoldable pub round : (ℤ → Bytes) → Program C → Copying → Run C Copying
    unfolding advance turn
    round format_time f g = do u ← advance format_time f g; turn format_time f u

    -- The loop. Before each round the requests of one element of the list reach the control port; the
    -- loop is still running when the list is used up, with the variables that are returned.
    unfoldable pub transfer_loop :
        Environment → (ℤ → Bytes) → Program C → List (List Request) → Copying → Run C Copying
    unfolding round arrive
    transfer_loop e format_time f [] g = pure g
    transfer_loop e format_time f (rs ∷ rest) g = do
      modify (arrive e rs)
      c ← get
      (if c.pwc.quit || not (leb g.error_state 1)
          then give_up (pos 0)
          else (do h ← round format_time f g; transfer_loop e format_time f rest h))

    -- `dada_pwc_main_transfer_data`
    unfoldable pub transfer_data :
        Environment → (ℤ → Bytes) → Program C → List (List Request) → Run C Copying
    unfolding begin transfer_loop
    transfer_data e format_time f arrivals = do
      course ← begin f
      transfer_loop e format_time f arrivals (record {
        course = course;
        error_state = 0;
        buffer = none;
        buffer_size = 0;
        buf_bytes = 0;
      })
