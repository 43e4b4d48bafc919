-- ===== src/PwcMain/Block/Exact.antt =====
-- src/dada_pwc_main.c: `dada_pwc_main_transfer_data_block` changes the state at the byte of the command.
use mirror_psrdada_code.Prelude.{
  ◌≡◌, ◌∙◌, refl, inl, ℕ, ◌<◌, ◌^◌, Bool, true, false, not, ◌==◌, ◌&&◌, ltb, if◌then◌else◌, add64,
  ℤ, pos, negsuc, zero, suc, List, [], ◌∷◌, Option, none, some, arith,
}
use mirror_psrdada_code.AsciiHeader.{Bytes}
use mirror_psrdada_code.Ipcio.{Pointer}
use mirror_psrdada_code.Ipcio.Block.{open_block_write, close_block_write}
use mirror_psrdada_code.Kernel.{Kernel}
use mirror_psrdada_code.Pwc.{Command, Primary}
use mirror_psrdada_code.Pwc.Header.{Environment}
use mirror_psrdada_code.Pwc.Session.{Request}
use mirror_psrdada_code.PwcMain.{Program, Transfers, on_data, dada_error_hard, dada_error_fatal}
use mirror_psrdada_code.PwcMain.Block.{
  Blocks, at_once, xfer_blocks, call_block, last_call, end_block, taken, fill, turn, advance, round,
  transfer_loop, transfer_data_block,
}
use mirror_psrdada_code.PwcMain.Course.{
  Course, wants_data, share, advanced, at_transit, change_state,
}
use mirror_psrdada_code.PwcMain.Course.Change.{change_state-Any, arrive-Any, begin-Before}
use mirror_psrdada_code.PwcMain.Course.Exact.{
  OnWay, Before, Before-OnWay, dated-OnWay, advanced-OnWay, OnWay-Before,
}
use mirror_psrdada_code.PwcMain.Course.Kept.{receive-Always, late_header-Any, process_xfer-Any}
use mirror_psrdada_code.PwcMain.Flow.{give_up, pure, get, when, ◌>>=◌, ◌>>◌, ignoring}
use mirror_psrdada_code.PwcMain.Rules.{
  Any, Stable, Always, bind, value, gone, got, elsewhere, either, perhaps, weaken, on_data-checked,
  on_data-ignored,
}

pub at_once-OnWay : (p : Course) → p.total < 2 ^ 64 → OnWay (at_once p)
at_once-OnWay p small = ground arith

module _ {C : Type 0} ⦃k : Kernel⦄ (f : Program C) where
  -- what holds in a program without several transfers
  abbrev pub Way : Blocks → Type 0
  Way g = f.transfers ≡ none → (g.course.total < 2 ^ 64) × OnWay g.course

  abbrev pub Head : Blocks → Type 0
  Head g = f.transfers ≡ none → (g.course.total < 2 ^ 64) × Before g.course

  advanced-Way :
      (n b : ℕ) (g : Blocks)
      → Way g
      → Way (record g { course = advanced (share n g.course) g.course; buf_bytes = b })
  advanced-Way n b g w without =
      let (small, o) = w without in (omega arith, advanced-OnWay n g.course o)

  -- the same, with the byte for the change of state
  abbrev pub OnCourse : ℕ → Blocks → Type 0
  OnCourse t g = (g.course.transit ≡ t) × Way g

  -- after a change of state
  abbrev pub Turned : Blocks → Type 0
  Turned g = (g.course.transit ≡ 0) × Head g

  pub turned-Head : (g : Blocks) → Way g → at_transit g.course ≡ false → Head g
  turned-Head g w e without = let (small, o) = w without in (small, OnWay-Before g.course o e)

  module _ {J : Primary → Command → Type 0} where
    call_block-Any : (at : Pointer) (n : ℕ) → Always J (call_block f at n) Any
    call_block-Any at n = record { keeps = λ c j. (j, tt) }

    xfer_blocks-transit :
        (r : ℤ) (g : Blocks)
        → Always {C = C} J (xfer_blocks r g) (λ h. h.course.transit ≡ g.course.transit)
    xfer_blocks-transit (negsuc n) g = gone dada_error_hard
    xfer_blocks-transit (pos zero) g = value g refl
    xfer_blocks-transit (pos (suc n)) g = value _ refl

    end_block-OnCourse :
        (t : Option (Transfers C)) (n at : ℕ) (g : Blocks)
        → f.transfers ≡ t
        → OnCourse at g
        → Always J (end_block t f n g) (OnCourse at)
    unfolding end_block
    end_block-OnCourse none n at g e w =
        bind (on_data-checked dada_error_fatal (close_block_write g.buf_bytes)) (λ u v. value g w)
    end_block-OnCourse (some t) n at g e w =
        bind
          (perhaps (not (g.course.transit == 0) && g.course.transit == g.course.total)
            (elsewhere (last_call f n) (λ c. (refl, refl))))
          (λ u v. bind (process_xfer-Any t g.buf_bytes) (λ r x.
            weaken (xfer_blocks-transit r (record g { this_xfer = add64 g.this_xfer g.buf_bytes }))
              (λ h y. (y ∙ w.0, λ without. absurd (cc (e, without))))))

    too_much-Any :
        (b : Bool) (n : ℕ)
        → Always {C = C} J
            (when b (ignoring (on_data (close_block_write n)) >> give_up dada_error_fatal))
            Any
    too_much-Any b n =
        perhaps b (bind (on_data-ignored (close_block_write n)) (λ u v. gone dada_error_fatal))

    taken-OnCourse :
        (block_id : ℕ) (n : ℤ) (at : ℕ) (g : Blocks)
        → OnCourse at g
        → Always J (taken f block_id n g) (OnCourse at)
    unfolding taken
    taken-OnCourse block_id (negsuc n) at g w =
        bind (on_data-ignored (close_block_write 0)) (λ u v. gone dada_error_fatal)
    taken-OnCourse block_id (pos n) at g w = bind got (λ c j.
        bind (too_much-Any (ltb c.data_block.world.sync.bufsz n) c.data_block.world.sync.bufsz)
          (λ u v.
            bind
              (end_block-OnCourse f.transfers block_id at _ refl
                (w.0, advanced-Way n (share n g.course) g w.1))
              (λ h x. bind (late_header-Any f) (λ y z. value h x))))

    pub fill-OnCourse : (at : ℕ) (g : Blocks) → OnCourse at g → Always J (fill f g) (OnCourse at)
    unfolding fill
    fill-OnCourse at g w =
        bind (on_data-checked dada_error_fatal open_block_write)
          (λ b u. bind (call_block-Any b.0 b.1) (λ n v. taken-OnCourse b.1 n at g w))

    changed-Head :
        Stable J
        → (format_time : ℤ → Bytes) (g : Blocks) → Way g
        → (b : Bool) → at_transit g.course ≡ b
        → Always J
            (if not b
              then pure g
              else (get >>= λ c.
                  change_state format_time f g.buf_bytes c.command.code
                    (record g.course { transit = 0 })
                  >> pure (record g { course = record g.course { transit = 0 } })))
            Head
    changed-Head st format_time g w false e = value g (turned-Head g w e)
    changed-Head st format_time g w true e = bind got (λ c j.
        bind
          (change_state-Any st format_time f g.buf_bytes c.command.code
            (record g.course { transit = 0 }))
          (λ a u. value _ (λ without. ((w without).0, inl refl))))

    pub turn-Turned :
        Stable J
        → (format_time : ℤ → Bytes) (g : Blocks) → Way g
        → at_transit g.course ≡ true
        → Always J (turn format_time f g) Turned
    unfolding turn
    turn-Turned st format_time g w e = rw e (
        bind got (λ c j.
          bind
            (change_state-Any st format_time f g.buf_bytes c.command.code
              (record g.course { transit = 0 }))
            (λ a u. value _ (refl, λ without. ((w without).0, inl refl)))))

    turn-Head :
        Stable J
        → (format_time : ℤ → Bytes) (g : Blocks) → Way g
        → Always J (turn format_time f g) Head
    unfolding turn
    turn-Head st format_time g w = changed-Head st format_time g w (at_transit g.course) refl

    pub advance-Way :
        Stable J
        → (format_time : ℤ → Bytes) (g : Blocks) → Head g
        → Always J (advance format_time f g) Way
    unfolding advance
    advance-Way st format_time g h =
        let on : Way g = λ without. ((h without).0, Before-OnWay g.course (h without).1) in
        bind
          (receive-Always {Q = λ p. Way (record g { course = p; buf_bytes = 0 })} st at_once
            format_time f g.course on on
            (λ n small lt without. ((h without).0, dated-OnWay n g.course small lt))
            (λ without. ((h without).0, at_once-OnWay g.course (h without).0)))
          (λ p w.
            either (wants_data p)
              (weaken (fill-OnCourse p.transit (record g { course = p; buf_bytes = 0 }) (refl, w))
                (λ u v. v.1))
              (value (record g { course = p; buf_bytes = 0 }) w))

    transfer_loop-Head :
        Stable J
        → (e : Environment) (format_time : ℤ → Bytes) (arrivals : List (List Request)) (g : Blocks)
        → Head g
        → Always J (transfer_loop e format_time f arrivals g) Head
    unfolding transfer_loop round
    transfer_loop-Head st e format_time [] g h = value g h
    transfer_loop-Head st e format_time (rs ∷ rest) g h = bind (arrive-Any st e rs) (λ a u.
        bind got (λ c j. either c.pwc.quit (gone (pos 0)) (
          bind (bind (advance-Way st format_time g h) (λ v w. turn-Head st format_time v w))
            (λ g' h'. transfer_loop-Head st e format_time rest g' h'))))

    pub transfer_data_block-Head :
        Stable J
        → (e : Environment) (format_time : ℤ → Bytes) (arrivals : List (List Request))
        → Always J (transfer_data_block e format_time f arrivals) Head
    unfolding transfer_data_block
    transfer_data_block-Head st e format_time arrivals =
        bind (begin-Before f) (λ p h. transfer_loop-Head st e format_time arrivals _ h)
