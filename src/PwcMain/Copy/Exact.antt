-- ===== src/PwcMain/Copy/Exact.antt =====
-- src/dada_pwc_main.c: `dada_pwc_main_transfer_data` changes the state at the byte of the command.
use mirror_psrdada_code.Prelude.{
  ◌≡◌, ◌∙◌, refl, inl, ℕ, ◌<◌, ◌^◌, Bool, true, false, not, ◌==◌, ◌||◌, ◌&&◌, ltb, leb,
  if◌then◌else◌, sub64, ℤ, pos, negsuc, zero, suc, List, [], ◌∷◌, Option, none, some, arith,
}
use mirror_psrdada_code.AsciiHeader.{Bytes}
use mirror_psrdada_code.Hdu.{Memory}
use mirror_psrdada_code.Ipcio.Input.{space_left}
use mirror_psrdada_code.Ipcio.Stream.{write}
use mirror_psrdada_code.Kernel.{Kernel}
use mirror_psrdada_code.Pwc.{Command, Primary}
use mirror_psrdada_code.Pwc.Header.{Environment}
use mirror_psrdada_code.Pwc.Session.{Request}
use mirror_psrdada_code.PwcMain.{Program, Transfers, dada_error_hard, dada_error_fatal}
use mirror_psrdada_code.PwcMain.Copy.{
  Copying, at_once, xfer_course, recover, call_buffer, hopeless, no_data, taken, need_start,
  store_share, store, fill, store_rest, turn, advance, round, transfer_loop, transfer_data, shifted,
}
use mirror_psrdada_code.PwcMain.Course.{
  Course, wants_data, share, advanced, at_transit, change_state,
}
use mirror_psrdada_code.PwcMain.Course.Change.{change_state-Any, arrive-Any, begin-Before}
use mirror_psrdada_code.PwcMain.Course.Exact.{
  OnWay, Before, Before-OnWay, dated-OnWay, advanced-OnWay, OnWay-Before,
}
use mirror_psrdada_code.PwcMain.Course.Kept.{receive-Always, late_header-Any, process_xfer-Any}
use mirror_psrdada_code.PwcMain.Flow.{as_int, pure, get, ◌>>=◌, ◌>>◌}
use mirror_psrdada_code.PwcMain.Rules.{
  Any, Stable, Always, bind, value, gone, got, either, perhaps, on_data-checked, on_data-ignored,
  on_data-unsigned, weaken, target-Any,
}

at_once-OnWay : (p : Course) → OnWay p → p.total < 2 ^ 64 → OnWay (at_once p)
at_once-OnWay p o small = ground arith

module _ {C : Type 0} ⦃k : Kernel⦄ (f : Program C) where
  -- what holds in a program without several transfers
  abbrev pub Way : Copying → Type 0
  Way g = f.transfers ≡ none → (g.course.total < 2 ^ 64) × OnWay g.course

  abbrev pub Head : Copying → Type 0
  Head g = f.transfers ≡ none → (g.course.total < 2 ^ 64) × Before g.course

  advanced-Way :
      (n : ℕ) (g : Copying)
      → Way g
      → Way (record g { course = advanced (share n g.course) g.course })
  advanced-Way n g w without =
      let (small, o) = w without in (omega arith, advanced-OnWay n g.course o)

  -- the same, with the byte for the change of state
  abbrev pub OnCourse : ℕ → Copying → Type 0
  OnCourse t g = (g.course.transit ≡ t) × Way g

  advanced-OnCourse :
      (t n : ℕ) (g : Copying)
      → OnCourse t g
      → OnCourse t (record g { course = advanced (share n g.course) g.course })
  advanced-OnCourse t n g (e, w) = (e, advanced-Way n g w)

  -- a course that has no byte for a change of state
  abbrev Free : Copying → Type 0
  Free g = (g.course.transit ≡ 0) × (f.transfers ≡ none → g.course.total < 2 ^ 64)

  -- after a change of state
  abbrev pub Turned : Copying → Type 0
  Turned g = (g.course.transit ≡ 0) × Head g

  pub turned-Head : (g : Copying) → Way g → at_transit g.course ≡ false → Head g
  turned-Head g w e without = let (small, o) = w without in (small, OnWay-Before g.course o e)

  pub at_once-Way :
      (g : Copying) (p : Course)
      → Way (record g { course = p })
      → Way (record g { course = at_once p })
  at_once-Way g p w without = let (small, o) = w without in (ground arith, at_once-OnWay p o small)

  module _ {J : Primary → Command → Type 0} where
    call_buffer-Any : Always J (call_buffer f) Any
    call_buffer-Any = record { keeps = λ c j. (j, tt) }

    recover-Any : (h : Option (C → ℤ × C)) → Always J (recover h) Any
    recover-Any none = record { keeps = λ c j. (j, tt) }
    recover-Any (some h) = record { keeps = λ c j. (j, tt) }

    hopeless-Any : (b : Option Memory) → Always {C = C} J (hopeless b) Any
    hopeless-Any b =
        bind (target-Any b)
          (λ ptr u. bind (on_data-ignored (write ptr 1)) (λ v w. gone dada_error_hard))

    xfer_course-transit :
        (r : ℤ) (p : Course) → Always {C = C} J (xfer_course r p) (λ q. q.transit ≡ p.transit)
    xfer_course-transit (negsuc zero) p = gone (pos 0)
    xfer_course-transit (negsuc (suc zero)) p = gone dada_error_hard
    xfer_course-transit (pos zero) p = value p refl
    xfer_course-transit (pos (suc n)) p = value _ refl
    xfer_course-transit (negsuc (suc (suc n))) p = value _ refl

    no_data-OnCourse :
        (t : Option (Transfers C)) (at : ℕ) (g : Copying)
        → f.transfers ≡ t
        → OnCourse at g
        → Always J (no_data t f g) (OnCourse at)
    unfolding no_data
    no_data-OnCourse (some t) at g e w = bind (process_xfer-Any t 0) (λ r u.
        bind (xfer_course-transit r g.course)
          (λ p v. value (record g { course = p }) (v ∙ w.0, λ without. absurd (cc (e, without)))))
    no_data-OnCourse none at g e w = bind (recover-Any f.error_function) (λ s u.
        bind (either (s == 2) (hopeless-Any g.buffer) (value tt tt))
          (λ v x. value (record g { error_state = s }) w))

    taken-OnCourse :
        (size : ℤ) (at : ℕ) (g : Copying) → OnCourse at g → Always J (taken f size g) (OnCourse at)
    taken-OnCourse (negsuc n) at g w = gone (as_int (negsuc n))
    taken-OnCourse (pos zero) at g w =
        no_data-OnCourse f.transfers at (record g { buffer_size = 0 }) refl w
    taken-OnCourse (pos (suc n)) at g w =
        value (record g { buffer_size = suc n; error_state = 0 }) w

    need_start-Any : (n : ℕ) (p : Course) → Always {C = C} J (need_start n p) Any
    need_start-Any n p = bind got (λ c j.
        perhaps (not p.start_set && ltb (space_left c.data_block) n) (gone dada_error_fatal))

    store_share-OnCourse :
        (ptr : Memory) (at : ℕ) (g : Copying)
        → OnCourse at g
        → Always {C = C} J (store_share ptr g) (OnCourse at)
    store_share-OnCourse ptr at g w =
        let n = share g.buffer_size g.course in
        bind (need_start-Any n g.course) (λ a u.
          bind (on_data-checked dada_error_fatal (write ptr n)) (λ m v.
            bind (perhaps (ltb m n) (gone dada_error_fatal)) (λ b x.
              value (record g { course = advanced n g.course; buf_bytes = n })
                (advanced-OnCourse at g.buffer_size g w))))

    store-OnCourse :
        (b : Option Memory) (at : ℕ) (h : Copying)
        → OnCourse at h
        → Always J (store f b h) (OnCourse at)
    store-OnCourse none at h w = gone dada_error_hard
    store-OnCourse (some ptr) at h w =
        bind (late_header-Any f) (λ a u. store_share-OnCourse ptr at h w)

    pub fill-OnCourse : (at : ℕ) (g : Copying) → OnCourse at g → Always J (fill f g) (OnCourse at)
    unfolding fill
    fill-OnCourse at g w = bind call_buffer-Any (λ b u.
        bind (taken-OnCourse b.1 at (record g { buffer = b.0 }) w)
          (λ h v. store-OnCourse b.0 at h v))

    pub store_rest-Turned : (g : Copying) → Free g → Always {C = C} J (store_rest g) Turned
    unfolding store_rest
    store_rest-Turned g (free, small) =
        let rest = sub64 g.buffer_size g.buf_bytes in
        either (rest == 0) (value _ (free, λ without. (small without, inl free))) (
          bind (need_start-Any rest g.course) (λ a u.
            bind (target-Any (shifted g.buf_bytes g.buffer)) (λ ptr v.
              bind (on_data-unsigned (write ptr rest)) (λ m w.
                bind (perhaps (ltb m rest) (gone dada_error_fatal))
                  (λ b x. value _ (free, λ without. (omega arith, inl free)))))))

    changed-Head :
        Stable J
        → (format_time : ℤ → Bytes) (g : Copying) → Way g
        → (b : Bool) → at_transit g.course ≡ b
        → Always J
            (if not b
              then pure g
              else (get >>= λ c.
                  change_state format_time f 2 c.command.code (record g.course { transit = 0 })
                  >> store_rest (record g { course = record g.course { transit = 0 } })))
            Head
    changed-Head st format_time g w false e = value g (turned-Head g w e)
    changed-Head st format_time g w true e = bind got (λ c j.
        bind (change_state-Any st format_time f 2 c.command.code (record g.course { transit = 0 }))
          (λ a u.
            weaken
              (store_rest-Turned (record g { course = record g.course { transit = 0 } })
                (refl, λ without. (w without).0))
              (λ h t. t.1)))

    pub turn-Turned :
        Stable J
        → (format_time : ℤ → Bytes) (g : Copying) → Way g
        → at_transit g.course ≡ true
        → Always J (turn format_time f g) Turned
    unfolding turn
    turn-Turned st format_time g w e = rw e (
        bind got (λ c j.
          bind
            (change_state-Any st format_time f 2 c.command.code (record g.course { transit = 0 }))
            (λ a u.
              store_rest-Turned (record g { course = record g.course { transit = 0 } })
                (refl, λ without. (w without).0))))

    turn-Head :
        Stable J
        → (format_time : ℤ → Bytes) (g : Copying) → Way g
        → Always J (turn format_time f g) Head
    unfolding turn
    turn-Head st format_time g w = changed-Head st format_time g w (at_transit g.course) refl

    pub advance-Way :
        Stable J
        → (format_time : ℤ → Bytes) (g : Copying) → Head g
        → Always J (advance format_time f g) Way
    unfolding advance
    advance-Way st format_time g h =
        bind
          (receive-Always {Q = λ p. Way (record g { course = p })} st at_once format_time f g.course
            (λ without. ((h without).0, Before-OnWay g.course (h without).1))
            (λ without. ((h without).0, Before-OnWay g.course (h without).1))
            (λ n small lt without. ((h without).0, dated-OnWay n g.course small lt))
            (at_once-Way g g.course
              (λ without. ((h without).0, Before-OnWay g.course (h without).1))))
          (λ p w.
            either (wants_data p)
              (weaken (fill-OnCourse p.transit (record g { course = p }) (refl, w)) (λ u v. v.1))
              (value (record g { course = p }) w))

    pub round-Head :
        Stable J
        → (format_time : ℤ → Bytes) (g : Copying) → Head g
        → Always J (round format_time f g) Head
    unfolding round
    round-Head st format_time g h =
        bind (advance-Way st format_time g h) (λ u w. turn-Head st format_time u w)

    transfer_loop-Head :
        Stable J
        → (e : Environment) (format_time : ℤ → Bytes) (arrivals : List (List Request)) (g : Copying)
        → Head g
        → Always J (transfer_loop e format_time f arrivals g) Head
    unfolding transfer_loop
    transfer_loop-Head st e format_time [] g h = value g h
    transfer_loop-Head st e format_time (rs ∷ rest) g h = bind (arrive-Any st e rs) (λ a u.
        bind got (λ c j. either (c.pwc.quit || not (leb g.error_state 1)) (gone (pos 0)) (
          bind (round-Head st format_time g h)
            (λ g' h'. transfer_loop-Head st e format_time rest g' h'))))

    pub transfer_data-Head :
        Stable J
        → (e : Environment) (format_time : ℤ → Bytes) (arrivals : List (List Request))
        → Always J (transfer_data e format_time f arrivals) Head
    unfolding transfer_data
    transfer_data-Head st e format_time arrivals =
        bind (begin-Before f) (λ p h. transfer_loop-Head st e format_time arrivals _ h)
