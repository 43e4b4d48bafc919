-- ===== src/Pwc/Traces.antt =====
-- src/dada_pwc.c: the states that a primary goes through in a session.
use mathlib.Core.Path.{subst}
use mirror_psrdada_code.Prelude.{
  ◌≡◌, inl, inr, refl, ap, sym, ◌∙◌, ℕ, ℤ, List, [], ◌∷◌, Option, none, some, Bool, true, false,
  pos, is_zero, if◌then◌else◌, arith,
}
use mirror_psrdada_code.Pwc.Header.{
  Environment, header_command, cmd_header, load_header, parse_bytes_per_second,
}
use mirror_psrdada_code.Process.{continue, Outcome, ok, fail, asleep}
use mirror_psrdada_code.Pwc.{PwcState, Code, Command, Primary, command_set, command_get, set_state}
use mirror_psrdada_code.Pwc.Diagram.{◌⟶◌, set_state-diagram}
use mirror_psrdada_code.Pwc.Request.{
  at_time, parse_time, counted_set, command_set_byte_count, cmd_duration, cmd_clock, cmd_reset,
  cmd_quit, cmd_record_start, cmd_record_stop, cmd_start, cmd_stop, cmd_set_utc_start,
}
use mirror_psrdada_code.Pwc.Session.{
  Request, header, duration, clock, reset, quit, record_start, record_stop, start, stop,
  set_utc_start, Event, request, receive, enter, Session, is_duration, requested, got, perform,
  happen, run,
}

-- any number of steps of the diagram
infix 40 ◌⟶*◌
pub data ◌⟶*◌ : PwcState → PwcState → Type 0 where
  stay : {a : PwcState} → a ⟶* a
  go_on : {a b c : PwcState} → a ⟶* b → b ⟶ c → a ⟶* c

command_set-state : (c : Command) (p : Primary) → (command_set c p).1.state ≡ p.state
unfolding command_set
command_set-state c p = ground arith

counted_set-state : (o : Outcome Command) (p : Primary) → (counted_set o p).1.state ≡ p.state
counted_set-state (ok c) p = command_set-state c p
counted_set-state fail p = refl
counted_set-state asleep p = refl

pub command_get-state : (p : Primary) → (command_get p).1.state ≡ p.state
unfolding command_get
command_get-state p = ground arith

requested-state :
    (b : Bool) (o : Outcome (Unit {0})) (q : Primary) (s : Session)
    → (requested b o q s).primary ≡ q
requested-state false (ok u) q s = refl
requested-state false fail q s = refl
requested-state false asleep q s = refl
requested-state true o q s = refl

got-state : (o : Outcome Command) (q : Primary) (s : Session) → (got o q s).primary ≡ q
got-state (ok c) q s = refl
got-state fail q s = refl
got-state asleep q s = refl

guarded-state :
    (c : Command) (p : Primary)
    → (if is_zero c.utc then (fail, p) else counted_set (command_set_byte_count p c) p).1.state
      ≡ p.state
guarded-state c p = grind (arith, is_zero c.utc, counted_set-state (command_set_byte_count p c) p)

loaded-state :
    (o : Outcome (Unit {0})) (q : Primary)
    → (continue o q (λ u. command_set header_command)).1.state ≡ q.state
loaded-state (ok u) q = command_set-state header_command q
loaded-state fail q = refl
loaded-state asleep q = refl

pub set_state-path :
    {a : PwcState} (s : PwcState) (t : ℤ) (p : Primary)
    → a ⟶* p.state
    → a ⟶* (set_state s t p).1.state
set_state-path {a} s t p path = elim (set_state-diagram s t p) [
  | inl taken ↦ let (edge, _, there, _) = taken in subst (λ b. a ⟶* b) (sym there) (go_on path edge)
  | inr refused ↦ let (_, same) = refused in subst (λ r. a ⟶* r.1.state) (sym same) path
]

module _ (e : Environment) where
  load_header-state :
      (args : Option (List ℕ)) (p : Primary) → (load_header e args p).1.state ≡ p.state
  unfolding load_header parse_bytes_per_second
  load_header-state none p = refl
  load_header-state (some args) p = ground arith

  pub perform-state : (r : Request) (p : Primary) → (perform e r p).1.state ≡ p.state
  unfolding perform cmd_duration cmd_clock cmd_reset cmd_quit cmd_record_start cmd_record_stop
      cmd_start cmd_stop cmd_set_utc_start cmd_header
  perform-state (duration none) p = refl
  perform-state (duration (some d)) p = ground arith
  perform-state (header args) p =
      loaded-state (load_header e args p).0 (load_header e args p).1 ∙ load_header-state args p
  perform-state clock p = command_set-state (at_time Code.clock (pos 0)) p
  perform-state reset p = command_set-state (at_time Code.reset (pos 0)) p
  perform-state quit p = command_set-state (at_time Code.exit (pos 0)) (record p { quit = true })
  perform-state (record_start args) p =
      guarded-state (at_time Code.record_start (parse_time e.str2utctime args)) p
  perform-state (record_stop args) p =
      guarded-state (at_time Code.record_stop (parse_time e.str2utctime args)) p
  perform-state (start args) p =
      command_set-state
        (record (at_time Code.start (parse_time e.str2utctime args)) {
          byte_count = p.command.byte_count;
        })
        p
  perform-state (stop args) p = counted_set-state _ p
  perform-state (set_utc_start args) p =
      let q = record p { utc_start = parse_time e.str2utctime args } in
      counted_set-state
        (command_set_byte_count q (at_time Code.set_utc_start (parse_time e.str2utctime args))) q

  -- Whatever arrives at the control port, and whatever states the writing thread asks for, the client
  -- goes from state to state by the steps of the diagram only.
  run-path : (es : List Event) (s : Session) → s.primary.state ⟶* (run e es s).primary.state
  unfolding run happen
  run-path [] s = stay
  run-path (request r ∷ es) s =
      let t = run e es s in
      subst (λ b. s.primary.state ⟶* b)
        (sym (
          ap (λ q. q.state)
            (requested-state (is_duration r) (perform e r t.primary).0 (perform e r t.primary).1 t)
          ∙ perform-state r t.primary))
        (run-path es s)
  run-path (receive ∷ es) s =
      let t = run e es s in
      subst (λ b. s.primary.state ⟶* b)
        (sym (
          ap (λ q. q.state) (got-state (command_get t.primary).0 (command_get t.primary).1 t)
          ∙ command_get-state t.primary))
        (run-path es s)
  run-path (enter st u ∷ es) s = set_state-path st u (run e es s).primary (run-path es s)
