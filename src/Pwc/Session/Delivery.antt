-- ===== src/Pwc/Session/Delivery.antt =====
-- src/dada_pwc.c: every command that is accepted is received once.
use mathlib.Core.Path.{subst}
use mirror_psrdada_code.Prelude.{
  ◌≡◌, ◌⊎◌, inl, inr, refl, ap, ◌∙◌, Bool, true, false, if◌then◌else◌, Bool-cases, ℕ, ℤ, List, [],
  ◌∷◌, Option, none, some, pos, is_zero, arith,
}
use mirror_psrdada_code.Pwc.Header.{
  Environment, header_command, cmd_header, load_header, parse_bytes_per_second,
}
use mirror_psrdada_code.Process.{continue, Outcome, ok, fail, asleep}
use mirror_psrdada_code.Pwc.{
  PwcState, Code, no_command, ◌is_code◌, Command, Primary, may_command, set_state, command_set,
  command_get,
}
use mirror_psrdada_code.Pwc.Request.{
  at_time, parse_time, counted_set, command_set_byte_count, cmd_duration, cmd_clock, cmd_reset,
  cmd_quit, cmd_record_start, cmd_record_stop, cmd_start, cmd_stop, cmd_set_utc_start,
}
use mirror_psrdada_code.Pwc.Session.{
  Request, duration, header, clock, reset, quit, record_start, record_stop, start, stop,
  set_utc_start, is_duration, Event, request, receive, enter, Session, requested, got, perform,
  happen, run, waiting, opened,
}

-- what a call does to the place for one command: it takes it, or it leaves it alone
abbrev Took : Command → Command → Type 0
Took c d = (c.code is_code no_command ≡ true) × (d.code is_code no_command ≡ false)

abbrev Kept : Command → Command → Type 0
Kept c d = (d ≡ c) ⊎ ((c.code is_code no_command ≡ true) × (d.code is_code no_command ≡ true))

abbrev Effect : Bool → Outcome (Unit {0}) → Command → Command → Type 0
Effect false (ok u) = Took
Effect false fail = Kept
Effect false asleep = Kept
Effect true o = Kept

command_set-Effect :
    (c : Command) (p : Primary)
    → c.code is_code no_command ≡ false
    → Effect false (command_set c p).0 p.command (command_set c p).1.command
unfolding command_set
command_set-Effect c p some_code = elim (Bool-cases (p.command.code is_code no_command)) [
  | inl free ↦ elim (Bool-cases (may_command c.code p.state)) [
    | inl may ↦ rw (free, may) (free, some_code)
    | inr may_not ↦ rw (free, may_not) (inl refl)
  ]
  | inr taken ↦ rw taken (inl refl)
]

abbrev HasCode : Code → Outcome Command → Type 0
HasCode code (ok c) = c.code ≡ code
HasCode code fail = Unit
HasCode code asleep = Unit

command_set_byte_count-HasCode :
    (p : Primary) (c : Command) → HasCode c.code (command_set_byte_count p c)
unfolding command_set_byte_count
command_set_byte_count-HasCode p c = ground arith

counted_set-Effect :
    (code : Code) (p : Primary) (o : Outcome Command)
    → code is_code no_command ≡ false
    → HasCode code o
    → Effect false (counted_set o p).0 p.command (counted_set o p).1.command
counted_set-Effect code p (ok c) some_code e = command_set-Effect c p (rw e some_code)
counted_set-Effect code p fail some_code e = inl refl
counted_set-Effect code p asleep some_code e = inl refl

counted-Effect :
    (c : Command) (p : Primary)
    → c.code is_code no_command ≡ false
    → Effect false
        (counted_set (command_set_byte_count p c) p).0
        p.command
        (counted_set (command_set_byte_count p c) p).1.command
counted-Effect c p some_code =
    counted_set-Effect c.code p (command_set_byte_count p c) some_code
      (command_set_byte_count-HasCode p c)

guarded-Effect :
    (c : Command) (p : Primary)
    → c.code is_code no_command ≡ false
    → let r : (Outcome (Unit {0}) × Primary) =
        if is_zero c.utc then (fail, p) else counted_set (command_set_byte_count p c) p in
      Effect false r.0 p.command r.1.command
guarded-Effect c p some_code = elim (Bool-cases (is_zero c.utc)) [
  | inl z ↦ rw z (inl refl)
  | inr n ↦ rw n (counted-Effect c p some_code)
]

loaded-Effect :
    (o : Outcome (Unit {0})) (q : Primary) (c : Command)
    → q.command ≡ c
    → let r : (Outcome (Unit {0}) × Primary) = continue o q (λ u. command_set header_command) in
      Effect false r.0 c r.1.command
loaded-Effect (ok u) q c same =
    subst
      (λ d.
        Effect false (command_set header_command q).0 d (command_set header_command q).1.command)
      same (command_set-Effect header_command q refl)
loaded-Effect fail q c same = inl same
loaded-Effect asleep q c same = inl same

module _ (e : Environment) where
  load_header-command :
      (args : Option (List ℕ)) (p : Primary) → (load_header e args p).1.command ≡ p.command
  unfolding load_header parse_bytes_per_second
  load_header-command none p = refl
  load_header-command (some args) p = ground arith

  header-Effect :
      (args : Option (List ℕ)) (p : Primary)
      → Effect false (cmd_header e args p).0 p.command (cmd_header e args p).1.command
  unfolding cmd_header
  header-Effect args p =
      loaded-Effect (load_header e args p).0 (load_header e args p).1 p.command
        (load_header-command args p)

  perform-Effect :
      (r : Request) (p : Primary)
      → Effect (is_duration r) (perform e r p).0 p.command (perform e r p).1.command
  unfolding perform cmd_duration cmd_clock cmd_reset cmd_quit cmd_record_start cmd_record_stop
      cmd_start cmd_stop cmd_set_utc_start
  perform-Effect (duration none) p = inl refl
  perform-Effect (duration (some d)) p = ground arith
  perform-Effect (header args) p = header-Effect args p
  perform-Effect clock p = command_set-Effect (at_time Code.clock (pos 0)) p refl
  perform-Effect reset p = command_set-Effect (at_time Code.reset (pos 0)) p refl
  perform-Effect quit p =
      command_set-Effect (at_time Code.exit (pos 0)) (record p { quit = true }) refl
  perform-Effect (record_start args) p =
      guarded-Effect (at_time Code.record_start (parse_time e.str2utctime args)) p refl
  perform-Effect (record_stop args) p =
      guarded-Effect (at_time Code.record_stop (parse_time e.str2utctime args)) p refl
  perform-Effect (start args) p =
      command_set-Effect
        (record (at_time Code.start (parse_time e.str2utctime args)) {
          byte_count = p.command.byte_count;
        })
        p refl
  perform-Effect (stop args) p =
      counted-Effect (at_time Code.stop (parse_time e.str2utctime args)) p refl
  perform-Effect (set_utc_start args) p =
      counted-Effect (at_time Code.set_utc_start (parse_time e.str2utctime args))
        (record p { utc_start = parse_time e.str2utctime args }) refl

-- the commands accepted are those received, and the one that waits
abbrev Delivered : Session → Type 0
Delivered s = s.accepted ≡ waiting s.primary.command s.received

Kept-waiting :
    (c d : Command) (received : List Command) → Kept c d → waiting c received ≡ waiting d received
Kept-waiting c d received (inl e) = rw e refl
Kept-waiting c d received (inr (a, b)) = rw (a, b) refl

requested-Delivered :
    (b : Bool) (o : Outcome (Unit {0})) (q : Primary) (s : Session)
    → Effect b o s.primary.command q.command
    → Delivered s
    → Delivered (requested b o q s)
requested-Delivered false (ok u) q s (free, taken) d =
    rw taken (ap (λ l. q.command ∷ l) (d ∙ rw free refl))
requested-Delivered false fail q s k d = d ∙ Kept-waiting s.primary.command q.command s.received k
requested-Delivered false asleep q s k d = d ∙ Kept-waiting s.primary.command q.command s.received k
requested-Delivered true o q s k d = d ∙ Kept-waiting s.primary.command q.command s.received k

happen-receive :
    (s : Session)
    → Delivered s
    → Delivered (got (command_get s.primary).0 (command_get s.primary).1 s)
unfolding command_get
happen-receive s d = elim (Bool-cases (s.primary.command.code is_code no_command)) [
  | inl none_waits ↦ rw none_waits d
  | inr one_waits ↦ rw one_waits (d ∙ rw one_waits refl)
]

set_state-command : (st : PwcState) (t : ℤ) (p : Primary) → (set_state st t p).1.command ≡ p.command
unfolding set_state
set_state-command st t p = ground arith

module _ (e : Environment) where
  happen-Delivered : (v : Event) (s : Session) → Delivered s → Delivered (happen e v s)
  unfolding happen
  happen-Delivered (request r) s d =
      requested-Delivered (is_duration r) (perform e r s.primary).0 (perform e r s.primary).1 s
        (perform-Effect e r s.primary) d
  happen-Delivered receive s d = happen-receive s d
  happen-Delivered (enter st t) s d = rw (set_state-command st t s.primary) d

  run-Delivered : (es : List Event) (s : Session) → Delivered s → Delivered (run e es s)
  unfolding run
  run-Delivered [] s d = d
  run-Delivered (v ∷ vs) s d = happen-Delivered v (run e vs s) (run-Delivered vs s d)

  -- Every command that is accepted is received once, unchanged and in the order in which the commands
  -- were accepted: after any sequence of calls of the two threads from a new primary, the commands
  -- received are those accepted, less the one that still waits, when there is one.
  pub run-exactly_once :
      (es : List Event) (text : List ℕ) (command : Command) (page_size : ℕ)
      → let s = run e es (opened text command page_size) in
        s.accepted ≡ waiting s.primary.command s.received
  unfolding opened
  run-exactly_once es text command page_size = run-Delivered es (opened text command page_size) refl
