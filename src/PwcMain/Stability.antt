-- ===== src/PwcMain/Stability.antt =====
-- src/dada_pwc.c: what the calls of both threads keep: a pending command has a `uint64_t` for its byte,
-- and the state has been reached by the steps of the diagram.
use mathlib.Core.Path.{subst}
use mirror_psrdada_code.Prelude.{
  sym, ap, ◌⊎◌, inl, inr, ◌≡◌, refl, ℕ, ◌<◌, ◌^◌, Bool, true, false, if◌then◌else◌, ℤ, pos, Option,
  none, some, is_zero, arith, List,
}
use mirror_psrdada_code.Process.{Outcome, ok, fail, asleep, continue}
use mirror_psrdada_code.Pwc.{
  PwcState, clocking, recording, Code, Command, Primary, command_set, command_get, set_state,
}
use mirror_psrdada_code.Pwc.Diagram.{set_state-diagram}
use mirror_psrdada_code.Pwc.Header.{
  Environment, header_command, cmd_header, load_header, parse_bytes_per_second,
}
use mirror_psrdada_code.Pwc.Request.{
  Duration, clock_time, units, unreadable, at_time, parse_time, parse_duration, counted_set,
  command_set_byte_count, round_bytes, cmd_duration, cmd_clock, cmd_reset, cmd_quit,
  cmd_record_start, cmd_record_stop, cmd_start, cmd_stop, cmd_set_utc_start,
}
use mirror_psrdada_code.Pwc.Session.{
  Request, duration, clock, reset, quit, header, record_start, record_stop, start, stop,
  set_utc_start, perform,
}
use mirror_psrdada_code.Pwc.Traces.{◌⟶*◌, command_get-state, perform-state, set_state-path}
use mirror_psrdada_code.PwcMain.Rules.{Stable, AlwaysStable}

abbrev pub Small : Primary → Type 0
Small p = p.command.byte_count < 2 ^ 64

abbrev SmallOutcome : Outcome Command → Type 0
SmallOutcome (ok c) = c.byte_count < 2 ^ 64
SmallOutcome fail = Unit {0}
SmallOutcome asleep = Unit {0}

command_set-Small :
    (c : Command) (p : Primary) → c.byte_count < 2 ^ 64 → Small p → Small (command_set c p).1
unfolding command_set
command_set-Small c p small s = ground arith

counted_set-Small :
    (o : Outcome Command) (p : Primary) → SmallOutcome o → Small p → Small (counted_set o p).1
counted_set-Small (ok c) p small s = command_set-Small c p small s
counted_set-Small fail p small s = s
counted_set-Small asleep p small s = s

round_bytes-small :
    (code : Code) (resolution n : ℕ) → n < 2 ^ 64 → round_bytes code resolution n < 2 ^ 64
unfolding round_bytes
round_bytes-small code resolution n small = ground arith

byte_count-Small : (p : Primary) (c : Command) → SmallOutcome (command_set_byte_count p c)
unfolding command_set_byte_count
byte_count-Small p c = grind (arith, round_bytes-small)

parse_duration-small : (p : Primary) (d : Duration) → parse_duration p d < 2 ^ 64
unfolding parse_duration
parse_duration-small p (clock_time hh mm ss) = ground arith
parse_duration-small p (units n) = ground arith
parse_duration-small p unreadable = omega arith

duration-Small : (d : Option Duration) (p : Primary) → Small p → Small (cmd_duration d p).1
unfolding cmd_duration
duration-Small none p s = s
duration-Small (some d) p s = ground (arith, parse_duration-small p d)

guarded-Small :
    (b : Bool) (c : Command) (p : Primary)
    → Small p
    → Small (if b then (fail, p) else counted_set (command_set_byte_count p c) p).1
guarded-Small true c p s = s
guarded-Small false c p s =
    counted_set-Small (command_set_byte_count p c) p (byte_count-Small p c) s

loaded-Small :
    (o : Outcome (Unit {0})) (q : Primary)
    → Small q
    → Small (continue o q (λ u. command_set header_command)).1
loaded-Small (ok u) q s = command_set-Small header_command q (omega arith) s
loaded-Small fail q s = s
loaded-Small asleep q s = s

module _ (e : Environment) where
  load_header-command :
      (args : Option (List ℕ)) (p : Primary) → (load_header e args p).1.command ≡ p.command
  unfolding load_header parse_bytes_per_second
  load_header-command none p = refl
  load_header-command (some args) p = ground arith

  perform-Small : (r : Request) (p : Primary) → Small p → Small (perform e r p).1
  unfolding perform cmd_clock cmd_reset cmd_quit cmd_record_start cmd_record_stop cmd_start cmd_stop
      cmd_set_utc_start cmd_header
  perform-Small (duration d) p s = duration-Small d p s
  perform-Small (header args) p s =
      loaded-Small (load_header e args p).0 (load_header e args p).1
        (subst (λ c. c.byte_count < 2 ^ 64) (sym (load_header-command args p)) s)
  perform-Small clock p s = command_set-Small (at_time Code.clock (pos 0)) p (omega arith) s
  perform-Small reset p s = command_set-Small (at_time Code.reset (pos 0)) p (omega arith) s
  perform-Small quit p s =
      command_set-Small (at_time Code.exit (pos 0)) (record p { quit = true }) (omega arith) s
  perform-Small (record_start args) p s =
      let c = at_time Code.record_start (parse_time e.str2utctime args) in
      guarded-Small (is_zero c.utc) c p s
  perform-Small (record_stop args) p s =
      let c = at_time Code.record_stop (parse_time e.str2utctime args) in
      guarded-Small (is_zero c.utc) c p s
  perform-Small (start args) p s =
      command_set-Small
        (record (at_time Code.start (parse_time e.str2utctime args)) {
          byte_count = p.command.byte_count;
        })
        p s s
  perform-Small (stop args) p s =
      let c = at_time Code.stop (parse_time e.str2utctime args) in
      counted_set-Small (command_set_byte_count p c) p (byte_count-Small p c) s
  perform-Small (set_utc_start args) p s =
      let q = record p { utc_start = parse_time e.str2utctime args } in
      let c = at_time Code.set_utc_start (parse_time e.str2utctime args) in
      counted_set-Small (command_set_byte_count q c) q (byte_count-Small q c) s

command_get-Small : (p : Primary) → Small p → Small (command_get p).1
unfolding command_get
command_get-Small p s = ground arith

set_state-Small : (a : PwcState) (utc : ℤ) (p : Primary) → Small p → Small (set_state a utc p).1
unfolding set_state
set_state-Small a utc p s = ground arith

pub Small-Stable : Stable (λ p c. Small p)
Small-Stable = record {
  word = λ p c s. s;
  take = λ p c d s. s;
  get = λ p c. command_get-Small p;
  clocks = λ utc p c. set_state-Small clocking utc p;
  records = λ utc p c. set_state-Small recording utc p;
  request = λ e r p c. perform-Small e r p;
}

-- the state is one that can be reached from `a`
abbrev pub Reached : PwcState → Primary → Command → Type 0
Reached a p c = Small p × (a ⟶* p.state)

moved : {a b d : PwcState} → d ≡ b → a ⟶* b → a ⟶* d
moved {a} e path = subst (λ x. a ⟶* x) (sym e) path

entered :
    {a : PwcState} (b : PwcState) (utc : ℤ) (p : Primary)
    → Small p × (a ⟶* p.state)
    → Small (set_state b utc p).1 × (a ⟶* (set_state b utc p).1.state)
entered b utc p (s, path) = (set_state-Small b utc p s, set_state-path b utc p path)

pub Reached-Stable : (a : PwcState) → AlwaysStable (Reached a)
Reached-Stable a = record {
  stable = record {
    word = λ p c (s, path). s;
    take = λ p c d j. j;
    get = λ p c (s, path). (command_get-Small p s, moved (command_get-state p) path);
    clocks = λ utc p c j. entered clocking utc p j;
    records = λ utc p c j. entered recording utc p j;
    request = λ e r p c (s, path). (perform-Small e r p s, moved (perform-state e r p) path);
  };
  set = λ b utc p c j. entered b utc p j;
  time = λ utc p c j. j;
  quits = λ p c j. j;
}

-- a client that transfers data
abbrev pub InTransfer : PwcState → Type 0
InTransfer s = (s ≡ clocking) ⊎ (s ≡ recording)

abbrev pub Transferring : Primary → Command → Type 0
Transferring p c = Small p × InTransfer p.state

kept : {b d : PwcState} → d ≡ b → InTransfer b → InTransfer d
kept e t = subst InTransfer (sym e) t

set_state-InTransfer :
    (a : PwcState) (utc : ℤ) (p : Primary)
    → InTransfer a
    → InTransfer p.state
    → InTransfer (set_state a utc p).1.state
set_state-InTransfer a utc p to from = elim (set_state-diagram a utc p) [
  | inl taken ↦ let (edge, _, there, _) = taken in kept there to
  | inr refused ↦ let (_, same) = refused in kept (ap (λ r. r.1.state) same) from
]

pub Transferring-Stable : Stable Transferring
Transferring-Stable = record {
  word = λ p c (s, t). s;
  take = λ p c d j. j;
  get = λ p c (s, t). (command_get-Small p s, kept (command_get-state p) t);
  clocks = λ utc p c (s, t).
      (set_state-Small clocking utc p s, set_state-InTransfer clocking utc p (inl refl) t);
  records = λ utc p c (s, t).
      (set_state-Small recording utc p s, set_state-InTransfer recording utc p (inr refl) t);
  request = λ e r p c (s, t). (perform-Small e r p s, kept (perform-state e r p) t);
}
