-- ===== src/Split.antt =====
-- crates/onejudge/src/split.rs: a provider that hands each operation to the one of two backends
-- that owns it. A backend is a record of the operations of the trait `Provider` on its own state;
-- a callback and the state that it works on are handed to the operation that calls it.
pub mod Sides
use onejudge.Common.{
  ℕ, zero, suc, ◌+◌, ◌-◌, ◌*◌, ◌/◌, ◌%◌, ◌^◌, ◌≤◌, ◌<◌, min, max, String, ◌≡◌, refl, sym, ap, ap₂,
  ◌∙◌, subst, ◌≡⟨◌⟩◌, ◌∎, fun_ext, ◌≢◌, ◌↔◌, ◌⊎◌, inl, inr, Bool, true, false, not, ◌&&◌, ◌||◌,
  Option, none, some, List, [], ◌∷◌, ◌++◌, map, append-nil, append_assoc, map-append, Memᴰ, Infix,
  Infix-refl, Infix-append_left, Infix-append_right, Infix-cons, arith, Text, codes, text_eq,
  is_whitespace, is_ascii_digit, is_ascii_alphanumeric, trim_start, trim_end, trim, split, join,
  starts_with, contains, show, text_eq_iff, text_eq_refl, length, take, drop, is_empty, get_last?,
  keep, any, all, find, length-append, keep-append, length-keep, length-take, length-drop,
  take-append-drop, filter_map, flat_map, length-map, All, All-append, ltb, leb, ◌==◌,
  if◌then◌else◌, ltb→lt, lt→ltb, leb→le, ==_iff, tests, Bool-cases, Option-cases, is_some, is_none,
  get_or_else, map_some, or_else, both_some, ◌>>=◌, is_control, split_once, strip_prefix, lines,
  true≢false, some_inj, >>=-some,
}
use onejudge.Platform.{Platform}
use onejudge.Error.{Result}
use onejudge.Transcript.{Message, ToolEvent}
use onejudge.Telemetry.{InvocationTelemetry}
use onejudge.HistoryName.{HistoryScope}
use onejudge.Control.{ControlOutcome, ControlAddress}
use onejudge.Report.{JudgeDecision, SpawnedProcess}
use onejudge.Note.{Party}
use onejudge.Provider.{
  AssistantTurn, UserTurn, SupervisorTurn, SupervisorQuery, JudgeQuery, JudgeVerdict, Assessment,
  SkillRef, EvidenceContext, JudgeLink, JudgeTools,
}
use onejudge.Engine.Host.{HarnessEvent}

-- A callback on an event, which answers whether to break.
abbrev pub On : Type 0 → Type 0 → Type 0
On E W = E → W → Bool × W

pub record Backend (d : Platform) (W S : Type 0) : Type 0 where
  pub supervises_lost_turns : S → Bool
  pub reset_telemetry : S → S
  pub set_history_scope : Option HistoryScope → S → S
  pub set_judge_label : Text → S → S
  pub take_judge_link : S → Option (JudgeLink d) × S
  pub take_judge_tools : S → List (JudgeTools d) × S
  pub invocation_telemetry : S → List (InvocationTelemetry d)
  pub spawned_processes : S → List SpawnedProcess
  pub control : S → ControlOutcome
  pub supervisor_control : S → ControlOutcome
  pub turn_control : Party → Text → Text → S → Option ControlAddress
  pub take_judge_decisions : S → List (JudgeDecision d) × S
  pub respond : SkillRef → List (Message d) → Option Text → S → Result (AssistantTurn d) × S
  pub respond_streaming :
      SkillRef
      → List (Message d)
      → Option Text
      → On (ToolEvent d) W
      → W
      → S
      → (Result (AssistantTurn d) × W) × S
  pub respond_observing :
      SkillRef
      → List (Message d)
      → Option Text
      → On d.Action W
      → W
      → S
      → (Result (AssistantTurn d) × W) × S
  pub respond_with_history :
      SkillRef
      → List (Message d)
      → Option Text
      → On (HarnessEvent d) W
      → W
      → S
      → (Result (AssistantTurn d) × W) × S
  pub supervise_observing :
      SupervisorQuery
      → List (Message d)
      → Option Text
      → EvidenceContext
      → On d.Begun W
      → W
      → S
      → (Result (SupervisorTurn d) × W) × S
  pub simulate_user : Text → List (Message d) → Option Text → S → Result (UserTurn d) × S
  pub supervise :
      SupervisorQuery → List (Message d) → Option Text → S → Result (SupervisorTurn d) × S
  pub judge : JudgeQuery d → List (Message d) → S → Result (JudgeVerdict d) × S
  pub judge_with_evidence :
      JudgeQuery d → List (Message d) → EvidenceContext → S → Result (JudgeVerdict d) × S
  pub assess : Text → List (Message d) → S → Result (Assessment d) × S
  pub assess_with_evidence :
      Text → List (Message d) → EvidenceContext → S → Result (Assessment d) × S
  pub supervise_with_evidence :
      SupervisorQuery
      → List (Message d)
      → Option Text
      → EvidenceContext
      → S
      → Result (SupervisorTurn d) × S

module _ {S J : Type 0} where
  -- An operation of the one side leaves the other side's state alone.
  abbrev on_skill : {A : Type 0} → (S → A × S) → S × J → A × (S × J)
  on_skill f (s, j) = let (a, s') = f s in (a, (s', j))

  abbrev on_judge : {A : Type 0} → (J → A × J) → S × J → A × (S × J)
  on_judge f (s, j) = let (a, j') = f j in (a, (s, j'))

module _ {d : Platform} {W S J : Type 0} where
  abbrev turn_control_of :
      Backend d W S → Backend d W J → Party → Text → Text → S × J → Option ControlAddress
  turn_control_of a b Party.worker session cwd (s, j) = a.turn_control Party.worker session cwd s
  turn_control_of a b Party.supervisor session cwd (s, j) =
      b.turn_control Party.supervisor session cwd j

  -- `SplitProvider`
  unfoldable pub split_provider : Backend d W S → Backend d W J → Backend d W (S × J)
  split_provider a b = record {
    supervises_lost_turns = λ s. b.supervises_lost_turns s.1;
    reset_telemetry = λ s. (a.reset_telemetry s.0, b.reset_telemetry s.1);
    set_history_scope = λ scope s. (a.set_history_scope scope s.0, b.set_history_scope scope s.1);
    set_judge_label = λ label s. (s.0, b.set_judge_label label s.1);
    take_judge_link = on_judge b.take_judge_link;
    take_judge_tools = on_judge b.take_judge_tools;
    invocation_telemetry = λ s. a.invocation_telemetry s.0 ++ b.invocation_telemetry s.1;
    spawned_processes = λ s. a.spawned_processes s.0 ++ b.spawned_processes s.1;
    control = λ s. a.control s.0;
    supervisor_control = λ s. b.supervisor_control s.1;
    turn_control = turn_control_of a b;
    take_judge_decisions = on_judge b.take_judge_decisions;
    respond = λ skill ms session. on_skill (a.respond skill ms session);
    respond_streaming = λ skill ms session f w. on_skill (a.respond_streaming skill ms session f w);
    respond_observing = λ skill ms session f w. on_skill (a.respond_observing skill ms session f w);
    respond_with_history =
        λ skill ms session f w. on_skill (a.respond_with_history skill ms session f w);
    supervise_observing =
        λ q ms session ev f w. on_judge (b.supervise_observing q ms session ev f w);
    simulate_user = λ persona ms session. on_judge (b.simulate_user persona ms session);
    supervise = λ q ms session. on_judge (b.supervise q ms session);
    judge = λ q ms. on_judge (b.judge q ms);
    judge_with_evidence = λ q ms ev. on_judge (b.judge_with_evidence q ms ev);
    assess = λ prompt ms. on_judge (b.assess prompt ms);
    assess_with_evidence = λ prompt ms ev. on_judge (b.assess_with_evidence prompt ms ev);
    supervise_with_evidence =
        λ q ms session ev. on_judge (b.supervise_with_evidence q ms session ev);
  }
