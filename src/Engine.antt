-- ===== src/Engine.antt =====
-- crates/onejudge/src/engine.rs: the data of a conversation, of what is observed while it runs, and
-- of its outcome. The loop itself is in the modules below, from Engine/Host.antt on.
pub mod Noop
pub mod Redirects
pub mod Host
pub mod Monad
pub mod Notes
pub mod Worker
pub mod Supervisor
pub mod Drive
pub mod Ensures
pub mod Growth
pub mod Ledger
use onejudge.Common.{
  ℕ, zero, suc, ◌+◌, ◌-◌, ◌*◌, ◌/◌, ◌%◌, ◌^◌, ◌≤◌, ◌<◌, min, max, String, ◌≡◌, refl, sym, ap, ap₂,
  ◌∙◌, subst, ◌≡⟨◌⟩◌, ◌∎, fun_ext, ◌≢◌, ◌↔◌, ◌⊎◌, inl, inr, Bool, true, false, not, ◌&&◌, ◌||◌,
  Option, none, some, List, [], ◌∷◌, ◌++◌, map, append-nil, append_assoc, map-append, Memᴰ, Infix,
  Infix-refl, Infix-append_left, Infix-append_right, Infix-cons, arith, Text, codes, text_eq,
  is_whitespace, is_ascii_digit, is_ascii_alphanumeric, trim_start, trim_end, trim, split, join,
  starts_with, contains, show, text_eq_iff, text_eq_refl, length, take, drop, is_empty, get_last?,
  keep, any, all, find, length-append, keep-append, length-keep, length-take, length-drop,
  take-append-drop, filter_map, flat_map, length-map, All, All-append, ltb, leb, ◌==◌,
  if◌then◌else◌, ltb→lt, lt→ltb, leb→le, ==_iff, tests, Bool-cases, Option-cases, is_some, is_none,
  get_or_else, map_some, or_else, both_some, ◌>>=◌,
}
use onejudge.Platform.{Platform}
use onejudge.Usage.{Usage}
use onejudge.Transcript.{Role, ToolEvent, Transcript}
use onejudge.Telemetry.{Telemetry}
use onejudge.Provider.{SkillRef}
use onejudge.Control.{ControlOutcome}
use onejudge.Report.{
  Decision, JudgedTurn, NamedVerdict, Report, SpawnedProcess, new_report, with_assessment,
  with_control, with_supervisor_control,
}

pub record Skill : Type 0 where
  pub name : Text
  pub dir : Text
  pub instructions : Text

unfoldable pub skill_ref : Skill → SkillRef
skill_ref s = record { name = s.name; dir = s.dir; instructions = s.instructions }

pub record SimulatedUser : Type 0 where
  pub persona : Text
  pub done_when : Option Text
  pub max_turns : Option ℕ
  pub artifacts : List Text

pub record Conversation : Type 0 where
  pub skill : Skill
  pub input : Text
  pub user : Option SimulatedUser

pub record Settings : Type 0 where
  pub max_turns : ℕ
  pub session_name : Text
  pub settle_on_noop : Bool

unfoldable pub new_settings : Settings
new_settings = record { max_turns = 8; session_name = codes "onejudge"; settle_on_noop = true }

pub record Outcome (d : Platform) : Type 0 where
  pub transcript : Transcript d
  pub usage : Option (Usage d)
  pub stopped_early : Bool
  pub completion_reason : Option Text
  pub settled_reason : Option Text
  pub telemetry : Option (Telemetry d)
  pub processes : List SpawnedProcess
  pub control : ControlOutcome
  pub supervisor_control : ControlOutcome
  pub judge_decisions : List (JudgedTurn d)

-- The report before the controls and the assessment are put in.
unfoldable pub base_report : {d : Platform} → Outcome d → List (NamedVerdict d) → Report d
unfolding new_report
base_report o verdicts = record (new_report o.transcript verdicts o.usage o.stopped_early) {
  completion_reason = o.completion_reason;
  settled_reason = o.settled_reason;
  telemetry = o.telemetry;
  processes = o.processes;
  judge_decisions = o.judge_decisions;
}

unfoldable pub into_report_with_assessment :
    {d : Platform} → Outcome d → List (NamedVerdict d) → Option Text → Report d
unfolding base_report with_assessment with_control with_supervisor_control
into_report_with_assessment o verdicts none =
    with_supervisor_control (with_control (base_report o verdicts) o.control) o.supervisor_control
into_report_with_assessment o verdicts (some text) =
    with_assessment
      (with_supervisor_control (with_control (base_report o verdicts) o.control)
        o.supervisor_control)
      text

unfoldable pub into_report : {d : Platform} → Outcome d → List (NamedVerdict d) → Report d
into_report o verdicts = into_report_with_assessment o verdicts none

-- What the observer of a run is shown.
pub data Observation (d : Platform) : Type 0 where
  -- the turn, its role, the instruction and the start
  turn_opened : ℕ → Role → Text → Text → Observation d
  -- the role and the turn
  history_begun : Role → ℕ → d.Begun → Observation d
  tool : ℕ → ToolEvent d → Observation d
  action : ℕ → d.Action → Observation d
  message : ℕ → Role → Text → Observation d
  -- the turn, its role, the usage, the start and the end, the harness and the model
  turn_closed :
      ℕ → Role → Option (Usage d) → Text → Text → Option Text → Option Text → Observation d
  -- the turn, the judge, its kind, the decision, the reason and the run's id
  judge_decided : ℕ → Text → Text → Decision → Text → Option Text → Observation d
  -- the turn and the judge
  judge_tool : ℕ → Text → ToolEvent d → Observation d

-- `tool_event` of crates/onejudge/src/oneharness/report.rs: an action that is tool activity.
unfoldable pub tool_event : (d : Platform) → d.Action → Option (ToolEvent d)
tool_event d a =
    if d.is_tool_activity a
    then some (record {
      kind = d.action_kind a;
      name = d.action_name a;
      input = d.action_input a;
      output = d.action_output a;
      index = d.action_index a;
      tool_call_id = d.action_tool_call_id a;
    })
    else none
