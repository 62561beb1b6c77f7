-- ===== src/Report.antt =====
-- crates/onejudge/src/report.rs: the judges' recorded decisions and the versioned report.
use onejudge.Common.{ℕ, Bool, Option, none, some, List, [], Text, codes}
use onejudge.Platform.{Platform}
use onejudge.Usage.{Usage}
use onejudge.Transcript.{ToolEvent, Transcript}
use onejudge.Telemetry.{TelemetryRole, JudgePosture, Telemetry}
use onejudge.Provider.{JudgeKind, JudgeVerdict}
use onejudge.Control.{ControlAddress, ControlOutcome, address, unavailable_reason}

abbrev pub schema_version : ℕ
schema_version = 14

pub data Decision : Type 0 where
  done continue no_instruction unparseable error : Decision

unfoldable pub decision_str : Decision → Text
decision_str done = codes "done"
decision_str continue = codes "continue"
decision_str no_instruction = codes "no_instruction"
decision_str unparseable = codes "unparseable"
decision_str error = codes "error"

pub record JudgeDecision (d : Platform) : Type 0 where
  pub judge : Text
  pub kind : Text
  pub decision : Decision
  pub reason : Text
  pub labels : List (Text × Text)
  pub run_id : Option Text
  pub posture : Option JudgePosture
  pub events : List (ToolEvent d)

pub record JudgedTurn (d : Platform) : Type 0 where
  pub turn : ℕ
  pub decisions : List (JudgeDecision d)

pub record NamedVerdict (d : Platform) : Type 0 where
  pub criterion : Text
  pub kind : JudgeKind
  pub verdict : JudgeVerdict d

-- A process that was started, of crates/onejudge/src/spawn.rs.
pub record SpawnedProcess : Type 0 where
  pub role : TelemetryRole
  pub op : Text
  pub program : Text
  pub pid : ℕ
  pub group : Option Text
  pub judge : Option Text

pub record Report (d : Platform) : Type 0 where
  pub version : ℕ
  pub transcript : Transcript d
  pub verdicts : List (NamedVerdict d)
  pub assessment : Option Text
  pub completion_reason : Option Text
  pub settled_reason : Option Text
  pub judge_decisions : List (JudgedTurn d)
  pub usage : Option (Usage d)
  pub telemetry : Option (Telemetry d)
  pub processes : List SpawnedProcess
  pub control : Option ControlAddress
  pub control_unavailable : Option Text
  pub supervisor_control : Option ControlAddress
  pub supervisor_control_unavailable : Option Text
  pub stopped_early : Bool

unfoldable pub new_report :
    {d : Platform} → Transcript d → List (NamedVerdict d) → Option (Usage d) → Bool → Report d
new_report transcript verdicts usage stopped_early = record {
  version = schema_version;
  transcript = transcript;
  verdicts = verdicts;
  assessment = none;
  completion_reason = none;
  settled_reason = none;
  judge_decisions = [];
  usage = usage;
  telemetry = none;
  processes = [];
  control = none;
  control_unavailable = none;
  supervisor_control = none;
  supervisor_control_unavailable = none;
  stopped_early = stopped_early;
}

unfoldable pub with_assessment : {d : Platform} → Report d → Text → Report d
with_assessment r assessment = record r { assessment = some assessment }

unfoldable pub with_control : {d : Platform} → Report d → ControlOutcome → Report d
unfolding address unavailable_reason
with_control r outcome = record r {
  control = address outcome;
  control_unavailable = unavailable_reason outcome;
}

unfoldable pub with_supervisor_control : {d : Platform} → Report d → ControlOutcome → Report d
unfolding address unavailable_reason
with_supervisor_control r outcome = record r {
  supervisor_control = address outcome;
  supervisor_control_unavailable = unavailable_reason outcome;
}
