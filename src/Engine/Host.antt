-- ===== src/Engine/Host.antt =====
-- What the engine runs against (crates/onejudge/src/provider.rs, the trait `Provider`, and the
-- arguments of crates/onejudge/src/engine.rs): the provider's methods, the observer, the clock, the
-- note inbox of onemessagebus and the watch over a turn, as functions on a state `W` that they own.
use onejudge.Common.{ℕ, Bool, Option, List, Text}
use onejudge.Platform.{Platform}
use onejudge.Error.{Result}
use onejudge.Transcript.{Message}
use onejudge.Telemetry.{InvocationTelemetry}
use onejudge.HistoryName.{HistoryScope}
use onejudge.Provider.{
  AssistantTurn, SupervisorTurn, SupervisorQuery, SkillRef, EvidenceContext, JudgeTools,
}
use onejudge.Control.{ControlOutcome}
use onejudge.Report.{JudgeDecision, SpawnedProcess}
use onejudge.Note.{Party, Accepted, Undelivered}
use onejudge.Engine.{Conversation, Settings, Observation}
use onejudge.Engine.Redirects.{Sent, Redirect}

-- `HarnessEvent`
pub data HarnessEvent (d : Platform) : Type 0 where
  begun : d.Begun → HarnessEvent d
  action : d.Action → HarnessEvent d

-- A callback answers whether to break, and owns the state and the flag that it sets.
abbrev pub Callback : Type 0 → Type 0 → Type 0
Callback E W = E → W × Bool → Bool × (W × Bool)

pub record Host (d : Platform) (W : Type 0) : Type 0 where
  -- the observer (true is `Break`) and the clock
  pub observe : Observation d → W → Bool × W
  pub now : W → Text × W
  pub wall_ms : W → ℕ
  -- the inbox: all that `take` returns until it is empty, an answer, the closing
  pub drain : W → List Sent × W
  pub answer : Sent → Accepted → W → W
  pub close : Undelivered → W → W
  -- the drop of a claimed send that nothing answered
  pub drop_sent : Sent → W → W
  -- the watch over a live turn: what it is told of an action, and the redirects it returns
  pub watch_action : d.Action → W → W
  pub watched : Party → Text → Text → W → List Redirect × W
  -- the provider
  pub supervises_lost_turns : W → Bool
  pub reset_telemetry : W → W
  pub set_history_scope : Option HistoryScope → W → W
  pub invocation_telemetry : W → List (InvocationTelemetry d)
  pub spawned_processes : W → List SpawnedProcess
  pub control : W → ControlOutcome
  pub supervisor_control : W → ControlOutcome
  pub take_judge_decisions : W → List (JudgeDecision d) × W
  pub take_judge_tools : W → List (JudgeTools d) × W
  pub respond : SkillRef → List (Message d) → Option Text → W → Result (AssistantTurn d) × W
  pub respond_with_history :
      SkillRef
      → List (Message d)
      → Option Text
      → Callback (HarnessEvent d) W
      → W × Bool
      → Result (AssistantTurn d) × (W × Bool)
  pub supervise_with_evidence :
      SupervisorQuery
      → List (Message d)
      → Option Text
      → EvidenceContext
      → W
      → Result (SupervisorTurn d) × W
  pub supervise_observing :
      SupervisorQuery
      → List (Message d)
      → Option Text
      → EvidenceContext
      → Callback d.Begun W
      → W × Bool
      → Result (SupervisorTurn d) × (W × Bool)

-- What stays the same during a run: the engine's settings and the conversation, whether events are
-- streamed, and whether the engine has a note inbox.
pub record Plan : Type 0 where
  pub settings : Settings
  pub conversation : Conversation
  pub streaming : Bool
  pub has_notes : Bool
