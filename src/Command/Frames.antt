-- ===== src/Command/Frames.antt =====
-- crates/onejudge/src/command.rs: the requests, as they are built from a provider's call, and the
-- responses.
use onejudge.Common.{
  ◌⊎◌, Bool, not, ◌||◌, Option, none, some, List, ◌++◌, map, Text, codes, is_empty, if◌then◌else◌,
  is_some,
}
use onejudge.Platform.{Platform}
use onejudge.Error.{Result, ok, err, invalid}
use onejudge.Usage.{Usage}
use onejudge.Transcript.{Message, ToolEvent}
use onejudge.Note.{Party, Addressee, Criterion, DeliveredNote}
use onejudge.Provider.{
  boolean, numeric, JudgeValue, JudgeQuery, TurnOutcome, SkillRef, EvidenceContext,
}

pub record EvidencePayload : Type 0 where
  pub worktree : Option Text
  pub history_files : List Text
  pub artifacts : List Text

pub record FrameNote : Type 0 where
  pub addressee : Addressee
  pub text : Text
  pub criterion : Option Criterion

pub record FrameDeliveredNote : Type 0 where
  pub note : FrameNote
  pub delivered_to : Party

pub record SupervisorFrame (d : Platform) : Type 0 where
  pub task : Text
  pub persona : Text
  pub done_when : Option Text
  pub worktree : Text
  pub history_name : Text
  pub notes : List FrameDeliveredNote
  pub turn : TurnOutcome
  pub messages : List (Message d)
  pub session : Option Text

pub data JudgeFrame (d : Platform) : Type 0 where
  -- the criterion, the messages and the evidence
  boolean_frame : Text → List (Message d) → Option EvidencePayload → JudgeFrame d
  -- the criterion, the bounds, the messages and the evidence
  numeric_frame :
      Text → d.Float → d.Float → List (Message d) → Option EvidencePayload → JudgeFrame d

pub data Request (d : Platform) : Type 0 where
  respond_request : SkillRef → List (Message d) → Option Text → Request d
  user_request : Text → List (Message d) → Option Text → Request d
  supervisor_request : SupervisorFrame d → Request d
  judge_request : JudgeFrame d → Request d
  assess_request : Text → List (Message d) → Request d

unfoldable pub frame_note : DeliveredNote → FrameDeliveredNote
frame_note delivered = record {
  note = record {
    addressee = delivered.note.addressee;
    text = delivered.note.text;
    criterion = delivered.note.criterion;
  };
  delivered_to = delivered.delivered_to;
}

-- `JudgeFrame::of`
unfoldable pub judge_frame :
    {d : Platform}
    → JudgeQuery d
    → List (Message d)
    → Option EvidencePayload
    → Result (JudgeFrame d)
judge_frame query messages evidence = elim query.kind [
  | boolean ↦ ok (boolean_frame query.criterion messages evidence)
  | numeric ↦ elim query.scale [
    | some scale ↦ ok (numeric_frame query.criterion scale.0 scale.1 messages evidence)
    | none ↦ err (
        invalid (
          codes "a numeric judge query needs a scale: the protocol's `numeric` request "
          ++ codes "carries `min` and `max`"))
  ]
]

-- The paths of std: whether one is absolute, and one below another, printed.
pub record Paths : Type 0 where
  pub is_absolute : Text → Bool
  pub join_path : Text → Text → Text

-- `EvidenceContext::resolved_artifacts` of crates/onejudge/src/provider.rs
unfoldable pub resolved_artifacts : Paths → EvidenceContext → List Text
resolved_artifacts paths evidence =
    map
      (λ entry. elim evidence.worktree [
        | none ↦ entry
        | some worktree ↦ if paths.is_absolute entry then entry else paths.join_path worktree entry
      ])
      evidence.artifacts

-- The evidence of a judge's request, left out where there is none.
unfoldable pub evidence_payload : Paths → EvidenceContext → Option EvidencePayload
unfolding resolved_artifacts
evidence_payload paths evidence =
    if is_some evidence.worktree
      || (not (is_empty evidence.history_files) || not (is_empty evidence.artifacts))
    then some (record {
      worktree = evidence.worktree;
      history_files = evidence.history_files;
      artifacts = resolved_artifacts paths evidence;
    })
    else none

pub record RespondPayload (d : Platform) : Type 0 where
  pub message : Text
  pub done : Bool
  pub usage : Option (Usage d)
  pub events : Option (List (ToolEvent d))

pub record UserPayload (d : Platform) : Type 0 where
  pub message : Text
  pub stop : Bool
  pub usage : Option (Usage d)

pub record SupervisorPayload (d : Platform) : Type 0 where
  pub completion : Bool
  pub message : Option Text
  pub reason : Text
  pub usage : Option (Usage d)

pub record JudgePayload (d : Platform) : Type 0 where
  pub value : JudgeValue d
  pub reason : Text
  pub usage : Option (Usage d)

pub record AssessmentPayload (d : Platform) : Type 0 where
  pub text : Text
  pub usage : Option (Usage d)

-- serde: what is written for a request, and what is read of a response, or the text of its error.
pub record Wire (d : Platform) : Type 0 where
  pub to_vec : Request d → Text ⊎ Text
  pub read_respond : Text → Text ⊎ RespondPayload d
  pub read_user : Text → Text ⊎ UserPayload d
  pub read_supervisor : Text → Text ⊎ SupervisorPayload d
  pub read_judge : Text → Text ⊎ JudgePayload d
  pub read_assessment : Text → Text ⊎ AssessmentPayload d
