-- ===== src/Provider.antt =====
-- crates/onejudge/src/provider.rs: what passes between the engine and a provider of model calls.
-- Provider/Parse.antt reads a supervisor's and a judge's answer, Provider/Reask.antt asks again.
pub mod Parse
pub mod Reask
use onejudge.Common.{
  ℕ, zero, suc, ◌+◌, ◌-◌, ◌*◌, ◌/◌, ◌%◌, ◌^◌, ◌≤◌, ◌<◌, min, max, String, ◌≡◌, refl, sym, ap, ap₂,
  ◌∙◌, subst, ◌≡⟨◌⟩◌, ◌∎, fun_ext, ◌≢◌, ◌↔◌, ◌⊎◌, inl, inr, Bool, true, false, not, ◌&&◌, ◌||◌,
  Option, none, some, List, [], ◌∷◌, ◌++◌, map, append-nil, append_assoc, map-append, Memᴰ, Infix,
  Infix-refl, Infix-append_left, Infix-append_right, Infix-cons, arith, Text, codes, text_eq,
  is_whitespace, is_ascii_digit, is_ascii_alphanumeric, trim_start, trim_end, trim, split, join,
  starts_with, contains, show, text_eq_iff, text_eq_refl, length, take, drop, is_empty, get_last?,
  keep, any, all, find, length-append, keep-append, length-keep, length-take, length-drop,
  take-append-drop, filter_map, flat_map, length-map, All, All-append, ltb, leb, ◌==◌,
  if◌then◌else◌, ltb→lt, lt→ltb, leb→le, ==_iff, tests, Bool-cases, Option-cases, is_some, is_none,
  get_or_else, map_some, or_else, both_some, ◌>>=◌,
}
use onejudge.Platform.{Platform}
use onejudge.Usage.{Usage}
use onejudge.Transcript.{ToolEvent}
use onejudge.Telemetry.{JudgePosture}
use onejudge.Note.{DeliveredNote}

pub data JudgeKind : Type 0 where
  boolean numeric : JudgeKind

unfoldable pub judge_kind_str : JudgeKind → Text
judge_kind_str boolean = codes "boolean"
judge_kind_str numeric = codes "numeric"

pub data JudgeValue (d : Platform) : Type 0 where
  bool : Bool → JudgeValue d
  number : d.Float → JudgeValue d

pub record JudgeQuery (d : Platform) : Type 0 where
  pub kind : JudgeKind
  pub criterion : Text
  pub scale : Option (d.Float × d.Float)

pub record AssistantTurn (d : Platform) : Type 0 where
  pub message : Text
  pub done : Bool
  pub usage : Option (Usage d)
  pub events : List (ToolEvent d)

-- The persona's next message, and whether it ends the conversation.
pub record UserTurn (d : Platform) : Type 0 where
  pub message : Text
  pub stop : Bool
  pub usage : Option (Usage d)

-- The `labels` are a `BTreeMap`, kept as its entries in order.
pub record JudgeLink (d : Platform) : Type 0 where
  pub labels : List (Text × Text)
  pub run_id : Option Text
  pub posture : Option JudgePosture
  pub events : List (ToolEvent d)

pub record JudgeTools (d : Platform) : Type 0 where
  pub judge : Text
  pub events : List (ToolEvent d)

pub data TurnOutcome : Type 0 where
  taken : TurnOutcome
  -- the cause and the harness
  lost : Text → Option Text → TurnOutcome

pub record SupervisorQuery : Type 0 where
  pub task : Text
  pub persona : Text
  pub done_when : Option Text
  pub worktree : Text
  pub history_name : Text
  pub notes : List DeliveredNote
  pub turn : TurnOutcome
  pub turn_index : ℕ

pub data SupervisorOutcome : Type 0 where
  -- the reason
  completed : Text → SupervisorOutcome
  -- the message and the reason
  continue : Text → Text → SupervisorOutcome
  -- the reason
  no_instruction : Text → SupervisorOutcome
  -- the problem and the answer
  unparseable : Text → Text → SupervisorOutcome

pub record SupervisorTurn (d : Platform) : Type 0 where
  pub outcome : SupervisorOutcome
  pub usage : Option (Usage d)

pub record JudgeVerdict (d : Platform) : Type 0 where
  pub value : JudgeValue d
  pub reason : Text
  pub usage : Option (Usage d)

pub record Assessment (d : Platform) : Type 0 where
  pub text : Text
  pub usage : Option (Usage d)

pub record SkillRef : Type 0 where
  pub name : Text
  pub dir : Text
  pub instructions : Text

pub record EvidenceContext : Type 0 where
  pub worktree : Option Text
  pub history_files : List Text
  pub artifacts : List Text
