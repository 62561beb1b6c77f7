-- ===== src/Telemetry.antt =====
-- crates/onejudge/src/telemetry.rs: what one harness invocation reported, and the aggregation of
-- all invocations of a run by party. Durations and counts are `u64`.
pub mod Aggregate
use onejudge.Common.{
  ℕ, zero, suc, ◌+◌, ◌-◌, ◌*◌, ◌/◌, ◌%◌, ◌^◌, ◌≤◌, ◌<◌, min, max, String, ◌≡◌, refl, sym, ap, ap₂,
  ◌∙◌, subst, ◌≡⟨◌⟩◌, ◌∎, fun_ext, ◌≢◌, ◌↔◌, ◌⊎◌, inl, inr, Bool, true, false, not, ◌&&◌, ◌||◌,
  Option, none, some, List, [], ◌∷◌, ◌++◌, map, append-nil, append_assoc, map-append, Memᴰ, Infix,
  Infix-refl, Infix-append_left, Infix-append_right, Infix-cons, arith, Text, codes, text_eq,
  is_whitespace, is_ascii_digit, is_ascii_alphanumeric, trim_start, trim_end, trim, split, join,
  starts_with, contains, show, text_eq_iff, text_eq_refl, length, take, drop, is_empty, get_last?,
  keep, any, all, find, length-append, keep-append, length-keep, length-take, length-drop,
  take-append-drop, filter_map, flat_map, length-map, All, All-append, ltb, leb, ◌==◌,
  if◌then◌else◌, ltb→lt, lt→ltb, leb→le, ==_iff, tests, Bool-cases, Option-cases, is_some, is_none,
  get_or_else, map_some, or_else, both_some, ◌>>=◌,
}
use onejudge.Platform.{Platform}
use onejudge.Usage.{Usage, u64_mod, default_usage, some_unless_empty}

pub data TelemetryRole : Type 0 where
  agent judge : TelemetryRole

pub record PartyTelemetry (d : Platform) : Type 0 where
  pub model_ms : Option ℕ
  pub tool_ms : Option ℕ
  pub time_to_first_token_ms : Option ℕ
  pub usage : Option (Usage d)
  pub session_ids : List Text

pub record SessionLink : Type 0 where
  pub session_id : Text
  pub role : TelemetryRole
  pub turn_index : ℕ
  pub started_at : Text
  pub finished_at : Option Text
  pub history_id : Option Text
  pub judge : Option Text

pub record JudgePosture : Type 0 where
  pub mode : Text
  pub source : Text
  pub config_files : List Text

unfoldable pub is_writable : JudgePosture → Bool
is_writable p = not (text_eq p.mode (codes "read-only") || text_eq p.mode (codes "plan"))

pub record CandidateAttempt (d : Platform) : Type 0 where
  pub harness : Text
  pub harness_id : Text
  pub variant : Option Text
  pub model : Option Text
  pub status : Text
  pub available : Bool
  pub ran : Bool
  pub failure_kind : Option Text
  pub failure_kind_source : Option Text
  -- an `i32`, which nothing computes with
  pub exit_code : Option ℕ
  pub duration_ms : Option ℕ
  pub error : Option Text
  pub session_id : Option Text
  pub history_id : Option Text
  pub usage : Option (Usage d)

pub record FellThrough : Type 0 where
  pub harness : Text
  pub reason : Text

pub record HarnessAttribution (d : Platform) : Type 0 where
  pub role : TelemetryRole
  pub turn_index : ℕ
  pub ran : Option Text
  pub fell_through : List FellThrough
  pub candidates : List (CandidateAttempt d)
  pub history_file : Option Text
  pub judge : Option Text
  pub posture : Option JudgePosture

pub record Telemetry (d : Platform) : Type 0 where
  pub wall_ms : ℕ
  pub agent : PartyTelemetry d
  pub judge : PartyTelemetry d
  pub orchestration_ms : ℕ
  pub sessions : List SessionLink
  pub attribution : List (HarnessAttribution d)

pub record InvocationTelemetry (d : Platform) : Type 0 where
  pub role : Option TelemetryRole
  pub model_ms : Option ℕ
  pub tool_ms : Option ℕ
  pub time_to_first_token_ms : Option ℕ
  pub usage : Usage d
  pub session_id : Option Text
  pub started_at : Option Text
  pub finished_at : Option Text
  pub history_id : Option Text
  pub ran : Option Text
  pub fell_through : List FellThrough
  pub candidates : List (CandidateAttempt d)
  pub history_file : Option Text
  pub judge : Option Text
  pub posture : Option JudgePosture
