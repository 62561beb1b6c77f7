-- ===== src/Harness.antt =====
-- crates/onejudge/src/oneharness/report.rs: the harness's report of a run, as far as it is read. The
-- types of the report are those of oneharness_core, with the fields that the code reads, and with
-- its closed enumerations; what that crate computes is the parameter `HarnessCore`.
pub mod Turn
pub mod Select
pub mod Choice
use onejudge.Common.{
  ℕ, zero, suc, ◌+◌, ◌-◌, ◌*◌, ◌/◌, ◌%◌, ◌^◌, ◌≤◌, ◌<◌, min, max, String, ◌≡◌, refl, sym, ap, ap₂,
  ◌∙◌, subst, ◌≡⟨◌⟩◌, ◌∎, fun_ext, ◌≢◌, ◌↔◌, ◌⊎◌, inl, inr, Bool, true, false, not, ◌&&◌, ◌||◌,
  Option, none, some, List, [], ◌∷◌, ◌++◌, map, append-nil, append_assoc, map-append, Memᴰ, Infix,
  Infix-refl, Infix-append_left, Infix-append_right, Infix-cons, arith, Text, codes, text_eq,
  is_whitespace, is_ascii_digit, is_ascii_alphanumeric, trim_start, trim_end, trim, split, join,
  starts_with, contains, show, text_eq_iff, text_eq_refl, length, take, drop, is_empty, get_last?,
  keep, any, all, find, length-append, keep-append, length-keep, length-take, length-drop,
  take-append-drop, filter_map, flat_map, length-map, All, All-append, ltb, leb, ◌==◌,
  if◌then◌else◌, ltb→lt, lt→ltb, leb→le, ==_iff, tests, Bool-cases, Option-cases, is_some, is_none,
  get_or_else, map_some, or_else, both_some, ◌>>=◌, is_control, split_once, strip_prefix, lines,
  true≢false, some_inj, >>=-some,
}
use onejudge.Platform.{Platform}
use onejudge.Error.{Error, ProviderErrorKind}
use onejudge.Usage.{Usage, is_empty_usage}
use onejudge.Transcript.{ToolEvent}
use onejudge.Engine.{tool_event}

pub data Status : Type 0 where
  ok nonzero timeout cancelled spawn_error skipped planned : Status

pub data FailureKind : Type 0 where
  auth rate_limit server_overloaded model_not_found quota tool_deferred session_not_found
        untrusted_directory input_too_large model_mismatch app_server_lost :
      FailureKind

pub data FallThroughReason : Type 0 where
  not_installed spawn_error auth quota model_not_found rate_limit session_not_found
        untrusted_directory input_too_large model_mismatch app_server_lost server_overloaded :
      FallThroughReason

pub data ExecutionTelemetry : Type 0 where
  -- the start, the end, and the milliseconds of the model, the tools and the first token
  provider_measured : Text → Option Text → Option ℕ → Option ℕ → Option ℕ → ExecutionTelemetry
  -- the start
  partial_invocation : Text → ExecutionTelemetry
  stdout_observed : ExecutionTelemetry

pub record RunResult (d : Platform) : Type 0 where
  pub harness : Text
  pub harness_id : Text
  pub text : Option Text
  pub events : Option (List d.Action)
  pub usage : Usage d
  pub failure_kind : Option FailureKind
  pub error : Option Text
  pub status : Status
  pub telemetry : Option ExecutionTelemetry

pub record FallenThrough : Type 0 where
  pub harness : Text
  pub reason : FallThroughReason

pub record Fallback : Type 0 where
  pub ran : Option Text
  pub fell_through : List FallenThrough

-- `ControlEvent` and a path of the file system are types of oneharness_core and of std.
pub record HarnessCore : Type 1 where
  pub failure_str : FailureKind → Text
  pub reason_str : FallThroughReason → Text
  pub ControlEvent : Type 0
  pub is_redirected : ControlEvent → Bool
  pub SocketPath : Type 0
  pub parent : SocketPath → Option SocketPath
  pub to_str : SocketPath → Option Text

pub record ControlReport (k : HarnessCore) : Type 0 where
  pub socket : k.SocketPath
  pub interrupts : List k.ControlEvent

pub record RunReport (d : Platform) (k : HarnessCore) : Type 0 where
  pub results : List (RunResult d)
  pub fallback : Option Fallback
  pub control : Option (ControlReport k)
  -- the name of the session, as it is stored
  pub session : Option Text

pub record Supplemental : Type 0 where
  pub model_ms : Option ℕ
  pub tool_ms : Option ℕ
  pub time_to_first_token_ms : Option ℕ
  pub started_at : Option Text
  pub finished_at : Option Text
  pub history_id : Option Text

abbrev pub no_supplemental : Supplemental
no_supplemental = record {
  model_ms = none;
  tool_ms = none;
  time_to_first_token_ms = none;
  started_at = none;
  finished_at = none;
  history_id = none;
}

pub record Invocation (d : Platform) (k : HarnessCore) : Type 0 where
  pub report : RunReport d k
  pub ran : Option ℕ
  pub supplemental : Supplemental
  pub failure : Option Error

-- An element by its index; `none` is the panic of the brackets.
abbrev pub get_elem? : {A : Type 0} → List A → ℕ → Option A
get_elem? [] n = none
get_elem? (x ∷ xs) zero = some x
get_elem? (x ∷ xs) (suc n) = get_elem? xs n

pub record Measured : Type 0 where
  pub started_at : Option Text
  pub finished_at : Option Text
  pub model_ms : Option ℕ
  pub tool_ms : Option ℕ
  pub time_to_first_token_ms : Option ℕ

abbrev pub no_measured : Measured
no_measured = record {
  started_at = none;
  finished_at = none;
  model_ms = none;
  tool_ms = none;
  time_to_first_token_ms = none;
}

-- A `u128` that a `u64` cannot hold is unknown.
unfoldable pub millis : Option ℕ → Option ℕ
millis value = value >>= λ v. if ltb v (2 ^ 64) then some v else none

unfoldable pub measured_by : Option ExecutionTelemetry → Measured
unfolding millis
measured_by (some (provider_measured started_at finished_at model_ms tool_ms first_token_ms)) =
    record {
      started_at = some started_at;
      finished_at = finished_at;
      model_ms = millis model_ms;
      tool_ms = millis tool_ms;
      time_to_first_token_ms = millis first_token_ms;
    }
measured_by (some (partial_invocation started_at)) = record no_measured {
  started_at = some started_at;
}
measured_by (some stdout_observed) = no_measured
measured_by none = no_measured

abbrev pub measured : {d : Platform} → RunResult d → Measured
measured result = measured_by result.telemetry

unfoldable pub classify : FailureKind → ProviderErrorKind
classify FailureKind.auth = ProviderErrorKind.auth
classify FailureKind.rate_limit = ProviderErrorKind.rate_limit
classify FailureKind.server_overloaded = ProviderErrorKind.overloaded
classify FailureKind.model_not_found = ProviderErrorKind.model_not_found
classify FailureKind.quota = ProviderErrorKind.quota
classify FailureKind.tool_deferred = ProviderErrorKind.other
classify FailureKind.session_not_found = ProviderErrorKind.other
classify FailureKind.untrusted_directory = ProviderErrorKind.other
classify FailureKind.input_too_large = ProviderErrorKind.other
classify FailureKind.model_mismatch = ProviderErrorKind.other
classify FailureKind.app_server_lost = ProviderErrorKind.other

unfoldable pub reason_kind : FallThroughReason → ProviderErrorKind
reason_kind FallThroughReason.not_installed = ProviderErrorKind.spawn
reason_kind FallThroughReason.spawn_error = ProviderErrorKind.spawn
reason_kind FallThroughReason.auth = ProviderErrorKind.auth
reason_kind FallThroughReason.quota = ProviderErrorKind.quota
reason_kind FallThroughReason.model_not_found = ProviderErrorKind.model_not_found
reason_kind FallThroughReason.rate_limit = ProviderErrorKind.rate_limit
reason_kind FallThroughReason.session_not_found = ProviderErrorKind.other
reason_kind FallThroughReason.untrusted_directory = ProviderErrorKind.other
reason_kind FallThroughReason.input_too_large = ProviderErrorKind.other
reason_kind FallThroughReason.model_mismatch = ProviderErrorKind.other
reason_kind FallThroughReason.app_server_lost = ProviderErrorKind.other
reason_kind FallThroughReason.server_overloaded = ProviderErrorKind.overloaded

unfoldable pub status_token : Status → Text
status_token Status.ok = codes "ok"
status_token Status.nonzero = codes "nonzero"
status_token Status.timeout = codes "timeout"
status_token Status.cancelled = codes "cancelled"
status_token Status.spawn_error = codes "spawn-error"
status_token Status.skipped = codes "skipped"
status_token Status.planned = codes "planned"
