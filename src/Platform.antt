-- ===== src/Platform.antt =====
-- What the code takes from outside crates/onejudge/src: the `f64` arithmetic and Unicode tables of
-- Rust's standard library, and `serde_json` (its values, their print and their parser).
use onejudge.Common.{ℕ, Bool, Option, Text}

pub record Platform : Type 1 where
  -- `f64`
  pub Float : Type 0
  pub zero_float : Float
  pub infinity : Float
  pub add_float : Float → Float → Float
  pub min_float : Float → Float → Float
  pub lt_float : Float → Float → Bool
  pub show_float : Float → Text
  -- `char::is_alphanumeric` and `str::to_lowercase`
  pub is_alphanumeric : ℕ → Bool
  pub to_lowercase : Text → Text
  -- `serde_json::Value`, `to_string`, the `Debug` print, and `from_str` with its error's text
  pub Value : Type 0
  pub to_string : Value → Option Text
  pub debug : Value → Text
  pub parses : Text → Bool
  pub from_str : Text → Value
  pub parse_error : Text → Text
  pub get : Value → Text → Option Value
  pub as_bool : Value → Option Bool
  pub as_str : Value → Option Text
  pub as_f64 : Value → Option Float
  -- the reader that serde derives for `VerdictLine`: the value, and the reason or ""
  pub verdict_line : Text → Option (Value × Text)
  pub show_value : Value → Text
  -- `ActionEvent` and `RunBegun` of oneharness_core, with the fields that are read
  pub Action : Type 0
  pub is_tool_activity : Action → Bool
  pub action_kind : Action → Text
  pub action_name : Action → Option Text
  pub action_input : Action → Option Value
  pub action_output : Action → Option Text
  pub action_index : Action → ℕ
  pub action_tool_call_id : Action → Option Text
  pub Begun : Type 0
