-- ===== src/Llmlint.antt =====
-- crates/onejudge/src/llmlint.rs: a judge whose verdict is one run of the linter over the worker's
-- tree. The state holds what the provider keeps in its cells; the system runs its processes.
pub mod Reading
pub mod Run
pub mod Judge
pub mod Arguments
pub mod LabelMaps
pub mod Decisions
use onejudge.Common.{
  ℕ, zero, suc, ◌+◌, ◌-◌, ◌*◌, ◌/◌, ◌%◌, ◌^◌, ◌≤◌, ◌<◌, min, max, String, ◌≡◌, refl, sym, ap, ap₂,
  ◌∙◌, subst, ◌≡⟨◌⟩◌, ◌∎, fun_ext, ◌≢◌, ◌↔◌, ◌⊎◌, inl, inr, Bool, true, false, not, ◌&&◌, ◌||◌,
  Option, none, some, List, [], ◌∷◌, ◌++◌, map, append-nil, append_assoc, map-append, Memᴰ, Infix,
  Infix-refl, Infix-append_left, Infix-append_right, Infix-cons, arith, Text, codes, text_eq,
  is_whitespace, is_ascii_digit, is_ascii_alphanumeric, trim_start, trim_end, trim, split, join,
  starts_with, contains, show, text_eq_iff, text_eq_refl, length, take, drop, is_empty, get_last?,
  keep, any, all, find, length-append, keep-append, length-keep, length-take, length-drop,
  take-append-drop, filter_map, flat_map, length-map, All, All-append, ltb, leb, ◌==◌,
  if◌then◌else◌, ltb→lt, lt→ltb, leb→le, ==_iff, tests, Bool-cases, Option-cases, is_some, is_none,
  get_or_else, map_some, or_else, both_some, ◌>>=◌, is_control, split_once, strip_prefix, lines,
  true≢false, some_inj, >>=-some,
}
use onejudge.Platform.{Platform}
use onejudge.Error.{
  Error, Result, ok, err, invalid, spawn, protocol, other, provider_error, provider_classified,
}
use onejudge.Usage.{default_usage}
use onejudge.Telemetry.{InvocationTelemetry, judge}
use onejudge.HistoryName.{HistoryScope}
use onejudge.Transcript.{Message}
use onejudge.Report.{SpawnedProcess}
use onejudge.Provider.{
  JudgeKind, boolean, numeric, JudgeValue, bool, JudgeQuery, JudgeLink, AssistantTurn,
  SupervisorOutcome, completed, continue, SupervisorTurn, SupervisorQuery, JudgeVerdict, Assessment,
  EvidenceContext,
}
use onejudge.Spawn.{
  Command, Io, done, io_error, SpawnHook, System, Spawner, default_spawner, spawn_child,
  SpawnContext,
}
use onejudge.Llmlint.Reading.{
  min_version, label_value_problem, run_id, latest_assistant_turn, summary_line, Output, describe,
  bounded, is_supported,
}

abbrev pub default_judge_label : Text
default_judge_label = codes "llmlint"

abbrev pub probe_op : Text
probe_op = codes "probe"

-- What the runs need of the operating system beside the start of a process: both pipes read to
-- their ends, the wait for the exit, the clock in milliseconds, and the print of a text in quotes.
pub record Tools (W : Type 0) : Type 0 where
  pub system : System W
  pub read_pipes : ℕ → W → (Io Text × Io Text) × W
  pub wait : ℕ → W → Io (Option ℕ × Text) × W
  pub clock : W → ℕ × W
  pub debug_text : Text → Text

pub record LlmlintProvider (d : Platform) (W : Type 0) : Type 0 where
  pub bin : Text
  pub config : Option Text
  pub diff_base : Option Text
  pub args : List Text
  pub spawner : Spawner W
  pub telemetry : List (InvocationTelemetry d)
  pub session : Option Text
  pub judge_label : Option Text
  pub link : Option (JudgeLink d)

pub data Lint : Type 0 where
  -- the summary
  clean : Text → Lint
  -- the report and the summary
  failing : Text → Text → Lint

abbrev pub listed : {A : Type 0} → Option A → List A
listed none = []
listed (some a) = a ∷ []

-- The pairs of a `--label KEY=VALUE`; one without `=` is passed over.
abbrev pub pair_of : Option Text → List (Text × Text)
pair_of none = []
pair_of (some pair) = listed (split_once b'=' pair)

unfoldable pub caller_labels : List Text → List (Text × Text)
caller_labels [] = []
caller_labels (arg ∷ []) = pair_of (strip_prefix (codes "--label=") arg)
caller_labels (arg ∷ next ∷ args) =
    let behind = caller_labels args in
    let from_next = caller_labels (next ∷ args) in
    if text_eq arg (codes "--label")
    then pair_of (some next) ++ behind
    else pair_of (strip_prefix (codes "--label=") arg) ++ from_next

-- A `BTreeMap` of texts as its entries in order, where a text comes before those it begins.
unfoldable pub text_before : Text → Text → Bool
text_before [] [] = false
text_before [] (c ∷ t) = true
text_before (c ∷ s) [] = false
text_before (c ∷ s) (c' ∷ t) = let rest = text_before s t in ltb c c' || ((c == c') && rest)

unfoldable pub insert_label : Text × Text → List (Text × Text) → List (Text × Text)
insert_label (key, value) [] = (key, value) ∷ []
insert_label (key, value) ((key', value') ∷ entries) =
    let behind = insert_label (key, value) entries in
    if text_eq key key'
    then (key, value) ∷ entries
    else if text_before key key'
    then (key, value) ∷ (key', value') ∷ entries
    else (key', value') ∷ behind

unfoldable pub extend_labels : List (Text × Text) → List (Text × Text) → List (Text × Text)
extend_labels entries [] = entries
extend_labels entries (x ∷ xs) = extend_labels (insert_label x entries) xs

unfoldable pub label_args : List (Text × Text) → List Text
label_args labels =
    flat_map (λ (x : Text × Text). codes "--label" ∷ (x.0 ++ b'=' ∷ x.1) ∷ []) labels

abbrev pub config_args : Option Text → List Text
config_args none = []
config_args (some config) = codes "-c" ∷ config ∷ []

abbrev pub diff_args : Option Text → List Text
diff_args none = []
diff_args (some base) = codes "--diff" ∷ codes "--diff-base" ∷ base ∷ []

-- The refusal for an operation that a lint run cannot answer.
unfoldable pub cannot : {A : Type 0} → Text → Result A
cannot what = err (
    invalid (
      codes "an llmlint judge "
      ++ (what
          ++ (codes "; it takes part only in the per-turn supervisor decision and "
              ++ codes "boolean judgements, as one judge of a `SplitProvider` panel"))))
