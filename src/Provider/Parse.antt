-- ===== src/Provider/Parse.antt =====
-- crates/onejudge/src/provider.rs: reading a supervisor's decision and a judge's verdict out of the
-- answer's text, and the prompts' view of the transcript.
pub mod Completion
use onejudge.Common.{
  ℕ, suc, ◌+◌, ◌-◌, ◌⊎◌, inl, inr, Bool, true, false, not, ◌||◌, Option, none, some, List, [], ◌∷◌,
  ◌++◌, map, Text, codes, trim, split, join, take, drop, is_empty, get_last?, keep, flat_map, ltb,
  ◌==◌, if◌then◌else◌, is_some, get_or_else, map_some, or_else, both_some, ◌>>=◌,
}
use onejudge.Platform.{Platform}
use onejudge.Error.{Result, ok, err, provider_classified, protocol}
use onejudge.Transcript.{Message, ToolEvent, label, summary, is_user}
use onejudge.Provider.{
  JudgeKind, boolean, numeric, JudgeValue, JudgeVerdict, SupervisorOutcome, completed, continue,
  no_instruction, unparseable,
}

-- `find(c)` and `rfind(c)`, as positions.
unfoldable pub position : ℕ → Text → Option ℕ
position c [] = none
position c (x ∷ s) = let rest = map_some suc (position c s) in if x == c then some 0 else rest

unfoldable pub last_position : ℕ → Text → Option ℕ
last_position c [] = none
last_position c (x ∷ s) =
    or_else (map_some suc (last_position c s)) (if x == c then some 0 else none)

unfoldable pub extract_json_object : Text → Option Text
unfolding position last_position
extract_json_object text = both_some (position b'{' text) (last_position b'}' text) >>= λ ends.
    if ltb ends.0 ends.1 then some (take (ends.1 + 1 - ends.0) (drop ends.0 text)) else none

-- What the two shapes have in common is read first: `completion`, the trimmed `reason`, `message`.
unfoldable pub decide : Bool → Text → Option Text → SupervisorOutcome ⊎ Text
decide true reason message =
    if is_empty reason || is_some message
    then inr (codes "a completed response requires non-empty `reason` and forbids `message`")
    else inl (completed reason)
decide false reason none = inl (no_instruction reason)
decide false reason (some message) =
    if is_empty (trim message) then inl (no_instruction reason) else inl (continue message reason)

unfoldable pub read_reason : (d : Platform) → d.Value → Text
read_reason d value = trim (get_or_else [] (d.get value (codes "reason") >>= d.as_str))

unfoldable pub read_message : (d : Platform) → d.Value → Option Text
read_message d value = d.get value (codes "message") >>= d.as_str

unfoldable pub read_completion : (d : Platform) → d.Value → Option Bool
read_completion d value = d.get value (codes "completion") >>= d.as_bool

unfoldable pub parse_supervisor_shape : Platform → Text → SupervisorOutcome ⊎ Text
parse_supervisor_shape d text = elim (extract_json_object text) [
  | none ↦ inr (codes "not a JSON object")
  | some json ↦
      if d.parses json
      then (elim (read_completion d (d.from_str json)) [
        | none ↦ inr (codes "needs boolean `completion`")
        | some completion ↦
            decide completion (read_reason d (d.from_str json)) (read_message d (d.from_str json))
      ])
      else inr (codes "not valid JSON: " ++ d.parse_error json)
]

unfoldable pub parse_supervisor : Platform → Text → SupervisorOutcome
parse_supervisor d text = elim (parse_supervisor_shape d text) [
  | inl outcome ↦ outcome
  | inr problem ↦ unparseable problem text
]

-- `lines()`: no line follows a final line end, and a carriage return before one is dropped.
unfoldable pub drop_return : Text → Text
drop_return [] = []
drop_return (c ∷ []) = if c == 13 then [] else c ∷ []
drop_return (c ∷ x ∷ s) = c ∷ drop_return (x ∷ s)

unfoldable pub end_lines : List Text → List Text
end_lines [] = []
end_lines (p ∷ []) = if is_empty p then [] else p ∷ []
end_lines (p ∷ q ∷ ps) = drop_return p ∷ end_lines (q ∷ ps)

unfoldable pub lines : Text → List Text
unfolding drop_return end_lines
lines text = end_lines (split (λ c. c == 10) text)

unfoldable pub not_blank : Text → Bool
not_blank line = not (is_empty (trim line))

unfoldable pub last_line : Text → Option Text
last_line text = map_some trim (get_last? (keep not_blank (lines text)))

unfoldable pub read_value : (d : Platform) → JudgeKind → Text → d.Value → Result (JudgeValue d)
read_value d boolean context raw = elim (d.as_bool raw) [
  | some b ↦ ok (JudgeValue.bool b)
  | none ↦ err (
      provider_classified context
        (codes "boolean judge `value` was not a bool: " ++ d.show_value raw) protocol)
]
read_value d numeric context raw = elim (d.as_f64 raw) [
  | some x ↦ ok (JudgeValue.number x)
  | none ↦ err (
      provider_classified context
        (codes "numeric judge `value` was not a number: " ++ d.show_value raw) protocol)
]

unfoldable pub with_reason : {d : Platform} → Text → Result (JudgeValue d) → Result (JudgeVerdict d)
with_reason reason (ok v) = ok (record { value = v; reason = reason; usage = none })
with_reason reason (err e) = err e

unfoldable pub parse_verdict : (d : Platform) → JudgeKind → Text → Text → Result (JudgeVerdict d)
parse_verdict d kind context text = elim (last_line text) [
  | none ↦
      err (
        provider_classified context (codes "judge returned no non-empty answer-text line") protocol)
  | some json ↦ elim (d.verdict_line json) [
    | none ↦ err (
        provider_classified context
          (codes "judge verdict was not valid JSON: "
            ++ (d.parse_error json ++ (codes "; got: " ++ json)))
          protocol)
    | some (raw, reason) ↦ with_reason reason (read_value d kind context raw)
  ]
]

unfoldable pub render_events : {d : Platform} → List (ToolEvent d) → Text
render_events events = flat_map (λ e. codes "\n  [tool] " ++ summary e) events

unfoldable pub render_message : {d : Platform} → Bool → Message d → Text
unfolding render_events
render_message include_events m =
    label m.role
    ++ (codes ": " ++ (m.content ++ (if include_events then render_events m.events else [])))

-- A line end before every message but the first.
unfoldable pub render_transcript : {d : Platform} → List (Message d) → Bool → Text
unfolding render_message
render_transcript messages include_events =
    join (codes "\n") (map (render_message include_events) messages)

unfoldable pub latest_user_message : {d : Platform} → List (Message d) → Option Text
latest_user_message messages =
    map_some (λ m. m.content) (get_last? (keep (λ m. is_user m.role) messages))
