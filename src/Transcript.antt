-- ===== src/Transcript.antt =====
-- crates/onejudge/src/transcript.rs: messages, the tool events of a turn, and queries over them.
use onejudge.Common.{
  ℕ, max, Bool, true, false, not, ◌&&◌, Option, none, some, List, [], ◌∷◌, ◌++◌, Text, codes,
  text_eq, contains, length, take, keep, flat_map, ltb, if◌then◌else◌, get_or_else, map_some,
}
use onejudge.Platform.{Platform}

pub data Role : Type 0 where
  user assistant system : Role

unfoldable pub label : Role → Text
label user = codes "User"
label assistant = codes "Assistant"
label system = codes "System"

abbrev pub is_assistant : Role → Bool
is_assistant assistant = true
is_assistant _ = false

abbrev pub is_user : Role → Bool
is_user user = true
is_user _ = false

-- A tool invocation as the harness reported it, normalized.
pub record ToolEvent (d : Platform) : Type 0 where
  pub kind : Text
  pub name : Option Text
  pub input : Option d.Value
  pub output : Option Text
  pub index : ℕ
  pub tool_call_id : Option Text

pub record Message (d : Platform) : Type 0 where
  pub role : Role
  pub content : Text
  pub events : List (ToolEvent d)

pub record Transcript (d : Platform) : Type 0 where
  pub messages : List (Message d)

pub record ToolQuery : Type 0 where
  pub name : Option Text
  pub input_contains : Option Text
  pub include_results : Bool

-- `Message::user`, `Message::assistant` and `with_events`.
unfoldable pub user_message : {d : Platform} → Text → Message d
user_message content = record { role = user; content = content; events = [] }

unfoldable pub assistant_message : {d : Platform} → Text → Message d
assistant_message content = record { role = assistant; content = content; events = [] }

unfoldable pub with_events : {d : Platform} → Message d → List (ToolEvent d) → Message d
with_events m events = record m { events = events }

unfoldable pub from_input : {d : Platform} → Text → Transcript d
unfolding user_message
from_input input = record { messages = user_message input ∷ [] }

unfoldable pub push : {d : Platform} → Transcript d → Message d → Transcript d
push t m = record { messages = t.messages ++ m ∷ [] }

abbrev pub by_assistant : {d : Platform} → Message d → Bool
by_assistant m = is_assistant m.role

unfoldable pub assistant_turns : {d : Platform} → Transcript d → ℕ
assistant_turns t = length (keep by_assistant t.messages)

unfoldable pub tool_events : {d : Platform} → Transcript d → List (ToolEvent d)
tool_events t = flat_map (λ m. m.events) t.messages

-- `serde_json::to_string(value)`, or the `Debug` print if that fails.
unfoldable pub compact_json : (d : Platform) → d.Value → Text
compact_json d value = get_or_else (d.debug value) (d.to_string value)

-- `event.name.as_deref() != Some(name)`
unfoldable pub name_is : Option Text → Text → Bool
name_is none name = false
name_is (some n) name = text_eq n name

unfoldable pub name_passes : Option Text → Option Text → Bool
unfolding name_is
name_passes none actual = true
name_passes (some name) actual = name_is actual name

unfoldable pub input_passes : (d : Platform) → Option Text → Option d.Value → Bool
input_passes d none input = true
input_passes d (some needle) input =
    contains needle (get_or_else [] (map_some (compact_json d) input))

-- The early returns of `matches`, in their order.
unfoldable pub matches : {d : Platform} → ToolQuery → ToolEvent d → Bool
matches {d} q e =
    if not q.include_results && not (text_eq e.kind (codes "tool_call"))
    then false
    else if not (name_passes q.name e.name)
    then false
    else input_passes d q.input_contains e.input

unfoldable pub count_tool_events : {d : Platform} → Transcript d → ToolQuery → ℕ
count_tool_events t q = length (keep (matches q) (tool_events t))

unfoldable pub did : {d : Platform} → Transcript d → ToolQuery → Bool
did t q = ltb 0 (count_tool_events t q)

-- Cut to `max` characters, with an ellipsis where something was cut.
unfoldable pub truncate : Text → ℕ → Text
truncate s max = if ltb max (length s) then take max s ++ 0x2026 ∷ [] else s

unfoldable pub summary : {d : Platform} → ToolEvent d → Text
summary {d} e =
    let name = get_or_else e.kind e.name in
    elim e.input [
      | some input ↦ name ++ (codes "(" ++ (truncate (compact_json d input) 200 ++ codes ")"))
      | none ↦ name
    ]
