-- ===== src/Examples.antt =====
-- A concrete platform, and the data of the examples.
mod Notes
mod Panels
mod Records
mod Providers
mod Conversations
mod Judges
mod Backends
mod Watches
use onejudge.Common.{
  ℕ, zero, suc, ◌+◌, ◌-◌, ◌*◌, ◌/◌, ◌%◌, ◌^◌, ◌≤◌, ◌<◌, min, max, String, ◌≡◌, refl, sym, ap, ap₂,
  ◌∙◌, subst, ◌≡⟨◌⟩◌, ◌∎, fun_ext, ◌≢◌, ◌↔◌, ◌⊎◌, inl, inr, Bool, true, false, not, ◌&&◌, ◌||◌,
  Option, none, some, List, [], ◌∷◌, ◌++◌, map, append-nil, append_assoc, map-append, Memᴰ, Infix,
  Infix-refl, Infix-append_left, Infix-append_right, Infix-cons, arith, Text, codes, text_eq,
  is_whitespace, is_ascii_digit, is_ascii_alphanumeric, trim_start, trim_end, trim, split, join,
  starts_with, contains, show, text_eq_iff, text_eq_refl, length, take, drop, is_empty, get_last?,
  keep, any, all, find, length-append, keep-append, length-keep, length-take, length-drop,
  take-append-drop, filter_map, flat_map, length-map, All, All-append, ltb, leb, ◌==◌,
  if◌then◌else◌, ltb→lt, lt→ltb, leb→le, ==_iff, tests, Bool-cases, Option-cases, is_some, is_none,
  get_or_else, map_some, or_else, both_some, ◌>>=◌,
}
use onejudge.Platform.{Platform}
use onejudge.Error.{Error, provider, Result, ok, err}
use onejudge.Transcript.{ToolEvent}
use onejudge.Note.{Note, Addressee, Delivery, Criterion, DeliveredNote, Party}
use onejudge.Panel.{JudgeEntry}

-- Values, actions and announcements are numbers, and no text parses as a value.
abbrev pub plain : Platform
plain = record {
  Float = ℕ;
  zero_float = 0;
  infinity = 1000000;
  add_float = λ x y. x + y;
  min_float = min;
  lt_float = ltb;
  show_float = λ x. x ∷ [];
  is_alphanumeric = is_ascii_alphanumeric;
  to_lowercase = λ t. t;
  Value = ℕ;
  to_string = λ v. some (v ∷ []);
  debug = λ v. v ∷ [];
  parses = λ t. false;
  from_str = λ t. 0;
  parse_error = λ t. t;
  get = λ v k. none;
  as_bool = λ v. none;
  as_str = λ v. none;
  as_f64 = λ v. some v;
  verdict_line = λ t. none;
  show_value = λ v. v ∷ [];
  Action = ℕ;
  is_tool_activity = λ a. true;
  action_kind = λ a. codes "tool_call";
  action_name = λ a. some (codes "bash");
  action_input = λ a. some a;
  action_output = λ a. none;
  action_index = λ a. a;
  action_tool_call_id = λ a. none;
  Begun = ℕ;
}

abbrev pub call : ℕ → ToolEvent plain
call n = record {
  kind = codes "tool_call";
  name = some (codes "bash");
  input = some n;
  output = none;
  index = n;
  tool_call_id = none;
}

abbrev pub binding_note : Note
binding_note = record {
  addressee = Addressee.both;
  text = codes "Use the second port.";
  criterion = some (record { as_str = codes "The second port answers." });
  delivery = Delivery.interrupt;
}

abbrev pub plain_note : Note
plain_note = record {
  addressee = Addressee.supervisor;
  text = codes "The budget is spent.";
  criterion = none;
  delivery = Delivery.turn_end;
}

abbrev pub delivered_notes : List DeliveredNote
delivered_notes =
    record { note = binding_note; delivered_to = Party.worker }
    ∷ record { note = plain_note; delivered_to = Party.worker }
    ∷ []

abbrev pub first_judge : JudgeEntry
first_judge = record {
  label = codes "first";
  kind = codes "harness";
  abilities = record { numeric = true; prose = true; user = true };
}

abbrev pub second_judge : JudgeEntry
second_judge = record {
  label = codes "second";
  kind = codes "command";
  abilities = record { numeric = true; prose = false; user = true };
}

abbrev pub failure_error : Error
failure_error = provider (codes "judge") (codes "exit code 1") none
