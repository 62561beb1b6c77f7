-- ===== src/Stream.antt =====
-- crates/onejudge/src/stream.rs: reading the lines of a streamed provider. The reader is the list
-- of what it reads, a line or an error, up to the end of the stream; serde and the types of
-- oneharness_core are parameters.
pub mod Events
use onejudge.Common.{
  ℕ, zero, suc, ◌+◌, ◌-◌, ◌*◌, ◌/◌, ◌%◌, ◌^◌, ◌≤◌, ◌<◌, min, max, String, ◌≡◌, refl, sym, ap, ap₂,
  ◌∙◌, subst, ◌≡⟨◌⟩◌, ◌∎, fun_ext, ◌≢◌, ◌↔◌, ◌⊎◌, inl, inr, Bool, true, false, not, ◌&&◌, ◌||◌,
  Option, none, some, List, [], ◌∷◌, ◌++◌, map, append-nil, append_assoc, map-append, Memᴰ, Infix,
  Infix-refl, Infix-append_left, Infix-append_right, Infix-cons, arith, Text, codes, text_eq,
  is_whitespace, is_ascii_digit, is_ascii_alphanumeric, trim_start, trim_end, trim, split, join,
  starts_with, contains, show, text_eq_iff, text_eq_refl, length, take, drop, is_empty, get_last?,
  keep, any, all, find, length-append, keep-append, length-keep, length-take, length-drop,
  take-append-drop, filter_map, flat_map, length-map, All, All-append, ltb, leb, ◌==◌,
  if◌then◌else◌, ltb→lt, lt→ltb, leb→le, ==_iff, tests, Bool-cases, Option-cases, is_some, is_none,
  get_or_else, map_some, or_else, both_some, ◌>>=◌, is_control, split_once, strip_prefix, lines,
  true≢false, some_inj, >>=-some,
}
use onejudge.Platform.{Platform}
use onejudge.Error.{Error, Result, ok, err, protocol, provider_classified}
use onejudge.Transcript.{ToolEvent}
use onejudge.Engine.{tool_event}
use onejudge.Engine.Host.{HarnessEvent, begun}
use onejudge.Split.{On}

pub data StreamOutcome (d : Platform) : Type 0 where
  report : d.Value → StreamOutcome d
  aborted : StreamOutcome d

pub data StreamLine (d : Platform) : Type 0 where
  event_line : d.Action → StreamLine d
  history_begun : d.Begun → StreamLine d
  report_line : d.Value → StreamLine d

-- `RunStreamEnvelope`
pub data Envelope (d : Platform) : Type 0 where
  run_started : d.Begun → Envelope d
  event : d.Action → Envelope d
  result : Envelope d

pub record Envelopes (d : Platform) : Type 0 where
  pub is_object : d.Value → Bool
  pub read_envelope : d.Value → Text ⊎ Envelope d
  pub null : d.Value

abbrev pub refused : {A : Type 0} → Text → Text → Result A
refused op message = err (provider_classified op message protocol)

module _ {d : Platform} (read : Envelopes d) (op : Text) where
  unfoldable pub parse_tagged : Text → d.Value → Result (StreamLine d)
  parse_tagged line value = elim (read.read_envelope value) [
    | inl e ↦ refused op (
        codes "streamed provider line broke the oneharness stream protocol: "
        ++ (e ++ (codes "; got: " ++ line)))
    | inr envelope ↦ elim envelope [
      | run_started b ↦ ok (history_begun b)
      | event e ↦ ok (event_line e)
      | result ↦ ok (report_line (get_or_else read.null (d.get value (codes "report"))))
    ]
  ]

  unfoldable pub parse_line : Text → Result (StreamLine d)
  unfolding parse_tagged
  parse_line line =
      let value = d.from_str line in
      if not (d.parses line)
      then refused op (
          codes "streamed provider line was not valid JSON: "
          ++ (d.parse_error line ++ (codes "; got: " ++ line)))
      else if not (read.is_object value)
      then refused op (codes "streamed provider line was not a JSON object; got: " ++ line)
      else if is_none (d.get value (codes "type"))
      then ok (report_line value)
      else parse_tagged line value

  abbrev pub unreadable : {A : Type 0} → Text → Result A
  unreadable e = refused op (codes "could not read the provider stream: " ++ e)

  -- `read_eof`: nothing but blank lines may follow the report.
  unfoldable pub read_eof : List (Text ⊎ Text) → Option Error
  read_eof [] = none
  read_eof (inl e ∷ reader) =
      some (provider_classified op (codes "could not read the provider stream: " ++ e) protocol)
  read_eof (inr line ∷ reader) =
      let rest = read_eof reader in
      if is_empty (trim line)
      then rest
      else some (
          provider_classified op
            (codes "streamed provider wrote a line after its terminal `result` line; got: "
              ++ trim line)
            protocol)

  abbrev pub reported : d.Value → Option Error → Result (StreamOutcome d)
  reported value (some e) = err e
  reported value none = ok (report value)

  module _ {W : Type 0} (on_event : On (HarnessEvent d) W) where
    -- What the loop gives: its outcome, the tool events with those before, and the sink's state.
    abbrev pub Streamed : Type 0
    Streamed = Result (StreamOutcome d) × (List (ToolEvent d) × W)

    abbrev pub kept : List (ToolEvent d) → d.Action → List (ToolEvent d)
    kept events e = events ++ (elim (tool_event d e) [ none ↦ [] | some t ↦ t ∷ [] ])

    abbrev pub unless_broken : Bool → List (ToolEvent d) → W → Streamed → Streamed
    unless_broken true events w rest = (ok aborted, (events, w))
    unless_broken false events w rest = rest

    -- What is done with a line that was parsed; `rest` reads on.
    abbrev pub with_line :
        Result (StreamLine d)
        → List (Text ⊎ Text)
        → List (ToolEvent d)
        → W
        → (List (ToolEvent d) → W → Streamed)
        → Streamed
    with_line (err e) reader events w rest = (err e, (events, w))
    with_line (ok (history_begun b)) reader events w rest =
        let (flow, w1) = on_event (begun b) w in unless_broken flow events w1 (rest events w1)
    with_line (ok (event_line e)) reader events w rest =
        let (flow, w1) = on_event (HarnessEvent.action e) w in
        unless_broken flow (kept events e) w1 (rest (kept events e) w1)
    with_line (ok (report_line value)) reader events w rest =
        (reported value (read_eof reader), (events, w))

    unfoldable pub read_stream : List (Text ⊎ Text) → List (ToolEvent d) → W → Streamed
    unfolding parse_line read_eof
    read_stream [] events w = (
      refused op (
          codes "the streamed provider ended without a terminal "
          ++ codes "`{\"type\":\"result\",\"report\":{…}}` line"),
      (events, w),
    )
    read_stream (inl e ∷ reader) events w = (unreadable e, (events, w))
    read_stream (inr line ∷ reader) events w =
        let rest = λ (events : List (ToolEvent d)) (w : W). read_stream reader events w in
        let skipped = rest events w in
        if is_empty (trim line)
        then skipped
        else with_line (parse_line (trim line)) reader events w rest
