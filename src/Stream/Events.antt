-- ===== src/Stream/Events.antt =====
-- What is kept of a streamed run, against what its sink was shown.
use onejudge.Common.{
  ◌≡◌, refl, sym, ap, ◌∙◌, subst, ◌⊎◌, inl, inr, Bool, true, false, ◌||◌, Option, none, some, List,
  [], ◌∷◌, ◌++◌, append-nil, append_assoc, Text, trim, is_empty, any, filter_map, if◌then◌else◌,
}
use onejudge.Platform.{Platform}
use onejudge.Error.{Result, ok, err}
use onejudge.Transcript.{ToolEvent}
use onejudge.Engine.{tool_event}
use onejudge.Engine.Host.{HarnessEvent, begun}
use onejudge.Split.{On}
use onejudge.Stream.{
  Envelopes, StreamOutcome, report, StreamLine, event_line, history_begun, report_line, parse_line,
  Streamed, unless_broken, with_line, read_stream,
}

abbrev pub tool_of : {d : Platform} → HarnessEvent d → Option (ToolEvent d)
tool_of (begun b) = none
tool_of {d} (HarnessEvent.action a) = tool_event d a

-- A sink that writes down what it is shown, and breaks where it is told to.
abbrev pub logged :
    {d : Platform} → (HarnessEvent d → Bool) → On (HarnessEvent d) (List (HarnessEvent d))
logged stop e log = (stop e, log ++ e ∷ [])

module _ {d : Platform} (read : Envelopes d) (op : Text) (stop : HarnessEvent d → Bool) where
  abbrev Log : Type 0
  Log = List (HarnessEvent d)

  -- Behind what was there before, the tool events are those of what the sink was shown; a report
  -- is returned only where the sink did not break.
  abbrev pub Faithful :
      List (ToolEvent d) → Log → Result (StreamOutcome d) × (List (ToolEvent d) × Log) → Type 0
  Faithful events log x =
      (shown : Log) × ((x.1.1 ≡ log ++ shown)
        × ((x.1.0 ≡ events ++ filter_map tool_of shown)
            × ((value : d.Value) → x.0 ≡ ok (report value) → any stop shown ≡ false)))

  nothing_shown :
      (r : Result (StreamOutcome d)) (events : List (ToolEvent d)) (log : Log)
      → Faithful events log (r, (events, log))
  nothing_shown r events log =
      ([], (sym (append-nil log), (sym (append-nil events), λ value e. refl)))

  filter_map-one :
      (e : HarnessEvent d) (shown : Log)
      → filter_map tool_of (e ∷ []) ++ filter_map tool_of shown ≡ filter_map tool_of (e ∷ shown)
  filter_map-one e shown = told (tool_of e)
    where
      told :
          (o : Option (ToolEvent d))
          → (let one : List (ToolEvent d) = elim o [ none ↦ [] | some t ↦ t ∷ [] ] in
              let all : List (ToolEvent d) = elim o [
                | none ↦ filter_map tool_of shown
                | some t ↦ t ∷ filter_map tool_of shown
              ] in
              one ++ filter_map tool_of shown ≡ all)
      told none = refl
      told (some t) = refl

  -- One more event is shown, and then the loop stops or goes on.
  shown_one :
      (e : HarnessEvent d) (events : List (ToolEvent d)) (log : Log)
      (rest : Result (StreamOutcome d) × (List (ToolEvent d) × Log))
      → Faithful (events ++ filter_map tool_of (e ∷ [])) (log ++ e ∷ []) rest
      → Faithful events log (
          unless_broken read op
            (logged stop)
            (stop e)
            (events ++ filter_map tool_of (e ∷ []))
            (log ++ e ∷ [])
            rest)
  shown_one e events log rest (shown, (l, (k, r))) = broken (stop e) refl
    where
      broken :
          (b : Bool)
          → stop e ≡ b
          → Faithful events log (
              unless_broken read op
                (logged stop)
                b
                (events ++ filter_map tool_of (e ∷ []))
                (log ++ e ∷ [])
                rest)
      broken true q = (e ∷ [], (refl, (refl, λ value f. absurd cc)))
      broken false q = (
        e ∷ shown,
        (
          l ∙ append_assoc log (e ∷ []) shown,
          (
            k
                ∙ (append_assoc events (filter_map tool_of (e ∷ [])) (filter_map tool_of shown)
                    ∙ ap (λ xs. events ++ xs) (filter_map-one e shown)),
            λ value f. ap (λ b. b || any stop shown) q ∙ r value f,
          ),
        ),
      )

  -- However a streamed run ends, its tool events are those of what the sink was shown, each once
  -- and in order, behind the ones from before; and where it ends with a report, the sink broke at
  -- nothing it was shown.
  pub read_stream-Faithful :
      (reader : List (Text ⊎ Text)) (events : List (ToolEvent d)) (log : Log)
      → Faithful events log (read_stream read op (logged stop) reader events log)
  unfolding read_stream
  read_stream-Faithful [] events log = nothing_shown _ events log
  read_stream-Faithful (inl e ∷ reader) events log = nothing_shown _ events log
  read_stream-Faithful (inr line ∷ reader) events log =
      let behind : (events : List (ToolEvent d)) (log : Log)
          → Faithful events log (read_stream read op (logged stop) reader events log) =
        λ events log. read_stream-Faithful reader events log in
      skipping (is_empty (trim line)) (behind events log)
        (parsed (parse_line read op (trim line)) behind)
    where
      next : List (ToolEvent d) → Log → Streamed read op (logged stop)
      next events log = read_stream read op (logged stop) reader events log

      parsed :
          (r : Result (StreamLine d))
          → ((events : List (ToolEvent d)) (log : Log) → Faithful events log (next events log))
          → Faithful events log (with_line read op (logged stop) r reader events log next)
      parsed (err e) behind = nothing_shown _ events log
      parsed (ok (history_begun b)) behind =
          subst
            (λ es. Faithful events log (
              unless_broken read op (logged stop) (stop (begun b)) es (log ++ begun b ∷ [])
                (next es (log ++ begun b ∷ []))))
            (append-nil events)
            (shown_one (begun b) events log _ (behind (events ++ []) (log ++ begun b ∷ [])))
      parsed (ok (event_line a)) behind =
          shown_one (HarnessEvent.action a) events log _ (behind _ _)
      parsed (ok (report_line value)) behind = nothing_shown _ events log

      skipping :
          (b : Bool)
          → Faithful events log (next events log)
          → Faithful events log (
              with_line read op
                (logged stop)
                (parse_line read op (trim line))
                reader
                events
                log
                next)
          → Faithful events log (
              if b
              then read_stream read op (logged stop) reader events log
              else with_line read op
                  (logged stop)
                  (parse_line read op (trim line))
                  reader
                  events
                  log
                  next)
      skipping true s k = s
      skipping false s k = k
