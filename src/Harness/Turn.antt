-- ===== src/Harness/Turn.antt =====
-- crates/onejudge/src/oneharness/report.rs: the turn that an invocation of the harness describes.
use onejudge.Common.{
  Bool, false, Option, none, some, List, [], Text, any, filter_map, get_or_else, map_some, ◌>>=◌,
}
use onejudge.Platform.{Platform}
use onejudge.Error.{Result, ok, err}
use onejudge.Usage.{Usage, default_usage, some_unless_empty}
use onejudge.Transcript.{ToolEvent}
use onejudge.Engine.{tool_event}
use onejudge.Harness.{RunResult, RunReport, HarnessCore, Invocation, get_elem?}

abbrev pub reply_of : {d : Platform} → Option (RunResult d) → Text
reply_of r = get_or_else [] (r >>= λ x. x.text)

abbrev pub actions_of : {d : Platform} → Option (RunResult d) → List d.Action
actions_of r = get_or_else [] (r >>= λ x. x.events)

module _ {d : Platform} {k : HarnessCore} where
  unfoldable pub into_ok : Invocation d k → Result (Invocation d k)
  into_ok i = elim i.failure [ some e ↦ err e | none ↦ ok i ]

  -- `result`, where the outer `none` is the panic.
  unfoldable pub result : Invocation d k → Option (Option (RunResult d))
  result i = elim i.ran [
    | none ↦ some none
    | some index ↦ map_some some (get_elem? i.report.results index)
  ]

  unfoldable pub reply : Invocation d k → Option Text
  unfolding result
  reply i = map_some reply_of (result i)

  unfoldable pub actions : Invocation d k → Option (List d.Action)
  unfolding result
  actions i = map_some actions_of (result i)

  unfoldable pub events : Invocation d k → Option (List (ToolEvent d))
  unfolding actions
  events i = map_some (filter_map (tool_event d)) (actions i)

  -- The directory of the sessions, two levels above the socket, and the session's name.
  unfoldable pub control_socket : RunReport d k → Option (Text × Text)
  control_socket report = report.control >>= λ control. report.session >>= λ session.
      k.parent control.socket >>= λ up.
      k.parent up >>= λ dir. k.to_str dir >>= λ session_dir. some (session, session_dir)

  unfoldable pub was_redirected : RunReport d k → Bool
  was_redirected report = elim report.control [
    | none ↦ false
    | some control ↦ any k.is_redirected control.interrupts
  ]

  unfoldable pub usage : Invocation d k → Option (Option (Usage d))
  unfolding result
  usage i =
      map_some
        (λ (r : Option (RunResult d)).
          some_unless_empty (get_or_else default_usage (map_some (λ x. x.usage) r)))
        (result i)
