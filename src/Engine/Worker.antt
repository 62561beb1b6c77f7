-- ===== src/Engine/Worker.antt =====
-- crates/onejudge/src/engine.rs: the worker's half of a turn in `drive`, from the queued notes to
-- the checks that end the loop before the supervisor is asked.
use onejudge.Common.{
  ℕ, ◌+◌, Bool, true, false, ◌&&◌, ◌||◌, Option, none, some, List, [], ◌∷◌, ◌++◌, Text, codes,
  length, drop, get_last?, keep, find, filter_map, leb, if◌then◌else◌, get_or_else, map_some,
  or_else,
}
use onejudge.Platform.{Platform}
use onejudge.Usage.{add_some_usage}
use onejudge.Error.{Error, Result, kind, as_str}
use onejudge.Transcript.{assistant, Message, Transcript, push, user_message, assistant_turns}
use onejudge.Telemetry.{InvocationTelemetry, CandidateAttempt}
use onejudge.Telemetry.Aggregate.{is_agent}
use onejudge.Note.{Party, Accepted, queued, worker_block}
use onejudge.Provider.{AssistantTurn, SkillRef, TurnOutcome, lost}
use onejudge.Engine.{
  SimulatedUser, Settings, Observation, turn_opened, history_begun, tool, action, message,
  turn_closed, skill_ref, tool_event,
}
use onejudge.Engine.Noop.{observe_exchange}
use onejudge.Engine.Redirects.{Sent, Redirect, push_redirected}
use onejudge.Engine.Host.{Host, Plan, HarnessEvent, begun, Callback}
use onejudge.Engine.Monad.{
  next, exit, ended, panicked, M, and_next, ◌>>=◌, ◌>>◌, pure, get_run, on_world, stop_if,
}
use onejudge.Engine.Notes.{take_notes, deliver, record_redirects}

abbrev pub agent_records :
    {d : Platform} → List (InvocationTelemetry d) → List (InvocationTelemetry d)
agent_records records = keep (λ x. is_agent x.role) records

-- `worker_invocations`
unfoldable pub worker_invocations : {d : Platform} → List (InvocationTelemetry d) → ℕ
worker_invocations records = length (agent_records records)

abbrev pub ran_candidate : {d : Platform} → InvocationTelemetry d → Option (CandidateAttempt d)
ran_candidate r = find (λ c. c.ran) r.candidates

-- The harness and the model of the invocation that `before` invocations came before.
unfoldable pub worker_identity :
    {d : Platform} → List (InvocationTelemetry d) → ℕ → Option Text × Option Text
worker_identity {d} records before =
    let worker = agent_records records in
    if leb (length worker) before then (none, none) else (elim (get_last? worker) [
      | none ↦ (none, none)
      | some r ↦ elim (ran_candidate r) [
        | none ↦ (none, none)
        | some c ↦ (some c.harness_id, c.model)
      ]
    ])

-- `history_files`
unfoldable pub history_files : {d : Platform} → List (InvocationTelemetry d) → List Text
history_files records = filter_map (λ x. x.history_file) (agent_records records)

abbrev candidate_of : {d : Platform} → InvocationTelemetry d → Option (CandidateAttempt d)
candidate_of r = or_else (ran_candidate r) (get_last? r.candidates)

-- `lost_turn`: what the supervisor is told of a turn that failed.
unfoldable pub lost_turn : {d : Platform} → List (InvocationTelemetry d) → Error → ℕ → TurnOutcome
lost_turn records error before = elim (get_last? (drop before (agent_records records))) [
  | none ↦ lost (get_or_else (codes "other") (map_some as_str (kind error))) none
  | some r ↦ elim (candidate_of r) [
    | none ↦ lost (get_or_else (codes "other") (map_some as_str (kind error))) none
    | some c ↦ lost (get_or_else c.status c.failure_kind) (some c.harness_id)
  ]
]

unfoldable pub noop_settled : Text
noop_settled =
    codes "the agent and the supervisor repeated 2 no-op exchanges (no tool activity, and the "
    ++ codes "same agent reply each time); settled on the work already done"

unfoldable pub skill_session : Settings → Text
skill_session s = s.session_name ++ codes "-skill"

abbrev pub last_content : {d : Platform} → Transcript d → Text
last_content t = get_or_else [] (map_some (λ m. m.content) (get_last? t.messages))

abbrev pub push_message : {d : Platform} {W : Type 0} → Message d → M d W (Unit {0})
push_message m r = next tt (record r { transcript = push r.transcript m })

-- What is known of a turn when the worker's call returns.
pub record Opened (d : Platform) : Type 0 where
  pub index : ℕ
  pub instruction : Text
  pub started_at : Text
  pub invoked : ℕ

pub record Called (d : Platform) : Type 0 where
  pub result : Result (AssistantTurn d)
  pub broke : Bool
  pub redirects : List Redirect

module _ {d : Platform} {W : Type 0} (h : Host d W) (p : Plan) where
  -- An observation that is not made once the observer broke; it returns whether it has broken.
  unfoldable pub observe_unless : Bool → Observation d → M d W Bool
  observe_unless true o r = next true r
  observe_unless false o r = on_world (h.observe o) r

  -- Notes that are handed to the worker as one user message.
  unfoldable pub hand_to_worker : List Sent → Accepted → M d W (Unit {0})
  hand_to_worker sents accepted r =
      and_next (deliver h sents Party.worker accepted r)
        λ handed r1. push_message (user_message (worker_block handed)) r1

  unfoldable pub hand_queued : List Sent → M d W (Unit {0})
  hand_queued [] r = next tt r
  hand_queued (s ∷ ss) r = hand_to_worker (s ∷ ss) queued r

  -- From the head of the loop to the observer's `TurnOpened`.
  unfoldable pub open_turn : M d W (Opened d)
  unfolding hand_queued
  open_turn = do
    sents ← take_notes h p.has_notes
    hand_queued sents
    r ← get_run
    let index = assistant_turns r.transcript + 1
    let instruction = last_content r.transcript
    started_at ← on_world h.now
    broke ← on_world (h.observe (turn_opened index assistant instruction started_at))
    stop_if broke
    r' ← get_run
    pure (record {
      index = index;
      instruction = instruction;
      started_at = started_at;
      invoked = worker_invocations (h.invocation_telemetry r'.world);
    })

  -- The tail of the streaming callback: the action itself is observed.
  unfoldable pub observe_action : ℕ → d.Action → W → Bool → Bool × (W × Bool)
  observe_action turn a w broke =
      let (flow, w') = h.observe (action turn a) w in (flow, (w', broke || flow))

  -- The callback of a streamed worker call.
  unfoldable pub on_event : ℕ → Callback (HarnessEvent d) W
  unfolding observe_action
  on_event turn (begun b) (w, broke) =
      let (flow, w') = h.observe (history_begun assistant turn b) w in (flow, (w', broke || flow))
  on_event turn (HarnessEvent.action a) (w, broke) =
      let w1 = h.watch_action a w in
      elim (tool_event d a) [
        | none ↦ observe_action turn a w1 broke
        | some e ↦
            let (flow, w2) = h.observe (tool turn e) w1 in
            let rest = observe_action turn a w2 broke in if flow then (true, (w2, true)) else rest
      ]

  abbrev skill : SkillRef
  skill = skill_ref p.conversation.skill

  -- The provider's call, streamed or not, with whether the observer broke.
  unfoldable pub respond_once : Bool → ℕ → M d W (Result (AssistantTurn d) × Bool)
  unfolding on_event
  respond_once true turn r =
      let (result, (w, broke)) =
        h.respond_with_history skill r.transcript.messages (some (skill_session p.settings))
          (on_event turn) (r.world, false) in
      next (result, broke) (record r { world = w })
  respond_once false turn r =
      let (result, w) =
        h.respond skill r.transcript.messages (some (skill_session p.settings)) r.world in
      next (result, false) (record r { world = w })

  -- `live`: the redirects of the watch over a call; there is no watch without an inbox.
  unfoldable pub watch_redirects : Bool → Party → Text → M d W (List Redirect)
  watch_redirects false party session r = next [] r
  watch_redirects true party session r =
      on_world (h.watched party session p.conversation.skill.dir) r

  unfoldable pub call_worker : ℕ → M d W (Called d)
  unfolding respond_once watch_redirects
  call_worker turn = do
    answer ← respond_once p.streaming turn
    redirects ← watch_redirects p.has_notes Party.worker (skill_session p.settings)
    handed ← record_redirects h redirects Party.worker
    pure (record { result = answer.0; broke = answer.1; redirects = redirects })

  -- The transcript gets the reply, split by its redirects; a panic of the split ends the run.
  unfoldable pub push_reply : List Redirect → AssistantTurn d → M d W (Unit {0})
  push_reply redirects turn r =
      elim (push_redirected r.transcript redirects turn.message turn.events) [
        | none ↦ exit panicked r
        | some t ↦ next tt (record r { transcript = t })
      ]

  -- The streak and the totals take the reply in; the answer is whether to settle.
  unfoldable pub take_reply : Opened d → AssistantTurn d → M d W Bool
  take_reply o turn r =
      let (streak, settles) = observe_exchange r.noop o.instruction turn.message turn.events in
      next (settles && p.settings.settle_on_noop)
        (record r { totals = add_some_usage r.totals turn.usage; noop = streak })

  -- From a reply to the check that the observer has not broken.
  unfoldable pub after_reply : Opened d → Called d → AssistantTurn d → M d W Bool
  after_reply o c turn = do
    settles ← take_reply o turn
    finished_at ← on_world h.now
    r ← get_run
    let identity = worker_identity (h.invocation_telemetry r.world) o.invoked
    broke ← observe_unless c.broke (message o.index assistant turn.message)
    broke' ←
        observe_unless broke
          (turn_closed o.index assistant turn.usage o.started_at finished_at identity.0 identity.1)
    push_reply c.redirects turn
    stop_if broke'
    pure settles

  unfoldable pub max_turns_of : SimulatedUser → ℕ
  max_turns_of u = get_or_else p.settings.max_turns u.max_turns

  -- The three checks that leave the loop before the supervisor is asked.
  unfoldable pub check_end : SimulatedUser → Bool → Bool → M d W (Unit {0})
  unfolding max_turns_of
  check_end u done settles r =
      if done || leb (max_turns_of u) (assistant_turns r.transcript)
      then exit (ended none none) r
      else if settles
      then exit (ended none (some noop_settled)) r
      else next tt r
