-- ===== src/Engine/Supervisor.antt =====
-- crates/onejudge/src/engine.rs: the supervisor's half of a turn in `drive`: the decision, taken
-- again for notes that arrive meanwhile, and what it does to the run. Also a turn that was lost.
use onejudge.Common.{
  ℕ, zero, suc, Bool, true, false, ◌&&◌, ◌||◌, Option, none, some, List, [], ◌∷◌, ◌++◌, map, Text,
  codes, trim, is_empty, flat_map, ◌==◌, if◌then◌else◌, is_some, get_or_else,
}
use onejudge.Platform.{Platform}
use onejudge.Usage.{Usage, default_usage, add_some_usage, add_usage}
use onejudge.Error.{Error, Result, ok, err, kind}
use onejudge.Transcript.{user, user_message}
use onejudge.HistoryName.{JudgeSideCall, scope_name}
use onejudge.Note.{Party, DeliveredNote, compose, rendered, worker_block}
use onejudge.Provider.{
  SupervisorOutcome, completed, continue, no_instruction, unparseable, SupervisorTurn,
  SupervisorQuery, EvidenceContext, TurnOutcome, taken, JudgeTools,
}
use onejudge.Report.{JudgeDecision, JudgedTurn}
use onejudge.Engine.{
  SimulatedUser, Settings, Observation, turn_opened, history_begun, message, turn_closed,
  judge_decided, judge_tool,
}
use onejudge.Engine.Redirects.{Redirect}
use onejudge.Engine.Host.{Host, Plan, Callback}
use onejudge.Engine.Monad.{
  Run, next, exit, stopped, ended, failed, out_of_fuel, M, and_next, ◌>>=◌, ◌>>◌, pure, leave,
  get_run, on_world, stop_if,
}
use onejudge.Engine.Notes.{
  drop_held, AwaitingDecision, take_notes, record_redirects, record_arrived, settle, redirected,
  arrived_at_turn_end,
}
use onejudge.Engine.Worker.{
  Opened, Called, history_files, lost_turn, skill_session, last_content, push_message,
  observe_unless, watch_redirects,
}

unfoldable pub user_session : Settings → Text
user_session s = scope_name (record { base = s.session_name; label = none }) JudgeSideCall.user

-- The decisions of one turn are kept under that turn.
unfoldable pub add_judged :
    {d : Platform} → ℕ → List (JudgeDecision d) → List (JudgedTurn d) → List (JudgedTurn d)
add_judged turn decided [] = record { turn = turn; decisions = decided } ∷ []
add_judged turn decided (t ∷ []) =
    if t.turn == turn
    then record t { decisions = t.decisions ++ decided } ∷ []
    else t ∷ record { turn = turn; decisions = decided } ∷ []
add_judged turn decided (t ∷ u ∷ ts) = t ∷ add_judged turn decided (u ∷ ts)

unfoldable pub record_decided :
    {d : Platform} → ℕ → List (JudgeDecision d) → List (JudgedTurn d) → List (JudgedTurn d)
unfolding add_judged
record_decided turn [] judged = judged
record_decided turn (x ∷ xs) judged = add_judged turn (x ∷ xs) judged

-- What the observer is shown of the judges, in order: bare tool events, then each decision's.
unfoldable pub bare_observations : {d : Platform} → ℕ → List (JudgeTools d) → List (Observation d)
bare_observations turn bare = flat_map (λ t. map (λ e. judge_tool turn t.judge e) t.events) bare

unfoldable pub decided_observations :
    {d : Platform} → ℕ → List (JudgeDecision d) → List (Observation d)
decided_observations turn decided =
    flat_map
      (λ x.
        map (λ e. judge_tool turn x.judge e) x.events
        ++ judge_decided turn x.judge x.kind x.decision x.reason x.run_id ∷ [])
      decided

abbrev pub completion_of : SupervisorOutcome → Option Text
completion_of (completed reason) = some reason
completion_of _ = none

-- The usage of a turn's decisions, kept from the first that reported any.
unfoldable pub add_turn_usage :
    {d : Platform} → Option (Usage d) → Option (Usage d) → Option (Usage d)
add_turn_usage total none = total
add_turn_usage total (some u) = some (add_usage (get_or_else default_usage total) u)

unfoldable pub reason_note : Text → Text → Text
reason_note lead reason = if is_empty (trim reason) then [] else lead ++ (trim reason ++ codes ")")

unfoldable pub no_instruction_settled : Text → Text
no_instruction_settled reason =
    codes "the supervisor judged the work incomplete but gave no next instruction, even asked "
    ++ (codes "again; settled on the work already done"
        ++ reason_note (codes " (supervisor's reason: ") reason)

unfoldable pub unparseable_settled : Text → Text → Text
unparseable_settled problem answer =
    codes "the supervisor's answer did not parse as a decision ("
    ++ (problem
        ++ (codes "), even asked again; settled on the work already done"
            ++ reason_note (codes " (supervisor's last answer: ") answer))

-- What an answered supervisor leaves: its turn, the sends that wait, and the turn's usage.
pub record Decided (d : Platform) : Type 0 where
  pub turn : SupervisorTurn d
  pub awaiting : AwaitingDecision
  pub usage : Option (Usage d)

module _ {d : Platform} {W : Type 0} (h : Host d W) (p : Plan) where
  -- Observations are made until the observer breaks.
  unfoldable pub observe_all : List (Observation d) → M d W Bool
  observe_all [] r = next false r
  observe_all (o ∷ os) r =
      and_next (on_world (h.observe o) r)
        λ broke. elim broke [ true ↦ λ r1. next true r1 | false ↦ observe_all os ]

  unfoldable pub add_for_worker : List DeliveredNote → M d W (Unit {0})
  add_for_worker notes r = next tt (record r { for_worker = r.for_worker ++ notes })

  -- `record_judge_decisions`
  unfoldable pub record_judge_decisions : ℕ → M d W (List (JudgeDecision d))
  unfolding record_decided
  record_judge_decisions turn r =
      let (decided, w) = h.take_judge_decisions r.world in
      next decided (record r { world = w; judged = record_decided turn decided r.judged })

  unfoldable pub query_for : SimulatedUser → TurnOutcome → ℕ → Run d W → SupervisorQuery
  query_for u outcome index r = record {
    task = p.conversation.input;
    persona = u.persona;
    done_when = rendered (compose u.done_when r.delivered);
    worktree = p.conversation.skill.dir;
    history_name = skill_session p.settings;
    notes = r.delivered;
    turn = outcome;
    turn_index = index;
  }

  unfoldable pub evidence_for : SimulatedUser → Run d W → EvidenceContext
  evidence_for u r = record {
    worktree = some p.conversation.skill.dir;
    history_files = history_files (h.invocation_telemetry r.world);
    artifacts = u.artifacts;
  }

  unfoldable pub on_history : ℕ → Callback d.Begun W
  on_history turn b (w, broke) =
      let (flow, w') = h.observe (history_begun user turn b) w in (flow, (w', broke || flow))

  -- The provider's call, streamed or not, with whether the observer broke.
  unfoldable pub supervise_once :
      Bool → SimulatedUser → ℕ → M d W (Result (SupervisorTurn d) × Bool)
  unfolding query_for evidence_for on_history
  supervise_once false u index r =
      let (result, w) =
        h.supervise_with_evidence (query_for u taken index r) r.transcript.messages
          (some (user_session p.settings)) (evidence_for u r) r.world in
      next (result, false) (record r { world = w })
  supervise_once true u index r =
      let (result, (w, broke)) =
        h.supervise_observing (query_for u taken index r) r.transcript.messages
          (some (user_session p.settings)) (evidence_for u r) (on_history index) (r.world, false) in
      next (result, broke) (record r { world = w })

  -- An early return drops the sends that wait, which answers each with what it would have been.
  unfoldable pub drop_and_stop_if : Bool → AwaitingDecision → M d W (Unit {0})
  drop_and_stop_if false awaiting r = next tt r
  drop_and_stop_if true awaiting r = and_next (settle h none awaiting r) λ _. exit stopped

  -- Where the observer broke during the call, the redirects are dropped before those that wait.
  unfoldable pub stop_history : Bool → List Redirect → AwaitingDecision → M d W (Unit {0})
  stop_history false redirects awaiting r = next tt r
  stop_history true redirects awaiting r =
      and_next (drop_held h redirects r) λ _. drop_and_stop_if true awaiting

  -- `attempt?`
  unfoldable pub answered_or_fail :
      Result (SupervisorTurn d) → AwaitingDecision → M d W (SupervisorTurn d)
  answered_or_fail (ok turn) awaiting r = next turn r
  answered_or_fail (err e) awaiting r = and_next (settle h none awaiting r) λ _. exit (failed e)

  unfoldable pub add_total : Option (Usage d) → M d W (Unit {0})
  add_total usage r = next tt (record r { totals = add_some_usage r.totals usage })

  -- One attempt at a decision, before it is known whether notes arrived.
  unfoldable pub attempt :
      SimulatedUser → ℕ → AwaitingDecision → Option (Usage d) → M d W (Decided d)
  attempt u index awaiting usage = do
    answer ← supervise_once p.streaming u index
    redirects ← watch_redirects h p p.has_notes Party.supervisor (user_session p.settings)
    stop_history answer.1 redirects awaiting
    handed ← record_redirects h redirects Party.supervisor
    add_for_worker handed
    let awaiting' = redirected awaiting redirects
    decided ← record_judge_decisions index
    bare ← on_world h.take_judge_tools
    broke ← observe_all (bare_observations index bare ++ decided_observations index decided)
    turn ← answered_or_fail answer.0 awaiting'
    drop_and_stop_if broke awaiting'
    add_total turn.usage
    pure (record { turn = turn; awaiting = awaiting'; usage = add_turn_usage usage turn.usage })

  -- The inner loop: the decision is taken again as long as notes arrived with it.
  unfoldable pub decide :
      ℕ → SimulatedUser → ℕ → AwaitingDecision → Option (Usage d) → M d W (Decided d)
  decide zero u index awaiting usage r = exit out_of_fuel r
  decide (suc fuel) u index awaiting usage r = and_next (attempt u index awaiting usage r) λ x r1.
      and_next (take_notes h p.has_notes r1) λ arrived. elim arrived [
        | [] ↦ λ r2. next x r2
        | s ∷ ss ↦ λ r2. and_next (record_arrived h (s ∷ ss) r2) λ handed r3.
            and_next (add_for_worker handed r3)
              λ _. decide fuel u index (arrived_at_turn_end x.awaiting (s ∷ ss)) x.usage
      ]

  -- The message of a `Continue` and the end of the supervisor's turn, as the observer sees them.
  unfoldable pub close_supervision :
      SupervisorOutcome → ℕ → Option (Usage d) → Text → M d W (Unit {0})
  close_supervision outcome index usage started_at = do
    finished_at ← on_world h.now
    broke ← observe_all (
        (elim outcome [ continue text reason ↦ message index user text ∷ [] | _ ↦ [] ])
        ++ turn_closed index user usage started_at finished_at none none ∷ [])
    stop_if broke

  -- The worker is handed the next instruction, behind the notes that the supervisor got.
  unfoldable pub instruct : Text → M d W (Unit {0})
  instruct text r =
      push_message
        (user_message (
          if is_empty r.for_worker
          then text
          else worker_block r.for_worker ++ (codes "\n" ++ text)))
        (record r { for_worker = [] })

  -- What the decision does to the run.
  unfoldable pub follow : SupervisorOutcome → M d W (Unit {0})
  follow (completed reason) = leave (ended (some reason) none)
  follow (continue text reason) = instruct text
  follow (no_instruction reason) = leave (ended none (some (no_instruction_settled reason)))
  follow (unparseable problem answer) =
      leave (ended none (some (unparseable_settled problem answer)))

  -- From the observer's `TurnOpened` for the supervisor to the end of the loop's body.
  unfoldable pub supervise : ℕ → SimulatedUser → ℕ → M d W (Unit {0})
  supervise fuel u index = do
    started_at ← on_world h.now
    r ← get_run
    broke ← on_world (h.observe (turn_opened index user (last_content r.transcript) started_at))
    stop_if broke
    x ← decide fuel u index [] none
    settle h (completion_of x.turn.outcome) x.awaiting
    close_supervision x.turn.outcome index x.usage started_at
    follow x.turn.outcome

  -- The same for a lost turn, where the clock is read behind the message, if at all.
  unfoldable pub close_lost : SupervisorOutcome → ℕ → Option (Usage d) → Text → M d W (Unit {0})
  close_lost outcome index usage started_at = do
    broke ←
        observe_all (elim outcome [ continue text reason ↦ message index user text ∷ [] | _ ↦ [] ])
    stop_if broke
    finished_at ← on_world h.now
    broke' ← on_world (h.observe (turn_closed index user usage started_at finished_at none none))
    stop_if broke'

  -- What the supervisor's decision about a lost turn does to the run.
  unfoldable pub follow_lost : Error → SupervisorOutcome → M d W (Unit {0})
  follow_lost error (completed reason) = leave (ended (some reason) none)
  follow_lost error (continue text reason) = push_message (user_message text)
  follow_lost error (no_instruction reason) = leave (failed error)
  follow_lost error (unparseable problem answer) = leave (failed error)

  -- Whether the worker's error is one that the supervisor can decide about.
  unfoldable pub is_supervised : Error → W → Bool
  is_supervised error w = h.supervises_lost_turns w && is_some (kind error)

  unfoldable pub fail_if : Error → Bool → M d W (Unit {0})
  fail_if error true = leave (failed error)
  fail_if error false = pure tt

  unfoldable pub ask_lost : SimulatedUser → Error → Opened d → M d W (Result (SupervisorTurn d))
  unfolding query_for evidence_for
  ask_lost u error o r =
      let outcome = lost_turn (h.invocation_telemetry r.world) error o.invoked in
      on_world
        (h.supervise_with_evidence (query_for u outcome o.index r) r.transcript.messages
          (some (user_session p.settings)) (evidence_for u r))
        r

  unfoldable pub lost_answer : Error → Result (SupervisorTurn d) → M d W (SupervisorTurn d)
  lost_answer error (ok turn) = pure turn
  lost_answer error (err e) = leave (failed error)

  -- A worker's turn that failed: the run fails with its error unless the supervisor decides.
  unfoldable pub supervise_lost : SimulatedUser → Opened d → Called d → Error → M d W (Unit {0})
  supervise_lost u o c error = do
    started_at ← on_world h.now
    broke ← observe_unless h p c.broke (turn_opened o.index user [] started_at)
    fail_if error broke
    answer ← ask_lost u error o
    decided ← record_judge_decisions o.index
    bare ← on_world h.take_judge_tools
    turn ← lost_answer error answer
    add_total turn.usage
    close_lost turn.outcome o.index turn.usage started_at
    follow_lost error turn.outcome
