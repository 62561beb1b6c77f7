-- ===== src/Engine/Drive.antt =====
-- crates/onejudge/src/engine.rs: the loop of `drive`, and `converse`, which closes the inbox.
use onejudge.Common.{
  ℕ, zero, suc, Bool, true, false, Option, none, some, List, [], ◌∷◌, ◌++◌, Text, codes,
  if◌then◌else◌, map_some,
}
use onejudge.Platform.{Platform}
use onejudge.Usage.{default_usage, some_unless_empty}
use onejudge.Error.{Error, Result, ok, err, show_error}
use onejudge.Transcript.{from_input}
use onejudge.Telemetry.Aggregate.{aggregate}
use onejudge.Note.{
  DeliveredNote, at_turn_end, Party, Undelivered, conversation_completed, member_settled,
}
use onejudge.Provider.{AssistantTurn}
use onejudge.Engine.{SimulatedUser, Outcome}
use onejudge.Engine.Noop.{default_streak}
use onejudge.Engine.Redirects.{Sent}
use onejudge.Engine.Host.{Host, Plan}
use onejudge.Engine.Monad.{
  Run, next, exit, Exit, stopped, ended, failed, panicked, out_of_fuel, M, ◌>>=◌, ◌>>◌, leave,
}
use onejudge.Engine.Notes.{take_notes}
use onejudge.Engine.Worker.{
  Opened, Called, open_turn, call_worker, after_reply, check_end, hand_to_worker,
}
use onejudge.Engine.Supervisor.{supervise, supervise_lost, is_supervised}

module _ {d : Platform} {W : Type 0} (h : Host d W) (p : Plan) where
  -- Notes that arrived during the turn go to the worker; otherwise the supervisor decides.
  unfoldable pub notes_or_supervise : ℕ → SimulatedUser → Opened d → List Sent → M d W (Unit {0})
  notes_or_supervise fuel u o [] = supervise h p fuel u o.index
  notes_or_supervise fuel u o (s ∷ ss) = hand_to_worker h p (s ∷ ss) (at_turn_end Party.worker)

  unfoldable pub after_worker : ℕ → Option SimulatedUser → Opened d → Bool → Bool → M d W (Unit {0})
  after_worker fuel none o done settles = leave (ended none none)
  after_worker fuel (some u) o done settles = do
    check_end h p u done settles
    arrived ← take_notes h p.has_notes
    notes_or_supervise fuel u o arrived

  -- The two guards in front of the supervision of a lost turn.
  unfoldable pub after_error : Option SimulatedUser → Opened d → Called d → Error → M d W (Unit {0})
  after_error none o c e r = exit (failed e) r
  after_error (some u) o c e r = elim (is_supervised h p e r.world) [
    | true ↦ supervise_lost h p u o c e r
    | false ↦ exit (failed e) r
  ]

  unfoldable pub after_call : ℕ → Opened d → Called d → Result (AssistantTurn d) → M d W (Unit {0})
  after_call fuel o c (ok turn) = do
    settles ← after_reply h p o c turn
    after_worker fuel p.conversation.user o turn.done settles
  after_call fuel o c (err e) = after_error p.conversation.user o c e

  -- One round of the loop.
  unfoldable pub round : ℕ → M d W (Unit {0})
  round fuel = do o ← open_turn h p; c ← call_worker h p o.index; after_call fuel o c c.result

  -- The loop: the rounds that are left, with the fuel for the inner loop of each.
  unfoldable pub run_loop : ℕ → ℕ → Run d W → Exit × Run d W
  run_loop inner zero r = (out_of_fuel, r)
  run_loop inner (suc rounds) r = elim (round inner r) [
    | next done r' ↦ run_loop inner rounds r'
    | exit e r' ↦ (e, r')
  ]

  -- The state that `drive` starts from; notes that were delivered before stay delivered.
  unfoldable pub start_run : List DeliveredNote → W → Run d W
  start_run delivered w = record {
    world =
        h.set_history_scope (some (record { base = p.settings.session_name; label = none }))
          (h.reset_telemetry w);
    transcript = from_input p.conversation.input;
    totals = default_usage;
    noop = default_streak;
    for_worker = [];
    delivered = delivered;
    judged = [];
  }

  unfoldable pub drive : ℕ → ℕ → List DeliveredNote → W → Exit × Run d W
  drive inner rounds delivered w = run_loop inner rounds (start_run delivered w)

  unfoldable pub finish : Run d W → Bool → Option Text → Option Text → Outcome d
  finish r stopped_early completion_reason settled_reason = record {
    transcript = r.transcript;
    usage = some_unless_empty r.totals;
    stopped_early = stopped_early;
    completion_reason = completion_reason;
    settled_reason = settled_reason;
    telemetry = aggregate (h.wall_ms r.world) (h.invocation_telemetry r.world);
    processes = h.spawned_processes r.world;
    control = h.control r.world;
    supervisor_control = h.supervisor_control r.world;
    judge_decisions = r.judged;
  }

  -- What `drive` returns; none where it panicked, or where the model ran out of fuel.
  unfoldable pub returned : Exit × Run d W → Option (Result (Outcome d))
  unfolding finish
  returned (stopped, r) = some (ok (finish r true none none))
  returned (ended completion settled, r) = some (ok (finish r false completion settled))
  returned (failed e, r) = some (err e)
  returned (panicked, r) = none
  returned (out_of_fuel, r) = none

-- `ended_because`
unfoldable pub ended_because : {d : Platform} → Outcome d → Text
ended_because o = elim o.settled_reason [
  | some settled ↦ settled
  | none ↦
      if o.stopped_early
      then codes "the run was short-circuited before it reached a completion decision"
      else codes "the conversation ended without a completion decision"
]

-- What every later send is refused with.
unfoldable pub refusal_for : {d : Platform} → Result (Outcome d) → Undelivered
refusal_for (ok o) = elim o.completion_reason [
  | some reason ↦ conversation_completed reason
  | none ↦ member_settled (ended_because o)
]
refusal_for (err e) = member_settled (codes "the conversation failed: " ++ show_error e)

-- `converse`: the result, and the host's state once the inbox, if there is one, is closed.
unfoldable pub converse :
    {d : Platform} {W : Type 0}
    → Host d W
    → Plan
    → ℕ
    → ℕ
    → List DeliveredNote
    → W
    → Option (Result (Outcome d) × W)
unfolding drive refusal_for
converse {d} h p inner rounds delivered w =
    let (e, r) = drive h p inner rounds delivered w in
    map_some
      (λ (result : Result (Outcome d)).
        (result, if p.has_notes then h.close (refusal_for result) r.world else r.world))
      (returned h p (e, r))
