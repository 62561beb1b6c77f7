-- ===== src/Examples/Conversations.antt =====
-- A conversation that the supervisor completes after one reply, and examples of its parts.
use onejudge.Common.{
  ℕ, suc, ◌+◌, ◌≡◌, refl, ◌≢◌, ◌↔◌, true, false, ◌&&◌, none, some, List, [], ◌∷◌, ◌++◌, arith,
  codes, is_some, get_or_else,
}
use onejudge.Error.{ok}
use onejudge.Transcript.{Message, Transcript, from_input, tool_events, user_message}
use onejudge.Control.{not_requested}
use onejudge.Provider.{completed}
use onejudge.Engine.{Outcome}
use onejudge.Engine.Noop.{observe_exchange}
use onejudge.Engine.Noop.Settles.{
  Exchange, streak_after, exchange_is_quiet, repeats_last, observe_exchange_iff,
}
use onejudge.Engine.Redirects.{Sent, Redirect, push_redirected}
use onejudge.Engine.Redirects.Events.{push_redirected-tool_events}
use onejudge.Engine.Redirects.Panics.{push_redirected-single, push_redirected-panics}
use onejudge.Engine.Host.{Host, Plan}
use onejudge.Engine.Drive.{drive, finish, converse}
use onejudge.Engine.Growth.Rounds.{drive-returns}
use onejudge.Engine.Monad.{ended, out_of_fuel}
use onejudge.Engine.Worker.{max_turns_of}
use onejudge.Engine.Growth.{Answered}
use onejudge.Engine.Ledger.{count, one_if, held, Counts, Same, Ledger}
use onejudge.Engine.Ledger.LoopPays.{drive-settles_sends}
use onejudge.Note.{Party}
use onejudge.Engine.Ensures.{Extends}
use onejudge.Engine.Growth.Loop.{converse-completion, converse-transcript, drive-delivered}
use onejudge.Examples.{ToolEvent, plain, call, binding_note, delivered_notes}

abbrev exchange : Exchange plain
exchange = record { instruction = codes "go on"; reply = codes "Done, thanks."; events = [] }

observe_exchange_iff_example :
    ((observe_exchange
        (streak_after (exchange ∷ []))
        exchange.instruction
        exchange.reply
        exchange.events).1
      ≡ true)
    ↔ ((exchange_is_quiet exchange && repeats_last exchange (exchange ∷ [])) ≡ true)
observe_exchange_iff_example = observe_exchange_iff exchange (exchange ∷ []) (omega arith)

abbrev events : List (ToolEvent plain)
events = call 0 ∷ call 1 ∷ call 2 ∷ []

abbrev redirect_at : ℕ → Redirect
redirect_at n = record {
  note = binding_note;
  input = codes "Stop and use the second port.";
  held = none;
  tools = n;
  texts = codes "Starting." ∷ [];
}

abbrev opening : Transcript plain
opening = from_input (codes "Start the server.")

abbrev split_once : Transcript plain
split_once =
    get_or_else opening (push_redirected opening (redirect_at 2 ∷ []) (codes "Started.") events)

push_redirected-tool_events_example : tool_events split_once ≡ tool_events opening ++ events
unfolding push_redirected onejudge.Engine.Redirects.clamp
push_redirected-tool_events_example =
    push_redirected-tool_events opening (redirect_at 2 ∷ []) (codes "Started.") events refl

push_redirected-single_example :
    is_some (push_redirected opening (redirect_at 2 ∷ []) (codes "Started.") events) ≡ true
push_redirected-single_example =
    push_redirected-single opening (redirect_at 2) (codes "Started.") events

push_redirected-panics_example :
    push_redirected opening (redirect_at 2 ∷ redirect_at 2 ∷ []) (codes "Started.") events ≡ none
push_redirected-panics_example =
    push_redirected-panics opening (redirect_at 2) (redirect_at 2) [] (codes "Started.") events
      (omega arith) (omega arith)

-- The host counts the calls of the clock; its supervisor is content with the first reply.
abbrev content_host : Host plain ℕ
content_host = record {
  observe = λ o w. (false, w);
  now = λ w. (w ∷ [], suc w);
  wall_ms = λ w. w;
  drain = λ w. ([], w);
  answer = λ s a w. w;
  close = λ u w. 1000 + w;
  drop_sent = λ s w. w;
  watch_action = λ a w. w;
  watched = λ party session dir w. ([], w);
  supervises_lost_turns = λ w. true;
  reset_telemetry = λ w. w;
  set_history_scope = λ s w. w;
  invocation_telemetry = λ w. [];
  spawned_processes = λ w. [];
  control = λ w. not_requested;
  supervisor_control = λ w. not_requested;
  take_judge_decisions = λ w. ([], w);
  take_judge_tools = λ w. ([], w);
  respond = λ s ms h w.
      (ok (record { message = codes "Started."; done = false; usage = none; events = events }), w);
  respond_with_history = λ s ms h f w.
      (ok (record { message = codes "Started."; done = false; usage = none; events = events }), w);
  supervise_with_evidence =
      λ q ms s ev w. (ok (record { outcome = completed (codes "it runs"); usage = none }), w);
  supervise_observing =
      λ q ms s ev f w. (ok (record { outcome = completed (codes "it runs"); usage = none }), w);
}

abbrev plan : Plan
plan = record {
  settings = record { max_turns = 4; session_name = codes "server"; settle_on_noop = true };
  conversation = record {
    skill = record { name = codes "serve"; dir = codes "."; instructions = [] };
    input = codes "Start the server.";
    user = some (record {
      persona = codes "an operator";
      done_when = some (codes "The server answers.");
      max_turns = none;
      artifacts = [];
    });
  };
  streaming = false;
  has_notes = true;
}

abbrev outcome : Outcome plain
outcome =
    finish content_host plan (drive content_host plan 1 1 [] 0).1 false (some (codes "it runs"))
      none

outcome_reached : converse content_host plan 1 1 [] 0 ≡ some (ok outcome, 1004)
unfolding converse drive onejudge.Engine.Drive.returned onejudge.Engine.Drive.run_loop
    onejudge.Engine.Drive.round onejudge.Engine.Drive.after_call onejudge.Engine.Drive.after_worker
    onejudge.Engine.Drive.notes_or_supervise onejudge.Engine.Drive.start_run finish
    onejudge.Engine.Worker.open_turn onejudge.Engine.Worker.hand_queued
    onejudge.Engine.Worker.call_worker onejudge.Engine.Worker.respond_once
    onejudge.Engine.Worker.watch_redirects onejudge.Engine.Worker.after_reply
    onejudge.Engine.Worker.take_reply onejudge.Engine.Worker.observe_unless
    onejudge.Engine.Worker.push_reply onejudge.Engine.Worker.check_end
    onejudge.Engine.Worker.max_turns_of onejudge.Engine.Notes.take_notes
    onejudge.Engine.Notes.record_redirects onejudge.Engine.Notes.settle
    onejudge.Engine.Monad.on_world onejudge.Engine.Monad.get_run onejudge.Engine.Monad.stop_if
    onejudge.Engine.Supervisor.supervise onejudge.Engine.Supervisor.decide
    onejudge.Engine.Supervisor.attempt onejudge.Engine.Supervisor.supervise_once
    onejudge.Engine.Supervisor.drop_and_stop_if onejudge.Engine.Supervisor.stop_history
    onejudge.Engine.Supervisor.answered_or_fail onejudge.Engine.Supervisor.add_total
    onejudge.Engine.Supervisor.add_for_worker onejudge.Engine.Supervisor.record_judge_decisions
    onejudge.Engine.Supervisor.observe_all onejudge.Engine.Supervisor.close_supervision
    onejudge.Engine.Supervisor.follow push_redirected onejudge.Engine.Redirects.redirect_from
    onejudge.Transcript.assistant_turns onejudge.Transcript.push from_input
    onejudge.Transcript.with_events onejudge.Transcript.assistant_message observe_exchange
    onejudge.Engine.Supervisor.bare_observations onejudge.Engine.Supervisor.decided_observations
    onejudge.Engine.Notes.redirected
outcome_reached = refl

converse-completion_example :
    Answered content_host (codes "it runs")
    × ((outcome.settled_reason ≡ none) × (outcome.stopped_early ≡ false))
unfolding finish
converse-completion_example =
    converse-completion content_host plan 1 1 [] 0 1004 outcome_reached refl

converse-transcript_example :
    Extends (user_message (codes "Start the server.") ∷ []) outcome.transcript.messages
converse-transcript_example = converse-transcript content_host plan 1 1 [] 0 1004 outcome_reached

drive-delivered_example :
    Extends delivered_notes (drive content_host plan 1 1 delivered_notes 0).1.delivered
drive-delivered_example = drive-delivered content_host plan 1 1 delivered_notes 0

-- The same host without an inbox, whose provider decides about no lost turns.
abbrev strict_host : Host plain ℕ
strict_host = record content_host { supervises_lost_turns = λ w. false }

abbrev closed_plan : Plan
closed_plan = record plan { has_notes = false }

drive-returns_example : (drive strict_host closed_plan 1 4 [] 0).0 ≢ out_of_fuel
unfolding max_turns_of
drive-returns_example =
    drive-returns strict_host closed_plan (λ w. refl) 1 4 [] 0 refl (omega arith) (omega arith)
      (omega arith)

-- A host with an inbox, which counts what becomes of the first send. The supervisor's watch hands
-- out a redirect that holds it.
record Books : Type 0 where
  inbox : List Sent
  taken : ℕ
  answered : ℕ
  dropped : ℕ

abbrev first_send : Sent
first_send = record { id = 1; message = binding_note }

abbrev supervisor_redirect : Party → Books → List Redirect × Books
supervisor_redirect Party.worker b = ([], b)
supervisor_redirect Party.supervisor b =
    (record (redirect_at 0) { held = some first_send } ∷ [], record b { taken = suc b.taken })

abbrev books_host : Host plain Books
books_host = record {
  observe = λ o w. (false, w);
  now = λ w. ([], w);
  wall_ms = λ w. 0;
  drain = λ w. (w.inbox, record w { inbox = []; taken = w.taken + count 1 w.inbox });
  answer = λ s a w. record w { answered = w.answered + one_if 1 s };
  close = λ u w. w;
  drop_sent = λ s w. record w { dropped = w.dropped + one_if 1 s };
  watch_action = λ a w. w;
  watched = λ party session dir w. supervisor_redirect party w;
  supervises_lost_turns = λ w. true;
  reset_telemetry = λ w. w;
  set_history_scope = λ s w. w;
  invocation_telemetry = λ w. [];
  spawned_processes = λ w. [];
  control = λ w. not_requested;
  supervisor_control = λ w. not_requested;
  take_judge_decisions = λ w. ([], w);
  take_judge_tools = λ w. ([], w);
  respond = λ s ms h w.
      (ok (record { message = codes "Started."; done = false; usage = none; events = events }), w);
  respond_with_history = λ s ms h f w.
      (ok (record { message = codes "Started."; done = false; usage = none; events = events }), w);
  supervise_with_evidence =
      λ q ms s ev w. (ok (record { outcome = completed (codes "it runs"); usage = none }), w);
  supervise_observing =
      λ q ms s ev f w. (ok (record { outcome = completed (codes "it runs"); usage = none }), w);
}

abbrev books : Counts Books
books = record { taken = λ b. b.taken; answered = λ b. b.answered; dropped = λ b. b.dropped }

abbrev same_books : (b : Books) → Same books b b
same_books b = (refl, refl, refl)

books_watched :
    (party : Party) (b : Books)
    → ((supervisor_redirect party b).1.taken + b.answered
        ≡ b.taken
          + (supervisor_redirect party b).1.answered
          + held 1 (supervisor_redirect party b).0)
      × ((supervisor_redirect party b).1.dropped ≡ b.dropped)
books_watched Party.worker b = (omega arith, refl)
books_watched Party.supervisor b = (omega arith, refl)

books-Ledger : Ledger books_host books 1
books-Ledger = record {
  on_observe = λ o w. same_books w;
  on_now = same_books;
  on_drain = λ w. (refl, refl, refl);
  on_answer = λ s a w. (refl, refl, refl);
  on_drop = λ s w. (refl, refl, refl);
  on_watched = λ party session dir w. books_watched party w;
  on_worker_watched = λ session dir w. refl;
  on_watch_action = λ a w. same_books w;
  on_reset = same_books;
  on_scope = λ w s. same_books w;
  on_judge_decisions = same_books;
  on_judge_tools = same_books;
  on_respond = λ skill ms s w. same_books w;
  on_respond_with_history = λ skill ms s f w q. same_books w;
  on_supervise = λ q ms s ev w. same_books w;
  on_supervise_observing = λ q ms s ev f w k. same_books w;
}

abbrev queued_books : Books
queued_books = record { inbox = first_send ∷ []; taken = 0; answered = 0; dropped = 0 }

books_returned : (drive books_host plan 1 1 [] queued_books).0 ≡ ended (some (codes "it runs")) none
unfolding drive onejudge.Engine.Drive.run_loop onejudge.Engine.Drive.round
    onejudge.Engine.Drive.after_call onejudge.Engine.Drive.after_worker
    onejudge.Engine.Drive.notes_or_supervise onejudge.Engine.Drive.start_run
    onejudge.Engine.Worker.open_turn onejudge.Engine.Worker.hand_queued
    onejudge.Engine.Worker.call_worker onejudge.Engine.Worker.respond_once
    onejudge.Engine.Worker.watch_redirects onejudge.Engine.Worker.after_reply
    onejudge.Engine.Worker.take_reply onejudge.Engine.Worker.observe_unless
    onejudge.Engine.Worker.push_reply onejudge.Engine.Worker.check_end
    onejudge.Engine.Worker.max_turns_of onejudge.Engine.Notes.take_notes
    onejudge.Engine.Notes.record_redirects onejudge.Engine.Notes.settle
    onejudge.Engine.Monad.on_world onejudge.Engine.Monad.get_run onejudge.Engine.Monad.stop_if
    onejudge.Engine.Supervisor.supervise onejudge.Engine.Supervisor.decide
    onejudge.Engine.Supervisor.attempt onejudge.Engine.Supervisor.supervise_once
    onejudge.Engine.Supervisor.drop_and_stop_if onejudge.Engine.Supervisor.stop_history
    onejudge.Engine.Supervisor.answered_or_fail onejudge.Engine.Supervisor.add_total
    onejudge.Engine.Supervisor.add_for_worker onejudge.Engine.Supervisor.record_judge_decisions
    onejudge.Engine.Supervisor.observe_all onejudge.Engine.Supervisor.close_supervision
    onejudge.Engine.Supervisor.follow push_redirected onejudge.Engine.Redirects.redirect_from
    onejudge.Transcript.assistant_turns onejudge.Transcript.push from_input
    onejudge.Transcript.with_events onejudge.Transcript.assistant_message observe_exchange
    onejudge.Engine.Supervisor.bare_observations onejudge.Engine.Supervisor.decided_observations
    onejudge.Engine.Notes.redirected onejudge.Engine.Notes.deliver onejudge.Engine.Notes.record_note
    onejudge.Engine.Notes.answer_note onejudge.Engine.Monad.change_world
    onejudge.Engine.Worker.hand_to_worker
books_returned = refl

returned_books : (drive books_host plan 1 1 [] queued_books).0 ≢ out_of_fuel
returned_books e = let k = books_returned in cc

drive-settles_sends_example :
    ((drive books_host plan 1 1 [] queued_books).1.world.taken
      ≡ (drive books_host plan 1 1 [] queued_books).1.world.answered
        + (drive books_host plan 1 1 [] queued_books).1.world.dropped)
    × ((plan.streaming ≡ false) → (drive books_host plan 1 1 [] queued_books).1.world.dropped ≡ 0)
drive-settles_sends_example =
    drive-settles_sends books_host plan books 1 books-Ledger 1 1 [] queued_books refl returned_books
