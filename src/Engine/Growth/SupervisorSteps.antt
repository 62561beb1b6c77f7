-- ===== src/Engine/Growth/SupervisorSteps.antt =====
-- The supervisor's half of a turn adds to the transcript and to the delivered notes, and it
-- completes the run only with an answer of the supervisor that says so.
use onejudge.Common.{
  ℕ, zero, suc, ◌≡◌, refl, inl, inr, Bool, true, false, Option, none, some, List, [], ◌∷◌, arith,
  Text,
}
use onejudge.Platform.{Platform}
use onejudge.Error.{Result, ok, err, Error}
use onejudge.Transcript.{Message, push}
use onejudge.Note.{DeliveredNote}
use onejudge.Provider.{
  SupervisorTurn, SupervisorQuery, EvidenceContext, SupervisorOutcome, completed, continue,
  no_instruction, unparseable,
}
use onejudge.Engine.Redirects.{Sent}
use onejudge.Engine.Host.{Host, Callback, Plan}
use onejudge.Engine.Monad.{Exit, next, stopped, failed, out_of_fuel, M, on_world}
use onejudge.Engine.Notes.{drop_one, drop_held, AwaitingDecision}
use onejudge.Engine.Worker.{Opened, Called}
use onejudge.Engine.Supervisor.{
  add_total, completion_of, Decided, observe_all, add_for_worker, record_judge_decisions,
  supervise_once, drop_and_stop_if, stop_history, answered_or_fail, attempt, decide,
  close_supervision, instruct, follow, supervise, close_lost, follow_lost, fail_if, ask_lost,
  lost_answer, supervise_lost,
}
use onejudge.Engine.Ensures.{
  change_world-Ensures, Grows-same, exit-Ensures, Extends-refl, Extends-append, Ensures,
  Ensures-bind, Any, on_world-Ensures, pure-Ensures, get_run-Ensures, stop_if-Ensures, same-Ensures,
}
use onejudge.Engine.{SimulatedUser, Observation}
use onejudge.Engine.Growth.{
  Redirect, AnswerOk, ResultOk, Answered, called, observed, Allows, Fueled, take_notes-Ensures,
  take_notes-none, record_redirects-Ensures, record_arrived-Ensures, settle-Ensures,
  push_message-Ensures,
}
use onejudge.Usage.{Usage}
use onejudge.Engine.Growth.WorkerSteps.{observe_unless-Ensures, watch_redirects-Ensures}

module _ {d : Platform} {W : Type 0} (h : Host d W) (p : Plan) {Q : Exit → Type 0}
    (q : Allows h Q) where
  observe_all-Ensures : (os : List (Observation d)) → Ensures Q Any (observe_all h p os)
  unfolding observe_all
  observe_all-Ensures [] = pure-Ensures false tt
  observe_all-Ensures (o ∷ os) =
      Ensures-bind Q (on_world-Ensures (h.observe o))
        λ broke _. unless_broken broke (observe_all-Ensures os)
    where
      unless_broken :
          (b : Bool) {m : M d W Bool}
          → Ensures Q Any m
          → Ensures Q Any (elim b [ true ↦ λ r. next true r | false ↦ m ])
      unless_broken true k = pure-Ensures true tt
      unless_broken false k = k

  add_for_worker-Ensures : (ns : List DeliveredNote) → Ensures Q Any (add_for_worker h p ns)
  unfolding add_for_worker
  add_for_worker-Ensures ns = same-Ensures _ _ (λ r. refl) (λ r. refl)

  record_judge_decisions-Ensures : (i : ℕ) → Ensures Q Any (record_judge_decisions h p i)
  unfolding record_judge_decisions
  record_judge_decisions-Ensures i = same-Ensures _ _ (λ r. refl) (λ r. refl)

  add_total-Ensures : (u : Option (Usage d)) → Ensures Q Any (add_total h p u)
  unfolding add_total
  add_total-Ensures u = same-Ensures _ _ (λ r. refl) (λ r. refl)

  drop_and_stop_if-Ensures :
      (b : Bool) (a : AwaitingDecision) → Ensures Q Any (drop_and_stop_if h p b a)
  unfolding drop_and_stop_if
  drop_and_stop_if-Ensures false a = pure-Ensures tt tt
  drop_and_stop_if-Ensures true a =
      Ensures-bind Q (settle-Ensures h none a) λ _ _. exit-Ensures stopped q.on_stopped

  drop_one-Ensures : (o : Option Sent) → Ensures Q Any (drop_one h o)
  unfolding drop_one
  drop_one-Ensures none = pure-Ensures tt tt
  drop_one-Ensures (some s) = change_world-Ensures (h.drop_sent s)

  drop_held-Ensures : (xs : List Redirect) → Ensures Q Any (drop_held h xs)
  unfolding drop_held
  drop_held-Ensures [] = pure-Ensures tt tt
  drop_held-Ensures (x ∷ xs) = Ensures-bind Q (drop_one-Ensures x.held) λ _ _. drop_held-Ensures xs

  stop_history-Ensures :
      (b : Bool) (xs : List Redirect) (a : AwaitingDecision)
      → Ensures Q Any (stop_history h p b xs a)
  unfolding stop_history
  stop_history-Ensures false xs a = pure-Ensures tt tt
  stop_history-Ensures true xs a =
      Ensures-bind Q (drop_held-Ensures xs) λ _ _. drop_and_stop_if-Ensures true a

  answered_or_fail-Ensures :
      (x : Result (SupervisorTurn d)) (a : AwaitingDecision)
      → ResultOk h x
      → Ensures Q (AnswerOk h) (answered_or_fail h p x a)
  unfolding answered_or_fail
  answered_or_fail-Ensures (ok turn) a v = pure-Ensures turn v
  answered_or_fail-Ensures (err e) a v =
      Ensures-bind Q (settle-Ensures h none a) λ _ _. exit-Ensures (failed e) (q.on_failed e)

  ResultOk-called :
      (q : SupervisorQuery) (ms : List (Message d)) (s : Option Text) (ev : EvidenceContext) (w : W)
      (x : Result (SupervisorTurn d))
      → (h.supervise_with_evidence q ms s ev w).0 ≡ x
      → ResultOk h x
  ResultOk-called q ms s ev w (ok turn) e = λ reason c. called q ms s ev w turn e c
  ResultOk-called q ms s ev w (err _) e = tt

  ResultOk-observed :
      (q : SupervisorQuery) (ms : List (Message d)) (s : Option Text) (ev : EvidenceContext)
      (f : Callback d.Begun W) (w : W × Bool) (x : Result (SupervisorTurn d))
      → (h.supervise_observing q ms s ev f w).0 ≡ x
      → ResultOk h x
  ResultOk-observed q ms s ev f w (ok turn) e = λ reason c. observed q ms s ev f w turn e c
  ResultOk-observed q ms s ev f w (err _) e = tt

  supervise_once-Ensures :
      (b : Bool) (u : SimulatedUser) (i : ℕ)
      → Ensures Q (λ a. ResultOk h a.0) (supervise_once h p b u i)
  unfolding supervise_once
  supervise_once-Ensures true u i = record {
    at = λ r. (Grows-same _ _ refl refl, ResultOk-observed _ _ _ _ _ _ _ refl);
  }
  supervise_once-Ensures false u i = record {
    at = λ r. (Grows-same _ _ refl refl, ResultOk-called _ _ _ _ _ _ refl);
  }

  attempt-Ensures :
      (u : SimulatedUser) (i : ℕ) (a : AwaitingDecision) (total : Option (Usage d))
      → Ensures Q (λ x. AnswerOk h x.turn) (attempt h p u i a total)
  unfolding attempt
  attempt-Ensures u i a total = Ensures-bind Q (supervise_once-Ensures p.streaming u i) λ answer v.
      Ensures-bind Q (watch_redirects-Ensures h p q p.has_notes _ _) λ redirects _.
        Ensures-bind Q (stop_history-Ensures answer.1 redirects a) λ _ _.
          Ensures-bind Q (record_redirects-Ensures h redirects _) λ handed _.
            Ensures-bind Q (add_for_worker-Ensures handed) λ _ _.
              Ensures-bind Q (record_judge_decisions-Ensures i) λ decided _.
                Ensures-bind Q (on_world-Ensures h.take_judge_tools) λ bare _.
                  Ensures-bind Q (observe_all-Ensures _) λ broke _.
                    Ensures-bind Q (answered_or_fail-Ensures answer.0 _ v) λ turn k.
                      Ensures-bind Q (drop_and_stop_if-Ensures broke _)
                        λ _ _. Ensures-bind Q (add_total-Ensures turn.usage) λ _ _. pure-Ensures _ k

  again :
      {V : Decided d → Type 0} {m : M d W (Decided d)} {f : Sent → List Sent → M d W (Decided d)}
      (ss : List Sent)
      → Ensures Q V m
      → ((x : Sent) (xs : List Sent) → ss ≡ x ∷ xs → Ensures Q V (f x xs))
      → Ensures Q V (elim ss [ [] ↦ m | x ∷ xs ↦ f x xs ])
  again [] k v = k
  again (x ∷ xs) k v = v x xs refl

  decide-Ensures :
      (fuel : ℕ) (u : SimulatedUser) (i : ℕ) (a : AwaitingDecision) (total : Option (Usage d))
      → Fueled Q p.has_notes fuel
      → Ensures Q (λ x. AnswerOk h x.turn) (decide h p fuel u i a total)
  unfolding decide
  decide-Ensures zero u i a total (inl o) = exit-Ensures out_of_fuel o
  decide-Ensures zero u i a total (inr (off, pos)) = absurd (omega arith)
  decide-Ensures (suc fuel) u i a total (inl o) =
      Ensures-bind Q (attempt-Ensures u i a total) λ x k.
        Ensures-bind Q (take_notes-Ensures h p.has_notes) λ arrived _.
          again arrived (pure-Ensures x k) λ s ss _.
            Ensures-bind Q (record_arrived-Ensures h (s ∷ ss)) λ handed _.
              Ensures-bind Q (add_for_worker-Ensures handed)
                λ _ _. decide-Ensures fuel u i _ x.usage (inl o)
  decide-Ensures (suc fuel) u i a total (inr (off, pos)) =
      Ensures-bind Q (attempt-Ensures u i a total) λ x k.
        Ensures-bind Q (take_notes-none h p.has_notes off)
          λ arrived e. again arrived (pure-Ensures x k) λ s ss e2. absurd cc

  close_supervision-Ensures :
      (o : SupervisorOutcome) (i : ℕ) (total : Option (Usage d)) (started_at : Text)
      → Ensures Q Any (close_supervision h p o i total started_at)
  unfolding close_supervision
  close_supervision-Ensures o i total started_at =
      Ensures-bind Q (on_world-Ensures h.now) λ finished_at _.
        Ensures-bind Q (observe_all-Ensures _) λ broke _. stop_if-Ensures broke q.on_stopped

  instruct-Ensures : (text : Text) → Ensures Q Any (instruct h p text)
  unfolding instruct push
  instruct-Ensures text = record {
    at = λ r. (
      record {
        transcript = Extends-append r.transcript.messages (_ ∷ []);
        delivered = Extends-refl r.delivered;
      },
      tt,
    );
  }

  follow-Ensures :
      (o : SupervisorOutcome)
      → ((reason : Text) → completion_of o ≡ some reason → Answered h reason)
      → Ensures Q Any (follow h p o)
  unfolding follow
  follow-Ensures (completed reason) v = exit-Ensures _ (q.on_completed reason (v reason refl))
  follow-Ensures (continue text reason) v = instruct-Ensures text
  follow-Ensures (no_instruction reason) v = exit-Ensures _ (q.on_settled _)
  follow-Ensures (unparseable problem answer) v = exit-Ensures _ (q.on_settled _)

  pub supervise-Ensures :
      (fuel : ℕ) (u : SimulatedUser) (i : ℕ)
      → Fueled Q p.has_notes fuel
      → Ensures Q Any (supervise h p fuel u i)
  unfolding supervise
  supervise-Ensures fuel u i fueled = Ensures-bind Q (on_world-Ensures h.now) λ started_at _.
      Ensures-bind Q get_run-Ensures λ r _. Ensures-bind Q (on_world-Ensures _) λ broke _.
        Ensures-bind Q (stop_if-Ensures broke q.on_stopped) λ _ _.
          Ensures-bind Q (decide-Ensures fuel u i [] none fueled) λ x k.
            Ensures-bind Q (settle-Ensures h _ x.awaiting) λ _ _.
              Ensures-bind Q (close_supervision-Ensures x.turn.outcome i _ _)
                λ _ _. follow-Ensures x.turn.outcome k

  close_lost-Ensures :
      (o : SupervisorOutcome) (i : ℕ) (total : Option (Usage d)) (started_at : Text)
      → Ensures Q Any (close_lost h p o i total started_at)
  unfolding close_lost
  close_lost-Ensures o i total started_at = Ensures-bind Q (observe_all-Ensures _) λ broke _.
      Ensures-bind Q (stop_if-Ensures broke q.on_stopped) λ _ _.
        Ensures-bind Q (on_world-Ensures h.now) λ finished_at _.
          Ensures-bind Q (on_world-Ensures _) λ broke' _. stop_if-Ensures broke' q.on_stopped

  follow_lost-Ensures :
      (e : Error) (o : SupervisorOutcome)
      → ((reason : Text) → completion_of o ≡ some reason → Answered h reason)
      → Ensures Q Any (follow_lost h p e o)
  unfolding follow_lost
  follow_lost-Ensures e (completed reason) v =
      exit-Ensures _ (q.on_completed reason (v reason refl))
  follow_lost-Ensures e (continue text reason) v = push_message-Ensures h _
  follow_lost-Ensures e (no_instruction reason) v = exit-Ensures _ (q.on_failed e)
  follow_lost-Ensures e (unparseable problem answer) v = exit-Ensures _ (q.on_failed e)

  fail_if-Ensures : (e : Error) (b : Bool) → Ensures Q Any (fail_if h p e b)
  unfolding fail_if
  fail_if-Ensures e true = exit-Ensures _ (q.on_failed e)
  fail_if-Ensures e false = pure-Ensures tt tt

  ask_lost-Ensures :
      (u : SimulatedUser) (e : Error) (o : Opened d) → Ensures Q (ResultOk h) (ask_lost h p u e o)
  unfolding ask_lost on_world
  ask_lost-Ensures u e o = record {
    at = λ r. (Grows-same _ _ refl refl, ResultOk-called _ _ _ _ _ _ refl);
  }

  lost_answer-Ensures :
      (e : Error) (x : Result (SupervisorTurn d))
      → ResultOk h x
      → Ensures Q (AnswerOk h) (lost_answer h p e x)
  unfolding lost_answer
  lost_answer-Ensures e (ok turn) v = pure-Ensures turn v
  lost_answer-Ensures e (err _) v = exit-Ensures _ (q.on_failed e)

  pub supervise_lost-Ensures :
      (u : SimulatedUser) (o : Opened d) (c : Called d) (e : Error)
      → Ensures Q Any (supervise_lost h p u o c e)
  unfolding supervise_lost
  supervise_lost-Ensures u o c e = Ensures-bind Q (on_world-Ensures h.now) λ started_at _.
      Ensures-bind Q (observe_unless-Ensures h p q c.broke _) λ broke _.
        Ensures-bind Q (fail_if-Ensures e broke) λ _ _.
          Ensures-bind Q (ask_lost-Ensures u e o) λ answer v.
            Ensures-bind Q (record_judge_decisions-Ensures o.index) λ decided _.
              Ensures-bind Q (on_world-Ensures h.take_judge_tools) λ bare _.
                Ensures-bind Q (lost_answer-Ensures e answer v) λ turn k.
                  Ensures-bind Q (add_total-Ensures turn.usage) λ _ _.
                    Ensures-bind Q (close_lost-Ensures turn.outcome o.index _ _)
                      λ _ _. follow_lost-Ensures e turn.outcome k
