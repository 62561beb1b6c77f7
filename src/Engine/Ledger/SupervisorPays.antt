-- ===== src/Engine/Ledger/SupervisorPays.antt =====
-- The account of a send over the supervisor's half of a turn.
use onejudge.Common.{
  ℕ, zero, suc, ◌+◌, ◌≡◌, refl, inl, inr, Bool, true, false, Option, none, some, List, [], ◌∷◌,
  ◌++◌, arith, Text,
}
use onejudge.Platform.{Platform}
use onejudge.Error.{Result, ok, err}
use onejudge.Note.{Party, DeliveredNote}
use onejudge.Usage.{Usage}
use onejudge.Provider.{
  SupervisorTurn, SupervisorOutcome, completed, continue, no_instruction, unparseable,
}
use onejudge.Engine.{SimulatedUser, Observation}
use onejudge.Engine.Redirects.{Sent, Redirect}
use onejudge.Engine.Host.{Host, Plan}
use onejudge.Engine.Monad.{next, stopped, failed, M, on_world, change_world, pure, ◌>>=◌, ◌>>◌}
use onejudge.Engine.Notes.{drop_one, drop_held, redirected, record_redirects, AwaitingDecision}
use onejudge.Engine.Supervisor.{
  add_turn_usage, bare_observations, decided_observations, on_history, add_total, Decided,
  observe_all, add_for_worker, record_judge_decisions, supervise_once, drop_and_stop_if,
  stop_history, answered_or_fail, attempt, decide, close_supervision, instruct, follow, supervise,
}
use onejudge.Engine.Ledger.WorkerPays.{
  take_notes-Pays, record_redirects-Pays, record_arrived-Pays, settle-Pays, watch_supervisor-Pays,
}
use onejudge.Engine.Ledger.Accounts.{pending-arrived_at_turn_end, pending-redirected}
use onejudge.Engine.Ledger.{Host, count, held, held_one, pending, Counts, Quiet, Ledger}
use onejudge.Engine.Ledger.Pays.{
  Pays, Pays-bind, weigh, Any, same, pure-Pays, exit-Pays, on_world-Pays, get_run-Pays,
  stop_if-Pays, same-Pays,
}

module _ {d : Platform} {W : Type 0} (h : Host d W) (p : Plan) (c : Counts W) (x : ℕ)
    (l : Ledger h c x) where
  pub observe_all-Pays :
      (n : ℕ) (os : List (Observation d)) → Pays c p.streaming n (observe_all h p os) (same n) Any
  unfolding observe_all
  observe_all-Pays n [] = pure-Pays false refl tt
  observe_all-Pays n (o ∷ os) =
      Pays-bind c p.streaming (on_world-Pays n (h.observe o) (l.on_observe o))
        λ broke _. unless_broken broke (observe_all-Pays n os)
    where
      unless_broken :
          (b : Bool) {m : M d W Bool}
          → Pays c p.streaming n m (same n) Any
          → Pays c p.streaming n (elim b [ true ↦ λ r. next true r | false ↦ m ]) (same n) Any
      unless_broken true k = pure-Pays true refl tt
      unless_broken false k = k

  add_for_worker-Pays :
      (n : ℕ) (ns : List DeliveredNote) → Pays c p.streaming n (add_for_worker h p ns) (same n) Any
  unfolding add_for_worker
  add_for_worker-Pays n ns = same-Pays n _ _ (λ r. refl)

  pub add_total-Pays :
      (n : ℕ) (u : Option (Usage d)) → Pays c p.streaming n (add_total h p u) (same n) Any
  unfolding add_total
  add_total-Pays n u = same-Pays n _ _ (λ r. refl)

  pub record_judge_decisions-Pays :
      (n i : ℕ) → Pays c p.streaming n (record_judge_decisions h p i) (same n) Any
  unfolding record_judge_decisions
  record_judge_decisions-Pays n i = record {
    at = λ r o.
        let (t, a, k) = l.on_judge_decisions r.world in (tt, (omega (arith, t, a, k), inr k));
  }

  on_history-Quiet : (i : ℕ) → Quiet c (on_history h p i)
  unfolding on_history
  on_history-Quiet i e w b = l.on_observe _ w

  -- Only a streamed call can find that the observer broke.
  supervise_once-Pays :
      (n : ℕ) (b : Bool) (u : SimulatedUser) (i : ℕ)
      → Pays c p.streaming n (supervise_once h p b u i) (same n) (λ a. a.1 ≡ true → b ≡ true)
  unfolding supervise_once
  supervise_once-Pays n true u i = record {
    at = λ r o.
        let (t, a, k) = l.on_supervise_observing _ _ _ _ _ r.world (on_history-Quiet i) in
        ((λ e. refl), (omega (arith, t, a, k), inr k));
  }
  supervise_once-Pays n false u i = record {
    at = λ r o.
        let (t, a, k) = l.on_supervise _ _ _ _ r.world in
        ((λ e. e), (omega (arith, t, a, k), inr k));
  }

  stop-Pays :
      {q : Unit {0} → ℕ} (a : AwaitingDecision)
      → Pays c p.streaming (pending x a) (drop_and_stop_if h p true a) q Any
  unfolding drop_and_stop_if
  stop-Pays a =
      Pays-bind c p.streaming (weigh c p.streaming (omega arith) (settle-Pays h p c x l 0 none a))
        λ _ _. exit-Pays stopped

  drop_and_stop_if-Pays :
      (b : Bool) (a : AwaitingDecision)
      → Pays c p.streaming (pending x a) (drop_and_stop_if h p b a) (same (pending x a)) Any
  unfolding drop_and_stop_if
  drop_and_stop_if-Pays true a = stop-Pays a
  drop_and_stop_if-Pays false a = pure-Pays tt refl tt

  drop_one-Pays :
      (n : ℕ) (o : Option Sent)
      → p.streaming ≡ true
      → Pays c p.streaming (n + held_one x o) (drop_one h o) (same n) Any
  unfolding drop_one change_world
  drop_one-Pays n none e = pure-Pays tt (omega arith) tt
  drop_one-Pays n (some s) e = record {
    at = λ r o. let (t, a, k) = l.on_drop s r.world in (tt, (omega (arith, t, a, k), inl e));
  }

  drop_held-Pays :
      (n : ℕ) (xs : List Redirect)
      → p.streaming ≡ true
      → Pays c p.streaming (n + held x xs) (drop_held h xs) (same n) Any
  unfolding drop_held
  drop_held-Pays n [] e = pure-Pays tt (omega arith) tt
  drop_held-Pays n (y ∷ ys) e =
      Pays-bind c p.streaming
        (weigh c p.streaming (omega arith) (drop_one-Pays (n + held x ys) y.held e))
        λ _ _. drop_held-Pays n ys e

  stop_history-Pays :
      (b : Bool) (xs : List Redirect) (a : AwaitingDecision)
      → (b ≡ true → p.streaming ≡ true)
      → Pays c p.streaming
          (pending x a + held x xs)
          (stop_history h p b xs a)
          (same (pending x a + held x xs))
          Any
  unfolding stop_history
  stop_history-Pays true xs a e =
      Pays-bind c p.streaming (drop_held-Pays (pending x a) xs (e refl)) λ _ _. stop-Pays a
  stop_history-Pays false xs a e = pure-Pays tt refl tt

  answered_or_fail-Pays :
      (y : Result (SupervisorTurn d)) (a : AwaitingDecision)
      → Pays c p.streaming (pending x a) (answered_or_fail h p y a) (same (pending x a)) Any
  unfolding answered_or_fail
  answered_or_fail-Pays (ok turn) a = pure-Pays turn refl tt
  answered_or_fail-Pays (err e) a =
      Pays-bind c p.streaming (weigh c p.streaming (omega arith) (settle-Pays h p c x l 0 none a))
        λ _ _. exit-Pays (failed e)

  abbrev owed : Decided d → ℕ
  owed y = pending x y.awaiting

  attempt-Pays :
      (u : SimulatedUser) (i : ℕ) (a : AwaitingDecision) (total : Option (Usage d))
      → Pays c p.streaming (pending x a) (attempt h p u i a total) owed Any
  unfolding attempt
  attempt-Pays u i a total =
      let n = pending x a in
      Pays-bind c p.streaming (supervise_once-Pays n p.streaming u i) λ answer v.
        Pays-bind c p.streaming (watch_supervisor-Pays h p c x l n p.has_notes _) λ rs _.
          Pays-bind c p.streaming (stop_history-Pays answer.1 rs a v)
            λ _ _. weigh c p.streaming (pending-redirected x a rs) (decided answer rs)
    where
      decided :
          (answer : Result (SupervisorTurn d) × Bool) (rs : List Redirect)
          → Pays c p.streaming
              (pending x (redirected a rs))
              (do
                handed ← record_redirects h rs Party.supervisor
                add_for_worker h p handed
                let awaiting' = redirected a rs
                decided ← record_judge_decisions h p i
                bare ← on_world h.take_judge_tools
                broke ← observe_all h p (bare_observations i bare ++ decided_observations i decided)
                turn ← answered_or_fail h p answer.0 awaiting'
                drop_and_stop_if h p broke awaiting'
                add_total h p turn.usage
                pure (record {
                  turn = turn;
                  awaiting = awaiting';
                  usage = add_turn_usage total turn.usage;
                }))
              owed
              Any
      decided answer rs =
          let n = pending x (redirected a rs) in
          Pays-bind c p.streaming (record_redirects-Pays h p c x l n rs _) λ handed _.
            Pays-bind c p.streaming (add_for_worker-Pays n handed) λ _ _.
              Pays-bind c p.streaming (record_judge_decisions-Pays n i) λ decided _.
                Pays-bind c p.streaming (on_world-Pays n h.take_judge_tools l.on_judge_tools)
                  λ bare _. Pays-bind c p.streaming (observe_all-Pays n _) λ broke _.
                    Pays-bind c p.streaming (answered_or_fail-Pays answer.0 _) λ turn _.
                      Pays-bind c p.streaming (drop_and_stop_if-Pays broke _) λ _ _.
                        Pays-bind c p.streaming (add_total-Pays n turn.usage)
                          λ _ _. pure-Pays _ refl tt

  again :
      (n : ℕ) {m : M d W (Decided d)} {f : Sent → List Sent → M d W (Decided d)} (ss : List Sent)
      → Pays c p.streaming (n + 0) m owed Any
      → ((s : Sent) (rest : List Sent)
          → Pays c p.streaming (n + count x (s ∷ rest)) (f s rest) owed Any)
      → Pays c p.streaming (n + count x ss) (elim ss [ [] ↦ m | s ∷ rest ↦ f s rest ]) owed Any
  again n [] k v = k
  again n (s ∷ rest) k v = v s rest

  decide-Pays :
      (fuel : ℕ) (u : SimulatedUser) (i : ℕ) (a : AwaitingDecision) (total : Option (Usage d))
      → Pays c p.streaming (pending x a) (decide h p fuel u i a total) owed Any
  unfolding decide
  decide-Pays zero u i a total = record { at = λ r o. inl refl }
  decide-Pays (suc fuel) u i a total = Pays-bind c p.streaming (attempt-Pays u i a total) λ y _.
      let n = pending x y.awaiting in
      Pays-bind c p.streaming (take_notes-Pays h p c x l n p.has_notes) λ arrived _.
        again n arrived (pure-Pays y (omega arith) tt) λ s ss.
          let n' = n + count x (s ∷ ss) in
          Pays-bind c p.streaming (record_arrived-Pays h p c x l n' (s ∷ ss)) λ handed _.
            Pays-bind c p.streaming (add_for_worker-Pays n' handed) λ _ _.
              weigh c p.streaming (pending-arrived_at_turn_end x y.awaiting (s ∷ ss))
                (decide-Pays fuel u i _ y.usage)

  close_supervision-Pays :
      (o : SupervisorOutcome) (i : ℕ) (total : Option (Usage d)) (started_at : Text)
      → Pays c p.streaming 0 (close_supervision h p o i total started_at) (same 0) Any
  unfolding close_supervision
  close_supervision-Pays o i total started_at =
      Pays-bind c p.streaming (on_world-Pays 0 h.now l.on_now) λ finished_at _.
        Pays-bind c p.streaming (observe_all-Pays 0 _) λ broke _. stop_if-Pays broke

  follow-Pays : (o : SupervisorOutcome) → Pays c p.streaming 0 (follow h p o) (same 0) Any
  unfolding follow instruct
  follow-Pays (completed reason) = exit-Pays _
  follow-Pays (continue text reason) = same-Pays 0 _ _ (λ r. refl)
  follow-Pays (no_instruction reason) = exit-Pays _
  follow-Pays (unparseable problem answer) = exit-Pays _

  pub supervise-Pays :
      (fuel : ℕ) (u : SimulatedUser) (i : ℕ)
      → Pays c p.streaming 0 (supervise h p fuel u i) (same 0) Any
  unfolding supervise
  supervise-Pays fuel u i = Pays-bind c p.streaming (on_world-Pays 0 h.now l.on_now) λ started_at _.
      Pays-bind c p.streaming (get_run-Pays 0) λ r _.
        Pays-bind c p.streaming (on_world-Pays 0 _ (l.on_observe _)) λ broke _.
          Pays-bind c p.streaming (stop_if-Pays broke) λ _ _.
            Pays-bind c p.streaming (decide-Pays fuel u i [] none) λ y _.
              Pays-bind c p.streaming
                (weigh c p.streaming (omega arith) (settle-Pays h p c x l 0 _ y.awaiting))
                λ _ _.
                  Pays-bind c p.streaming (close_supervision-Pays y.turn.outcome i _ _)
                    λ _ _. follow-Pays y.turn.outcome
