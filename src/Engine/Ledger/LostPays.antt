-- ===== src/Engine/Ledger/LostPays.antt =====
-- The account of a send over the supervision of a turn that was lost: no send is owed before it.
use onejudge.Common.{ℕ, refl, inr, Bool, true, false, Option, arith, Text}
use onejudge.Platform.{Platform}
use onejudge.Error.{Result, ok, err, Error}
use onejudge.Usage.{Usage}
use onejudge.Provider.{
  SupervisorTurn, SupervisorOutcome, completed, continue, no_instruction, unparseable,
}
use onejudge.Engine.{SimulatedUser}
use onejudge.Engine.Host.{Host, Plan}
use onejudge.Engine.Monad.{on_world}
use onejudge.Engine.Worker.{Opened, Called}
use onejudge.Engine.Supervisor.{
  close_lost, follow_lost, fail_if, ask_lost, lost_answer, supervise_lost,
}
use onejudge.Engine.Ledger.WorkerPays.{push_message-Pays, observe_unless-Pays}
use onejudge.Engine.Ledger.SupervisorPays.{
  observe_all-Pays, add_total-Pays, record_judge_decisions-Pays,
}
use onejudge.Engine.Ledger.{Counts, Ledger}
use onejudge.Engine.Ledger.Pays.{
  Pays, Pays-bind, Any, same, pure-Pays, exit-Pays, on_world-Pays, stop_if-Pays,
}

module _ {d : Platform} {W : Type 0} (h : Host d W) (p : Plan) (c : Counts W) (x : ℕ)
    (l : Ledger h c x) where
  close_lost-Pays :
      (o : SupervisorOutcome) (i : ℕ) (total : Option (Usage d)) (started_at : Text)
      → Pays c p.streaming 0 (close_lost h p o i total started_at) (same 0) Any
  unfolding close_lost
  close_lost-Pays o i total started_at =
      Pays-bind c p.streaming (observe_all-Pays h p c x l 0 _) λ broke _.
        Pays-bind c p.streaming (stop_if-Pays broke) λ _ _.
          Pays-bind c p.streaming (on_world-Pays 0 h.now l.on_now) λ finished_at _.
            Pays-bind c p.streaming (on_world-Pays 0 _ (l.on_observe _))
              λ broke' _. stop_if-Pays broke'

  follow_lost-Pays :
      (e : Error) (o : SupervisorOutcome) → Pays c p.streaming 0 (follow_lost h p e o) (same 0) Any
  unfolding follow_lost
  follow_lost-Pays e (completed reason) = exit-Pays _
  follow_lost-Pays e (continue text reason) = push_message-Pays h p c x l 0 _
  follow_lost-Pays e (no_instruction reason) = exit-Pays _
  follow_lost-Pays e (unparseable problem answer) = exit-Pays _

  fail_if-Pays : (e : Error) (b : Bool) → Pays c p.streaming 0 (fail_if h p e b) (same 0) Any
  unfolding fail_if
  fail_if-Pays e true = exit-Pays _
  fail_if-Pays e false = pure-Pays tt refl tt

  ask_lost-Pays :
      (u : SimulatedUser) (e : Error) (o : Opened d)
      → Pays c p.streaming 0 (ask_lost h p u e o) (same 0) Any
  unfolding ask_lost on_world
  ask_lost-Pays u e o = record {
    at = λ r o.
        let (t, a, k) = l.on_supervise _ _ _ _ r.world in (tt, (omega (arith, t, a, k), inr k));
  }

  lost_answer-Pays :
      (e : Error) (y : Result (SupervisorTurn d))
      → Pays c p.streaming 0 (lost_answer h p e y) (same 0) Any
  unfolding lost_answer
  lost_answer-Pays e (ok turn) = pure-Pays turn refl tt
  lost_answer-Pays e (err _) = exit-Pays _

  pub supervise_lost-Pays :
      (u : SimulatedUser) (o : Opened d) (k : Called d) (e : Error)
      → Pays c p.streaming 0 (supervise_lost h p u o k e) (same 0) Any
  unfolding supervise_lost
  supervise_lost-Pays u o k e =
      Pays-bind c p.streaming (on_world-Pays 0 h.now l.on_now) λ started_at _.
        Pays-bind c p.streaming (observe_unless-Pays h p c x l 0 k.broke _) λ broke _.
          Pays-bind c p.streaming (fail_if-Pays e broke) λ _ _.
            Pays-bind c p.streaming (ask_lost-Pays u e o) λ answer _.
              Pays-bind c p.streaming (record_judge_decisions-Pays h p c x l 0 o.index) λ decided _.
                Pays-bind c p.streaming (on_world-Pays 0 h.take_judge_tools l.on_judge_tools)
                  λ bare _. Pays-bind c p.streaming (lost_answer-Pays e answer) λ turn _.
                    Pays-bind c p.streaming (add_total-Pays h p c x l 0 turn.usage) λ _ _.
                      Pays-bind c p.streaming (close_lost-Pays turn.outcome o.index _ _)
                        λ _ _. follow_lost-Pays e turn.outcome
