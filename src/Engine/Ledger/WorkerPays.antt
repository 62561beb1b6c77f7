-- ===== src/Engine/Ledger/WorkerPays.antt =====
-- The account of a send over the inbox and the worker's half of a turn.
use onejudge.Common.{
  ℕ, ◌+◌, refl, ◌∙◌, inr, Bool, true, false, ◌||◌, Option, none, some, List, [], ◌∷◌, arith, Text,
  leb, if◌then◌else◌,
}
use onejudge.Platform.{Platform}
use onejudge.Transcript.{Transcript, assistant_turns}
use onejudge.Note.{Party, Accepted, Note}
use onejudge.Provider.{AssistantTurn}
use onejudge.Engine.{ToolEvent, tool_event, tool, SimulatedUser, Observation}
use onejudge.Engine.Redirects.{Sent, Redirect, push_redirected}
use onejudge.Engine.Host.{Host, Plan, HarnessEvent, begun}
use onejudge.Engine.Monad.{Run, next, exit, ended, panicked, on_world, change_world}
use onejudge.Engine.Worker.{
  observe_action, on_event, Opened, Called, open_turn, call_worker, after_reply, check_end,
  max_turns_of, hand_to_worker, hand_queued, push_message, observe_unless, respond_once,
  watch_redirects, take_reply, push_reply, noop_settled,
}
use onejudge.Engine.Notes.{
  take_notes, answer_note, record_note, deliver, record_redirects, record_arrived, settle,
  AwaitingDecision,
}
use onejudge.Engine.Ledger.{Message, count, one_if, held, pending, Counts, Same, Quiet, Ledger}
use onejudge.Engine.Ledger.Pays.{
  Due, After, Pays, Pays-bind, weigh, Any, same, pure-Pays, on_world-Pays, get_run-Pays,
  stop_if-Pays, same-Pays,
}

module _ {d : Platform} {W : Type 0} (h : Host d W) (p : Plan) (c : Counts W) (x : ℕ)
    (l : Ledger h c x) where
  pub take_notes-Pays :
      (n : ℕ) (on : Bool) → Pays c p.streaming n (take_notes h on) (λ ss. n + count x ss) Any
  unfolding take_notes on_world
  take_notes-Pays n true = record {
    at = λ r o. let (t, a, k) = l.on_drain r.world in (tt, (omega (arith, t, a, k), inr k));
  }
  take_notes-Pays n false = pure-Pays [] (omega arith) tt

  record_note-Pays :
      (n : ℕ) (note : Note) (party : Party)
      → Pays c p.streaming n (record_note h note party) (same n) Any
  unfolding record_note
  record_note-Pays n note party = same-Pays n _ _ (λ r. refl)

  pub answer_note-Pays :
      (n : ℕ) (s : Sent) (a : Accepted)
      → Pays c p.streaming (n + one_if x s) (answer_note h s a) (same n) Any
  unfolding answer_note change_world
  answer_note-Pays n s a = record {
    at = λ r o. let (t, b, k) = l.on_answer s a r.world in (tt, (omega (arith, t, b, k), inr k));
  }

  deliver-Pays :
      (n : ℕ) (ss : List Sent) (party : Party) (a : Accepted)
      → Pays c p.streaming (n + count x ss) (deliver h ss party a) (same n) Any
  unfolding deliver
  deliver-Pays n [] party a = pure-Pays [] (omega arith) tt
  deliver-Pays n (s ∷ ss) party a =
      Pays-bind c p.streaming (record_note-Pays _ s.message party) λ handed _.
        Pays-bind c p.streaming
          (weigh c p.streaming (omega arith) (answer_note-Pays (n + count x ss) s a))
          λ _ _.
            Pays-bind c p.streaming (deliver-Pays n ss party a)
              λ rest _. pure-Pays (handed ∷ rest) refl tt

  pub record_redirects-Pays :
      (n : ℕ) (xs : List Redirect) (party : Party)
      → Pays c p.streaming n (record_redirects h xs party) (same n) Any
  unfolding record_redirects
  record_redirects-Pays n [] party = pure-Pays [] refl tt
  record_redirects-Pays n (y ∷ ys) party =
      Pays-bind c p.streaming (record_note-Pays n y.note party) λ handed _.
        Pays-bind c p.streaming (record_redirects-Pays n ys party)
          λ rest _. pure-Pays (handed ∷ rest) refl tt

  pub record_arrived-Pays :
      (n : ℕ) (ss : List Sent) → Pays c p.streaming n (record_arrived h ss) (same n) Any
  unfolding record_arrived
  record_arrived-Pays n [] = pure-Pays [] refl tt
  record_arrived-Pays n (s ∷ ss) =
      Pays-bind c p.streaming (record_note-Pays n s.message Party.supervisor) λ handed _.
        Pays-bind c p.streaming (record_arrived-Pays n ss)
          λ rest _. pure-Pays (handed ∷ rest) refl tt

  pub settle-Pays :
      (n : ℕ) (reason : Option Text) (a : AwaitingDecision)
      → Pays c p.streaming (n + pending x a) (settle h reason a) (same n) Any
  unfolding settle
  settle-Pays n reason [] = pure-Pays tt (omega arith) tt
  settle-Pays n reason ((s, otherwise) ∷ rest) =
      Pays-bind c p.streaming
        (weigh c p.streaming (omega arith) (answer_note-Pays (n + pending x rest) s _))
        λ _ _. settle-Pays n reason rest

  pub push_message-Pays :
      (n : ℕ) (m : Message d) → Pays c p.streaming n (push_message m) (same n) Any
  push_message-Pays n m = same-Pays n _ _ (λ r. refl)

  pub observe_unless-Pays :
      (n : ℕ) (b : Bool) (o : Observation d)
      → Pays c p.streaming n (observe_unless h p b o) (same n) Any
  unfolding observe_unless
  observe_unless-Pays n true o = pure-Pays true refl tt
  observe_unless-Pays n false o = on_world-Pays n (h.observe o) (l.on_observe o)

  pub hand_to_worker-Pays :
      (ss : List Sent) (a : Accepted)
      → Pays c p.streaming (count x ss) (hand_to_worker h p ss a) (same 0) Any
  unfolding hand_to_worker
  hand_to_worker-Pays ss a =
      Pays-bind c p.streaming (weigh c p.streaming (omega arith) (deliver-Pays 0 ss Party.worker a))
        λ handed _. push_message-Pays 0 _

  hand_queued-Pays :
      (ss : List Sent) → Pays c p.streaming (0 + count x ss) (hand_queued h p ss) (same 0) Any
  unfolding hand_queued
  hand_queued-Pays [] = pure-Pays tt (omega arith) tt
  hand_queued-Pays (s ∷ ss) = weigh c p.streaming (omega arith) (hand_to_worker-Pays (s ∷ ss) _)

  pub open_turn-Pays : Pays c p.streaming 0 (open_turn h p) (same 0) Any
  unfolding open_turn
  open_turn-Pays = Pays-bind c p.streaming (take_notes-Pays 0 p.has_notes) λ sents _.
      Pays-bind c p.streaming (hand_queued-Pays sents) λ _ _.
        Pays-bind c p.streaming (get_run-Pays 0) λ r _.
          Pays-bind c p.streaming (on_world-Pays 0 h.now l.on_now) λ at _.
            Pays-bind c p.streaming (on_world-Pays 0 _ (l.on_observe _)) λ broke _.
              Pays-bind c p.streaming (stop_if-Pays broke)
                λ _ _. Pays-bind c p.streaming (get_run-Pays 0) λ r' _. pure-Pays _ refl tt

  on_event-Quiet : (i : ℕ) → Quiet c (on_event h p i)
  unfolding on_event observe_action
  on_event-Quiet i (begun e) w b = l.on_observe _ w
  on_event-Quiet i (HarnessEvent.action a) w b = acted (tool_event d a)
    where
      Same-trans : (u v t : W) → Same c u v → Same c v t → Same c u t
      Same-trans u v t (a0, a1, a2) (b0, b1, b2) = (b0 ∙ a0, b1 ∙ a1, b2 ∙ a2)

      seen : (w1 : W) → Same c w w1 → Same c w (observe_action h p i a w1 b).1.0
      seen w1 k = Same-trans w w1 _ k (l.on_observe _ w1)

      either :
          (flow : Bool) (y z : Bool × (W × Bool))
          → Same c w y.1.0
          → Same c w z.1.0
          → Same c w (if flow then y else z).1.0
      either true y z k m = k
      either false y z k m = m

      w1 : W
      w1 = h.watch_action a w

      acted :
          (o : Option (ToolEvent d))
          → (let y : Bool × (W × Bool) = elim o [
            | none ↦ observe_action h p i a w1 b
            | some e ↦
                let (flow, w2) = h.observe (tool i e) w1 in
                let rest = observe_action h p i a w2 b in if flow then (true, (w2, true)) else rest
          ] in
              Same c w y.1.0)
      acted none = seen w1 (l.on_watch_action a w)
      acted (some e) =
          let k = Same-trans w w1 _ (l.on_watch_action a w) (l.on_observe (tool i e) w1) in
          either (h.observe (tool i e) w1).0 _ _ k (seen _ k)

  respond_once-Pays : (b : Bool) (i : ℕ) → Pays c p.streaming 0 (respond_once h p b i) (same 0) Any
  unfolding respond_once
  respond_once-Pays true i = record {
    at = λ r o.
        let (t, a, k) = l.on_respond_with_history _ _ _ _ r.world (on_event-Quiet i) in
        (tt, (omega (arith, t, a, k), inr k));
  }
  respond_once-Pays false i = record {
    at = λ r o. let (t, a, k) = l.on_respond _ _ _ r.world in (tt, (omega (arith, t, a, k), inr k));
  }

  -- The worker's watch holds no sender.
  watch_worker-Pays :
      (b : Bool) (s : Text)
      → Pays c p.streaming 0 (watch_redirects h p b Party.worker s) (same 0) Any
  unfolding watch_redirects on_world
  watch_worker-Pays true s = record {
    at = λ r o.
        let (t, k) = l.on_watched Party.worker s _ r.world in
        (tt, (omega (arith, t, k, l.on_worker_watched s p.conversation.skill.dir r.world), inr k));
  }
  watch_worker-Pays false s = pure-Pays [] refl tt

  pub watch_supervisor-Pays :
      (n : ℕ) (b : Bool) (s : Text)
      → Pays c p.streaming n (watch_redirects h p b Party.supervisor s) (λ rs. n + held x rs) Any
  unfolding watch_redirects on_world
  watch_supervisor-Pays n true s = record {
    at = λ r o.
        let (t, k) = l.on_watched Party.supervisor s _ r.world in
        (tt, (omega (arith, t, k), inr k));
  }
  watch_supervisor-Pays n false s = pure-Pays [] (omega arith) tt

  pub call_worker-Pays : (i : ℕ) → Pays c p.streaming 0 (call_worker h p i) (same 0) Any
  unfolding call_worker
  call_worker-Pays i = Pays-bind c p.streaming (respond_once-Pays p.streaming i) λ answer _.
      Pays-bind c p.streaming (watch_worker-Pays p.has_notes _) λ redirects _.
        Pays-bind c p.streaming (record_redirects-Pays 0 redirects Party.worker)
          λ _ _. pure-Pays _ refl tt

  push_reply-Pays :
      (rs : List Redirect) (turn : AssistantTurn d)
      → Pays c p.streaming 0 (push_reply h p rs turn) (same 0) Any
  unfolding push_reply
  push_reply-Pays rs turn = record {
    at = λ r o. pushed r (push_redirected r.transcript rs turn.message turn.events) o;
  }
    where
      pushed :
          (r : Run d W) (t : Option (Transcript d))
          → Due c p.streaming 0 r
          → After c p.streaming
              (same 0)
              Any
              r
              (elim t [ none ↦ exit panicked r | some t ↦ next tt (record r { transcript = t }) ])
      pushed r none o = inr (o, inr refl)
      pushed r (some t) o = (tt, (o, inr refl))

  take_reply-Pays :
      (o : Opened d) (turn : AssistantTurn d)
      → Pays c p.streaming 0 (take_reply h p o turn) (same 0) Any
  unfolding take_reply
  take_reply-Pays o turn = same-Pays 0 _ _ (λ r. refl)

  pub after_reply-Pays :
      (o : Opened d) (k : Called d) (turn : AssistantTurn d)
      → Pays c p.streaming 0 (after_reply h p o k turn) (same 0) Any
  unfolding after_reply
  after_reply-Pays o k turn = Pays-bind c p.streaming (take_reply-Pays o turn) λ settles _.
      Pays-bind c p.streaming (on_world-Pays 0 h.now l.on_now) λ at _.
        Pays-bind c p.streaming (get_run-Pays 0) λ r _.
          Pays-bind c p.streaming (observe_unless-Pays 0 k.broke _) λ broke _.
            Pays-bind c p.streaming (observe_unless-Pays 0 broke _) λ broke' _.
              Pays-bind c p.streaming (push_reply-Pays k.redirects turn) λ _ _.
                Pays-bind c p.streaming (stop_if-Pays broke') λ _ _. pure-Pays settles refl tt

  pub check_end-Pays :
      (u : SimulatedUser) (done settles : Bool)
      → Pays c p.streaming 0 (check_end h p u done settles) (same 0) Any
  unfolding check_end
  check_end-Pays u done settles = record {
    at = λ r o.
        checked r (done || leb (max_turns_of h p u) (assistant_turns r.transcript)) settles o;
  }
    where
      checked :
          (r : Run d W) (over settles : Bool)
          → Due c p.streaming 0 r
          → After c p.streaming (same 0) Any r (
              if over
              then exit (ended none none) r
              else if settles
              then exit (ended none (some noop_settled)) r
              else next tt r)
      checked r true settles o = inr (o, inr refl)
      checked r false true o = inr (o, inr refl)
      checked r false false o = (tt, (o, inr refl))
