-- ===== src/Engine/Growth/WorkerSteps.antt =====
-- The worker's half of a turn adds to the transcript and to the delivered notes.
use onejudge.Common.{
  >>=-some, some_inj, ℕ, ◌≡◌, refl, sym, ap, ◌∙◌, subst, Bool, true, false, ◌||◌, Option, none,
  some, List, [], ◌∷◌, append-nil, Text, length, leb, if◌then◌else◌,
}
use onejudge.Platform.{Platform}
use onejudge.Transcript.{assistant_turns, Transcript, push}
use onejudge.Note.{Party, Accepted}
use onejudge.Provider.{AssistantTurn}
use onejudge.Engine.{ToolEvent, SimulatedUser, Observation}
use onejudge.Engine.Redirects.{Sent, Redirect, push_redirected, redirect_from, clamp}
use onejudge.Engine.Host.{Host, Plan}
use onejudge.Engine.Monad.{Run, next, exit, Exit, ended, panicked}
use onejudge.Engine.Ensures.{
  Holds, Extends, Extends-refl, Extends-trans, Extends-append, Grows-refl, Ensures, Ensures-bind,
  Any, on_world-Ensures, pure-Ensures, get_run-Ensures, stop_if-Ensures, same-Ensures,
}
use onejudge.Engine.Growth.{
  Allows, take_notes-Ensures, deliver-Ensures, record_redirects-Ensures, push_message-Ensures,
}
use onejudge.Engine.Worker.{
  Opened, Called, open_turn, call_worker, after_reply, check_end, max_turns_of, hand_to_worker,
  hand_queued, observe_unless, respond_once, watch_redirects, take_reply, push_reply, noop_settled,
}

pub redirect_from-Extends :
    {d : Platform} (rs : List Redirect) (t : Transcript d) (tools texts : ℕ)
    (events : List (ToolEvent d)) {t' : Transcript d} {rest : List (ToolEvent d)}
    → redirect_from t rs tools texts events ≡ some (t', rest)
    → Extends t.messages t'.messages
unfolding redirect_from push
redirect_from-Extends [] t tools texts events h = record {
  added = [];
  parts = ap (λ s. s.0.messages) (sym (some_inj h)) ∙ sym (append-nil _);
}
redirect_from-Extends (r ∷ rs) t tools texts events h =
    let (upto, (_, h')) = >>=-some (clamp r.tools tools (length events)) _ h in
    Extends-trans (Extends-trans (Extends-append _ _) (Extends-append _ _))
      (redirect_from-Extends rs _ _ _ _ h')

pub push_redirected-Extends :
    {d : Platform} (t : Transcript d) (rs : List Redirect) (text : Text)
    (events : List (ToolEvent d)) {t' : Transcript d}
    → push_redirected t rs text events ≡ some t'
    → Extends t.messages t'.messages
unfolding push_redirected push
push_redirected-Extends t rs text events h =
    let (s, (e, h')) = >>=-some (redirect_from t rs 0 0 events) _ h in
    Extends-trans (redirect_from-Extends rs t 0 0 events e)
      (subst (λ u. Extends s.0.messages u.messages) (some_inj h') (Extends-append _ _))

module _ {d : Platform} {W : Type 0} (h : Host d W) (p : Plan) {Q : Exit → Type 0}
    (q : Allows h Q) where
  pub observe_unless-Ensures :
      (b : Bool) (o : Observation d) → Ensures Q Any (observe_unless h p b o)
  unfolding observe_unless
  observe_unless-Ensures true o = pure-Ensures true tt
  observe_unless-Ensures false o = on_world-Ensures (h.observe o)

  pub hand_to_worker-Ensures :
      (ss : List Sent) (a : Accepted) → Ensures Q Any (hand_to_worker h p ss a)
  unfolding hand_to_worker
  hand_to_worker-Ensures ss a =
      Ensures-bind Q (deliver-Ensures h ss Party.worker a) λ handed _. push_message-Ensures h _

  hand_queued-Ensures : (ss : List Sent) → Ensures Q Any (hand_queued h p ss)
  unfolding hand_queued
  hand_queued-Ensures [] = pure-Ensures tt tt
  hand_queued-Ensures (s ∷ ss) = hand_to_worker-Ensures (s ∷ ss) _

  pub open_turn-Ensures : Ensures Q Any (open_turn h p)
  unfolding open_turn
  open_turn-Ensures = Ensures-bind Q (take_notes-Ensures h p.has_notes) λ sents _.
      Ensures-bind Q (hand_queued-Ensures sents) λ _ _. Ensures-bind Q get_run-Ensures λ r _.
        Ensures-bind Q (on_world-Ensures h.now) λ at _.
          Ensures-bind Q (on_world-Ensures _) λ broke _.
            Ensures-bind Q (stop_if-Ensures broke q.on_stopped)
              λ _ _. Ensures-bind Q get_run-Ensures λ r' _. pure-Ensures _ tt

  respond_once-Ensures : (b : Bool) (i : ℕ) → Ensures Q Any (respond_once h p b i)
  unfolding respond_once
  respond_once-Ensures true i = same-Ensures _ _ (λ r. refl) (λ r. refl)
  respond_once-Ensures false i = same-Ensures _ _ (λ r. refl) (λ r. refl)

  pub watch_redirects-Ensures :
      (b : Bool) (party : Party) (s : Text) → Ensures Q Any (watch_redirects h p b party s)
  unfolding watch_redirects
  watch_redirects-Ensures true party s = on_world-Ensures _
  watch_redirects-Ensures false party s = pure-Ensures [] tt

  pub call_worker-Ensures : (i : ℕ) → Ensures Q Any (call_worker h p i)
  unfolding call_worker
  call_worker-Ensures i = Ensures-bind Q (respond_once-Ensures p.streaming i) λ answer _.
      Ensures-bind Q (watch_redirects-Ensures p.has_notes Party.worker _) λ redirects _.
        Ensures-bind Q (record_redirects-Ensures h redirects Party.worker) λ _ _. pure-Ensures _ tt

  push_reply-Ensures :
      (rs : List Redirect) (turn : AssistantTurn d) → Ensures Q Any (push_reply h p rs turn)
  unfolding push_reply
  push_reply-Ensures rs turn = record {
    at = λ r. pushed r (push_redirected r.transcript rs turn.message turn.events) refl;
  }
    where
      pushed :
          (r : Run d W) (o : Option (Transcript d))
          → push_redirected r.transcript rs turn.message turn.events ≡ o
          → Holds Q Any r
              (elim o [ none ↦ exit panicked r | some t ↦ next tt (record r { transcript = t }) ])
      pushed r none e = (Grows-refl r, q.on_panicked)
      pushed r (some t) e = (
        record {
          transcript = push_redirected-Extends r.transcript rs turn.message turn.events e;
          delivered = Extends-refl r.delivered;
        },
        tt,
      )

  pub take_reply-Ensures :
      (o : Opened d) (turn : AssistantTurn d) → Ensures Q Any (take_reply h p o turn)
  unfolding take_reply
  take_reply-Ensures o turn = same-Ensures _ _ (λ r. refl) (λ r. refl)

  pub after_reply-Ensures :
      (o : Opened d) (c : Called d) (turn : AssistantTurn d)
      → Ensures Q Any (after_reply h p o c turn)
  unfolding after_reply
  after_reply-Ensures o c turn = Ensures-bind Q (take_reply-Ensures o turn) λ settles _.
      Ensures-bind Q (on_world-Ensures h.now) λ at _. Ensures-bind Q get_run-Ensures λ r _.
        Ensures-bind Q (observe_unless-Ensures c.broke _) λ broke _.
          Ensures-bind Q (observe_unless-Ensures broke _) λ broke' _.
            Ensures-bind Q (push_reply-Ensures c.redirects turn) λ _ _.
              Ensures-bind Q (stop_if-Ensures broke' q.on_stopped) λ _ _. pure-Ensures settles tt

  pub check_end-Ensures :
      (u : SimulatedUser) (done settles : Bool) → Ensures Q Any (check_end h p u done settles)
  unfolding check_end
  check_end-Ensures u done settles = record {
    at = λ r. checked r (done || leb (max_turns_of h p u) (assistant_turns r.transcript)) settles;
  }
    where
      checked :
          (r : Run d W) (over settles : Bool)
          → Holds Q Any r (
              if over
              then exit (ended none none) r
              else if settles
              then exit (ended none (some noop_settled)) r
              else next tt r)
      checked r true settles = (Grows-refl r, q.on_settled none)
      checked r false true = (Grows-refl r, q.on_settled (some noop_settled))
      checked r false false = (Grows-refl r, tt)
