-- ===== src/Engine/Growth.antt =====
-- A run only adds to its transcript and to its delivered notes, and it is completed only by an
-- answer of the supervisor that says so.
pub mod WorkerSteps
pub mod SupervisorSteps
pub mod Loop
pub mod Turns
pub mod Rounds
use onejudge.Common.{
  true≢false, ℕ, zero, suc, ◌+◌, ◌-◌, ◌*◌, ◌/◌, ◌%◌, ◌^◌, ◌≤◌, ◌<◌, min, max, String, ◌≡◌, refl,
  sym, ap, ap₂, ◌∙◌, subst, ◌≡⟨◌⟩◌, ◌∎, fun_ext, ◌≢◌, ◌↔◌, ◌⊎◌, inl, inr, Bool, true, false, not,
  ◌&&◌, ◌||◌, Option, none, some, List, [], ◌∷◌, ◌++◌, map, append-nil, append_assoc, map-append,
  Memᴰ, Infix, Infix-refl, Infix-append_left, Infix-append_right, Infix-cons, arith, Text, codes,
  text_eq, is_whitespace, is_ascii_digit, is_ascii_alphanumeric, trim_start, trim_end, trim, split,
  join, starts_with, contains, show, text_eq_iff, text_eq_refl, length, take, drop, is_empty,
  get_last?, keep, any, all, find, length-append, keep-append, length-keep, length-take,
  length-drop, take-append-drop, filter_map, flat_map, length-map, All, All-append, ltb, leb, ◌==◌,
  if◌then◌else◌, ltb→lt, lt→ltb, leb→le, ==_iff, tests, Bool-cases, Option-cases, is_some, is_none,
  get_or_else, map_some, or_else, both_some,
}
use onejudge.Platform.{Platform}
use onejudge.Error.{Error, Result, ok, err}
use onejudge.Transcript.{Message, push}
use onejudge.Note.{Note, Party, Accepted}
use onejudge.Provider.{SupervisorTurn, SupervisorQuery, EvidenceContext}
use onejudge.Engine.Redirects.{Sent, Redirect}
use onejudge.Engine.Host.{Host, Callback}
use onejudge.Engine.Monad.{Exit, stopped, ended, failed, panicked, out_of_fuel}
use onejudge.Engine.Notes.{
  AwaitingDecision, take_notes, deliver, record_note, answer_note, record_redirects, record_arrived,
  settle,
}
use onejudge.Engine.Worker.{push_message}
use onejudge.Engine.Supervisor.{completion_of}
use onejudge.Engine.Ensures.{
  Extends-refl, Extends-append, Ensures, Ensures-bind, Any, on_world-Ensures, change_world-Ensures,
  pure-Ensures,
}

-- The supervisor was asked, and answered that the work is done for this reason.
pub data Answered {d : Platform} {W : Type 0} (h : Host d W) (reason : Text) : Type 0 where
  called :
      (q : SupervisorQuery) (ms : List (Message d)) (s : Option Text) (ev : EvidenceContext) (w : W)
      (turn : SupervisorTurn d)
      → (h.supervise_with_evidence q ms s ev w).0 ≡ ok turn
      → completion_of turn.outcome ≡ some reason
      → Answered h reason
  observed :
      (q : SupervisorQuery) (ms : List (Message d)) (s : Option Text) (ev : EvidenceContext)
      (f : Callback d.Begun W) (w : W × Bool) (turn : SupervisorTurn d)
      → (h.supervise_observing q ms s ev f w).0 ≡ ok turn
      → completion_of turn.outcome ≡ some reason
      → Answered h reason

-- A run that ends with a completion reason was completed by the supervisor, and is not settled.
abbrev pub Justified : {d : Platform} {W : Type 0} → Host d W → Exit → Type 0
Justified h (ended (some reason) settled) = Answered h reason × (settled ≡ none)
Justified h _ = Unit

-- An answer is justified if the supervisor gave it, should it say that the work is done.
abbrev pub AnswerOk : {d : Platform} {W : Type 0} → Host d W → SupervisorTurn d → Type 0
AnswerOk h turn = (reason : Text) → completion_of turn.outcome ≡ some reason → Answered h reason

abbrev pub ResultOk : {d : Platform} {W : Type 0} → Host d W → Result (SupervisorTurn d) → Type 0
ResultOk h (ok turn) = AnswerOk h turn
ResultOk h (err e) = Unit

-- What is to be known of an exit allows every exit but running out of fuel, and the completion by
-- an answer of the supervisor.
pub record Allows {d : Platform} {W : Type 0} (h : Host d W) (Q : Exit → Type 0) : Type 0 where
  pub on_stopped : Q stopped
  pub on_failed : (e : Error) → Q (failed e)
  pub on_panicked : Q panicked
  pub on_settled : (why : Option Text) → Q (ended none why)
  pub on_completed : (reason : Text) → Answered h reason → Q (ended (some reason) none)

-- There is fuel for a decision if running out is allowed, or if no notes can arrive.
abbrev pub Fueled : (Exit → Type 0) → Bool → ℕ → Type 0
Fueled Q has_notes fuel = Q out_of_fuel ⊎ ((has_notes ≡ false) × (1 ≤ fuel))

pub Justified-Allows : {d : Platform} {W : Type 0} (h : Host d W) → Allows h (Justified h)
Justified-Allows h = record {
  on_stopped = tt;
  on_failed = λ e. tt;
  on_panicked = tt;
  on_settled = λ why. tt;
  on_completed = λ reason a. (a, refl);
}

module _ {d : Platform} {W : Type 0} (h : Host d W) {Q : Exit → Type 0} where
  pub record_note-Ensures : (n : Note) (party : Party) → Ensures Q Any (record_note h n party)
  unfolding record_note
  record_note-Ensures n party = record {
    at = λ r. (
      record {
        transcript = Extends-refl r.transcript.messages;
        delivered = Extends-append r.delivered _;
      },
      tt,
    );
  }

  pub take_notes-Ensures : (b : Bool) → Ensures Q Any (take_notes h b)
  unfolding take_notes
  take_notes-Ensures true = on_world-Ensures h.drain
  take_notes-Ensures false = pure-Ensures [] tt

  pub take_notes-none : (b : Bool) → b ≡ false → Ensures Q (λ sents. sents ≡ []) (take_notes h b)
  unfolding take_notes
  take_notes-none true e = absurd (true≢false e)
  take_notes-none false e = pure-Ensures [] refl

  pub answer_note-Ensures : (s : Sent) (a : Accepted) → Ensures Q Any (answer_note h s a)
  unfolding answer_note
  answer_note-Ensures s a = change_world-Ensures (h.answer s a)

  pub deliver-Ensures :
      (ss : List Sent) (party : Party) (a : Accepted) → Ensures Q Any (deliver h ss party a)
  unfolding deliver
  deliver-Ensures [] party a = pure-Ensures [] tt
  deliver-Ensures (s ∷ ss) party a =
      Ensures-bind Q (record_note-Ensures s.message party) λ handed _.
        Ensures-bind Q (answer_note-Ensures s a) λ _ _.
          Ensures-bind Q (deliver-Ensures ss party a) λ rest _. pure-Ensures (handed ∷ rest) tt

  pub record_redirects-Ensures :
      (xs : List Redirect) (party : Party) → Ensures Q Any (record_redirects h xs party)
  unfolding record_redirects
  record_redirects-Ensures [] party = pure-Ensures [] tt
  record_redirects-Ensures (x ∷ xs) party =
      Ensures-bind Q (record_note-Ensures x.note party) λ handed _.
        Ensures-bind Q (record_redirects-Ensures xs party) λ rest _. pure-Ensures (handed ∷ rest) tt

  pub record_arrived-Ensures : (ss : List Sent) → Ensures Q Any (record_arrived h ss)
  unfolding record_arrived
  record_arrived-Ensures [] = pure-Ensures [] tt
  record_arrived-Ensures (s ∷ ss) =
      Ensures-bind Q (record_note-Ensures s.message Party.supervisor) λ handed _.
        Ensures-bind Q (record_arrived-Ensures ss) λ rest _. pure-Ensures (handed ∷ rest) tt

  pub settle-Ensures :
      (reason : Option Text) (a : AwaitingDecision) → Ensures Q Any (settle h reason a)
  unfolding settle
  settle-Ensures reason [] = pure-Ensures tt tt
  settle-Ensures reason ((s, otherwise) ∷ rest) =
      Ensures-bind Q (answer_note-Ensures s _) λ _ _. settle-Ensures reason rest

  pub push_message-Ensures : (m : Message d) → Ensures {d = d} {W = W} Q Any (push_message m)
  unfolding push
  push_message-Ensures m = record {
    at = λ r. (
      record {
        transcript = Extends-append r.transcript.messages (m ∷ []);
        delivered = Extends-refl r.delivered;
      },
      tt,
    );
  }
