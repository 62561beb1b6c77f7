-- ===== src/Examples/Watches.antt =====
-- The watch over a supervisor's turn, with one note in the inbox, and a stream of one line.
use onejudge.Common.{
  ℕ, ◌+◌, ◌-◌, ◌≡◌, refl, subst, inr, Bool, true, false, Option, none, some, List, [], ◌∷◌, arith,
  codes, text_eq, All, leb, some_inj,
}
use onejudge.Note.{Note, Addressee, Delivery, Party}
use onejudge.Engine.Redirects.{Sent, Redirect}
use onejudge.Engine.Ledger.{Counts, one_if, held_one}
use onejudge.Platform.{Platform}
use onejudge.Stream.{Envelopes, event, read_stream}
use onejudge.Stream.Events.{Faithful, logged, read_stream-Faithful}
use onejudge.Examples.{plain}
use onejudge.Interrupt.{Line, run}
use onejudge.Interrupt.Accounts.{Steady, Paid, run-Paid}
use onejudge.Interrupt.Claims.{Fit, run-Fit}

-- The turn's clock, the inbox, and what became of the send 1.
record Turn : Type 0 where
  polls : ℕ
  inbox : List Sent
  taken : ℕ
  answered : ℕ
  dropped : ℕ

abbrev urgent : Note
urgent = record {
  addressee = Addressee.both;
  text = codes "Use the second port.";
  criterion = none;
  delivery = Delivery.interrupt;
}

abbrev sent : Sent
sent = record { id = 1; message = urgent }

abbrev taken_if : Bool → List Sent → Turn → Option Sent × Turn
taken_if true (s ∷ rest) t = (some s, record t { inbox = rest; taken = t.taken + one_if 1 s })
taken_if _ _ t = (none, t)

abbrev first_if : (Note → Bool) → List Sent → Bool
first_if p [] = false
first_if p (s ∷ rest) = p s.message

abbrev line : Line Turn
line = record {
  ended = λ t. (leb t.polls 0, record t { polls = t.polls - 1 });
  wait = λ t. (false, t);
  socket_exists = λ t. (true, t);
  take_if_within = λ p t. taken_if (first_if p t.inbox) t.inbox t;
  same_note = λ a b. text_eq a.text b.text;
  framing = λ ns. codes "note";
  is_redirect_input = λ t. true;
  send_redirect = λ input t. (true, t);
  release = λ s t. record t { taken = t.taken - one_if 1 s };
  answer = λ s a t. record t { answered = t.answered + one_if 1 s };
  observed = λ t. record { tools = 3; texts = [] };
}

abbrev live : Turn
live = record { polls = 2; inbox = sent ∷ []; taken = 0; answered = 0; dropped = 0 }

abbrev redirects : List Redirect
redirects =
    record { note = urgent; input = codes "note"; held = some sent; tools = 3; texts = [] } ∷ []

abbrev over : Turn
over = record { polls = 0; inbox = []; taken = 1; answered = 0; dropped = 0 }

watched : run line Party.supervisor 5 live ≡ some (redirects, over)
unfolding run
watched = refl

abbrev counts : Counts Turn
counts = record { taken = λ t. t.taken; answered = λ t. t.answered; dropped = λ t. t.dropped }

taking :
    (b : Bool) (inbox : List Sent) (t : Turn)
    → ((taken_if b inbox t).1.taken ≡ t.taken + held_one 1 (taken_if b inbox t).0)
      × ((taken_if b inbox t).1.answered ≡ t.answered)
      × ((taken_if b inbox t).1.dropped ≡ t.dropped)
taking true [] t = (omega arith, refl, refl)
taking true (s ∷ rest) t = (refl, refl, refl)
taking false inbox t = (omega arith, refl, refl)

line-Steady : Steady line counts 1
line-Steady = record {
  on_ended = λ t. (refl, refl, refl);
  on_wait = λ t. (refl, refl, refl);
  on_socket = λ t. (refl, refl, refl);
  on_take = λ p t. taking (first_if p t.inbox) t.inbox t;
  on_redirect = λ input t. (refl, refl, refl);
  on_release = λ s t le. (omega (arith, le), refl, refl);
  on_answer = λ s a t. (refl, refl, refl);
}

run-Paid_example : Paid line Party.supervisor counts 1 line-Steady live redirects over
run-Paid_example = run-Paid line Party.supervisor counts 1 line-Steady 5 live over redirects watched

asked :
    (p : Note → Bool) (t : Turn) (s : Sent)
    → (line.take_if_within p t).0 ≡ some s
    → p s.message ≡ true
asked p t s e = first (first_if p t.inbox) t.inbox refl refl e
  where
    first :
        (b : Bool) (inbox : List Sent)
        → t.inbox ≡ inbox
        → first_if p inbox ≡ b
        → (taken_if b inbox t).0 ≡ some s
        → p s.message ≡ true
    first true [] q f e = absurd cc
    first true (s' ∷ rest) q f e = subst (λ s. p s.message ≡ true) (some_inj e) f
    first false inbox q f e = absurd cc

run-Fit_example : All (Fit line Party.supervisor) redirects
run-Fit_example = run-Fit line Party.supervisor asked 5 live over redirects watched

-- Every line is an object with a type.
abbrev streamed : Platform
streamed = record plain { parses = λ t. true; get = λ v k. some 1 }

abbrev streamed_envelopes : Envelopes streamed
streamed_envelopes = record { is_object = λ v. true; read_envelope = λ v. inr (event 7); null = 0 }

read_stream-Faithful_example :
    Faithful streamed_envelopes
      (codes "respond")
      (λ e. false)
      []
      []
      (read_stream streamed_envelopes
        (codes "respond")
        (logged (λ e. false))
        (inr (codes "{}\n") ∷ [])
        []
        [])
read_stream-Faithful_example =
    read_stream-Faithful streamed_envelopes (codes "respond") (λ e. false) (inr (codes "{}\n") ∷ [])
      [] []
