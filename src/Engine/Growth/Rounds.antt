-- ===== src/Engine/Growth/Rounds.antt =====
-- The turn limit bounds the rounds of a run that gets no notes and whose provider supervises no
-- lost turns.
use onejudge.Common.{
  ℕ, zero, suc, ◌+◌, ◌≤◌, ◌≡◌, refl, sym, ap, subst, ◌≢◌, inl, inr, Bool, true, false, ◌&&◌, ◌||◌,
  Option, none, some, List, arith, leb, if◌then◌else◌, is_some,
}
use onejudge.Platform.{Platform}
use onejudge.Error.{kind, Error, Result, ok, err}
use onejudge.Transcript.{Transcript, assistant_turns}
use onejudge.Note.{DeliveredNote}
use onejudge.Provider.{AssistantTurn}
use onejudge.Engine.{SimulatedUser}
use onejudge.Engine.Redirects.{Redirect, push_redirected}
use onejudge.Engine.Host.{Host, Plan}
use onejudge.Engine.Monad.{
  Exit, Run, Reply, M, next, exit, ended, failed, panicked, out_of_fuel, ◌>>=◌,
}
use onejudge.Engine.Worker.{
  Opened, Called, after_reply, push_reply, check_end, max_turns_of, noop_settled,
}
use onejudge.Engine.Supervisor.{is_supervised, supervise_lost}
use onejudge.Engine.Ensures.{
  Ensures, Ensures-bind, Any, Holds, on_world-Ensures, pure-Ensures, get_run-Ensures,
  stop_if-Ensures,
}
use onejudge.Engine.Growth.{Allows, Justified, Justified-Allows, take_notes-Ensures}
use onejudge.Engine.Drive.{after_worker, after_error, after_call, round, run_loop, start_run, drive}
use onejudge.Engine.Growth.WorkerSteps.{
  open_turn-Ensures, call_worker-Ensures, take_reply-Ensures, observe_unless-Ensures,
}
use onejudge.Engine.Growth.Loop.{round-Ensures, notes_or_supervise-Ensures}
use onejudge.Engine.Growth.Turns.{
  Relates, Relates-bind, Ensures-Keeps, Through, turns, Adds, Below, AddsBelow,
  push_redirected-turns,
}

module _ {d : Platform} {W : Type 0} (h : Host d W) (p : Plan) where
  push_reply-Adds :
      (rs : List Redirect) (turn : AssistantTurn d) → Relates Adds (push_reply h p rs turn)
  unfolding push_reply
  push_reply-Adds rs turn = record {
    at = λ r. pushed r (push_redirected r.transcript rs turn.message turn.events) refl;
  }
    where
      pushed :
          (r : Run d W) (o : Option (Transcript d))
          → push_redirected r.transcript rs turn.message turn.events ≡ o
          → Through Adds r
              (elim o [ none ↦ exit panicked r | some t ↦ next tt (record r { transcript = t }) ])
      pushed r none e = tt
      pushed r (some t) e = push_redirected-turns r.transcript rs turn.message turn.events e

  keep_then :
      {A B : Type 0} {V : A → Type 0} {m : M d W A} {f : A → M d W B}
      → Ensures (Justified h) V m
      → ((a : A) → Relates Adds (f a))
      → Relates Adds (m >>= f)
  keep_then k l = Relates-bind (λ r s t x y. omega arith) (Ensures-Keeps k) l

  keep_then_below :
      {A B : Type 0} {V : A → Type 0} {m : M d W A} {f : A → M d W B} {limit : ℕ}
      → Ensures (Justified h) V m
      → ((a : A) → Relates (AddsBelow limit) (f a))
      → Relates (AddsBelow limit) (m >>= f)
  keep_then_below k l = Relates-bind (λ r s t x y. (omega arith, omega arith)) (Ensures-Keeps k) l

  after_reply-Adds :
      (o : Opened d) (c : Called d) (turn : AssistantTurn d)
      → Relates Adds (after_reply h p o c turn)
  unfolding after_reply
  after_reply-Adds o c turn =
      let q = Justified-Allows h in
      keep_then (take_reply-Ensures h p q o turn) λ settles.
        keep_then (on_world-Ensures h.now) λ at. keep_then get_run-Ensures λ r.
          keep_then (observe_unless-Ensures h p q c.broke _) λ broke.
            keep_then (observe_unless-Ensures h p q broke _) λ broke'.
              Relates-bind (λ r s t x y. omega arith) (push_reply-Adds c.redirects turn)
                λ _. Ensures-Keeps {V = Any} (
                  Ensures-bind (Justified h) (stop_if-Ensures broke' tt)
                    λ _ _. pure-Ensures settles tt)

  abbrev pub turn_limit : Option SimulatedUser → ℕ
  turn_limit none = 0
  turn_limit (some u) = max_turns_of h p u

  check_end-Below :
      (u : SimulatedUser) (done settles : Bool)
      → Relates (Below (max_turns_of h p u)) (check_end h p u done settles)
  unfolding check_end
  check_end-Below u done settles = record {
    at = λ r.
        checked r (done || leb (max_turns_of h p u) (assistant_turns r.transcript)) settles refl;
  }
    where
      checked :
          (r : Run d W) (over settles : Bool)
          → (done || leb (max_turns_of h p u) (assistant_turns r.transcript)) ≡ over
          → Through (Below (max_turns_of h p u)) r (
              if over
              then exit (ended none none) r
              else if settles
              then exit (ended none (some noop_settled)) r
              else next tt r)
      checked r true settles e = tt
      checked r false true e = tt
      checked r false false e = (ground arith, omega arith)

  after_worker-Below :
      (fuel : ℕ) (u : Option SimulatedUser) (o : Opened d) (done settles : Bool)
      → Relates (Below (turn_limit u)) (after_worker h p fuel u o done settles)
  unfolding after_worker
  after_worker-Below fuel none o done settles = record { at = λ r. tt }
  after_worker-Below fuel (some u) o done settles =
      Relates-bind (λ r s t x y. (x.0, omega arith)) (check_end-Below u done settles)
        λ _. Ensures-Keeps (
          Ensures-bind (Justified h) (take_notes-Ensures h p.has_notes) λ arrived _.
            notes_or_supervise-Ensures h p (Justified-Allows h) fuel u o arrived (inl tt))

  abbrev Returning : Exit → Type 0
  Returning e = e ≢ out_of_fuel

  abbrev Back : Exit × Run d W → Type 0
  Back x = Returning x.0

  returning : Allows h Returning
  returning = record {
    on_stopped = λ e. cc;
    on_failed = λ x e. cc;
    on_panicked = λ e. cc;
    on_settled = λ why e. cc;
    on_completed = λ reason a e. cc;
  }

  module _ (unsupervised : (w : W) → h.supervises_lost_turns w ≡ false) where
    after_error-exits :
        (R : Run d W → Run d W → Type 0) (u : Option SimulatedUser) (o : Opened d) (c : Called d)
        (e : Error)
        → Relates R (after_error h p u o c e)
    unfolding after_error is_supervised
    after_error-exits R none o c e = record { at = λ r. tt }
    after_error-exits R (some u) o c e = record {
      at = λ r.
          subst
            (λ b.
              Through R r
                (elim b [ true ↦ supervise_lost h p u o c e r | false ↦ exit (failed e) r ]))
            (sym (ap (λ b. b && is_some (kind e)) (unsupervised r.world))) tt;
    }

    after_call-AddsBelow :
        (fuel : ℕ) (o : Opened d) (c : Called d) (x : Result (AssistantTurn d))
        → Relates (AddsBelow (turn_limit p.conversation.user)) (after_call h p fuel o c x)
    unfolding after_call
    after_call-AddsBelow fuel o c (ok turn) =
        Relates-bind (λ r s t x y. (omega arith, omega arith)) (after_reply-Adds o c turn)
          λ settles. after_worker-Below fuel p.conversation.user o turn.done settles
    after_call-AddsBelow fuel o c (err e) = after_error-exits _ p.conversation.user o c e

    round-AddsBelow :
        (fuel : ℕ) → Relates (AddsBelow (turn_limit p.conversation.user)) (round h p fuel)
    unfolding round
    round-AddsBelow fuel =
        let q = Justified-Allows h in
        keep_then_below (open_turn-Ensures h p q) λ o.
          keep_then_below (call_worker-Ensures h p q o.index)
            λ c. after_call-AddsBelow fuel o c c.result

    run_loop-returns :
        (inner rounds : ℕ) (r : Run d W)
        → p.has_notes ≡ false
        → 1 ≤ inner
        → 1 ≤ rounds
        → turn_limit p.conversation.user ≤ turns r + rounds
        → (run_loop h p inner rounds r).0 ≢ out_of_fuel
    unfolding run_loop
    run_loop-returns inner zero r off some_inner some_round fits = absurd (omega arith)
    run_loop-returns inner (suc rounds) r off some_inner some_round fits =
        looped (round h p inner r)
          ((round-Ensures h p returning inner (inr (off, some_inner))).at r)
          ((round-AddsBelow inner).at r)
          (λ s below. run_loop-returns inner rounds s off some_inner (omega arith) (omega arith))
      where
        looped :
            (x : Reply d W (Unit {0}))
            → Holds Returning Any r x
            → Through (AddsBelow (turn_limit p.conversation.user)) r x
            → ((s : Run d W)
                → AddsBelow (turn_limit p.conversation.user) r s
                → (run_loop h p inner rounds s).0 ≢ out_of_fuel)
            → Back (elim x [ next done s ↦ run_loop h p inner rounds s | exit e s ↦ (e, s) ])
        looped (next done s) v below rest = rest s below
        looped (exit e s) v below rest = v.1

    -- With no inbox, with a provider that supervises no lost turns, and with fuel for one decision
    -- a turn, as many rounds as the turn limit allows, but at least one, are enough for the run to
    -- end otherwise than by running out of them.
    pub drive-returns :
        (inner rounds : ℕ) (ns : List DeliveredNote) (w : W)
        → p.has_notes ≡ false
        → 1 ≤ inner
        → 1 ≤ rounds
        → turn_limit p.conversation.user ≤ rounds
        → (drive h p inner rounds ns w).0 ≢ out_of_fuel
    unfolding drive
    drive-returns inner rounds ns w off some_inner some_round fits =
        run_loop-returns inner rounds (start_run h p ns w) off some_inner some_round (omega arith)
