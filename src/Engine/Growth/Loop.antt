-- ===== src/Engine/Growth/Loop.antt =====
-- What a whole conversation keeps: its transcript and its completion reason.
use onejudge.Common.{
  some_inj, ℕ, zero, suc, ◌≡◌, refl, ap, ◌∙◌, subst, inl, Bool, true, false, Option, none, some,
  List, [], ◌∷◌, Text, map_some,
}
use onejudge.Platform.{Platform}
use onejudge.Error.{Error, Result, ok, err}
use onejudge.Transcript.{user_message, from_input}
use onejudge.Note.{DeliveredNote}
use onejudge.Provider.{AssistantTurn}
use onejudge.Engine.{SimulatedUser, Outcome}
use onejudge.Engine.Redirects.{Sent}
use onejudge.Engine.Host.{Host, Plan}
use onejudge.Engine.Monad.{
  Exit, Run, Reply, next, exit, stopped, ended, failed, panicked, out_of_fuel,
}
use onejudge.Engine.Worker.{Opened, Called}
use onejudge.Engine.Supervisor.{supervise_lost, is_supervised}
use onejudge.Engine.Ensures.{
  Grows-trans, exit-Ensures, Grows, Holds, Extends, Grows-refl, Ensures, Ensures-bind, Any,
}
use onejudge.Engine.Growth.{
  Justified, Justified-Allows, Answered, Allows, Fueled, take_notes-Ensures,
}
use onejudge.Engine.Drive.{
  notes_or_supervise, after_worker, after_error, after_call, round, run_loop, start_run, drive,
  returned, finish, converse,
}
use onejudge.Engine.Growth.WorkerSteps.{
  hand_to_worker-Ensures, open_turn-Ensures, call_worker-Ensures, after_reply-Ensures,
  check_end-Ensures,
}
use onejudge.Engine.Growth.SupervisorSteps.{supervise-Ensures, supervise_lost-Ensures}

ok_inj : {A : Type 0} {a b : A} → some (ok a) ≡ some (ok b) → a ≡ b
ok_inj q = cc

map_some-some :
    {A B : Type 0} (f : A → B) (o : Option A) {b : B}
    → map_some f o ≡ some b
    → (a : A) × ((o ≡ some a) × (f a ≡ b))
map_some-some f none q = absurd cc
map_some-some f (some a) q = (a, (refl, some_inj q))

module _ {d : Platform} {W : Type 0} (h : Host d W) (p : Plan) {Q : Exit → Type 0}
    (q : Allows h Q) where
  pub notes_or_supervise-Ensures :
      (fuel : ℕ) (u : SimulatedUser) (o : Opened d) (ss : List Sent)
      → Fueled Q p.has_notes fuel
      → Ensures Q Any (notes_or_supervise h p fuel u o ss)
  unfolding notes_or_supervise
  notes_or_supervise-Ensures fuel u o [] fueled = supervise-Ensures h p q fuel u o.index fueled
  notes_or_supervise-Ensures fuel u o (s ∷ ss) fueled = hand_to_worker-Ensures h p q (s ∷ ss) _

  after_worker-Ensures :
      (fuel : ℕ) (u : Option SimulatedUser) (o : Opened d) (done settles : Bool)
      → Fueled Q p.has_notes fuel
      → Ensures Q Any (after_worker h p fuel u o done settles)
  unfolding after_worker
  after_worker-Ensures fuel none o done settles fueled = exit-Ensures _ (q.on_settled none)
  after_worker-Ensures fuel (some u) o done settles fueled =
      Ensures-bind Q (check_end-Ensures h p q u done settles) λ _ _.
        Ensures-bind Q (take_notes-Ensures h p.has_notes)
          λ arrived _. notes_or_supervise-Ensures fuel u o arrived fueled

  after_error-Ensures :
      (u : Option SimulatedUser) (o : Opened d) (c : Called d) (e : Error)
      → Ensures Q Any (after_error h p u o c e)
  unfolding after_error
  after_error-Ensures none o c e = exit-Ensures (failed e) (q.on_failed e)
  after_error-Ensures (some u) o c e = record {
    at = λ r. supervised r (is_supervised h p e r.world);
  }
    where
      supervised :
          (r : Run d W) (b : Bool)
          → Holds Q Any r
              (elim b [ true ↦ supervise_lost h p u o c e r | false ↦ exit (failed e) r ])
      supervised r true = (supervise_lost-Ensures h p q u o c e).at r
      supervised r false = (Grows-refl r, q.on_failed e)

  after_call-Ensures :
      (fuel : ℕ) (o : Opened d) (c : Called d) (x : Result (AssistantTurn d))
      → Fueled Q p.has_notes fuel
      → Ensures Q Any (after_call h p fuel o c x)
  unfolding after_call
  after_call-Ensures fuel o c (ok turn) fueled =
      Ensures-bind Q (after_reply-Ensures h p q o c turn)
        λ settles _. after_worker-Ensures fuel p.conversation.user o turn.done settles fueled
  after_call-Ensures fuel o c (err e) fueled = after_error-Ensures p.conversation.user o c e

  pub round-Ensures : (fuel : ℕ) → Fueled Q p.has_notes fuel → Ensures Q Any (round h p fuel)
  unfolding round
  round-Ensures fuel fueled = Ensures-bind Q (open_turn-Ensures h p q) λ o _.
      Ensures-bind Q (call_worker-Ensures h p q o.index)
        λ c _. after_call-Ensures fuel o c c.result fueled

module _ {d : Platform} {W : Type 0} (h : Host d W) (p : Plan) where
  run_loop-Ensures :
      (inner rounds : ℕ) (r : Run d W)
      → Grows r (run_loop h p inner rounds r).1 × Justified h (run_loop h p inner rounds r).0
  unfolding run_loop
  run_loop-Ensures inner zero r = (Grows-refl r, tt)
  run_loop-Ensures inner (suc rounds) r =
      looped (round h p inner r) ((round-Ensures h p (Justified-Allows h) inner (inl tt)).at r)
        (run_loop-Ensures inner rounds)
    where
      Kept : Exit × Run d W → Type 0
      Kept x = Grows r x.1 × Justified h x.0

      looped :
          (x : Reply d W (Unit {0}))
          → Holds (Justified h) Any r x
          → ((s : Run d W)
              → Grows s (run_loop h p inner rounds s).1
                × Justified h (run_loop h p inner rounds s).0)
          → Kept (elim x [ next done r' ↦ run_loop h p inner rounds r' | exit e r' ↦ (e, r') ])
      looped (next done r') v rest = let (g, j) = rest r' in (Grows-trans v.0 g, j)
      looped (exit e r') v rest = v

  drive-Ensures :
      (inner rounds : ℕ) (ns : List DeliveredNote) (w : W)
      → Grows (start_run h p ns w) (drive h p inner rounds ns w).1
        × Justified h (drive h p inner rounds ns w).0
  unfolding drive
  drive-Ensures inner rounds ns w = run_loop-Ensures inner rounds (start_run h p ns w)

  -- The notes that the run has delivered at its end start with those it was given, in their order.
  pub drive-delivered :
      (inner rounds : ℕ) (ns : List DeliveredNote) (w : W)
      → Extends ns (drive h p inner rounds ns w).1.delivered
  unfolding start_run
  drive-delivered inner rounds ns w = (drive-Ensures inner rounds ns w).0.delivered

  -- What holds of an outcome of a run.
  record Sound (o : Outcome d) : Type 0 where
    transcript : Extends (user_message p.conversation.input ∷ []) o.transcript.messages
    completed :
        (reason : Text)
        → o.completion_reason ≡ some reason
        → Answered h reason × ((o.settled_reason ≡ none) × (o.stopped_early ≡ false))

  returned-Sound :
      (e : Exit) (r : Run d W) {o : Outcome d}
      → Extends (user_message p.conversation.input ∷ []) r.transcript.messages
      → Justified h e
      → returned h p (e, r) ≡ some (ok o)
      → Sound o
  unfolding returned finish
  returned-Sound stopped r x j q =
      subst Sound (ok_inj q) (record { transcript = x; completed = λ reason c. absurd cc })
  returned-Sound (ended none settled) r x j q =
      subst Sound (ok_inj q) (record { transcript = x; completed = λ reason c. absurd cc })
  returned-Sound (ended (some reason) settled) r x j q = subst Sound (ok_inj q) (record {
    transcript = x;
    completed = λ reason' c. (subst (Answered h) (some_inj c) j.0, (j.1, refl));
  })
  returned-Sound (failed e) r x j q = absurd cc
  returned-Sound panicked r x j q = absurd cc
  returned-Sound out_of_fuel r x j q = absurd cc

  converse-Sound :
      (inner rounds : ℕ) (ns : List DeliveredNote) (w w' : W) {o : Outcome d}
      → converse h p inner rounds ns w ≡ some (ok o, w')
      → Sound o
  unfolding converse start_run from_input
  converse-Sound inner rounds ns w w' {o} q =
      let x = drive h p inner rounds ns w in
      let (g, j) = drive-Ensures inner rounds ns w in
      let (result, (e, c)) = map_some-some _ _ q in
      returned-Sound x.0 x.1 g.transcript j (e ∙ ap some (ap (λ z. z.0) c))

  -- The transcript of a conversation that comes to an outcome starts with the user's input.
  pub converse-transcript :
      (inner rounds : ℕ) (ns : List DeliveredNote) (w w' : W) {o : Outcome d}
      → converse h p inner rounds ns w ≡ some (ok o, w')
      → Extends (user_message p.conversation.input ∷ []) o.transcript.messages
  converse-transcript inner rounds ns w w' q = (converse-Sound inner rounds ns w w' q).transcript

  -- A conversation whose outcome has a completion reason was completed by an answer of the
  -- supervisor with that reason; its outcome has no settled reason and was not stopped early.
  pub converse-completion :
      (inner rounds : ℕ) (ns : List DeliveredNote) (w w' : W) {o : Outcome d} {reason : Text}
      → converse h p inner rounds ns w ≡ some (ok o, w')
      → o.completion_reason ≡ some reason
      → Answered h reason × ((o.settled_reason ≡ none) × (o.stopped_early ≡ false))
  converse-completion inner rounds ns w w' {reason = reason} q c =
      (converse-Sound inner rounds ns w w' q).completed reason c
