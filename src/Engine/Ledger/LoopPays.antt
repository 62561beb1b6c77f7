-- ===== src/Engine/Ledger/LoopPays.antt =====
-- Every send that a conversation takes from its inbox is settled by the time it ends.
use onejudge.Common.{
  sym, true≢false, ℕ, zero, suc, ◌+◌, ◌≡◌, refl, ◌∙◌, ◌≢◌, ◌⊎◌, inl, inr, Bool, true, false, Option,
  none, some, List, [], ◌∷◌, arith,
}
use onejudge.Platform.{Platform}
use onejudge.Error.{Result, ok, err, Error}
use onejudge.Note.{DeliveredNote}
use onejudge.Provider.{AssistantTurn}
use onejudge.Engine.{SimulatedUser}
use onejudge.Engine.Redirects.{Sent}
use onejudge.Engine.Host.{Host, Plan}
use onejudge.Engine.Monad.{Run, Reply, Exit, next, exit, failed, out_of_fuel}
use onejudge.Engine.Worker.{Opened, Called}
use onejudge.Engine.Supervisor.{is_supervised, supervise_lost}
use onejudge.Engine.Ledger.WorkerPays.{
  take_notes-Pays, hand_to_worker-Pays, open_turn-Pays, call_worker-Pays, after_reply-Pays,
  check_end-Pays,
}
use onejudge.Engine.Ledger.SupervisorPays.{supervise-Pays}
use onejudge.Engine.Ledger.LostPays.{supervise_lost-Pays}
use onejudge.Engine.Ledger.{count, Counts, Ledger}
use onejudge.Engine.Ledger.Pays.{
  Due, Kept, Kept-trans, After, Pays, Pays-bind, weigh, Any, same, exit-Pays,
}
use onejudge.Engine.Drive.{
  notes_or_supervise, after_worker, after_error, after_call, round, run_loop, start_run, drive,
}

module _ {d : Platform} {W : Type 0} (h : Host d W) (p : Plan) (c : Counts W) (x : ℕ)
    (l : Ledger h c x) where
  notes_or_supervise-Pays :
      (fuel : ℕ) (u : SimulatedUser) (o : Opened d) (ss : List Sent)
      → Pays c p.streaming (count x ss) (notes_or_supervise h p fuel u o ss) (same 0) Any
  unfolding notes_or_supervise
  notes_or_supervise-Pays fuel u o [] = supervise-Pays h p c x l fuel u o.index
  notes_or_supervise-Pays fuel u o (s ∷ ss) = hand_to_worker-Pays h p c x l (s ∷ ss) _

  after_worker-Pays :
      (fuel : ℕ) (u : Option SimulatedUser) (o : Opened d) (done settles : Bool)
      → Pays c p.streaming 0 (after_worker h p fuel u o done settles) (same 0) Any
  unfolding after_worker
  after_worker-Pays fuel none o done settles = exit-Pays _
  after_worker-Pays fuel (some u) o done settles =
      Pays-bind c p.streaming (check_end-Pays h p c x l u done settles) λ _ _.
        Pays-bind c p.streaming (take_notes-Pays h p c x l 0 p.has_notes)
          λ arrived _. weigh c p.streaming (omega arith) (notes_or_supervise-Pays fuel u o arrived)

  after_error-Pays :
      (u : Option SimulatedUser) (o : Opened d) (k : Called d) (e : Error)
      → Pays c p.streaming 0 (after_error h p u o k e) (same 0) Any
  unfolding after_error
  after_error-Pays none o k e = exit-Pays (failed e)
  after_error-Pays (some u) o k e = record {
    at = λ r due. supervised r due (is_supervised h p e r.world);
  }
    where
      supervised :
          (r : Run d W)
          → Due c p.streaming 0 r
          → (b : Bool)
          → After c p.streaming
              (same 0)
              Any
              r
              (elim b [ true ↦ supervise_lost h p u o k e r | false ↦ exit (failed e) r ])
      supervised r due true = (supervise_lost-Pays h p c x l u o k e).at r due
      supervised r due false = inr (due, inr refl)

  after_call-Pays :
      (fuel : ℕ) (o : Opened d) (k : Called d) (y : Result (AssistantTurn d))
      → Pays c p.streaming 0 (after_call h p fuel o k y) (same 0) Any
  unfolding after_call
  after_call-Pays fuel o k (ok turn) =
      Pays-bind c p.streaming (after_reply-Pays h p c x l o k turn)
        λ settles _. after_worker-Pays fuel p.conversation.user o turn.done settles
  after_call-Pays fuel o k (err e) = after_error-Pays p.conversation.user o k e

  round-Pays : (fuel : ℕ) → Pays c p.streaming 0 (round h p fuel) (same 0) Any
  unfolding round
  round-Pays fuel = Pays-bind c p.streaming (open_turn-Pays h p c x l) λ o _.
      Pays-bind c p.streaming (call_worker-Pays h p c x l o.index)
        λ k _. after_call-Pays fuel o k k.result

  abbrev Settled : Run d W → Exit × Run d W → Type 0
  Settled r (e, s) = (e ≡ out_of_fuel) ⊎ (Due c p.streaming 0 s × Kept c p.streaming r s)

  run_loop-Settled :
      (inner rounds : ℕ) (r : Run d W)
      → Due c p.streaming 0 r
      → Settled r (run_loop h p inner rounds r)
  unfolding run_loop
  run_loop-Settled inner zero r due = inl refl
  run_loop-Settled inner (suc rounds) r due =
      looped (round h p inner r) ((round-Pays inner).at r due) (run_loop-Settled inner rounds)
    where
      later :
          (s : Run d W) (z : Exit × Run d W) → Kept c p.streaming r s → Settled s z → Settled r z
      later s z kept (inl out) = inl out
      later s z kept (inr (due, k)) = inr (due, Kept-trans c p.streaming r s z.1 kept k)

      looped :
          (y : Reply d W (Unit {0}))
          → After c p.streaming (same 0) Any r y
          → ((s : Run d W) → Due c p.streaming 0 s → Settled s (run_loop h p inner rounds s))
          → Settled r (elim y [ next done r' ↦ run_loop h p inner rounds r' | exit e r' ↦ (e, r') ])
      looped (next done s) (_, (due, kept)) rest =
          later s (run_loop h p inner rounds s) kept (rest s due)
      looped (exit e s) v rest = v

  -- Where a send was answered and dropped as often as the inbox handed it out, it is so again when
  -- the run has ended, however it ended but for the model's fuel; and a run that is not streamed
  -- has dropped none, so that every send handed out is answered. The host keeps account of the send.
  pub drive-settles_sends :
      (inner rounds : ℕ) (ns : List DeliveredNote) (w : W)
      → c.taken w ≡ c.answered w + c.dropped w
      → (drive h p inner rounds ns w).0 ≢ out_of_fuel
      → (c.taken (drive h p inner rounds ns w).1.world
          ≡ c.answered (drive h p inner rounds ns w).1.world
            + c.dropped (drive h p inner rounds ns w).1.world)
        × ((p.streaming ≡ false) → c.dropped (drive h p inner rounds ns w).1.world ≡ c.dropped w)
  unfolding drive start_run
  drive-settles_sends inner rounds ns w e returns =
      let (t, a, k) = l.on_reset w in
      let (t', a', k') = l.on_scope (h.reset_telemetry w) _ in
      elim (run_loop-Settled inner rounds (start_run h p ns w)
        (omega (arith, t, a, k, t', a', k'))) [
          | inl out ↦ absurd (returns out)
          | inr (due, kept) ↦ (
            omega arith,
            λ off. elim kept [
              | inl on ↦ absurd (true≢false (sym on ∙ off))
              | inr same ↦ same ∙ (k' ∙ k)
            ],
          )
        ]
