-- ===== src/Provider/Reask/Outcomes.antt =====
-- What holds of every answer that can be passed on holds of the answer that asking again gives.
use onejudge.Common.{ℕ, zero, suc, ◌≡◌, refl, ap, subst, Option, none, some, []}
use onejudge.Platform.{Platform}
use onejudge.Usage.{Usage, some_unless_empty, add_some_usage}
use onejudge.Error.{Result, ok, err}
use onejudge.Provider.{SupervisorOutcome, SupervisorTurn}
use onejudge.Provider.Reask.{Ask, Reask, unusable, reask_from, supervise_with_reask}

ok_inj : {A : Type 0} {a b : A} → ok a ≡ ok b → a ≡ b
ok_inj q = cc

module _ {d : Platform} {W : Type 0} (ask : Ask → W → Result (SupervisorTurn d) × W)
    (P : SupervisorOutcome → Type 0)
    (asked : (a : Ask) (w : W) (turn : SupervisorTurn d)
      → (ask a w).0 ≡ ok turn
      → P turn.outcome) where
  reask_from-All :
      (left attempt : ℕ) (reask : Option Reask) (last : SupervisorOutcome) (usage : Usage d) (w : W)
      {turn : SupervisorTurn d}
      → P last
      → (reask_from ask left attempt reask last usage w).0 ≡ ok turn
      → P turn.outcome
  unfolding reask_from
  reask_from-All zero attempt reask last usage w p e =
      subst P (ap (λ (t : SupervisorTurn d). t.outcome) (ok_inj e)) p
  reask_from-All (suc left) attempt reask last usage w {turn} p e =
      answered (ask (record { attempt = attempt; reask = reask }) w)
        (asked (record { attempt = attempt; reask = reask }) w) e
        (λ why last usage w p e. reask_from-All left (suc attempt) (some why) last usage w p e)
    where
      Behind : Type 0
      Behind =
          (why : Reask) (last : SupervisorOutcome) (usage : Usage d) (w : W)
          → P last
          → (reask_from ask left (suc attempt) (some why) last usage w).0 ≡ ok turn
          → P turn.outcome

      answered :
          (y : Result (SupervisorTurn d) × W)
          → ((t : SupervisorTurn d) → y.0 ≡ ok t → P t.outcome)
          → (let z : Result (SupervisorTurn d) × W = elim y.0 [
            | err e ↦ (err e, y.1)
            | ok t ↦ elim (unusable t.outcome) [
              | none ↦ (
                ok (record {
                  outcome = t.outcome;
                  usage = some_unless_empty (add_some_usage usage t.usage);
                }),
                y.1,
              )
              | some why ↦
                  reask_from ask left
                    (suc attempt)
                    (some why)
                    t.outcome
                    (add_some_usage usage t.usage)
                    y.1
            ]
          ] in
              z.0 ≡ ok turn → Behind → P turn.outcome)
      answered (err e, w1) a q behind = absurd cc
      answered (ok t, w1) a q behind = judged (unusable t.outcome) q
        where
          judged :
              (o : Option Reask)
              → (let z : Result (SupervisorTurn d) × W = elim o [
                | none ↦ (
                  ok (record {
                    outcome = t.outcome;
                    usage = some_unless_empty (add_some_usage usage t.usage);
                  }),
                  w1,
                )
                | some why ↦
                    reask_from ask left
                      (suc attempt)
                      (some why)
                      t.outcome
                      (add_some_usage usage t.usage)
                      w1
              ] in
                  z.0 ≡ ok turn → P turn.outcome)
          judged none q = subst P (ap (λ (t : SupervisorTurn d). t.outcome) (ok_inj q)) (a t refl)
          judged (some why) q = behind why t.outcome _ w1 (a t refl) q

  pub supervise_with_reask-All :
      (w : W) (turn : SupervisorTurn d)
      → P (SupervisorOutcome.no_instruction [])
      → (supervise_with_reask ask w).0 ≡ ok turn
      → P turn.outcome
  unfolding supervise_with_reask
  supervise_with_reask-All w turn p e = reask_from-All _ _ _ _ _ w p e
