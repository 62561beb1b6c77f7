-- ===== src/Provider/Reask/Asks.antt =====
-- How often a supervisor is asked.
use onejudge.Common.{
  true≢false, ℕ, zero, suc, ◌+◌, ◌≤◌, ◌≡◌, refl, sym, ap, ◌∙◌, Bool, true, false, Option, none,
  some, arith, is_some,
}
use onejudge.Platform.{Platform}
use onejudge.Usage.{some_unless_empty, add_some_usage, Usage}
use onejudge.Error.{Result, ok, err}
use onejudge.Provider.{SupervisorOutcome, SupervisorTurn}
use onejudge.Provider.Reask.{Reask, Ask, unusable, reask_from, supervise_with_reask}

-- One call at least is made if any is left.
abbrev pub some_calls : ℕ → ℕ
some_calls zero = 0
some_calls (suc left) = 1

-- The asking closure, with a count of its calls.
abbrev pub counted :
    {d : Platform} {W : Type 0}
    → (Ask → W → Result (SupervisorTurn d) × W)
    → Ask
    → W × ℕ
    → Result (SupervisorTurn d) × (W × ℕ)
counted ask a (w, n) = ((ask a w).0, ((ask a w).1, suc n))

-- An answer that cannot be used is passed on.
abbrev pub gives_up : {d : Platform} → Result (SupervisorTurn d) → Bool
gives_up (ok turn) = is_some (unusable turn.outcome)
gives_up (err e) = false

-- Calls from `n` on: at least so many, at most so many, and all of them where the asking gives up.
abbrev pub Asked :
    {d : Platform} {W : Type 0} → ℕ → ℕ → Result (SupervisorTurn d) × (W × ℕ) → Type 0
Asked low high (result, (w, n)) = (low ≤ n) × ((n ≤ high) × (gives_up result ≡ true → n ≡ high))

module _ {d : Platform} {W : Type 0} (ask : Ask → W → Result (SupervisorTurn d) × W) where
  reask_from-Asked :
      (left attempt : ℕ) (reask : Option Reask) (last : SupervisorOutcome) (usage : Usage d) (w : W)
      (n : ℕ)
      → Asked {d = d} {W = W}
          (n + some_calls left)
          (n + left)
          (reask_from (counted ask) left attempt reask last usage (w, n))
  unfolding reask_from
  reask_from-Asked zero attempt reask last usage w n =
      (omega arith, (omega arith, λ g. omega arith))
  reask_from-Asked (suc left) attempt reask last usage w n =
      answered (ask (record { attempt = attempt; reask = reask }) w).0 (λ why last usage.
        reask_from-Asked left (suc attempt) (some why) last usage
          (ask (record { attempt = attempt; reask = reask }) w).1 (suc n))
    where
      w' : W × ℕ
      w' = ((ask (record { attempt = attempt; reask = reask }) w).1, suc n)

      Rest : Type 0
      Rest =
          (why : Reask) (last : SupervisorOutcome) (usage : Usage d)
          → Asked {d = d} {W = W} (suc n + some_calls left) (suc n + left)
              (reask_from (counted ask) left (suc attempt) (some why) last usage w')

      judged :
          (turn : SupervisorTurn d) (o : Option Reask)
          → unusable turn.outcome ≡ o
          → Rest
          → Asked {d = d} {W = W} (n + 1) (n + suc left) (elim o [
            | none ↦ (
              ok (record {
                outcome = turn.outcome;
                usage = some_unless_empty (add_some_usage usage turn.usage);
              }),
              w',
            )
            | some why ↦
                reask_from
                  (counted ask)
                  left
                  (suc attempt)
                  (some why)
                  turn.outcome
                  (add_some_usage usage turn.usage)
                  w'
          ])
      judged turn none e rest =
          (omega arith, (omega arith, λ g. absurd (true≢false (sym g ∙ ap is_some e))))
      judged turn (some why) e rest =
          let k = rest why turn.outcome (add_some_usage usage turn.usage) in
          (omega arith, (omega arith, λ g. k.1.1 g ∙ omega arith))

      answered :
          (x : Result (SupervisorTurn d))
          → Rest
          → Asked {d = d} {W = W} (n + 1) (n + suc left) (elim x [
            | err e ↦ (err e, w')
            | ok turn ↦ elim (unusable turn.outcome) [
              | none ↦ (
                ok (record {
                  outcome = turn.outcome;
                  usage = some_unless_empty (add_some_usage usage turn.usage);
                }),
                w',
              )
              | some why ↦
                  reask_from
                    (counted ask)
                    left
                    (suc attempt)
                    (some why)
                    turn.outcome
                    (add_some_usage usage turn.usage)
                    w'
            ]
          ])
      answered (err e) rest = (omega arith, (omega arith, λ g. absurd (true≢false (sym g))))
      answered (ok turn) rest = judged turn (unusable turn.outcome) refl rest

  -- The supervisor is asked once at least and three times at most, and an answer that cannot be
  -- used is passed on only after the third time.
  pub supervise_with_reask-Asked :
      (w : W) (n : ℕ)
      → Asked {d = d} {W = W} (n + 1) (n + 3) (supervise_with_reask (counted ask) (w, n))
  unfolding supervise_with_reask
  supervise_with_reask-Asked w n = reask_from-Asked 3 0 none _ _ w n
