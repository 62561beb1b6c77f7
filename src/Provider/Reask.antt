-- ===== src/Provider/Reask.antt =====
-- crates/onejudge/src/provider.rs: `supervise_with_reask`, which asks the supervisor again after an
-- answer that cannot be used. The state of the asking closure is the parameter `W`.
pub mod Asks
pub mod Outcomes
use onejudge.Common.{ℕ, zero, suc, ◌+◌, Option, none, some, []}
use onejudge.Platform.{Platform}
use onejudge.Usage.{Usage, default_usage, add_some_usage, some_unless_empty}
use onejudge.Error.{Result, ok, err}
use onejudge.Provider.{SupervisorOutcome, completed, continue, SupervisorTurn}

pub data Reask : Type 0 where
  no_instruction unparseable : Reask

pub record Ask : Type 0 where
  pub attempt : ℕ
  pub reask : Option Reask

abbrev pub supervisor_reask_limit : ℕ
supervisor_reask_limit = 2

-- Why an outcome has to be asked for again, if it has.
unfoldable pub unusable : SupervisorOutcome → Option Reask
unusable (completed reason) = none
unusable (continue message reason) = none
unusable (SupervisorOutcome.no_instruction reason) = some Reask.no_instruction
unusable (SupervisorOutcome.unparseable problem answer) = some Reask.unparseable

module _ {d : Platform} {W : Type 0} (ask : Ask → W → Result (SupervisorTurn d) × W) where
  -- The rounds that are left, the round's number, the note on the last answer, and the last answer.
  unfoldable pub reask_from :
      ℕ → ℕ → Option Reask → SupervisorOutcome → Usage d → W → Result (SupervisorTurn d) × W
  reask_from zero attempt reask last usage w =
      (ok (record { outcome = last; usage = some_unless_empty usage }), w)
  reask_from (suc left) attempt reask last usage w =
      let (answer, w') = ask (record { attempt = attempt; reask = reask }) w in
      elim answer [
        | err e ↦ (err e, w')
        | ok turn ↦ elim (unusable turn.outcome) [
          | none ↦ (
            ok (record {
              outcome = turn.outcome;
              usage = some_unless_empty (add_some_usage usage turn.usage);
            }),
            w',
          )
          | some why ↦
              reask_from left (suc attempt) (some why) turn.outcome
                (add_some_usage usage turn.usage) w'
        ]
      ]

  unfoldable pub supervise_with_reask : W → Result (SupervisorTurn d) × W
  supervise_with_reask w =
      reask_from (supervisor_reask_limit + 1) 0 none (SupervisorOutcome.no_instruction [])
        default_usage w
