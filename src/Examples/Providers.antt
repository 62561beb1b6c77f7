-- ===== src/Examples/Providers.antt =====
-- Examples of reading and repeating a supervisor's answer.
use onejudge.Common.{ℕ, ◌+◌, true, none, some, codes, text_eq, if◌then◌else◌}
use onejudge.Platform.{Platform}
use onejudge.Error.{Result, ok}
use onejudge.Provider.{unparseable, SupervisorTurn}
use onejudge.Provider.Reask.{Ask, supervise_with_reask}
use onejudge.Provider.Reask.Asks.{counted, Asked, supervise_with_reask-Asked}
use onejudge.Examples.{plain}

-- Every object is a completion with the reason "done".
abbrev agreeing : Platform
agreeing = record plain {
  parses = λ t. true;
  get = λ v k. if text_eq k (codes "message") then none else some 1;
  as_bool = λ v. some true;
  as_str = λ v. some (codes "done");
}

abbrev mumble : Ask → ℕ → Result (SupervisorTurn plain) × ℕ
mumble a w = (ok (record { outcome = unparseable (codes "?") (codes "hm"); usage = none }), w)

supervise_with_reask-Asked_example :
    Asked {d = plain} (0 + 1) (0 + 3) (supervise_with_reask (counted mumble) (7, 0))
supervise_with_reask-Asked_example = supervise_with_reask-Asked mumble 7 0
