-- ===== src/Llmlint/Decisions.antt =====
-- What the exit of the linter makes of the worker's turn.
use onejudge.Common.{◌≡◌, Option, none, some, List, Text, codes, trim_end}
use onejudge.Platform.{Platform}
use onejudge.Error.{Result, ok, err}
use onejudge.Provider.{
  SupervisorOutcome, completed, continue, no_instruction, unparseable, SupervisorTurn,
  SupervisorQuery,
}
use onejudge.Llmlint.{Tools, LlmlintProvider, Lint, clean, failing}
use onejudge.Llmlint.Reading.{Output, summary_line}
use onejudge.Llmlint.Run.{labels, lint_args, run_command}

-- An exit with 0 and a report that is not blank says clean; one with 1 hands the report on.
abbrev Decides : Output → Lint → Type 0
Decides o (clean summary) = (o.code ≡ some 0) × (summary_line (trim_end o.stdout) ≡ some summary)
Decides o (failing report summary) =
    (o.code ≡ some 1)
    × ((report ≡ trim_end o.stdout) × (summary_line (trim_end o.stdout) ≡ some summary))

-- What a run that ended says about the turn: completed or continued, and nothing else.
abbrev pub Judged : Output → SupervisorOutcome → Type 0
Judged o (completed reason) = Decides o (clean reason)
Judged o (continue message reason) = Decides o (failing message reason)
Judged o (no_instruction reason) = ⊥
Judged o (unparseable problem answer) = ⊥

abbrev pub turn_with : {d : Platform} → SupervisorOutcome → SupervisorTurn d
turn_with s = record { outcome = s; usage = none }

abbrev output_of : Result Output → Option Output
output_of (ok o) = some o
output_of (err e) = none

module _ {d : Platform} {W : Type 0} (t : Tools W) (p : LlmlintProvider d W) (q : SupervisorQuery)
    (w : W) where
  abbrev started_from : LlmlintProvider d W
  started_from = record p { link = none }

  abbrev op : Text
  op = codes "supervise"

  -- What the linter put out, where its labels could be passed and it ran to its end.
  abbrev ran_with : Result (List (Text × Text)) → Option Output
  ran_with (err e) = none
  ran_with (ok ls) =
      output_of
        (run_command t started_from (lint_args t started_from q.worktree ls) op (t.clock w).1).0

  abbrev pub ran : Option Output
  ran = ran_with (labels t started_from op q.turn_index)
