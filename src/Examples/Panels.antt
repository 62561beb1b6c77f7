-- ===== src/Examples/Panels.antt =====
-- Examples of panels of judges.
use onejudge.Common.{
  ◌≡◌, refl, ◌≢◌, ◌↔◌, true, false, none, some, List, [], ◌∷◌, ◌++◌, map, Text, codes,
  is_whitespace, trim_start, trim_end, trim, join, keep, any, all,
}
use onejudge.Error.{Result, ok, err}
use onejudge.Provider.{
  SupervisorTurn, completed, continue, no_instruction, JudgeVerdict, bool, boolean,
}
use onejudge.Panel.{is_err, Linked, Results, combine_supervision, is_multi}
use onejudge.Panel.Setup.{new_panel_iff, Distinct}
use onejudge.Panel.Decisions.{combine_supervision-completes, combine_supervision-is_err, completes}
use onejudge.Panel.Setup.{new_panel}
use onejudge.Panel.Verdicts.{judge_across}
use onejudge.Panel.Messages.{
  instruction_of, instructs, quoted, is_unsatisfied, combine_supervision-message,
}
use onejudge.Panel.Passing.{judge_across-holds, holds}
use onejudge.Examples.{plain, first_judge, second_judge, failure_error}

new_panel_iff_example :
    (new_panel (first_judge ∷ second_judge ∷ []) ≡ ok (first_judge ∷ second_judge ∷ []))
    ↔ (((first_judge ∷ second_judge ∷ []) ≢ []) × Distinct [] (first_judge ∷ second_judge ∷ []))
new_panel_iff_example = new_panel_iff (first_judge ∷ second_judge ∷ [])

abbrev content : Result (SupervisorTurn plain)
content = ok (record { outcome = completed (codes "all done"); usage = none })

abbrev demanding : Result (SupervisorTurn plain)
demanding =
    ok (record { outcome = continue (codes "Run the tests.") (codes "untested"); usage = none })

abbrev split_panel : List (Linked plain)
split_panel = (first_judge, content, none) ∷ (second_judge, demanding, none) ∷ []

combine_supervision-completes_example :
    completes (combine_supervision (is_multi split_panel) [] split_panel).1
    ≡ all (λ x. completes x.1) split_panel
combine_supervision-completes_example = combine_supervision-completes [] split_panel (λ e. cc)

combine_supervision-is_err_example :
    is_err
      (combine_supervision {d = plain} true []
        ((first_judge, err failure_error, none) ∷ split_panel)).1
    ≡ any (λ x. is_err x.1) ((first_judge, err failure_error, none) ∷ split_panel)
combine_supervision-is_err_example =
    combine_supervision-is_err true [] ((first_judge, err failure_error, none) ∷ split_panel)

abbrev undecided : Result (SupervisorTurn plain)
undecided = ok (record { outcome = no_instruction (codes " flaky "); usage = none })

abbrev wide_panel : List (Linked plain)
wide_panel =
    (first_judge, undecided, none)
    ∷ (first_judge, content, none)
    ∷ (second_judge, demanding, none)
    ∷ []

abbrev wide_message : Text
wide_message =
    codes "## Judge `first` (harness)\n\nThis judge judged the work incomplete but gave no usable"
    ++ codes " instruction (flaky).\n\n## Judge `second` (command)\n\nRun the tests."

combine_supervision-message_example :
    (instruction_of (combine_supervision true [] wide_panel).1 ≡ some wide_message) ↔ (
      (any (λ x. is_err x.1) wide_panel ≡ false)
      × (any (λ x. instructs x.1) wide_panel ≡ true)
      × (wide_message ≡ join (codes "\n\n") (map quoted (keep is_unsatisfied wide_panel))))
combine_supervision-message_example = combine_supervision-message [] wide_panel wide_message

-- The description gives the message of the panel.
quoted-wide_panel : wide_message ≡ join (codes "\n\n") (map quoted (keep is_unsatisfied wide_panel))
unfolding join trim trim_start trim_end is_whitespace
quoted-wide_panel = refl

abbrev verdicts : Results (JudgeVerdict plain)
verdicts =
    (first_judge, ok (record { value = bool true; reason = codes "yes"; usage = none }))
    ∷ (second_judge, err failure_error)
    ∷ []

judge_across-holds_example :
    holds (judge_across (is_multi verdicts) boolean verdicts) ≡ all (λ r. holds r.1) verdicts
judge_across-holds_example = judge_across-holds verdicts (λ e. cc)
