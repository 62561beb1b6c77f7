-- ===== src/Llmlint/Judge.antt =====
-- crates/onejudge/src/llmlint.rs: the operations of the provider.
use onejudge.Common.{true, false, Option, none, some, List, [], ◌++◌, Text, codes, map_some}
use onejudge.Platform.{Platform}
use onejudge.Error.{Result, ok, err, invalid}
use onejudge.HistoryName.{HistoryScope}
use onejudge.Transcript.{Message}
use onejudge.Provider.{
  boolean, numeric, bool, JudgeQuery, JudgeLink, AssistantTurn, UserTurn, SupervisorOutcome,
  completed, continue, SupervisorTurn, SupervisorQuery, JudgeVerdict, Assessment, EvidenceContext,
}
use onejudge.Spawn.{reset}
use onejudge.Llmlint.Reading.{latest_assistant_turn}
use onejudge.Llmlint.{Tools, LlmlintProvider, Lint, clean, failing, cannot}
use onejudge.Llmlint.Run.{lint}

unfoldable pub respond : {d : Platform} → Result (AssistantTurn d)
respond = cannot (codes "runs no agent turn")

unfoldable pub simulate_user : {d : Platform} → Result (UserTurn d)
simulate_user = cannot (codes "cannot play the simulated user")

unfoldable pub assess : {d : Platform} → Result (Assessment d)
assess = cannot (codes "writes no assessment")

unfoldable pub outcome_of : Lint → SupervisorOutcome
outcome_of (clean summary) = completed summary
outcome_of (failing report summary) = continue report summary

abbrev pub turn_of : {d : Platform} → Result Lint → Result (SupervisorTurn d)
turn_of (err e) = err e
turn_of (ok l) = ok (record { outcome = outcome_of l; usage = none })

abbrev pub verdict_of : {d : Platform} → Result Lint → Result (JudgeVerdict d)
verdict_of (err e) = err e
verdict_of (ok (clean summary)) = ok (record { value = bool true; reason = summary; usage = none })
verdict_of (ok (failing report summary)) =
    ok (record { value = bool false; reason = summary; usage = none })

module _ {d : Platform} {W : Type 0} where
  unfoldable pub reset_telemetry : LlmlintProvider d W → LlmlintProvider d W
  reset_telemetry p = record p { spawner = reset p.spawner; telemetry = [] }

  unfoldable pub set_history_scope : Option HistoryScope → LlmlintProvider d W → LlmlintProvider d W
  set_history_scope scope p = record p { session = map_some (λ (s : HistoryScope). s.base) scope }

  unfoldable pub set_judge_label : Text → LlmlintProvider d W → LlmlintProvider d W
  set_judge_label label p = record p { judge_label = some label }

  unfoldable pub take_judge_link : LlmlintProvider d W → Option (JudgeLink d) × LlmlintProvider d W
  take_judge_link p = (p.link, record p { link = none })

  module _ (t : Tools W) where
    unfoldable pub supervise :
        LlmlintProvider d W
        → SupervisorQuery
        → W
        → Result (SupervisorTurn d) × (LlmlintProvider d W × W)
    unfolding outcome_of
    supervise p query w =
        let (answer, after) = lint t p (codes "supervise") query.worktree query.turn_index w in
        (turn_of answer, after)

    unfoldable pub judge_boolean :
        LlmlintProvider d W
        → List (Message d)
        → Option Text
        → W
        → Result (JudgeVerdict d) × (LlmlintProvider d W × W)
    judge_boolean p messages none w = (
      err (
          invalid (
            codes "an llmlint judgement needs the worktree to lint (`EvidenceContext::worktree`), "
            ++ codes "and none was supplied")),
      (p, w),
    )
    judge_boolean p messages (some worktree) w =
        let (answer, after) =
          lint t p (codes "judge") worktree (latest_assistant_turn messages) w in
        (verdict_of answer, after)

    unfoldable pub judge_with_evidence :
        LlmlintProvider d W
        → JudgeQuery d
        → List (Message d)
        → EvidenceContext
        → W
        → Result (JudgeVerdict d) × (LlmlintProvider d W × W)
    unfolding judge_boolean
    judge_with_evidence p query messages evidence w = elim query.kind [
      | numeric ↦ (cannot (codes "scores no number"), (p, w))
      | boolean ↦ judge_boolean p messages evidence.worktree w
    ]

    unfoldable pub judge :
        LlmlintProvider d W
        → JudgeQuery d
        → List (Message d)
        → W
        → Result (JudgeVerdict d) × (LlmlintProvider d W × W)
    unfolding judge_with_evidence
    judge p query messages w =
        judge_with_evidence p query messages
          (record { worktree = none; history_files = []; artifacts = [] }) w
