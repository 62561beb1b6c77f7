-- ===== src/Panel/Verdicts.antt =====
-- crates/onejudge/src/panel.rs: `judge_across` and `assess_across`, over the judges that were asked.
use onejudge.Common.{Bool, true, false, ◌&&◌, none, List, [], ◌∷◌, ◌++◌, map, Text, codes, join}
use onejudge.Platform.{Platform}
use onejudge.Usage.{Usage, default_usage, add_some_usage, some_unless_empty}
use onejudge.Error.{Error, Result, ok, err, invalid, provider_classified, protocol}
use onejudge.Provider.{
  JudgeKind, boolean, numeric, judge_kind_str, JudgeValue, JudgeVerdict, Assessment,
}
use onejudge.Panel.{JudgeEntry, Results, failure, all_ok, attributed, header, unless_failed}

unfoldable pub value_token : {d : Platform} → JudgeValue d → Text
value_token (JudgeValue.bool true) = codes "true"
value_token (JudgeValue.bool false) = codes "false"
value_token {d} (JudgeValue.number x) = d.show_float x

unfoldable pub show_verdict : {d : Platform} → JudgeVerdict d → Text
unfolding value_token
show_verdict v = value_token v.value ++ (codes ": " ++ v.reason)

-- `usage`, `all` and `lowest` of the loop over the verdicts.
pub record Tally (d : Platform) : Type 0 where
  pub usage : Usage d
  pub every : Bool
  pub lowest : d.Float

unfoldable pub start_tally : (d : Platform) → Tally d
start_tally d = record { usage = default_usage; every = true; lowest = d.infinity }

unfoldable pub wrong_type : JudgeEntry → JudgeKind → Error
wrong_type j kind =
    provider_classified (codes "judge[" ++ (j.label ++ codes "]"))
      (codes "verdict value has the wrong type for a " ++ (judge_kind_str kind ++ codes " query"))
      protocol

-- One round: the verdict's usage first, then its value.
unfoldable pub tally_value :
    {d : Platform} → JudgeKind → JudgeEntry → JudgeValue d → Tally d → Result (Tally d)
tally_value boolean j (JudgeValue.bool b) t = ok (record t { every = t.every && b })
tally_value {d} numeric j (JudgeValue.number x) t =
    ok (record t { lowest = d.min_float t.lowest x })
tally_value boolean j (JudgeValue.number x) t = err (wrong_type j boolean)
tally_value numeric j (JudgeValue.bool b) t = err (wrong_type j numeric)

abbrev pub and_then {ℓ κ} : {A : Type ℓ} {B : Type κ} → Result A → (A → Result B) → Result B
and_then (ok a) f = f a
and_then (err e) f = err e

unfoldable pub tally_from :
    {d : Platform} → JudgeKind → List (JudgeEntry × JudgeVerdict d) → Tally d → Result (Tally d)
unfolding tally_value
tally_from kind [] t = ok t
tally_from kind ((j, v) ∷ vs) t =
    and_then (tally_value kind j v.value (record t { usage = add_some_usage t.usage v.usage }))
      (tally_from kind vs)

unfoldable pub tallied : {d : Platform} → JudgeKind → Tally d → JudgeValue d
tallied boolean t = JudgeValue.bool t.every
tallied numeric t = JudgeValue.number t.lowest

abbrev pub verdict_reason : {d : Platform} → JudgeEntry × JudgeVerdict d → Text × Text
verdict_reason (j, v) = (j.label, v.reason)

unfoldable pub combine_verdicts :
    {d : Platform} → Bool → JudgeKind → List (JudgeEntry × JudgeVerdict d) → Result (JudgeVerdict d)
unfolding tally_from tallied start_tally
combine_verdicts {d} true kind vs = and_then (tally_from kind vs (start_tally d)) λ t. ok (record {
  value = tallied kind t;
  reason = attributed (map verdict_reason vs);
  usage = some_unless_empty t.usage;
})
combine_verdicts false kind [] = err (invalid (codes "one judge answered"))
combine_verdicts false kind ((j, v) ∷ vs) = ok v

-- The answers of the judges that were asked: for a number, those that can score one.
unfoldable pub can_score : JudgeKind → JudgeEntry → Bool
can_score boolean j = true
can_score numeric j = j.abilities.numeric

unfoldable pub judge_across :
    {d : Platform} → Bool → JudgeKind → Results (JudgeVerdict d) → Result (JudgeVerdict d)
unfolding combine_verdicts unless_failed
judge_across multi kind [] = err (invalid (codes "no judge in the panel can score a number"))
judge_across multi kind (r ∷ rs) =
    and_then (unless_failed (failure multi (codes "judge") (r ∷ rs) show_verdict) (all_ok (r ∷ rs)))
      (combine_verdicts multi kind)

abbrev pub assessment_part : {d : Platform} → JudgeEntry × Assessment d → Text
assessment_part (j, a) = header j ++ (codes "\n\n" ++ a.text)

unfoldable pub assessment_usage :
    {d : Platform} → Usage d → List (JudgeEntry × Assessment d) → Usage d
assessment_usage total [] = total
assessment_usage total ((j, a) ∷ rest) = assessment_usage (add_some_usage total a.usage) rest

unfoldable pub combine_assessments :
    {d : Platform} → Bool → List (JudgeEntry × Assessment d) → Assessment d
unfolding assessment_usage
combine_assessments true assessments = record {
  text = join (codes "\n\n") (map assessment_part assessments);
  usage = some_unless_empty (assessment_usage default_usage assessments);
}
combine_assessments false [] = record { text = []; usage = none }
combine_assessments false ((j, a) ∷ rest) = a

unfoldable pub assess_across :
    {d : Platform} → Bool → Results (Assessment d) → Result (Assessment d)
unfolding combine_assessments
assess_across multi [] = err (invalid (codes "no judge in the panel can write an assessment"))
assess_across multi (r ∷ rs) =
    unless_failed (failure multi (codes "assess") (r ∷ rs) (λ a. codes "wrote an assessment"))
      (combine_assessments multi (all_ok (r ∷ rs)))
