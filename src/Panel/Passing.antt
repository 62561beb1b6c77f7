-- ===== src/Panel/Passing.antt =====
-- A panel finds that a criterion holds exactly when every judge that it asked does.
use onejudge.Common.{
  ◌≡◌, refl, sym, ap, ◌∙◌, ◌≢◌, inl, inr, Bool, true, false, ◌&&◌, Option, List, [], ◌∷◌, map,
  arith, codes, any, all, Option-cases, is_some,
}
use onejudge.Platform.{Platform}
use onejudge.Usage.{add_some_usage, some_unless_empty}
use onejudge.Error.{Error, Result, ok, err}
use onejudge.Provider.{boolean, JudgeValue, JudgeVerdict}
use onejudge.Panel.{
  JudgeEntry, Results, is_err, is_multi, failure, all_ok, attributed, unless_failed, first_error,
}
use onejudge.Panel.Decisions.{first_error-any, failure-first_error, is_multi-two}
use onejudge.Panel.Verdicts.{
  Tally, start_tally, tally_value, tally_from, tallied, and_then, verdict_reason, combine_verdicts,
  judge_across, show_verdict,
}

-- Whether a value, a verdict or an answer says that the criterion holds.
abbrev pub value_holds : {d : Platform} → JudgeValue d → Bool
value_holds (JudgeValue.bool b) = b
value_holds (JudgeValue.number x) = false

abbrev pub holds : {d : Platform} → Result (JudgeVerdict d) → Bool
holds (ok v) = value_holds v.value
holds (err e) = false

abbrev every_of : {d : Platform} → Result (Tally d) → Bool
every_of (ok t) = t.every
every_of (err e) = false

and_assoc : (a b c : Bool) → (a && b) && c ≡ a && (b && c)
and_assoc true b c = refl
and_assoc false b c = refl

and_false : (a : Bool) → false ≡ a && false
and_false true = refl
and_false false = refl

and_true : (a : Bool) → a ≡ a && true
and_true true = refl
and_true false = refl

tally_from-every :
    {d : Platform} (vs : List (JudgeEntry × JudgeVerdict d)) (t : Tally d)
    → every_of (tally_from boolean vs t) ≡ t.every && all (λ x. value_holds x.1.value) vs
unfolding tally_from
tally_from-every [] t = and_true t.every
tally_from-every {d} ((j, v) ∷ vs) t =
    go (λ b. tally_from-every vs (record t' { every = t.every && b })) v.value
  where
    t' : Tally d
    t' = record t { usage = add_some_usage t.usage v.usage }

    go :
        ((b : Bool)
          → every_of (tally_from boolean vs (record t' { every = t.every && b }))
            ≡ (t.every && b) && all (λ x. value_holds x.1.value) vs)
        → (x : JudgeValue d)
        → every_of (and_then (tally_value boolean j x t') (tally_from boolean vs))
          ≡ t.every && (value_holds x && all (λ x. value_holds x.1.value) vs)
    go ih (JudgeValue.bool b) = ih b ∙ and_assoc t.every b (all (λ x. value_holds x.1.value) vs)
    go ih (JudgeValue.number x) = and_false t.every

combine_verdicts-holds :
    {d : Platform} (vs : List (JudgeEntry × JudgeVerdict d))
    → holds (combine_verdicts true boolean vs) ≡ all (λ x. value_holds x.1.value) vs
unfolding combine_verdicts
combine_verdicts-holds {d} vs =
    go (tally_from boolean vs (start_tally d)) ∙ tally_from-every vs (start_tally d)
  where
    go :
        (r : Result (Tally d))
        → holds (
            and_then r λ t. ok (record {
              value = tallied boolean t;
              reason = attributed (map verdict_reason vs);
              usage = some_unless_empty t.usage;
            }))
          ≡ every_of r
    go (ok t) = refl
    go (err e) = refl

all_ok-holds :
    {d : Platform} (rs : Results (JudgeVerdict d))
    → any (λ r. is_err r.1) rs ≡ false
    → all (λ x. value_holds x.1.value) (all_ok rs) ≡ all (λ r. holds r.1) rs
unfolding all_ok
all_ok-holds [] h = refl
all_ok-holds ((j, ok v) ∷ rs) h = ap (λ b. value_holds v.value && b) (all_ok-holds rs h)
all_ok-holds ((j, err e) ∷ rs) h = cc

not-all-holds :
    {d : Platform} (rs : Results (JudgeVerdict d))
    → any (λ r. is_err r.1) rs ≡ true
    → all (λ r. holds r.1) rs ≡ false
not-all-holds [] h = cc
not-all-holds ((j, ok v) ∷ rs) h = ground (arith, not-all-holds rs h)
not-all-holds ((j, err e) ∷ rs) h = refl

-- The answer for a list of results of several judges.
across : {d : Platform} → Results (JudgeVerdict d) → Option Error → Result (JudgeVerdict d)
across rs o = and_then (unless_failed o (all_ok rs)) (combine_verdicts true boolean)

across-holds :
    {d : Platform} (rs : Results (JudgeVerdict d))
    → holds (across rs (failure true (codes "judge") rs show_verdict)) ≡ all (λ r. holds r.1) rs
unfolding across unless_failed
across-holds rs = elim (Option-cases (failure true (codes "judge") rs show_verdict)) [
  | inr (e, h) ↦
      ap (λ o. holds (across rs o)) h
      ∙ sym (
          not-all-holds rs (
            cc (
              failure-first_error true (codes "judge") rs show_verdict,
              first_error-any rs,
              ap is_some h,
            )))
  | inl h ↦
      ap (λ o. holds (across rs o)) h
      ∙ (combine_verdicts-holds (all_ok rs)
          ∙ all_ok-holds rs (
              cc (
                failure-first_error true (codes "judge") rs show_verdict,
                first_error-any rs,
                ap is_some h,
              )))
]

single-holds :
    {d : Platform} (r : JudgeEntry × Result (JudgeVerdict d))
    → holds (judge_across false boolean (r ∷ [])) ≡ holds r.1
unfolding judge_across failure first_error all_ok combine_verdicts
single-holds (j, ok v) = refl
single-holds (j, err e) = refl

-- A panel of one or more judges answers a boolean criterion with true exactly if every judge that
-- was asked answered it with true: a judge that failed, said false, or gave a number denies it.
pub judge_across-holds :
    {d : Platform} (rs : Results (JudgeVerdict d))
    → rs ≢ []
    → holds (judge_across (is_multi rs) boolean rs) ≡ all (λ r. holds r.1) rs
unfolding judge_across across
judge_across-holds [] h = absurd (h refl)
judge_across-holds (r ∷ []) h = single-holds r ∙ and_true (holds r.1)
judge_across-holds (r ∷ s ∷ rs) h =
    ap (λ b. holds (judge_across b boolean (r ∷ s ∷ rs))) (is_multi-two r s rs)
    ∙ across-holds (r ∷ s ∷ rs)
