-- ===== src/Panel/Decisions.antt =====
-- What a panel decides: it completes exactly when every judge did, and it fails exactly when some
-- judge failed. The worker's next message is in Panel/Messages.antt.
use onejudge.Common.{
  ◌≡◌, refl, sym, ap, ◌∙◌, ◌≢◌, inl, inr, Bool, true, false, ◌&&◌, ◌||◌, Option, none, some, List,
  [], ◌∷◌, map, arith, Text, codes, any, all, Option-cases, is_some,
}
use onejudge.Platform.{Platform}
use onejudge.Usage.{default_usage}
use onejudge.Error.{Error, Result, ok, err}
use onejudge.Provider.{SupervisorTurn}
use onejudge.Report.{JudgeDecision}
use onejudge.Panel.{
  Results, Linked, is_err, first_error, failure, all_ok, without_link, is_multi, is_completed,
  combined_outcome, combine_turns, combine_supervision, outcome_at, Outcomes, total_usage,
  show_decided, unless_failed,
}

-- Whether an answer says that the work is done.
abbrev pub completes : {d : Platform} → Result (SupervisorTurn d) → Bool
completes (ok turn) = is_completed turn.outcome
completes (err e) = false

pub first_error-any :
    {T : Type 0} (rs : Results T) → is_some (first_error rs) ≡ any (λ r. is_err r.1) rs
unfolding first_error
first_error-any [] = refl
first_error-any ((j, ok t) ∷ rs) = first_error-any rs
first_error-any ((j, err e) ∷ rs) = refl

pub failure-first_error :
    {T : Type 0} (multi : Bool) (op : Text) (rs : Results T) (f : T → Text)
    → is_some (failure multi op rs f) ≡ is_some (first_error rs)
unfolding failure
failure-first_error multi op rs f = ground arith

any-without_link :
    {d : Platform} (linked : List (Linked d))
    → any (λ r. is_err r.1) (map without_link linked) ≡ any (λ x. is_err x.1) linked
any-without_link [] = refl
any-without_link ((j, r, l) ∷ xs) = ap (λ b. is_err r || b) (any-without_link xs)

-- The panel's answer is an error exactly if some judge's answer is one.
pub combine_supervision-is_err :
    {d : Platform} (multi : Bool) (decisions : List (JudgeDecision d)) (linked : List (Linked d))
    → is_err (combine_supervision multi decisions linked).1 ≡ any (λ x. is_err x.1) linked
unfolding combine_supervision
combine_supervision-is_err multi decisions linked = ground (
  arith,
  failure-first_error multi (codes "supervise") (map without_link linked) show_decided,
  first_error-any (map without_link linked),
  any-without_link linked,
)

-- A panel of one gives its judge's own answer.
pub combine_supervision_single :
    {d : Platform} (decisions : List (JudgeDecision d)) (x : Linked d)
    → (combine_supervision false decisions (x ∷ [])).1 ≡ x.1
unfolding combine_supervision failure first_error all_ok combine_turns
combine_supervision_single decisions (j, ok t, l) = refl
combine_supervision_single decisions (j, err e, l) = refl

combined_outcome-is_completed :
    (os : Outcomes) → is_completed (combined_outcome os) ≡ all (λ x. is_completed x.1) os
unfolding combined_outcome
combined_outcome-is_completed os = ground arith

all-completes :
    {d : Platform} (linked : List (Linked d))
    → any (λ x. is_err x.1) linked ≡ false
    → all (λ x. is_completed x.1) (map outcome_at (all_ok (map without_link linked)))
      ≡ all (λ x. completes x.1) linked
unfolding all_ok
all-completes [] h = refl
all-completes ((j, ok t, l) ∷ xs) h = ap (λ b. is_completed t.outcome && b) (all-completes xs h)
all-completes ((j, err e, l) ∷ xs) h = cc

not-all-completes :
    {d : Platform} (linked : List (Linked d))
    → any (λ x. is_err x.1) linked ≡ true
    → all (λ x. completes x.1) linked ≡ false
not-all-completes [] h = cc
not-all-completes ((j, ok t, l) ∷ xs) h = ground (arith, not-all-completes xs h)
not-all-completes ((j, err e, l) ∷ xs) h = refl

and_true : (b : Bool) → b ≡ b && true
and_true true = refl
and_true false = refl

-- Whether the combination met a failure.
unfoldable pub failed : {d : Platform} → Bool → List (Linked d) → Option Error
failed multi linked = failure multi (codes "supervise") (map without_link linked) show_decided

pub failed-any :
    {d : Platform} (multi : Bool) (linked : List (Linked d))
    → is_some (failed multi linked) ≡ any (λ x. is_err x.1) linked
unfolding failed
failed-any multi linked =
    failure-first_error multi (codes "supervise") (map without_link linked) show_decided
    ∙ (first_error-any (map without_link linked) ∙ any-without_link linked)

-- The two ways that a combination ends.
pub combine-failed :
    {d : Platform} (multi : Bool) (decisions : List (JudgeDecision d)) (linked : List (Linked d))
    {e : Error}
    → failed multi linked ≡ some e
    → (combine_supervision multi decisions linked).1 ≡ err e
unfolding combine_supervision failed
combine-failed multi decisions linked h =
    ap
      (λ o.
        unless_failed o (
          combine_turns multi (total_usage default_usage linked)
            (all_ok (map without_link linked))))
      h

pub combine-turns :
    {d : Platform} (multi : Bool) (decisions : List (JudgeDecision d)) (linked : List (Linked d))
    → failed multi linked ≡ none
    → (combine_supervision multi decisions linked).1
      ≡ ok (
          combine_turns multi (total_usage default_usage linked) (all_ok (map without_link linked)))
unfolding combine_supervision failed
combine-turns multi decisions linked h =
    ap
      (λ o.
        unless_failed o (
          combine_turns multi (total_usage default_usage linked)
            (all_ok (map without_link linked))))
      h

multi-completes :
    {d : Platform} (decisions : List (JudgeDecision d)) (linked : List (Linked d))
    → completes (combine_supervision true decisions linked).1 ≡ all (λ x. completes x.1) linked
unfolding combine_turns
multi-completes decisions linked = elim (Option-cases (failed true linked)) [
  | inr (e, h) ↦
      ap completes (combine-failed true decisions linked h)
      ∙ sym (not-all-completes linked (sym (failed-any true linked) ∙ ap is_some h))
  | inl h ↦
      ap completes (combine-turns true decisions linked h)
      ∙ (combined_outcome-is_completed (map outcome_at (all_ok (map without_link linked)))
          ∙ all-completes linked (sym (failed-any true linked) ∙ ap is_some h))
]

pub is_multi-two {ℓ} : {A : Type ℓ} (x y : A) (xs : List A) → is_multi (x ∷ y ∷ xs) ≡ true
is_multi-two x y xs = ground arith

is_multi-one {ℓ} : {A : Type ℓ} (x : A) → is_multi (x ∷ []) ≡ false
is_multi-one x = refl

-- A panel of one or more judges says that the work is done exactly if every one of its judges does.
pub combine_supervision-completes :
    {d : Platform} (decisions : List (JudgeDecision d)) (linked : List (Linked d))
    → linked ≢ []
    → completes (combine_supervision (is_multi linked) decisions linked).1
      ≡ all (λ x. completes x.1) linked
combine_supervision-completes decisions [] h = absurd (h refl)
combine_supervision-completes decisions (x ∷ []) h =
    ap completes (combine_supervision_single decisions x) ∙ and_true (completes x.1)
combine_supervision-completes decisions (x ∷ y ∷ xs) h =
    ap (λ b. completes (combine_supervision b decisions (x ∷ y ∷ xs)).1) (is_multi-two x y xs)
    ∙ multi-completes decisions (x ∷ y ∷ xs)
