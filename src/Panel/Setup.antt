-- ===== src/Panel/Setup.antt =====
-- crates/onejudge/src/panel.rs: building a panel, and the session names of its judges.
use onejudge.Common.{
  ℕ, ◌≡◌, refl, ap, ◌≢◌, ◌↔◌, inl, inr, Bool, true, false, not, ◌&&◌, ◌||◌, Option, none, some,
  List, [], ◌∷◌, ◌++◌, arith, Text, codes, text_eq, is_ascii_alphanumeric, is_empty, any, all, ◌==◌,
  if◌then◌else◌, Option-cases, map_some,
}
use onejudge.Error.{Error, Result, ok, err, invalid}
use onejudge.HistoryName.{HistoryScope, labelled, label_scope}
use onejudge.Panel.{unless_failed, JudgeEntry}

unfoldable pub is_label_char : ℕ → Bool
is_label_char c = is_ascii_alphanumeric c || c == b'_' || c == b'-'

unfoldable pub is_valid_label : Text → Bool
is_valid_label label = not (is_empty label) && all is_label_char label

abbrev pub label_used : Text → List JudgeEntry → Bool
label_used label judges = any (λ j. text_eq j.label label) judges

-- The loop of `new`: `earlier` are the judges before this one.
unfoldable pub check_labels : List JudgeEntry → List JudgeEntry → Option Error
check_labels earlier [] = none
check_labels earlier (j ∷ js) =
    let rest = check_labels (earlier ++ j ∷ []) js in
    if not (is_valid_label j.label)
    then some (invalid (codes "judge label `" ++ (j.label ++ codes "` is not `[A-Za-z0-9_-]+`")))
    else if label_used j.label earlier
    then some
        (invalid (codes "judge label `" ++ (j.label ++ codes "` is used by more than one judge")))
    else rest

-- A new panel, with no decisions recorded yet, is given by its judges.
unfoldable pub new_panel : List JudgeEntry → Result (List JudgeEntry)
unfolding unless_failed
new_panel [] = err (invalid (codes "a judge panel needs at least one judge"))
new_panel (j ∷ js) = unless_failed (check_labels [] (j ∷ js)) (j ∷ js)

-- The label that tells a judge's records apart, where there is more than one judge.
unfoldable pub own_label : Bool → JudgeEntry → Option Text
own_label multi j = if multi then some j.label else none

unfoldable pub session_for : Bool → JudgeEntry → Option Text → Option Text
unfolding own_label
session_for multi j session = map_some (λ s. labelled s (own_label multi j)) session

-- The scope that `set_history_scope` hands to each judge.
unfoldable pub judge_scope : Bool → JudgeEntry → Option HistoryScope → Option HistoryScope
judge_scope multi j scope = map_some (λ s. if multi then label_scope s j.label else s) scope

-- The judges are well formed: each has a valid label, which no earlier judge has.
abbrev pub Distinct : List JudgeEntry → List JudgeEntry → Type 0
Distinct earlier [] = Unit
Distinct earlier (j ∷ js) =
    (is_valid_label j.label ≡ true)
    × (label_used j.label earlier ≡ false)
    × Distinct (earlier ++ j ∷ []) js

check_labels-none :
    (earlier judges : List JudgeEntry)
    → check_labels earlier judges ≡ none
    → Distinct earlier judges
unfolding check_labels
check_labels-none earlier [] h = tt
check_labels-none earlier (j ∷ js) h = ground (arith, check_labels-none (earlier ++ j ∷ []) js)

none-check_labels :
    (earlier judges : List JudgeEntry)
    → Distinct earlier judges
    → check_labels earlier judges ≡ none
unfolding check_labels
none-check_labels earlier [] h = refl
none-check_labels earlier (j ∷ js) (v, u, r) =
    ground (arith, none-check_labels (earlier ++ j ∷ []) js r)

-- A panel is built exactly from one or more judges whose labels are valid and all different; it
-- then holds these judges.
pub new_panel_iff :
    (judges : List JudgeEntry)
    → (new_panel judges ≡ ok judges) ↔ ((judges ≢ []) × Distinct [] judges)
unfolding new_panel
new_panel_iff [] = ((λ h. cc), λ h. absurd (h.0 refl))
new_panel_iff (j ∷ js) = (
  (λ h. (
    (λ e. cc),
    elim (Option-cases (check_labels [] (j ∷ js))) [
      | inl n ↦ check_labels-none [] (j ∷ js) n
      | inr (e, s) ↦ cc (ap (λ o. unless_failed o (j ∷ js)) s)
    ],
  )),
  (λ h. ap (λ o. unless_failed o (j ∷ js)) (none-check_labels [] (j ∷ js) h.1)),
)
