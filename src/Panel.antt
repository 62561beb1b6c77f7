-- ===== src/Panel.antt =====
-- crates/onejudge/src/panel.rs: the judges of a panel, and how their answers to one call combine.
-- A result is kept beside the judge that gave it, where the source keeps the judge's index.
pub mod Setup
pub mod Decisions
pub mod Messages
pub mod Verdicts
pub mod Passing
use onejudge.Common.{
  ℕ, zero, suc, ◌+◌, ◌-◌, ◌*◌, ◌/◌, ◌%◌, ◌^◌, ◌≤◌, ◌<◌, min, max, String, ◌≡◌, refl, sym, ap, ap₂,
  ◌∙◌, subst, ◌≡⟨◌⟩◌, ◌∎, fun_ext, ◌≢◌, ◌↔◌, ◌⊎◌, inl, inr, Bool, true, false, not, ◌&&◌, ◌||◌,
  Option, none, some, List, [], ◌∷◌, ◌++◌, map, append-nil, append_assoc, map-append, Memᴰ, Infix,
  Infix-refl, Infix-append_left, Infix-append_right, Infix-cons, arith, Text, codes, text_eq,
  is_whitespace, is_ascii_digit, is_ascii_alphanumeric, trim_start, trim_end, trim, split, join,
  starts_with, contains, show, text_eq_iff, text_eq_refl, length, take, drop, is_empty, get_last?,
  keep, any, all, find, length-append, keep-append, length-keep, length-take, length-drop,
  take-append-drop, filter_map, flat_map, length-map, All, All-append, ltb, leb, ◌==◌,
  if◌then◌else◌, ltb→lt, lt→ltb, leb→le, ==_iff, tests, Bool-cases, Option-cases, is_some, is_none,
  get_or_else, map_some, or_else, both_some, ◌>>=◌,
}
use onejudge.Platform.{Platform}
use onejudge.Usage.{Usage, default_usage, add_some_usage, some_unless_empty}
use onejudge.Error.{Error, Result, ok, err, invalid, provider, kind, show_error}
use onejudge.Provider.{
  SupervisorOutcome, SupervisorTurn, JudgeLink, completed, continue, no_instruction, unparseable,
}
use onejudge.Report.{Decision, JudgeDecision, decision_str}

pub record JudgeAbilities : Type 0 where
  pub numeric : Bool
  pub prose : Bool
  pub user : Bool

pub record JudgeEntry : Type 0 where
  pub label : Text
  pub kind : Text
  pub abilities : JudgeAbilities

unfoldable pub header : JudgeEntry → Text
header j = codes "## Judge `" ++ (j.label ++ (codes "` (" ++ (j.kind ++ codes ")")))

-- `[label] text`, joined by `; `.
unfoldable pub attribute : Text × Text → Text
attribute (label, text) = trim_end (codes "[" ++ (label ++ (codes "] " ++ text)))

unfoldable pub attributed : List (Text × Text) → Text
unfolding attribute
attributed parts = join (codes "; ") (map attribute parts)

unfoldable pub decision_of : SupervisorOutcome → Decision × Text
decision_of (completed reason) = (Decision.done, reason)
decision_of (continue message reason) = (Decision.continue, reason)
decision_of (no_instruction reason) = (Decision.no_instruction, reason)
decision_of (unparseable problem answer) = (Decision.unparseable, problem)

unfoldable pub no_instruction_line : Text → Text
no_instruction_line reason =
    if is_empty (trim reason)
    then codes "This judge judged the work incomplete but gave no usable instruction."
    else codes "This judge judged the work incomplete but gave no usable instruction ("
      ++ (trim reason ++ codes ").")

-- Each judge with the value that its call returned.
abbrev pub Results : Type 0 → Type 0
Results T = List (JudgeEntry × Result T)

abbrev pub is_err : {T : Type 0} → Result T → Bool
is_err (ok t) = false
is_err (err e) = true

unfoldable pub first_error : {T : Type 0} → Results T → Option (JudgeEntry × Error)
first_error [] = none
first_error ((j, ok t) ∷ rs) = first_error rs
first_error ((j, err e) ∷ rs) = some (j, e)

unfoldable pub told : {T : Type 0} → (T → Text) → JudgeEntry × Result T → Text × Text
told decided (j, ok t) = (j.label, decided t)
told decided (j, err e) = (j.label, codes "failed: " ++ show_error e)

abbrev pub is_multi {ℓ} : {A : Type ℓ} → List A → Bool
is_multi judges = ltb 1 (length judges)

-- `clone_error` copies its argument. `multi` is whether the panel has more than one judge.
unfoldable pub failure : {T : Type 0} → Bool → Text → Results T → (T → Text) → Option Error
unfolding told
failure multi op results decided = elim (first_error results) [
  | none ↦ none
  | some (j, e) ↦
      if multi
      then some (
          provider (op ++ (codes "[" ++ (j.label ++ codes "]")))
            (attributed (map (told decided) results)) (kind e))
      else some e
]

-- The values of a list of results in which no judge failed.
unfoldable pub all_ok : {T : Type 0} → Results T → List (JudgeEntry × T)
all_ok [] = []
all_ok ((j, ok t) ∷ rs) = (j, t) ∷ all_ok rs
all_ok ((j, err e) ∷ rs) = all_ok rs

-- A judge's supervision, with the link that its provider left.
abbrev pub Linked : Platform → Type 0
Linked d = JudgeEntry × Result (SupervisorTurn d) × Option (JudgeLink d)

abbrev pub default_link : {d : Platform} → JudgeLink d
default_link = record { labels = []; run_id = none; posture = none; events = [] }

unfoldable pub decided_by : {d : Platform} → Result (SupervisorTurn d) → Decision × Text
unfolding decision_of
decided_by (ok turn) = decision_of turn.outcome
decided_by (err e) = (Decision.error, show_error e)

-- The decision that is recorded for one judge.
unfoldable pub recorded : {d : Platform} → Linked d → JudgeDecision d
unfolding decided_by
recorded (j, result, link) =
    let l = get_or_else default_link link in
    record {
      judge = j.label;
      kind = j.kind;
      decision = (decided_by result).0;
      reason = (decided_by result).1;
      labels = l.labels;
      run_id = l.run_id;
      posture = l.posture;
      events = l.events;
    }

abbrev pub without_link : {d : Platform} → Linked d → JudgeEntry × Result (SupervisorTurn d)
without_link (j, result, link) = (j, result)

unfoldable pub usage_of : {d : Platform} → Result (SupervisorTurn d) → Option (Usage d)
usage_of (ok turn) = turn.usage
usage_of (err e) = none

unfoldable pub total_usage : {d : Platform} → Usage d → List (Linked d) → Usage d
unfolding usage_of
total_usage total [] = total
total_usage total ((j, result, link) ∷ rest) =
    total_usage (add_some_usage total (usage_of result)) rest

abbrev pub is_completed : SupervisorOutcome → Bool
is_completed (completed reason) = true
is_completed _ = false

abbrev pub is_continue : SupervisorOutcome → Bool
is_continue (continue message reason) = true
is_continue _ = false

abbrev pub is_no_instruction : SupervisorOutcome → Bool
is_no_instruction (no_instruction reason) = true
is_no_instruction _ = false

-- What one judge contributes to the combined message.
unfoldable pub body_of : SupervisorOutcome → Option Text
body_of (completed reason) = none
body_of (continue message reason) = some message
body_of (no_instruction reason) = some (no_instruction_line reason)
body_of (unparseable problem answer) =
    some (no_instruction_line (codes "its answer did not parse: " ++ problem))

abbrev pub Outcomes : Type 0
Outcomes = List (JudgeEntry × SupervisorOutcome)

unfoldable pub message_part : JudgeEntry × SupervisorOutcome → Option Text
unfolding body_of
message_part (j, o) = map_some (λ body. header j ++ (codes "\n\n" ++ body)) (body_of o)

unfoldable pub combined_message : Outcomes → Text
unfolding message_part
combined_message outcomes = join (codes "\n\n") (filter_map message_part outcomes)

unfoldable pub reason_part : JudgeEntry × SupervisorOutcome → Text × Text
reason_part (j, o) = (j.label, (decision_of o).1)

unfoldable pub problem_part : JudgeEntry × SupervisorOutcome → Option (Text × Text)
problem_part (j, unparseable problem answer) = some (j.label, problem)
problem_part (j, _) = none

unfoldable pub answer_part : JudgeEntry × SupervisorOutcome → Option (Text × Text)
answer_part (j, unparseable problem answer) = some (j.label, answer)
answer_part (j, _) = none

-- The outcome of a panel of several judges, none of which failed.
unfoldable pub combined_outcome : Outcomes → SupervisorOutcome
unfolding reason_part problem_part answer_part
combined_outcome outcomes =
    let reason = attributed (map reason_part outcomes) in
    if all (λ x. is_completed x.1) outcomes
    then completed reason
    else if any (λ x. is_continue x.1) outcomes
    then continue (combined_message outcomes) reason
    else if any (λ x. is_no_instruction x.1) outcomes
    then no_instruction reason
    else unparseable (attributed (filter_map problem_part outcomes))
        (attributed (filter_map answer_part outcomes))

unfoldable pub show_decided : {d : Platform} → SupervisorTurn d → Text
show_decided turn =
    let (decision, reason) = decision_of turn.outcome in
    trim_end (decision_str decision ++ (codes ": " ++ reason))

abbrev pub outcome_at :
    {d : Platform} → JudgeEntry × SupervisorTurn d → JudgeEntry × SupervisorOutcome
outcome_at (j, turn) = (j, turn.outcome)

-- The first turn of a panel of one, where the source pops its only turn.
unfoldable pub combine_turns :
    {d : Platform} → Bool → Usage d → List (JudgeEntry × SupervisorTurn d) → SupervisorTurn d
combine_turns true usage turns = record {
  outcome = combined_outcome (map outcome_at turns);
  usage = some_unless_empty usage;
}
combine_turns false usage [] = record { outcome = no_instruction []; usage = none }
combine_turns false usage ((j, turn) ∷ turns) = turn

-- `return Err(error)` for a failure that was found.
unfoldable pub unless_failed : {T : Type 0} → Option Error → T → Result T
unless_failed none t = ok t
unless_failed (some e) t = err e

-- The decisions that are recorded, and the combined answer.
unfoldable pub combine_supervision :
    {d : Platform}
    → Bool
    → List (JudgeDecision d)
    → List (Linked d)
    → List (JudgeDecision d) × Result (SupervisorTurn d)
unfolding unless_failed
combine_supervision multi decisions linked =
    let results = map without_link linked in
    (
      decisions ++ map recorded linked,
      unless_failed (failure multi (codes "supervise") results show_decided)
          (combine_turns multi (total_usage default_usage linked) (all_ok results)),
    )
