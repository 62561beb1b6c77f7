-- ===== src/Panel/Messages.antt =====
-- The message that a panel of several judges gives the worker, against a description of it: which
-- judges speak in it, and what stands under each judge's name.
use onejudge.Common.{
  ◌≡◌, refl, sym, ap, ap₂, ◌∙◌, ◌↔◌, inl, inr, Bool, true, false, not, ◌||◌, Option, none, some,
  List, [], ◌∷◌, ◌++◌, map, append_assoc, arith, Text, codes, trim, join, is_empty, keep, any, all,
  filter_map, if◌then◌else◌, Bool-cases, Option-cases, is_some, true≢false,
}
use onejudge.Platform.{Platform}
use onejudge.Error.{Result, ok, err}
use onejudge.Provider.{
  SupervisorOutcome, SupervisorTurn, completed, continue, no_instruction, unparseable,
}
use onejudge.Report.{JudgeDecision}
use onejudge.Panel.{
  JudgeEntry, header, no_instruction_line, body_of, Linked, is_err, all_ok, without_link,
  is_completed, is_continue, combined_outcome, combined_message, combine_supervision, combine_turns,
  outcome_at, Outcomes, message_part,
}
use onejudge.Panel.Decisions.{completes, failed, failed-any, combine-failed, combine-turns}

-- The instruction of an answer, where it is one.
abbrev pub instruction : SupervisorOutcome → Option Text
instruction (continue message reason) = some message
instruction _ = none

abbrev pub instruction_of : {d : Platform} → Result (SupervisorTurn d) → Option Text
instruction_of (ok turn) = instruction turn.outcome
instruction_of (err e) = none

-- How a judge without a usable instruction is quoted, with its reason where it has one.
abbrev pub because : Text → Text
because [] = codes "."
because (c ∷ cs) = codes " (" ++ ((c ∷ cs) ++ codes ").")

abbrev pub unusable : Text → Text
unusable reason =
    codes "This judge judged the work incomplete but gave no usable instruction"
    ++ because (trim reason)

-- What a judge that is not satisfied has to say to the worker.
abbrev pub says : SupervisorOutcome → Text
says (completed reason) = []
says (continue message reason) = message
says (no_instruction reason) = unusable reason
says (unparseable problem answer) = unusable (codes "its answer did not parse: " ++ problem)

abbrev pub said : {d : Platform} → Result (SupervisorTurn d) → Text
said (ok turn) = says turn.outcome
said (err e) = []

-- A text under the label and the kind of its judge.
abbrev pub titled : JudgeEntry → Text → Text
titled j text =
    codes "## Judge `" ++ (j.label ++ (codes "` (" ++ (j.kind ++ (codes ")\n\n" ++ text))))

abbrev pub quoted : {d : Platform} → Linked d → Text
quoted (j, r, l) = titled j (said r)

abbrev pub is_unsatisfied : {d : Platform} → Linked d → Bool
is_unsatisfied x = not (completes x.1)

no_instruction_line-unusable : (reason : Text) → no_instruction_line reason ≡ unusable reason
unfolding no_instruction_line
no_instruction_line-unusable reason = go (trim reason)
  where
    go :
        (t : Text)
        → (if is_empty t
            then codes "This judge judged the work incomplete but gave no usable instruction."
            else codes "This judge judged the work incomplete but gave no usable instruction ("
              ++ (t ++ codes ")."))
          ≡ codes "This judge judged the work incomplete but gave no usable instruction"
            ++ because t
    go [] = refl
    go (c ∷ cs) = refl

header-titled : (j : JudgeEntry) (body : Text) → header j ++ (codes "\n\n" ++ body) ≡ titled j body
unfolding header
header-titled j body = simp append_assoc refl

message_part-says :
    (j : JudgeEntry) (o : SupervisorOutcome)
    → message_part (j, o) ≡ (if not (is_completed o) then some (titled j (says o)) else none)
unfolding message_part body_of
message_part-says j (completed reason) = refl
message_part-says j (continue message reason) = ap some (header-titled j message)
message_part-says j (no_instruction reason) =
    ap some (header-titled j _ ∙ ap (titled j) (no_instruction_line-unusable reason))
message_part-says j (unparseable problem answer) =
    ap some (header-titled j _ ∙ ap (titled j) (no_instruction_line-unusable _))

-- The source's parts of the message are the quotes of the judges that are not satisfied.
message_parts-quoted :
    {d : Platform} (linked : List (Linked d))
    → any (λ x. is_err x.1) linked ≡ false
    → filter_map message_part (map outcome_at (all_ok (map without_link linked)))
      ≡ map quoted (keep is_unsatisfied linked)
unfolding all_ok
message_parts-quoted [] h = refl
message_parts-quoted ((j, ok t, l) ∷ xs) h =
    ap₂ (λ (o : Option Text) (rest : List Text). elim o [ none ↦ rest | some y ↦ y ∷ rest ])
      (message_part-says j t.outcome) (message_parts-quoted xs h)
    ∙ go (is_completed t.outcome)
  where
    go :
        (b : Bool)
        → (let rest = map quoted (keep is_unsatisfied xs) in
            elim (if not b then some (titled j (says t.outcome)) else none) [
              | none ↦ rest
              | some y ↦ y ∷ rest
            ])
          ≡ map quoted
              (if not b then (j, ok t, l) ∷ keep is_unsatisfied xs else keep is_unsatisfied xs)
    go true = refl
    go false = refl
message_parts-quoted ((j, err e, l) ∷ xs) h = cc

-- Whether an answer is a next instruction.
abbrev pub instructs : {d : Platform} → Result (SupervisorTurn d) → Bool
instructs r = is_some (instruction_of r)

is_continue-instruction : (o : SupervisorOutcome) → is_continue o ≡ is_some (instruction o)
is_continue-instruction (completed reason) = refl
is_continue-instruction (continue message reason) = refl
is_continue-instruction (no_instruction reason) = refl
is_continue-instruction (unparseable problem answer) = refl

any-instructs :
    {d : Platform} (linked : List (Linked d))
    → any (λ x. is_err x.1) linked ≡ false
    → any (λ x. is_continue x.1) (map outcome_at (all_ok (map without_link linked)))
      ≡ any (λ x. instructs x.1) linked
unfolding all_ok
any-instructs [] h = refl
any-instructs ((j, ok t, l) ∷ xs) h =
    ap₂ (λ a b. a || b) (is_continue-instruction t.outcome) (any-instructs xs h)
any-instructs ((j, err e, l) ∷ xs) h = cc

-- No judge gives a next instruction where all say that the work is done.
all-any :
    (os : Outcomes) → all (λ x. is_completed x.1) os ≡ true → any (λ x. is_continue x.1) os ≡ false
all-any [] h = refl
all-any ((j, completed reason) ∷ os) h = all-any os h
all-any ((j, continue message reason) ∷ os) h = cc
all-any ((j, no_instruction reason) ∷ os) h = cc
all-any ((j, unparseable problem answer) ∷ os) h = cc

instruction-combined_outcome :
    (os : Outcomes)
    → instruction (combined_outcome os)
      ≡ (if any (λ x. is_continue x.1) os then some (combined_message os) else none)
unfolding combined_outcome
instruction-combined_outcome os = ground (arith, all-any os)

-- The message of a panel in which no judge failed.
message_of : {d : Platform} → List (Linked d) → Text
message_of linked = join (codes "\n\n") (map quoted (keep is_unsatisfied linked))

instruction_of_sound :
    {d : Platform} (decisions : List (JudgeDecision d)) (linked : List (Linked d))
    → any (λ x. is_err x.1) linked ≡ false
    → instruction_of (combine_supervision true decisions linked).1
      ≡ (if any (λ x. instructs x.1) linked then some (message_of linked) else none)
unfolding combine_turns combined_message message_of
instruction_of_sound decisions linked noerr = elim (Option-cases (failed true linked)) [
  | inr (e, h) ↦ absurd (true≢false (ap is_some (sym h) ∙ (failed-any true linked ∙ noerr)))
  | inl h ↦
      ap instruction_of (combine-turns true decisions linked h)
      ∙ (instruction-combined_outcome (map outcome_at (all_ok (map without_link linked)))
          ∙ ap₂ (λ (b : Bool) parts. if b then some (join (codes "\n\n") parts) else none)
              (any-instructs linked noerr) (message_parts-quoted linked noerr))
]

instruction_of-failed :
    {d : Platform} (decisions : List (JudgeDecision d)) (linked : List (Linked d))
    → any (λ x. is_err x.1) linked ≡ true
    → instruction_of (combine_supervision true decisions linked).1 ≡ none
instruction_of-failed decisions linked failing = elim (Option-cases (failed true linked)) [
  | inr (e, h) ↦ ap instruction_of (combine-failed true decisions linked h)
  | inl h ↦ absurd (true≢false (sym failing ∙ (sym (failed-any true linked) ∙ ap is_some h)))
]

-- A panel of several judges gives the worker a message exactly if no judge failed and some judge
-- gave a next instruction; and then the message is what the judges that did not say the work is
-- done have to say, each under its own label and kind, in the order of the judges, parted by empty
-- lines: the instruction of a judge that gave one, and of any other the line that it gave no
-- usable instruction, with its reason where that is not blank.
pub combine_supervision-message :
    {d : Platform} (decisions : List (JudgeDecision d)) (linked : List (Linked d)) (message : Text)
    → (instruction_of (combine_supervision true decisions linked).1 ≡ some message) ↔ (
        (any (λ x. is_err x.1) linked ≡ false)
        × (any (λ x. instructs x.1) linked ≡ true)
        × (message ≡ join (codes "\n\n") (map quoted (keep is_unsatisfied linked))))
unfolding message_of
combine_supervision-message decisions linked message =
    elim (Bool-cases (any (λ x. is_err x.1) linked)) [
      | inl t ↦
          let e = instruction_of-failed decisions linked t in
          ((λ q. absurd cc), (λ (f, w, m). absurd cc))
      | inr f ↦
          let e = instruction_of_sound decisions linked f in
          ((λ q. ground arith), (λ (_, w, m). ground arith))
    ]
