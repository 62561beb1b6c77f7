-- ===== src/Llmlint/LabelMaps.antt =====
-- The labels that are recorded with a run, against those on the linter's command line.
use onejudge.Common.{
  ℕ, ◌≡◌, refl, sym, ap, ap₂, ◌∙◌, false, Option, none, some, List, [], ◌∷◌, ◌++◌, arith, Text,
  codes, text_eq, show, text_eq_iff, any, All, ◌==◌, if◌then◌else◌, tests, get_or_else, split_once,
  some_inj,
}
use onejudge.Platform.{Platform}
use onejudge.Error.{Error, Result, ok, err}
use onejudge.Provider.{JudgeLink}
use onejudge.Llmlint.{
  Tools, LlmlintProvider, Lint, listed, default_judge_label, caller_labels, insert_label,
  extend_labels, label_args,
}
use onejudge.Llmlint.Reading.{Output}
use onejudge.Llmlint.Arguments.{
  Unlabelled, Keeps, Started, caller_labels-lint_args, run_command-Started,
}
use onejudge.Llmlint.Run.{
  first_problem, labels_of, labels, link_of, lint_ran, lint, lint_args, run_command, not_run,
}

abbrev pub value_at : Text → List (Text × Text) → Option Text
value_at key [] = none
value_at key ((k, v) ∷ entries) = if text_eq key k then some v else value_at key entries

-- What the last pair with the key says, or else what was said before.
abbrev pub last_value : Text → Option Text → List (Text × Text) → Option Text
last_value key before [] = before
last_value key before ((k, v) ∷ pairs) =
    last_value key (if text_eq key k then some v else before) pairs

abbrev pub Plain : Text × Text → Type 0
Plain x = any (λ c. c == b'=') x.0 ≡ false

text_eq-sym : (s t : Text) → text_eq s t ≡ text_eq t s
unfolding text_eq
text_eq-sym [] [] = refl
text_eq-sym [] (c ∷ t) = refl
text_eq-sym (c ∷ s) [] = refl
text_eq-sym (c ∷ s) (d ∷ t) = grind (arith, text_eq-sym s t)

value_at-insert_label :
    (key : Text) (x : Text × Text) (entries : List (Text × Text))
    → value_at key (insert_label x entries)
      ≡ (if text_eq key x.0 then some x.1 else value_at key entries)
unfolding insert_label
value_at-insert_label key (k, v) [] = refl
value_at-insert_label key (k, v) ((k', v') ∷ entries) =
    grind (tests, text_eq_iff, value_at-insert_label key (k, v) entries)

value_at-extend_labels :
    (key : Text) (entries pairs : List (Text × Text))
    → value_at key (extend_labels entries pairs) ≡ last_value key (value_at key entries) pairs
unfolding extend_labels
value_at-extend_labels key entries [] = refl
value_at-extend_labels key entries (x ∷ pairs) =
    value_at-extend_labels key (insert_label x entries) pairs
    ∙ ap (λ before. last_value key before pairs) (value_at-insert_label key x entries)

last_value-append :
    (key : Text) (xs ys : List (Text × Text)) (before : Option Text)
    → last_value key before (xs ++ ys) ≡ last_value key (last_value key before xs) ys
last_value-append key [] ys before = refl
last_value-append key (x ∷ xs) ys before =
    last_value-append key xs ys (if text_eq key x.0 then some x.1 else before)

split_once-Plain :
    (key value : Text)
    → any (λ c. c == b'=') key ≡ false
    → split_once b'=' (key ++ b'=' ∷ value) ≡ some (key, value)
unfolding split_once
split_once-Plain [] value plain = refl
split_once-Plain (c ∷ key) value plain =
    let e = split_once-Plain key value (grind tests) in grind (tests, e)

-- Reading the arguments that the labels were written to gives the labels back.
pub caller_labels-label_args :
    (ls : List (Text × Text)) (args : List Text)
    → All Plain ls
    → caller_labels (label_args ls ++ args) ≡ ls ++ caller_labels args
unfolding label_args caller_labels text_eq
caller_labels-label_args [] args plain = refl
caller_labels-label_args ((key, value) ∷ ls) args (plain, rest) =
    ap₂ (λ (o : Option (Text × Text)) xs. listed o ++ xs) (split_once-Plain key value plain)
      (caller_labels-label_args ls args rest)

link_of-labels :
    {d : Platform} {W : Type 0} (t : Tools W) (p : LlmlintProvider d W) (ls : List (Text × Text))
    (o : Output) (key : Text)
    → All Plain ls
    → value_at key (link_of t p ls o).labels
      ≡ last_value key none (caller_labels (label_args ls ++ p.args))
unfolding link_of
link_of-labels t p ls o key plain =
    value_at-extend_labels key (extend_labels [] ls) (caller_labels p.args)
    ∙ (ap (λ v. last_value key v (caller_labels p.args)) (value_at-extend_labels key [] ls)
        ∙ (sym (last_value-append key ls (caller_labels p.args) none)
            ∙ ap (last_value key none) (sym (caller_labels-label_args ls p.args plain))))

labels_of-Plain :
    {d : Platform} {W : Type 0} (t : Tools W) (p : LlmlintProvider d W) (turn : ℕ)
    → All Plain (labels_of t p turn)
labels_of-Plain t p turn = go p.session
  where
    go :
        (s : Option Text)
        → All Plain (
            (elim s [ none ↦ [] | some session ↦ (codes "session", session) ∷ [] ])
            ++ (codes "judge", get_or_else default_judge_label p.judge_label)
              ∷ (codes "turn", show turn)
              ∷ [])
    go none = (refl, (refl, tt))
    go (some s) = (refl, (refl, (refl, tt)))

module _ {d : Platform} {W : Type 0} (t : Tools W) (p : LlmlintProvider d W) (op worktree : Text)
    (turn : ℕ) (w : W) where
  -- The command line of the run, with onejudge's own labels and then the caller's arguments.
  abbrev pub command_line : List Text
  command_line = lint_args t p worktree (labels_of t p turn)

  -- Where neither the working tree nor the configuration nor the base of the difference is spelled
  -- like a label flag: a run of the linter that leaves a link for the judge has started a process
  -- for its command line, through the hook where one is installed, and the labels of that link are
  -- those of the whole command line: under each key stands the last value that the line gives it.
  pub lint-link :
      {link : JudgeLink d}
      → Unlabelled worktree
      → All Unlabelled (listed p.config)
      → All Unlabelled (listed p.diff_base)
      → (lint t p op worktree turn w).1.0.link ≡ some link
      → Started t p op (t.clock w).1 command_line
        × ((key : Text)
            → value_at key link.labels ≡ last_value key none (caller_labels command_line))
  unfolding lint labels lint_ran not_run lint_args
  lint-link {link} tree config base e = labelled (first_problem t (labels_of t p turn) op) e
    where
      p0 : LlmlintProvider d W
      p0 = record p { link = none }

      Told : Result Lint × (LlmlintProvider d W × W) → Type 0
      Told x =
          x.1.0.link ≡ some link
          → Started t p op (t.clock w).1 command_line
            × ((key : Text)
                → value_at key link.labels ≡ last_value key none (caller_labels command_line))

      read :
          (args : List Text) (key : Text)
          → args ≡ p.args
          → last_value key none (caller_labels (label_args (labels_of t p turn) ++ args))
            ≡ last_value key none (caller_labels command_line)
      read args key same =
          ap (λ xs. last_value key none (caller_labels (label_args (labels_of t p turn) ++ xs)))
            same
          ∙ ap (last_value key none)
              (sym (caller_labels-lint_args t p worktree (labels_of t p turn) tree config base))

      ran :
          (started : ℕ) (x : Result Output × (LlmlintProvider d W × W))
          → Keeps p0 x
          → ((o : Output) → x.0 ≡ ok o → Started t p op (t.clock w).1 command_line)
          → Told (lint_ran t op (labels_of t p turn) started x)
      ran started (err e, (p1, w1)) (no_link, same) line told =
          absurd (grind (arith, no_link, told))
      ran started (ok o, (p1, w1)) (no_link, same) line told = (
        line o refl,
        λ key.
            ap (λ (l : JudgeLink d). value_at key l.labels) (sym (some_inj told))
            ∙ (link_of-labels t p1 (labels_of t p turn) o key (labels_of-Plain t p turn)
                ∙ read p1.args key same),
      )

      labelled :
          (o : Option Error)
          → (let ls : Result (List (Text × Text)) = elim o [
            | none ↦ ok (labels_of t p turn)
            | some e ↦ err e
          ] in
              let x : Result Lint × (LlmlintProvider d W × W) = elim ls [
                | err e ↦ (err e, (p0, w))
                | ok ls ↦
                    let (started, w1) = t.clock w in
                    lint_ran t op ls started (run_command t p0 (lint_args t p0 worktree ls) op w1)
              ] in
              Told x)
      labelled none told =
          let (keeps, line) = run_command-Started t p0 command_line op (t.clock w).1 in
          ran _ (run_command t p0 command_line op (t.clock w).1) keeps line told
      labelled (some e) told = absurd cc
