-- ===== src/Llmlint/Arguments.antt =====
-- How the linter's command line is read for its labels, and which command line a run starts the
-- linter with (crates/onejudge/src/llmlint.rs).
use onejudge.Common.{
  ℕ, ◌≡◌, refl, ap, ◌∙◌, false, Option, none, some, List, [], ◌∷◌, ◌++◌, Text, codes, text_eq, All,
  strip_prefix,
}
use onejudge.Platform.{Platform}
use onejudge.Error.{Result, ok, err}
use onejudge.Telemetry.{judge}
use onejudge.Spawn.{Spawner, spawn_child}
use onejudge.Llmlint.{
  Tools, LlmlintProvider, caller_labels, label_args, config_args, diff_args, pair_of, listed,
}
use onejudge.Llmlint.Reading.{Output}
use onejudge.Llmlint.Run.{finished, finish_child, lint_args, run_command, not_run}

-- An argument that is not spelled as a label flag, neither on its own nor with its value.
abbrev pub Unlabelled : Text → Type 0
Unlabelled arg =
    (text_eq arg (codes "--label") ≡ false) × (strip_prefix (codes "--label=") arg ≡ none)

caller_labels-skip :
    (arg : Text) (rest : List Text)
    → Unlabelled arg
    → caller_labels (arg ∷ rest) ≡ caller_labels rest
unfolding caller_labels
caller_labels-skip arg [] (e, h) = ap pair_of h
caller_labels-skip arg (next ∷ rest) (e, h) = rw (e, h) refl

caller_labels-All :
    (args rest : List Text)
    → All Unlabelled args
    → caller_labels (args ++ rest) ≡ caller_labels rest
caller_labels-All [] rest h = refl
caller_labels-All (arg ∷ args) rest (h, hs) =
    caller_labels-skip arg (args ++ rest) h ∙ caller_labels-All args rest hs

config_args-Unlabelled :
    (config : Option Text) → All Unlabelled (listed config) → All Unlabelled (config_args config)
unfolding text_eq strip_prefix
config_args-Unlabelled none h = tt
config_args-Unlabelled (some config) h = ((refl, refl), h)

diff_args-Unlabelled :
    (base : Option Text) → All Unlabelled (listed base) → All Unlabelled (diff_args base)
unfolding text_eq strip_prefix
diff_args-Unlabelled none h = tt
diff_args-Unlabelled (some base) h = ((refl, refl), ((refl, refl), h))

-- The arguments before the labels hold no label flag, so that the whole command line reads as what
-- stands behind them.
pub caller_labels-lint_args :
    {d : Platform} {W : Type 0} (t : Tools W) (p : LlmlintProvider d W) (worktree : Text)
    (ls : List (Text × Text))
    → Unlabelled worktree
    → All Unlabelled (listed p.config)
    → All Unlabelled (listed p.diff_base)
    → caller_labels (lint_args t p worktree ls) ≡ caller_labels (label_args ls ++ p.args)
unfolding lint_args text_eq strip_prefix
caller_labels-lint_args t p worktree ls tree config base =
    caller_labels-All
      (codes "lint"
        ∷ codes "--cwd"
        ∷ worktree
        ∷ codes "--format"
        ∷ codes "human"
        ∷ codes "--color"
        ∷ codes "never"
        ∷ codes "--progress"
        ∷ codes "never"
        ∷ [])
      _
      (
        (refl, refl),
        (
          (refl, refl),
          (
            tree,
            (
              (refl, refl),
              ((refl, refl), ((refl, refl), ((refl, refl), ((refl, refl), ((refl, refl), tt))))),
            ),
          ),
        ),
      )
    ∙ (caller_labels-All (config_args p.config) _ (config_args-Unlabelled p.config config)
        ∙ caller_labels-All (diff_args p.diff_base) _ (diff_args-Unlabelled p.diff_base base))

-- A run changes neither the link nor the arguments of the provider.
abbrev pub Keeps :
    {d : Platform} {W A : Type 0} → LlmlintProvider d W → A × (LlmlintProvider d W × W) → Type 0
Keeps p x = (x.1.0.link ≡ p.link) × (x.1.0.args ≡ p.args)

-- A process of the provider's executable was started for the arguments, under the hook where one is
-- installed.
abbrev pub Started :
    {d : Platform} {W : Type 0} → Tools W → LlmlintProvider d W → Text → W → List Text → Type 0
Started t p op w args =
    (pid : ℕ) × ((spawn_child t.system p.spawner (record { program = p.bin; args = args })
        (record { role = judge; op = op; program = p.bin }) (not_run t p op) w).0
      ≡ ok pid)

-- A run that gives the linter's output has started it for them.
pub run_command-Started :
    {d : Platform} {W : Type 0} (t : Tools W) (p : LlmlintProvider d W) (args : List Text)
    (op : Text) (w : W)
    → Keeps p (run_command t p args op w)
      × ((o : Output) → (run_command t p args op w).0 ≡ ok o → Started t p op w args)
unfolding run_command
run_command-Started {d} {W} t p args op w =
    started (spawn_child t.system p.spawner command context (not_run t p op) w).0 refl
  where
    command : onejudge.Spawn.Command
    command = record { program = p.bin; args = args }

    context : onejudge.Spawn.SpawnContext
    context = record { role = judge; op = op; program = p.bin }

    after : Spawner W × W
    after = (spawn_child t.system p.spawner command context (not_run t p op) w).1

    started :
        (c : Result ℕ)
        → (spawn_child t.system p.spawner command context (not_run t p op) w).0 ≡ c
        → (let x : Result Output × (LlmlintProvider d W × W) = elim c [
          | err e ↦ (err e, (record p { spawner = after.0 }, after.1))
          | ok pid ↦
              let (answer, w2) = finished t p op (finish_child t pid after.1) in
              (answer, (record p { spawner = after.0 }, w2))
        ] in
            Keeps p x × ((o : Output) → x.0 ≡ ok o → Started t p op w args))
    started (err e) q = ((refl, refl), (λ o h. absurd cc))
    started (ok pid) q = ((refl, refl), (λ o h. (pid, q)))
