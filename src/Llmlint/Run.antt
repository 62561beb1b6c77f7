-- ===== src/Llmlint/Run.antt =====
-- crates/onejudge/src/llmlint.rs: one run of the linter (`lint`, `run`, `Running::finish`), and the
-- probe of the executable.
use onejudge.Common.{
  ℕ, ◌-◌, ◌^◌, min, true, false, Option, none, some, List, [], ◌∷◌, ◌++◌, Text, codes, trim_end,
  trim, show, is_empty, ◌==◌, if◌then◌else◌, get_or_else,
}
use onejudge.Platform.{Platform}
use onejudge.Error.{
  Error, Result, ok, err, invalid, spawn, protocol, other, provider_error, provider_classified,
}
use onejudge.Usage.{default_usage}
use onejudge.Telemetry.{InvocationTelemetry, judge}
use onejudge.Provider.{JudgeLink}
use onejudge.Spawn.{reset, Io, done, io_error, default_spawner, spawn_child, SpawnContext}
use onejudge.Llmlint.Reading.{
  min_version, label_value_problem, run_id, summary_line, Output, describe, bounded, is_supported,
}
use onejudge.Llmlint.{
  Tools, LlmlintProvider, Lint, clean, failing, caller_labels, extend_labels, label_args,
  config_args, diff_args, default_judge_label, probe_op,
}

unfoldable pub could_not_complete : Text → Output → Error
could_not_complete op o =
    provider_classified op
      (codes "llmlint could not complete ("
        ++ (describe o ++ (codes "): " ++ bounded o.stderr o.stdout)))
      other

abbrev pub clean_with : Text → Option Text → Result Lint
clean_with op (some summary) = ok (clean summary)
clean_with op none = err (
    provider_classified op
      (codes "llmlint exited 0 but wrote no report (expected its summary line on stdout)") protocol)

abbrev pub failing_with : Text → Text → Option Text → Result Lint
failing_with op report (some summary) = ok (failing report summary)
failing_with op report none = err (
    provider_classified op
      (codes "llmlint exited 1 (at least one rule fails) but wrote no report: "
        ++ codes "there is nothing to hand the worker")
      protocol)

-- What the exit code and the report decide.
abbrev pub decided_code : Text → Output → Text → Option ℕ → Result Lint
decided_code op o report none = err (could_not_complete op o)
decided_code op o report (some code) =
    if code == 0
    then clean_with op (summary_line report)
    else if code == 1
    then failing_with op report (summary_line report)
    else err (could_not_complete op o)

unfoldable pub decided_by : Text → Output → Result Lint
decided_by op o = decided_code op o (trim_end o.stdout) o.code

module _ {W : Type 0} (t : Tools W) where
  unfoldable pub first_problem : List (Text × Text) → Text → Option Error
  unfolding label_value_problem
  first_problem [] op = none
  first_problem ((key, value) ∷ labels) op = elim (label_value_problem value) [
    | none ↦ first_problem labels op
    | some problem ↦ some (
        provider_classified op
          (codes "cannot label the llmlint run `"
            ++ (key
                ++ (codes "="
                    ++ (t.debug_text value
                        ++ (codes "`: the value "
                            ++ (problem ++ codes ", which llmlint's `--label` refuses"))))))
          other)
  ]

  -- `Running::finish`, and the drop of a child whose wait failed.
  unfoldable pub finish_child : ℕ → W → Io Output × W
  finish_child pid w =
      let (pipes, w1) = t.read_pipes pid w in
      let (exited, w2) = t.wait pid w1 in
      elim exited [
        | io_error e ↦ (io_error e, t.system.kill_and_wait pid w2)
        | done status ↦ elim pipes.0 [
          | io_error e ↦ (io_error e, w2)
          | done out ↦ elim pipes.1 [
            | io_error e ↦ (io_error e, w2)
            | done said ↦ (
              done (record { code = status.0; status = status.1; stdout = out; stderr = said }),
              w2,
            )
          ]
        ]
      ]

module _ {d : Platform} {W : Type 0} (t : Tools W) where
  abbrev pub labels_of : LlmlintProvider d W → ℕ → List (Text × Text)
  labels_of p turn =
      (elim p.session [ none ↦ [] | some session ↦ (codes "session", session) ∷ [] ])
      ++ (codes "judge", get_or_else default_judge_label p.judge_label)
        ∷ (codes "turn", show turn)
        ∷ []

  unfoldable pub labels : LlmlintProvider d W → Text → ℕ → Result (List (Text × Text))
  unfolding first_problem
  labels p op turn = elim (first_problem t (labels_of p turn) op) [
    | none ↦ ok (labels_of p turn)
    | some e ↦ err e
  ]

  unfoldable pub finished : LlmlintProvider d W → Text → Io Output × W → Result Output × W
  finished p op (done output, w) = (ok output, w)
  finished p op (io_error e, w) = (
    err (provider_error op (codes "llmlint `" ++ (p.bin ++ (codes "` did not complete: " ++ e)))),
    w,
  )

  unfoldable pub not_run : LlmlintProvider d W → Text → Text → Error
  not_run p op e =
      provider_classified op
        (codes "could not run llmlint `"
          ++ (p.bin
              ++ (codes "` (the provider's `bin`): "
                  ++ (e ++ codes ". Is llmlint installed and on PATH?"))))
        spawn

  unfoldable pub run_command :
      LlmlintProvider d W → List Text → Text → W → Result Output × (LlmlintProvider d W × W)
  unfolding not_run finished finish_child
  run_command p args op w =
      let context : SpawnContext = record { role = judge; op = op; program = p.bin } in
      let (child, (s, w1)) =
        spawn_child t.system p.spawner (record { program = p.bin; args = args }) context
          (not_run p op) w in
      let p' = record p { spawner = s } in
      elim child [
        | err e ↦ (err e, (p', w1))
        | ok pid ↦ let (answer, w2) = finished p op (finish_child t pid w1) in (answer, (p', w2))
      ]

  unfoldable pub lint_args : LlmlintProvider d W → Text → List (Text × Text) → List Text
  unfolding label_args
  lint_args p worktree ls =
      codes "lint"
      ∷ codes "--cwd"
      ∷ worktree
      ∷ codes "--format"
      ∷ codes "human"
      ∷ codes "--color"
      ∷ codes "never"
      ∷ codes "--progress"
      ∷ codes "never"
      ∷ (config_args p.config ++ (diff_args p.diff_base ++ (label_args ls ++ p.args)))

  unfoldable pub link_of : LlmlintProvider d W → List (Text × Text) → Output → JudgeLink d
  unfolding extend_labels
  link_of p ls output = record {
    labels = extend_labels (extend_labels [] ls) (caller_labels p.args);
    run_id = run_id output.stderr;
    posture = none;
    events = [];
  }

  unfoldable pub lint_telemetry : ℕ → InvocationTelemetry d
  lint_telemetry elapsed = record {
    role = some judge;
    model_ms = none;
    tool_ms = some (min elapsed (2 ^ 64 - 1));
    time_to_first_token_ms = none;
    usage = default_usage;
    session_id = none;
    started_at = none;
    finished_at = none;
    history_id = none;
    ran = none;
    fell_through = [];
    candidates = [];
    history_file = none;
    judge = none;
    posture = none;
  }

  -- What a run that has ended leaves on the provider, and what it decided.
  unfoldable pub lint_ran :
      Text
      → List (Text × Text)
      → ℕ
      → Result Output × (LlmlintProvider d W × W)
      → Result Lint × (LlmlintProvider d W × W)
  unfolding link_of lint_telemetry decided_by
  lint_ran op ls started (err e, (p, w)) = (err e, (p, w))
  lint_ran op ls started (ok output, (p, w)) =
      let (now, w1) = t.clock w in
      (
        decided_by op output,
        (
          record p {
            link = some (link_of p ls output);
            telemetry = p.telemetry ++ lint_telemetry (now - started) ∷ [];
          },
          w1,
        ),
      )

  -- `lint`: one run of the linter.
  unfoldable pub lint :
      LlmlintProvider d W → Text → Text → ℕ → W → Result Lint × (LlmlintProvider d W × W)
  unfolding labels lint_ran run_command lint_args
  lint p op worktree turn w =
      let p0 = record p { link = none } in
      elim (labels p0 op turn) [
        | err e ↦ (err e, (p0, w))
        | ok ls ↦
            let (started, w1) = t.clock w in
            lint_ran op ls started (run_command p0 (lint_args p0 worktree ls) op w1)
      ]

  unfoldable pub probe_failure : LlmlintProvider d W → Output → Error
  probe_failure p o =
      provider_classified probe_op
        (codes "llmlint `"
          ++ (p.bin
              ++ (codes "` (the provider's `bin`) could not answer `--version` ("
                  ++ (describe o ++ (codes "): " ++ bounded o.stderr o.stdout)))))
        spawn

  unfoldable pub version_failure : LlmlintProvider d W → Text → Error
  version_failure p answer =
      provider_classified probe_op
        (codes "llmlint `"
          ++ (p.bin
              ++ (codes "` (the provider's `bin`) reports version `"
                  ++ (answer
                      ++ (codes "`, but onejudge needs llmlint "
                          ++ (min_version
                              ++ (codes
                                    " or newer (the first release whose `lint` takes `--label`). Upgrade it: "
                                  ++ (codes "`uv tool install --upgrade 'llmlint-cli>="
                                      ++ (min_version ++ codes "'`")))))))))
        spawn

  -- What `probe` makes of an answer.
  unfoldable pub probed : LlmlintProvider d W → Result Output → Result (LlmlintProvider d W)
  unfolding probe_failure version_failure
  probed p (err e) = err e
  probed p (ok o) = elim o.code [
    | none ↦ err (probe_failure p o)
    | some code ↦ elim (code == 0) [
      | false ↦ err (probe_failure p o)
      | true ↦
          if is_supported (trim o.stdout)
          then ok (record p { spawner = reset p.spawner })
          else err (version_failure p (trim o.stdout))
    ]
  ]

  abbrev pub fresh : Text → LlmlintProvider d W
  fresh bin = record {
    bin = bin;
    config = none;
    diff_base = none;
    args = [];
    spawner = default_spawner;
    telemetry = [];
    session = none;
    judge_label = none;
    link = none;
  }

  unfoldable pub new_llmlint : Text → W → Result (LlmlintProvider d W) × W
  unfolding run_command probed
  new_llmlint bin w = elim (is_empty (trim bin)) [
    | true ↦ (err (invalid (codes "llmlint `bin` is empty")), w)
    | false ↦
        let (answer, (p, w1)) = run_command (fresh bin) (codes "--version" ∷ []) probe_op w in
        (probed p answer, w1)
  ]
