-- ===== src/Examples/Judges.antt =====
-- A lint run over a tree with a failing rule, its labels, and the process that it starts.
use onejudge.Common.{
  ℕ, zero, suc, ◌+◌, ◌-◌, ◌*◌, ◌/◌, ◌%◌, ◌^◌, ◌≤◌, ◌<◌, min, max, String, ◌≡◌, refl, sym, ap, ap₂,
  ◌∙◌, subst, ◌≡⟨◌⟩◌, ◌∎, fun_ext, ◌≢◌, ◌⊎◌, inl, inr, Bool, true, false, not, ◌&&◌, ◌||◌, Option,
  none, some, List, [], ◌∷◌, ◌++◌, map, append-nil, append_assoc, map-append, Memᴰ, Infix,
  Infix-refl, Infix-append_left, Infix-append_right, Infix-cons, arith, Text, codes, text_eq,
  is_whitespace, is_ascii_digit, is_ascii_alphanumeric, trim_start, trim_end, trim, split, join,
  starts_with, contains, show, text_eq_iff, text_eq_refl, length, take, drop, is_empty, get_last?,
  keep, any, all, find, length-append, keep-append, length-keep, length-take, length-drop,
  take-append-drop, filter_map, flat_map, length-map, All, All-append, ltb, leb, ◌==◌,
  if◌then◌else◌, ltb→lt, lt→ltb, leb→le, ==_iff, tests, Bool-cases, Option-cases, is_some, is_none,
  get_or_else, map_some, or_else, both_some, ◌>>=◌, is_control, split_once, strip_prefix, lines,
  true≢false, some_inj, >>=-some,
}
use onejudge.Error.{ok}
use onejudge.Telemetry.{judge}
use onejudge.Provider.{SupervisorQuery, taken, JudgeLink}
use onejudge.Spawn.{SpawnContext, Command, done, System, Spawner, default_spawner, spawn_child}
use onejudge.Llmlint.{Tools, LlmlintProvider, caller_labels}
use onejudge.Llmlint.Reading.{Output}
use onejudge.Llmlint.Run.{lint, lint_args, labels_of, link_of}
use onejudge.Llmlint.Arguments.{Started}
use onejudge.Llmlint.LabelMaps.{value_at, last_value, lint-link}
use onejudge.Llmlint.Decisions.{ran}
use onejudge.Usage.{default_usage}
use onejudge.Harness.{Status, RunResult, HarnessCore, RunReport}
use onejudge.Harness.Select.{parse_report_typed}
use onejudge.Harness.Choice.{Read, parse_report_typed-Read}
use onejudge.Examples.{plain}

-- The system counts its processes.
abbrev system : System ℕ
system = record { start = λ c w. (done (suc w), suc w); kill_and_wait = λ pid w. w }

abbrev lint_tools : Tools ℕ
lint_tools = record {
  system = system;
  read_pipes = λ pid w. (
    (
      done (codes "main.rs: no todo left behind\n1 rule fails\n"),
      done (codes "See full results with `llmlint history 7f3a`\n"),
    ),
    w,
  );
  wait = λ pid w. (done (some 1, codes "exit status: 1"), w);
  clock = λ w. (10 * w, w);
  debug_text = λ t. t;
}

abbrev linter : LlmlintProvider plain ℕ
linter = record {
  bin = codes "llmlint";
  config = none;
  diff_base = some (codes "main");
  args = codes "--label" ∷ codes "judge=strict" ∷ [];
  spawner = default_spawner;
  telemetry = [];
  session = some (codes "server");
  judge_label = none;
  link = none;
}

abbrev query : SupervisorQuery
query = record {
  task = codes "Start the server.";
  persona = codes "an operator";
  done_when = none;
  worktree = codes "/work";
  history_name = codes "server-skill";
  notes = [];
  turn = taken;
  turn_index = 2;
}

abbrev lint_output : Output
lint_output = record {
  code = some 1;
  status = codes "exit status: 1";
  stdout = codes "main.rs: no todo left behind\n1 rule fails\n";
  stderr = codes "See full results with `llmlint history 7f3a`\n";
}

abbrev lint_link : JudgeLink plain
lint_link = link_of lint_tools linter (labels_of lint_tools linter 2) lint_output

linked : (lint lint_tools linter (codes "supervise") (codes "/work") 2 0).1.0.link ≡ some lint_link
unfolding lint onejudge.Llmlint.Run.labels onejudge.Llmlint.Run.lint_ran
    onejudge.Llmlint.Run.run_command onejudge.Llmlint.Run.finished onejudge.Llmlint.Run.finish_child
    link_of onejudge.Spawn.spawn_child onejudge.Spawn.prepare onejudge.Spawn.start_prepared
    onejudge.Spawn.place onejudge.Spawn.record_spawned onejudge.Llmlint.Run.first_problem
    onejudge.Llmlint.Reading.label_value_problem onejudge.Common.is_control onejudge.Common.show
linked = refl

lint-link_example :
    Started lint_tools linter
      (codes "supervise")
      (lint_tools.clock 0).1
      (lint_args lint_tools linter (codes "/work") (labels_of lint_tools linter 2))
    × ((key : Text)
        → value_at key lint_link.labels
          ≡ last_value key none (
              caller_labels
                (lint_args lint_tools linter (codes "/work") (labels_of lint_tools linter 2))))
unfolding text_eq strip_prefix
lint-link_example =
    lint-link lint_tools linter (codes "supervise") (codes "/work") 2 0 (refl, refl) tt
      ((refl, refl), tt) linked

abbrev context : SpawnContext
context = record { role = judge; op = codes "judge"; program = codes "llmlint" }

abbrev command : Command
command = record { program = codes "llmlint"; args = codes "--version" ∷ [] }

abbrev core : HarnessCore
core = record {
  failure_str = λ k. codes "failure";
  reason_str = λ k. codes "reason";
  ControlEvent = ℕ;
  is_redirected = λ e. e == 0;
  SocketPath = List Text;
  parent = λ p. elim p [ [] ↦ none | x ∷ xs ↦ some xs ];
  to_str = λ p. get_last? p;
}

abbrev run_result : Text → Option Text → Status → RunResult plain
run_result id text status = record {
  harness = id;
  harness_id = id;
  text = text;
  events = none;
  usage = default_usage;
  failure_kind = none;
  error = none;
  status = status;
  telemetry = none;
}

-- A chain whose first candidate could not be started, and whose second ran.
abbrev run_report : RunReport plain core
run_report = record {
  results =
      run_result (codes "codex") none Status.spawn_error
      ∷ run_result (codes "claude") (some (codes "Done.")) Status.ok
      ∷ [];
  fallback = some (record { ran = some (codes "claude"); fell_through = [] });
  control = none;
  session = none;
}

parse_report_typed-Read_example :
    Read core run_report (parse_report_typed core (codes "respond") run_report)
parse_report_typed-Read_example = parse_report_typed-Read core (codes "respond") run_report
