-- ===== src/Examples/Backends.antt =====
-- A command that judges and supervises, and a split provider of two backends that count.
use onejudge.Common.{
  ℕ, suc, ◌≡◌, refl, ◌↔◌, inl, inr, true, false, none, some, List, [], ◌∷◌, ◌++◌, codes,
  is_whitespace, trim_start, trim_end, trim, keep,
}
use onejudge.Error.{ok, err, invalid}
use onejudge.Control.{not_requested}
use onejudge.Provider.{
  boolean, bool, JudgeQuery, JudgeVerdict, SupervisorTurn, SupervisorQuery, continue, taken,
}
use onejudge.Spawn.{done, System, default_spawner}
use onejudge.Command.Frames.{Wire, Paths}
use onejudge.Command.Call.{Pipes, CommandProvider, judge, judge_with_evidence, supervise}
use onejudge.Command.Answers.{
  Typed, judge-Typed, no_evidence, judge_with_evidence-judge, Instructive, supervise-Instructive,
}
use onejudge.Split.{Backend, split_provider}
use onejudge.Split.Sides.{
  Call, behind_all, is_skill_side, is_judge_side, split_provider-apart, reset_call, respond_call,
  judge_call, supervise_call,
}
use onejudge.Examples.{plain}

-- The command answers every request with the same line.
abbrev pipes : Pipes ℕ
pipes = record {
  system = record { start = λ c w. (done (suc w), suc w); kill_and_wait = λ pid w. w };
  has_stdin = λ pid w. true;
  write_all = λ pid text w. (done tt, w);
  wait_with_output = λ pid w.
      (done (record { success = true; status = []; stdout = codes "yes\n"; stderr = [] }), w);
}

abbrev wire : Wire plain
wire = record {
  to_vec = λ r. inr (codes "request");
  read_respond = λ t. inr (record { message = t; done = false; usage = none; events = none });
  read_user = λ t. inr (record { message = t; stop = false; usage = none });
  read_supervisor = λ t. inr (record {
    completion = false;
    message = some (codes "Go on.");
    reason = codes "not yet";
    usage = none;
  });
  read_judge = λ t. inr (record { value = bool true; reason = t; usage = none });
  read_assessment = λ t. inr (record { text = t; usage = none });
}

abbrev paths : Paths
paths = record { is_absolute = λ t. false; join_path = λ a b. a ++ b }

abbrev commanded : CommandProvider ℕ
commanded = record { program = codes "judge"; args = []; spawner = default_spawner }

abbrev criterion : JudgeQuery plain
criterion = record { kind = boolean; criterion = codes "The server answers."; scale = none }

abbrev yes : JudgeVerdict plain
yes = record { value = bool true; reason = codes "yes"; usage = none }

judged_yes : (judge wire pipes criterion [] (commanded, 0)).0 ≡ ok yes
unfolding judge onejudge.Spawn.spawn_child onejudge.Spawn.place trim trim_end trim_start
    is_whitespace onejudge.Command.Call.has_kind
judged_yes = refl

judge-Typed_example : Typed {d = plain} boolean (bool true)
judge-Typed_example =
    judge-Typed wire pipes paths criterion [] no_evidence (commanded, 0) yes (inl judged_yes)

judge_with_evidence-judge_example :
    ((judge_with_evidence wire pipes paths criterion [] no_evidence (commanded, 0)).1
      ≡ (judge wire pipes criterion [] (commanded, 0)).1)
    × ((v : JudgeVerdict plain)
        → ((judge_with_evidence wire pipes paths criterion [] no_evidence (commanded, 0)).0 ≡ ok v)
          ↔ ((judge wire pipes criterion [] (commanded, 0)).0 ≡ ok v))
judge_with_evidence-judge_example =
    judge_with_evidence-judge wire pipes paths criterion [] (commanded, 0)

abbrev asked : SupervisorQuery
asked = record {
  task = codes "Start the server.";
  persona = codes "an operator";
  done_when = none;
  worktree = codes "/work";
  history_name = codes "server-skill";
  notes = [];
  turn = taken;
  turn_index = 1;
}

abbrev go_on : SupervisorTurn plain
go_on = record { outcome = continue (codes "Go on.") (codes "not yet"); usage = none }

supervised : (supervise wire pipes asked [] none (commanded, 0)).0 ≡ ok go_on
unfolding supervise onejudge.Provider.Reask.supervise_with_reask onejudge.Provider.Reask.reask_from
    onejudge.Spawn.spawn_child onejudge.Spawn.place trim trim_end trim_start is_whitespace
    onejudge.Command.Call.supervisor_turn onejudge.Provider.Reask.unusable
    onejudge.Usage.some_unless_empty onejudge.Usage.is_empty_usage onejudge.Usage.add_some_usage
supervised = refl

supervise-Instructive_example : Instructive (continue (codes "Go on.") (codes "not yet"))
supervise-Instructive_example =
    supervise-Instructive wire pipes asked [] none (commanded, 0) go_on supervised

-- A backend that counts its calls from the last reset.
abbrev counter : Backend plain ℕ ℕ
counter = record {
  supervises_lost_turns = λ n. false;
  reset_telemetry = λ n. 0;
  set_history_scope = λ scope n. n;
  set_judge_label = λ label n. n;
  take_judge_link = λ n. (none, n);
  take_judge_tools = λ n. ([], n);
  invocation_telemetry = λ n. [];
  spawned_processes = λ n. [];
  control = λ n. not_requested;
  supervisor_control = λ n. not_requested;
  turn_control = λ party session cwd n. none;
  take_judge_decisions = λ n. ([], n);
  respond = λ skill ms session n. (err (invalid []), suc n);
  respond_streaming = λ skill ms session f w n. ((err (invalid []), w), suc n);
  respond_observing = λ skill ms session f w n. ((err (invalid []), w), suc n);
  respond_with_history = λ skill ms session f w n. ((err (invalid []), w), suc n);
  supervise_observing = λ q ms session ev f w n. ((err (invalid []), w), suc n);
  simulate_user = λ persona ms session n. (err (invalid []), suc n);
  supervise = λ q ms session n. (err (invalid []), suc n);
  judge = λ q ms n. (ok yes, suc n);
  judge_with_evidence = λ q ms ev n. (ok yes, suc n);
  assess = λ prompt ms n. (err (invalid []), suc n);
  assess_with_evidence = λ prompt ms ev n. (err (invalid []), suc n);
  supervise_with_evidence = λ q ms session ev n. (err (invalid []), suc n);
}

abbrev calls : List (Call plain ℕ)
calls =
    reset_call
    ∷ respond_call (record { name = codes "serve"; dir = []; instructions = [] }) [] none
    ∷ supervise_call asked [] none
    ∷ judge_call criterion []
    ∷ []

split_provider-apart_example : behind_all (split_provider counter counter) calls (7, 7) ≡ (
  behind_all counter (keep is_skill_side calls) 7,
  behind_all counter (keep is_judge_side calls) 7,
)
split_provider-apart_example = split_provider-apart counter counter calls 7 7
