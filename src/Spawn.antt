-- ===== src/Spawn.antt =====
-- crates/onejudge/src/spawn.rs: starting child processes under the hook of the embedder. The
-- operating system and the hook are functions on a state that they own.
pub mod Records
use onejudge.Common.{
  ℕ, zero, suc, ◌+◌, ◌-◌, ◌*◌, ◌/◌, ◌%◌, ◌^◌, ◌≤◌, ◌<◌, min, max, String, ◌≡◌, refl, sym, ap, ap₂,
  ◌∙◌, subst, ◌≡⟨◌⟩◌, ◌∎, fun_ext, ◌≢◌, ◌↔◌, ◌⊎◌, inl, inr, Bool, true, false, not, ◌&&◌, ◌||◌,
  Option, none, some, List, [], ◌∷◌, ◌++◌, map, append-nil, append_assoc, map-append, Memᴰ, Infix,
  Infix-refl, Infix-append_left, Infix-append_right, Infix-cons, arith, Text, codes, text_eq,
  is_whitespace, is_ascii_digit, is_ascii_alphanumeric, trim_start, trim_end, trim, split, join,
  starts_with, contains, show, text_eq_iff, text_eq_refl, length, take, drop, is_empty, get_last?,
  keep, any, all, find, length-append, keep-append, length-keep, length-take, length-drop,
  take-append-drop, filter_map, flat_map, length-map, All, All-append, ltb, leb, ◌==◌,
  if◌then◌else◌, ltb→lt, lt→ltb, leb→le, ==_iff, tests, Bool-cases, Option-cases, is_some, is_none,
  get_or_else, map_some, or_else, both_some, ◌>>=◌,
}
use onejudge.Error.{Error, Result, ok, err, spawn, provider_classified}
use onejudge.Telemetry.{TelemetryRole, agent, judge}
use onejudge.Report.{SpawnedProcess}

pub record SpawnContext : Type 0 where
  pub role : TelemetryRole
  pub op : Text
  pub program : Text

-- `std::process::Command`, and an `io::Result` with the text of its error.
pub record Command : Type 0 where
  pub program : Text
  pub args : List Text

pub data Io (A : Type 0) : Type 0 where
  done : A → Io A
  io_error : Text → Io A

-- `SpawnHook`: it prepares a command, and names the group of a process that has started.
pub record SpawnHook (W : Type 0) : Type 0 where
  pub spawning : Command → SpawnContext → W → Io Command × W
  pub spawned : ℕ → SpawnContext → W → Io (Option Text) × W

-- `Command::spawn` with the process's id, and `kill` and then `wait` of a child.
pub record System (W : Type 0) : Type 0 where
  pub start : Command → W → Io ℕ × W
  pub kill_and_wait : ℕ → W → W

pub record Spawner (W : Type 0) : Type 0 where
  pub hook : Option (SpawnHook W)
  pub records : List SpawnedProcess

unfoldable pub hook_error : SpawnContext → Text → Text → Error
hook_error context stage error =
    provider_classified context.op
      (codes "the installed spawn hook could not "
        ++ (stage ++ (codes " `" ++ (context.program ++ (codes "`: " ++ error)))))
      spawn

unfoldable pub role_of : Text → TelemetryRole
role_of op = if text_eq op (codes "respond") then agent else judge

unfoldable pub process_of : SpawnContext → ℕ → Option Text → SpawnedProcess
process_of context pid group = record {
  role = context.role;
  op = context.op;
  program = context.program;
  pid = pid;
  group = group;
  judge = none;
}

module _ {W : Type 0} where
  abbrev pub default_spawner : Spawner W
  default_spawner = record { hook = none; records = [] }

  unfoldable pub install : SpawnHook W → Spawner W → Spawner W
  install hook s = record s { hook = some hook }

  unfoldable pub reset : Spawner W → Spawner W
  reset s = record s { records = [] }

  -- The hook's first half: the command that is started.
  unfoldable pub prepare : Option (SpawnHook W) → Command → SpawnContext → W → Result Command × W
  prepare none command context w = (ok command, w)
  prepare (some hook) command context w =
      let (answer, w1) = hook.spawning command context w in
      elim answer [
        | done command' ↦ (ok command', w1)
        | io_error e ↦ (err (hook_error context (codes "prepare") e), w1)
      ]

  -- The hook's second half: a child that it cannot place in a group is torn down.
  unfoldable pub place :
      System W → Option (SpawnHook W) → ℕ → SpawnContext → W → Result (Option Text) × W
  place os none pid context w = (ok none, w)
  place os (some hook) pid context w =
      let (answer, w1) = hook.spawned pid context w in
      elim answer [
        | done group ↦ (ok group, w1)
        | io_error e ↦ (err (hook_error context (codes "group") e), os.kill_and_wait pid w1)
      ]

  -- `Spawner::spawn` behind the start of the process.
  unfoldable pub record_spawned :
      System W → Spawner W → SpawnContext → ℕ → W → Result ℕ × (Spawner W × W)
  unfolding process_of
  record_spawned os s context pid w =
      let (answer, w1) = place os s.hook pid context w in
      elim answer [
        | ok group ↦
            (ok pid, (record s { records = s.records ++ process_of context pid group ∷ [] }, w1))
        | err e ↦ (err e, (s, w1))
      ]

  unfoldable pub start_prepared :
      System W
      → Spawner W
      → Command
      → SpawnContext
      → (Text → Error)
      → W
      → Result ℕ × (Spawner W × W)
  unfolding record_spawned
  start_prepared os s command context spawn_error w =
      let (answer, w1) = os.start command w in
      elim answer [
        | done pid ↦ record_spawned os s context pid w1
        | io_error e ↦ (err (spawn_error e), (s, w1))
      ]

  unfoldable pub spawn_child :
      System W
      → Spawner W
      → Command
      → SpawnContext
      → (Text → Error)
      → W
      → Result ℕ × (Spawner W × W)
  unfolding start_prepared prepare
  spawn_child os s command context spawn_error w =
      let (answer, w1) = prepare s.hook command context w in
      elim answer [
        | ok command' ↦ start_prepared os s command' context spawn_error w1
        | err e ↦ (err e, (s, w1))
      ]
