-- ===== src/Command/Call.antt =====
-- crates/onejudge/src/command.rs: `call`, and the operations that make it.
use onejudge.Common.{
  ℕ, ◌⊎◌, inl, inr, Bool, true, false, not, ◌||◌, Option, none, some, List, [], ◌∷◌, ◌++◌, map,
  Text, codes, trim, is_empty, if◌then◌else◌, is_some, get_or_else,
}
use onejudge.Platform.{Platform}
use onejudge.Error.{
  Error, Result, ok, err, invalid, provider_error, provider_classified, ProviderErrorKind,
}
use onejudge.Transcript.{Message}
use onejudge.Provider.{
  JudgeKind, boolean, numeric, JudgeValue, bool, number, JudgeQuery, AssistantTurn, UserTurn, taken,
  lost, SkillRef, SupervisorQuery, SupervisorTurn, SupervisorOutcome, completed, continue,
  no_instruction, JudgeVerdict, Assessment, EvidenceContext,
}
use onejudge.Provider.Reask.{Ask, supervise_with_reask}
use onejudge.Spawn.{
  Io, done, io_error, System, Spawner, default_spawner, spawn_child, SpawnContext, role_of,
}
use onejudge.Command.Frames.{
  Request, respond_request, user_request, supervisor_request, judge_request, assess_request,
  RespondPayload, UserPayload, SupervisorPayload, JudgePayload, AssessmentPayload, Wire, Paths,
  frame_note, judge_frame, evidence_payload, EvidencePayload,
}

pub record CommandOutput : Type 0 where
  pub success : Bool
  pub status : Text
  pub stdout : Text
  pub stderr : Text

-- What the calls need of the operating system beside the start of a process.
pub record Pipes (W : Type 0) : Type 0 where
  pub system : System W
  pub has_stdin : ℕ → W → Bool
  pub write_all : ℕ → Text → W → Io (Unit {0}) × W
  pub wait_with_output : ℕ → W → Io CommandOutput × W

-- The program is the first element of `argv`, which is not empty.
pub record CommandProvider (W : Type 0) : Type 0 where
  pub program : Text
  pub args : List Text
  pub spawner : Spawner W

unfoldable pub new_command : {W : Type 0} → List Text → Result (CommandProvider W)
new_command [] = err (invalid (codes "provider command is empty"))
new_command (program ∷ args) =
    ok (record { program = program; args = args; spawner = default_spawner })

abbrev pub protocol_failure : Text → Text → Error
protocol_failure op message = provider_classified op message ProviderErrorKind.protocol

-- The response in what the command has put out.
unfoldable pub response : {T : Type 0} → Text → (Text → Text ⊎ T) → Io CommandOutput → Result T
response op read (io_error e) = err (provider_error op (codes "provider did not complete: " ++ e))
response op read (done output) =
    let line = trim output.stdout in
    if not output.success
    then err (
        protocol_failure op
          (codes "provider exited with " ++ (output.status ++ (codes ": " ++ trim output.stderr))))
    else if is_empty line
    then err (
        protocol_failure op
          (codes "provider produced no output (expected one JSON response object)"))
    else (elim (read line) [
      | inr payload ↦ ok payload
      | inl e ↦ err (
          protocol_failure op (
            codes "provider response was not valid JSON for `"
            ++ (op ++ (codes "`: " ++ (e ++ (codes "; got: " ++ line))))))
    ])

-- What a verdict's value is asked to be.
unfoldable pub has_kind : {d : Platform} → JudgeKind → JudgeValue d → Bool
has_kind boolean (bool b) = true
has_kind boolean (number x) = false
has_kind numeric (bool b) = false
has_kind numeric (number x) = true

abbrev pub wrong_value : JudgeKind → Error
wrong_value boolean =
    protocol_failure (codes "judge") (codes "expected a boolean verdict value, got a number")
wrong_value numeric =
    protocol_failure (codes "judge") (codes "expected a numeric verdict value, got a boolean")

abbrev pub verdict_of :
    {d : Platform} → JudgeKind → Error → Result (JudgePayload d) → Result (JudgeVerdict d)
verdict_of kind wrong (err e) = err e
verdict_of kind wrong (ok payload) =
    if has_kind kind payload.value
    then ok (record { value = payload.value; reason = payload.reason; usage = payload.usage })
    else err wrong

-- What a supervisor's response says; only a completion can be refused.
abbrev pub said : Text → Option Text → SupervisorOutcome
said reason none = no_instruction reason
said reason (some message) =
    if is_empty (trim message) then no_instruction reason else continue message reason

unfoldable pub supervisor_turn : {d : Platform} → SupervisorPayload d → Result (SupervisorTurn d)
supervisor_turn payload =
    if payload.completion
    then (if is_empty (trim payload.reason) || is_some payload.message
        then err (
            protocol_failure (codes "supervisor")
              (codes "completed response requires non-empty `reason` and forbids `message`"))
        else ok (record { outcome = completed payload.reason; usage = payload.usage }))
    else ok (record { outcome = said payload.reason payload.message; usage = payload.usage })

abbrev pub turn_of : {d : Platform} → Result (SupervisorPayload d) → Result (SupervisorTurn d)
turn_of (err e) = err e
turn_of (ok payload) = supervisor_turn payload

abbrev pub assistant_turn : {d : Platform} → Result (RespondPayload d) → Result (AssistantTurn d)
assistant_turn (err e) = err e
assistant_turn (ok payload) = ok (record {
  message = payload.message;
  done = payload.done;
  usage = payload.usage;
  events = get_or_else [] payload.events;
})

abbrev pub user_turn : {d : Platform} → Result (UserPayload d) → Result (UserTurn d)
user_turn (err e) = err e
user_turn (ok payload) =
    ok (record { message = payload.message; stop = payload.stop; usage = payload.usage })

abbrev pub assessment : {d : Platform} → Result (AssessmentPayload d) → Result (Assessment d)
assessment (err e) = err e
assessment (ok payload) =
    if is_empty (trim payload.text)
    then err (protocol_failure (codes "assess") (codes "assessment response contained empty text"))
    else ok (record { text = payload.text; usage = payload.usage })

module _ {d : Platform} {W : Type 0} (wire : Wire d) (pipes : Pipes W) where
  -- The request and the line feed behind it.
  unfoldable pub write_request : ℕ → Text → W → Io (Unit {0}) × W
  write_request pid payload w =
      let (answer, w1) = pipes.write_all pid payload w in
      elim answer [ io_error e ↦ (io_error e, w1) | done u ↦ pipes.write_all pid (codes "\n") w1 ]

  -- The call once the process runs.
  unfoldable pub converse_with :
      {T : Type 0} → Text → (Text → Text ⊎ T) → Text → ℕ → W → Result T × W
  unfolding write_request response
  converse_with op read payload pid w =
      if not (pipes.has_stdin pid w)
      then (err (provider_error op (codes "could not open provider stdin")), w)
      else (let (written, w1) = write_request pid payload w in
          elim written [
            | io_error e ↦ (err (provider_error op (codes "could not write request: " ++ e)), w1)
            | done u ↦
                let (output, w2) = pipes.wait_with_output pid w1 in (response op read output, w2)
          ])

  unfoldable pub not_started : CommandProvider W → Text → Text → Error
  not_started p op e =
      provider_classified op
        (codes "could not run provider `"
          ++ (p.program ++ (codes "`: " ++ (e ++ codes ". Is it installed and on PATH?"))))
        ProviderErrorKind.spawn

  unfoldable pub send :
      {T : Type 0}
      → Text
      → (Text → Text ⊎ T)
      → Text
      → CommandProvider W × W
      → Result T × (CommandProvider W × W)
  unfolding converse_with not_started
  send op read payload (p, w) =
      let context : SpawnContext = record { role = role_of op; op = op; program = p.program } in
      let (child, (s, w1)) =
        spawn_child pipes.system p.spawner (record { program = p.program; args = p.args }) context
          (not_started p op) w in
      let p' = record p { spawner = s } in
      elim child [
        | err e ↦ (err e, (p', w1))
        | ok pid ↦ let (answer, w2) = converse_with op read payload pid w1 in (answer, (p', w2))
      ]

  -- `call`: one request to a process of its own.
  unfoldable pub call :
      {T : Type 0}
      → Request d
      → Text
      → (Text → Text ⊎ T)
      → CommandProvider W × W
      → Result T × (CommandProvider W × W)
  unfolding send
  call request op read s = elim (wire.to_vec request) [
    | inl e ↦ (err (provider_error op (codes "could not encode request: " ++ e)), s)
    | inr payload ↦ send op read payload s
  ]

  unfoldable pub respond :
      SkillRef
      → List (Message d)
      → Option Text
      → CommandProvider W × W
      → Result (AssistantTurn d) × (CommandProvider W × W)
  unfolding call
  respond skill messages session s =
      let (answer, after) =
        call (respond_request skill messages session) (codes "respond") wire.read_respond s in
      (assistant_turn answer, after)

  unfoldable pub simulate_user :
      Text
      → List (Message d)
      → Option Text
      → CommandProvider W × W
      → Result (UserTurn d) × (CommandProvider W × W)
  unfolding call
  simulate_user persona messages session s =
      let (answer, after) =
        call (user_request persona messages session) (codes "user") wire.read_user s in
      (user_turn answer, after)

  -- The judge's call with the frame, if there is one.
  unfoldable pub judge_with :
      JudgeQuery d
      → List (Message d)
      → Option EvidencePayload
      → Error
      → CommandProvider W × W
      → Result (JudgeVerdict d) × (CommandProvider W × W)
  unfolding call judge_frame
  judge_with query messages evidence wrong s = elim (judge_frame query messages evidence) [
    | err e ↦ (err e, s)
    | ok frame ↦
        let (answer, after) = call (judge_request frame) (codes "judge") wire.read_judge s in
        (verdict_of query.kind wrong answer, after)
  ]

  unfoldable pub judge_with_evidence :
      Paths
      → JudgeQuery d
      → List (Message d)
      → EvidenceContext
      → CommandProvider W × W
      → Result (JudgeVerdict d) × (CommandProvider W × W)
  unfolding judge_with evidence_payload
  judge_with_evidence paths query messages evidence s =
      judge_with query messages (evidence_payload paths evidence)
        (protocol_failure (codes "judge") (codes "verdict value has the wrong type")) s

  unfoldable pub judge :
      JudgeQuery d
      → List (Message d)
      → CommandProvider W × W
      → Result (JudgeVerdict d) × (CommandProvider W × W)
  unfolding judge_with
  judge query messages s = judge_with query messages none (wrong_value query.kind) s

  unfoldable pub ask_once :
      SupervisorQuery
      → List (Message d)
      → Option Text
      → Ask
      → CommandProvider W × W
      → Result (SupervisorTurn d) × (CommandProvider W × W)
  unfolding call frame_note
  ask_once query messages session ask s =
      let (answer, after) =
        call
          (supervisor_request (record {
            task = query.task;
            persona = query.persona;
            done_when = query.done_when;
            worktree = query.worktree;
            history_name = query.history_name;
            notes = map frame_note query.notes;
            turn = query.turn;
            messages = messages;
            session = session;
          }))
          (codes "supervisor") wire.read_supervisor s in
      (turn_of answer, after)

  unfoldable pub supervise :
      SupervisorQuery
      → List (Message d)
      → Option Text
      → CommandProvider W × W
      → Result (SupervisorTurn d) × (CommandProvider W × W)
  unfolding ask_once
  supervise query messages session s = elim query.turn [
    | lost cause harness ↦ ask_once query messages session (record { attempt = 0; reask = none }) s
    | taken ↦ supervise_with_reask (ask_once query messages session) s
  ]

  unfoldable pub assess :
      Text
      → List (Message d)
      → CommandProvider W × W
      → Result (Assessment d) × (CommandProvider W × W)
  unfolding call
  assess prompt messages s =
      let (answer, after) =
        call (assess_request prompt messages) (codes "assess") wire.read_assessment s in
      (assessment answer, after)
