-- ===== src/Command/Answers.antt =====
-- What a command's responses can say, and how the two calls of the judge compare.
use onejudge.Common.{
  ◌≡◌, refl, ap, subst, ◌↔◌, ◌⊎◌, inl, inr, Bool, true, false, ◌||◌, Option, none, some, List, [],
  Text, codes, trim, is_empty, if◌then◌else◌, tests, is_some,
}
use onejudge.Platform.{Platform}
use onejudge.Error.{Error, Result, ok, err}
use onejudge.Transcript.{Message}
use onejudge.Provider.{
  TurnOutcome, taken, lost, SupervisorOutcome, completed, continue, no_instruction, unparseable,
  SupervisorTurn, SupervisorQuery, JudgeKind, boolean, numeric, JudgeValue, bool, number,
  JudgeQuery, JudgeVerdict, EvidenceContext,
}
use onejudge.Provider.Reask.{Ask, supervise_with_reask}
use onejudge.Provider.Reask.Outcomes.{supervise_with_reask-All}
use onejudge.Command.Frames.{
  judge_request, SupervisorPayload, Wire, Paths, JudgePayload, EvidencePayload, judge_frame,
  evidence_payload, JudgeFrame,
}
use onejudge.Command.Call.{
  call, wrong_value, protocol_failure, said, supervisor_turn, turn_of, ask_once, supervise, Pipes,
  CommandProvider, has_kind, verdict_of, judge_with, judge, judge_with_evidence,
}

ok_inj : {A : Type 0} {a b : A} → ok a ≡ ok b → a ≡ b
ok_inj q = cc

-- A value of the kind that was asked for.
abbrev pub Typed : {d : Platform} → JudgeKind → JudgeValue d → Type 0
Typed boolean v = (b : Bool) × (v ≡ bool b)
Typed {d} numeric v = (x : d.Float) × (v ≡ number x)

has_kind-Typed : {d : Platform} (k : JudgeKind) (v : JudgeValue d) → has_kind k v ≡ true → Typed k v
unfolding has_kind
has_kind-Typed boolean (bool b) e = (b, refl)
has_kind-Typed boolean (number x) e = absurd cc
has_kind-Typed numeric (bool b) e = absurd cc
has_kind-Typed numeric (number x) e = (x, refl)

verdict_of-Typed :
    {d : Platform} (k : JudgeKind) (wrong : Error) (r : Result (JudgePayload d))
    {v : JudgeVerdict d}
    → verdict_of k wrong r ≡ ok v
    → Typed k v.value
verdict_of-Typed k wrong (err e) q = absurd cc
verdict_of-Typed {d} k wrong (ok payload) {v} q = kinds (has_kind k payload.value) refl q
  where
    kinds :
        (b : Bool)
        → has_kind k payload.value ≡ b
        → (if b
            then ok
                (record { value = payload.value; reason = payload.reason; usage = payload.usage })
            else err wrong)
          ≡ ok v
        → Typed k v.value
    kinds true h q =
        subst (λ (v : JudgeVerdict d). Typed k v.value) (ok_inj q)
          (has_kind-Typed k payload.value h)
    kinds false h q = absurd cc

-- The same decision with another word for a value of the wrong type.
same_verdict :
    {d : Platform} (k : JudgeKind) (e e' : Error) (r : Result (JudgePayload d)) (v : JudgeVerdict d)
    → verdict_of k e r ≡ ok v
    → verdict_of k e' r ≡ ok v
same_verdict k e e' (err x) v q = absurd cc
same_verdict {d} k e e' (ok payload) v q = kinds (has_kind k payload.value) q
  where
    kinds :
        (b : Bool)
        → (if b
            then ok
                (record { value = payload.value; reason = payload.reason; usage = payload.usage })
            else err e)
          ≡ ok v
        → (if b
            then ok
                (record { value = payload.value; reason = payload.reason; usage = payload.usage })
            else err e')
          ≡ ok v
    kinds true q = q
    kinds false q = absurd cc

abbrev pub no_evidence : EvidenceContext
no_evidence = record { worktree = none; history_files = []; artifacts = [] }

module _ {d : Platform} {W : Type 0} (wire : Wire d) (pipes : Pipes W) where
  judge_with-Typed :
      (query : JudgeQuery d) (ms : List (Message d)) (evidence : Option EvidencePayload)
      (wrong : Error) (s : CommandProvider W × W) {v : JudgeVerdict d}
      → (judge_with wire pipes query ms evidence wrong s).0 ≡ ok v
      → Typed query.kind v.value
  unfolding judge_with
  judge_with-Typed query ms evidence wrong s {v} q = framed (judge_frame query ms evidence) q
    where
      framed :
          (f : Result (JudgeFrame d))
          → (let x : Result (JudgeVerdict d) × (CommandProvider W × W) = elim f [
            | err e ↦ (err e, s)
            | ok frame ↦
                let (answer, after) =
                  call wire pipes (judge_request frame) (codes "judge") wire.read_judge s in
                (verdict_of query.kind wrong answer, after)
          ] in
              x.0 ≡ ok v → Typed query.kind v.value)
      framed (err e) q = absurd cc
      framed (ok frame) q = verdict_of-Typed query.kind wrong _ q

  -- A verdict is of the kind that was asked for, whichever of its two calls the judge answers.
  pub judge-Typed :
      (paths : Paths) (query : JudgeQuery d) (ms : List (Message d)) (evidence : EvidenceContext)
      (s : CommandProvider W × W) (v : JudgeVerdict d)
      → ((judge wire pipes query ms s).0 ≡ ok v)
        ⊎ ((judge_with_evidence wire pipes paths query ms evidence s).0 ≡ ok v)
      → Typed query.kind v.value
  unfolding judge judge_with_evidence
  judge-Typed paths query ms evidence s v (inl q) = judge_with-Typed query ms none _ s q
  judge-Typed paths query ms evidence s v (inr q) = judge_with-Typed query ms _ _ s q

  judge_with-same :
      (query : JudgeQuery d) (ms : List (Message d)) (evidence : Option EvidencePayload)
      (e e' : Error) (s : CommandProvider W × W)
      → ((judge_with wire pipes query ms evidence e s).1
          ≡ (judge_with wire pipes query ms evidence e' s).1)
        × ((v : JudgeVerdict d)
            → ((judge_with wire pipes query ms evidence e s).0 ≡ ok v)
            → ((judge_with wire pipes query ms evidence e' s).0 ≡ ok v))
  unfolding judge_with
  judge_with-same query ms evidence e e' s = framed (judge_frame query ms evidence)
    where
      with_error : Error → Result (JudgeFrame d) → Result (JudgeVerdict d) × (CommandProvider W × W)
      with_error wrong f = elim f [
        | err e ↦ (err e, s)
        | ok frame ↦
            let (answer, after) =
              call wire pipes (judge_request frame) (codes "judge") wire.read_judge s in
            (verdict_of query.kind wrong answer, after)
      ]

      framed :
          (f : Result (JudgeFrame d))
          → ((with_error e f).1 ≡ (with_error e' f).1)
            × ((v : JudgeVerdict d) → ((with_error e f).0 ≡ ok v) → ((with_error e' f).0 ≡ ok v))
      framed (err x) = (refl, λ v q. q)
      framed (ok frame) = (refl, λ v q. same_verdict query.kind e e' _ v q)

  -- With no evidence the judge's two calls are one: they start the same process with the same
  -- request, leave the same state behind, and give the same verdicts.
  pub judge_with_evidence-judge :
      (paths : Paths) (query : JudgeQuery d) (ms : List (Message d)) (s : CommandProvider W × W)
      → ((judge_with_evidence wire pipes paths query ms no_evidence s).1
          ≡ (judge wire pipes query ms s).1)
        × ((v : JudgeVerdict d)
            → ((judge_with_evidence wire pipes paths query ms no_evidence s).0 ≡ ok v)
              ↔ ((judge wire pipes query ms s).0 ≡ ok v))
  unfolding judge judge_with_evidence evidence_payload
  judge_with_evidence-judge paths query ms s =
      let (same, to) = judge_with-same query ms none _ (wrong_value query.kind) s in
      let (_, from) = judge_with-same query ms none (wrong_value query.kind) _ s in
      (same, λ v. (to v, from v))

-- What a supervisor's answer can be: a completion with a reason, an instruction that is not blank,
-- or none; the response is read as typed, so no answer is unparseable.
abbrev pub Instructive : SupervisorOutcome → Type 0
Instructive (completed reason) = is_empty (trim reason) ≡ false
Instructive (continue message reason) = is_empty (trim message) ≡ false
Instructive (no_instruction reason) = Unit {0}
Instructive (unparseable problem answer) = ⊥

said-Instructive : (reason : Text) (message : Option Text) → Instructive (said reason message)
said-Instructive reason none = tt
said-Instructive reason (some message) = blank (is_empty (trim message)) refl
  where
    blank :
        (b : Bool)
        → is_empty (trim message) ≡ b
        → Instructive (if b then no_instruction reason else continue message reason)
    blank true e = tt
    blank false e = e

turn_of-Instructive :
    {d : Platform} (r : Result (SupervisorPayload d)) (turn : SupervisorTurn d)
    → turn_of r ≡ ok turn
    → Instructive turn.outcome
unfolding supervisor_turn
turn_of-Instructive (err e) turn q = absurd cc
turn_of-Instructive {d} (ok payload) turn q =
    completes payload.completion (is_empty (trim payload.reason) || is_some payload.message) refl q
  where
    Told : SupervisorOutcome → Type 0
    Told o = ok (record { outcome = o; usage = payload.usage }) ≡ ok turn

    as_told : (o : SupervisorOutcome) → Told o → Instructive o → Instructive turn.outcome
    as_told o q k = subst Instructive (ap (λ (t : SupervisorTurn d). t.outcome) (ok_inj q)) k

    completes :
        (b refused : Bool)
        → (is_empty (trim payload.reason) || is_some payload.message) ≡ refused
        → (if b
            then (if refused
                then err (
                    protocol_failure (codes "supervisor") (
                      codes "completed response requires non-empty `reason` and forbids `message`"))
                else ok (record { outcome = completed payload.reason; usage = payload.usage }))
            else ok
                (record { outcome = said payload.reason payload.message; usage = payload.usage }))
          ≡ ok turn
        → Instructive turn.outcome
    completes true true e q = absurd cc
    completes true false e q = as_told _ q (grind (tests, e))
    completes false refused e q = as_told _ q (said-Instructive payload.reason payload.message)

module _ {d : Platform} {W : Type 0} (wire : Wire d) (pipes : Pipes W) where
  -- The supervisor's answer never hands the worker a blank instruction nor completes the work
  -- without a reason, whether the turn was taken or lost.
  pub supervise-Instructive :
      (query : SupervisorQuery) (ms : List (Message d)) (session : Option Text)
      (s : CommandProvider W × W) (turn : SupervisorTurn d)
      → (supervise wire pipes query ms session s).0 ≡ ok turn
      → Instructive turn.outcome
  unfolding supervise ask_once
  supervise-Instructive query ms session s turn q = by_turn query.turn q
    where
      asked :
          (a : Ask) (s : CommandProvider W × W) (t : SupervisorTurn d)
          → (ask_once wire pipes query ms session a s).0 ≡ ok t
          → Instructive t.outcome
      asked a s t e = turn_of-Instructive _ t e

      by_turn :
          (o : TurnOutcome)
          → (let x : Result (SupervisorTurn d) × (CommandProvider W × W) = elim o [
            | lost cause harness ↦
                ask_once wire pipes query ms session (record { attempt = 0; reask = none }) s
            | taken ↦ supervise_with_reask (ask_once wire pipes query ms session) s
          ] in
              x.0 ≡ ok turn → Instructive turn.outcome)
      by_turn (lost cause harness) e = asked (record { attempt = 0; reask = none }) s turn e
      by_turn taken e =
          supervise_with_reask-All (ask_once wire pipes query ms session) Instructive asked s turn
            tt e
