-- ===== src/Split/Sides.antt =====
-- A split provider keeps its two backends apart: each goes through the operations of its own side.
use onejudge.Common.{
  ◌≡◌, refl, ap, ap₂, ◌∙◌, Bool, true, false, Option, List, [], ◌∷◌, Text, keep, if◌then◌else◌,
}
use onejudge.Platform.{Platform}
use onejudge.Transcript.{Message, ToolEvent}
use onejudge.HistoryName.{HistoryScope}
use onejudge.Provider.{SupervisorQuery, JudgeQuery, SkillRef, EvidenceContext}
use onejudge.Engine.Host.{HarnessEvent}
use onejudge.Split.{On, Backend, split_provider}

-- The calls that can change a backend's state.
pub data Call (d : Platform) (W : Type 0) : Type 0 where
  reset_call : Call d W
  scope_call : Option HistoryScope → Call d W
  label_call : Text → Call d W
  link_call tools_call decisions_call : Call d W
  respond_call : SkillRef → List (Message d) → Option Text → Call d W
  streaming_call : SkillRef → List (Message d) → Option Text → On (ToolEvent d) W → W → Call d W
  observing_call : SkillRef → List (Message d) → Option Text → On d.Action W → W → Call d W
  history_call : SkillRef → List (Message d) → Option Text → On (HarnessEvent d) W → W → Call d W
  supervise_observing_call :
      SupervisorQuery
      → List (Message d)
      → Option Text
      → EvidenceContext
      → On d.Begun W
      → W
      → Call d W
  user_call : Text → List (Message d) → Option Text → Call d W
  supervise_call : SupervisorQuery → List (Message d) → Option Text → Call d W
  judge_call : JudgeQuery d → List (Message d) → Call d W
  judge_evidence_call : JudgeQuery d → List (Message d) → EvidenceContext → Call d W
  assess_call : Text → List (Message d) → Call d W
  assess_evidence_call : Text → List (Message d) → EvidenceContext → Call d W
  supervise_evidence_call :
      SupervisorQuery → List (Message d) → Option Text → EvidenceContext → Call d W

module _ {d : Platform} {W : Type 0} where
  -- The state of a backend behind a call.
  abbrev pub behind : {S : Type 0} → Backend d W S → Call d W → S → S
  behind b reset_call s = b.reset_telemetry s
  behind b (scope_call scope) s = b.set_history_scope scope s
  behind b (label_call label) s = b.set_judge_label label s
  behind b link_call s = (b.take_judge_link s).1
  behind b tools_call s = (b.take_judge_tools s).1
  behind b decisions_call s = (b.take_judge_decisions s).1
  behind b (respond_call skill ms session) s = (b.respond skill ms session s).1
  behind b (streaming_call skill ms session f w) s = (b.respond_streaming skill ms session f w s).1
  behind b (observing_call skill ms session f w) s = (b.respond_observing skill ms session f w s).1
  behind b (history_call skill ms session f w) s = (b.respond_with_history skill ms session f w s).1
  behind b (supervise_observing_call q ms session ev f w) s =
      (b.supervise_observing q ms session ev f w s).1
  behind b (user_call persona ms session) s = (b.simulate_user persona ms session s).1
  behind b (supervise_call q ms session) s = (b.supervise q ms session s).1
  behind b (judge_call q ms) s = (b.judge q ms s).1
  behind b (judge_evidence_call q ms ev) s = (b.judge_with_evidence q ms ev s).1
  behind b (assess_call prompt ms) s = (b.assess prompt ms s).1
  behind b (assess_evidence_call prompt ms ev) s = (b.assess_with_evidence prompt ms ev s).1
  behind b (supervise_evidence_call q ms session ev) s =
      (b.supervise_with_evidence q ms session ev s).1

  abbrev pub behind_all : {S : Type 0} → Backend d W S → List (Call d W) → S → S
  behind_all b [] s = s
  behind_all b (call ∷ calls) s = behind_all b calls (behind b call s)

  -- The worker's turns, and what concerns a run as a whole.
  abbrev pub is_skill_side : Call d W → Bool
  is_skill_side reset_call = true
  is_skill_side (scope_call scope) = true
  is_skill_side (respond_call skill ms session) = true
  is_skill_side (streaming_call skill ms session f w) = true
  is_skill_side (observing_call skill ms session f w) = true
  is_skill_side (history_call skill ms session f w) = true
  is_skill_side _ = false

  -- All but the worker's turns.
  abbrev pub is_judge_side : Call d W → Bool
  is_judge_side (respond_call skill ms session) = false
  is_judge_side (streaming_call skill ms session f w) = false
  is_judge_side (observing_call skill ms session f w) = false
  is_judge_side (history_call skill ms session f w) = false
  is_judge_side _ = true

  module _ {S J : Type 0} (a : Backend d W S) (b : Backend d W J) where
    abbrev sides : Call d W → S → J → S × J
    sides call s j = (
      if is_skill_side call then behind a call s else s,
      if is_judge_side call then behind b call j else j,
    )

    split_provider-sides :
        (call : Call d W) (s : S) (j : J) → behind (split_provider a b) call (s, j) ≡ sides call s j
    unfolding split_provider
    split_provider-sides reset_call s j = refl
    split_provider-sides (scope_call scope) s j = refl
    split_provider-sides (label_call label) s j = refl
    split_provider-sides link_call s j = refl
    split_provider-sides tools_call s j = refl
    split_provider-sides decisions_call s j = refl
    split_provider-sides (respond_call skill ms session) s j = refl
    split_provider-sides (streaming_call skill ms session f w) s j = refl
    split_provider-sides (observing_call skill ms session f w) s j = refl
    split_provider-sides (history_call skill ms session f w) s j = refl
    split_provider-sides (supervise_observing_call q ms session ev f w) s j = refl
    split_provider-sides (user_call persona ms session) s j = refl
    split_provider-sides (supervise_call q ms session) s j = refl
    split_provider-sides (judge_call q ms) s j = refl
    split_provider-sides (judge_evidence_call q ms ev) s j = refl
    split_provider-sides (assess_call prompt ms) s j = refl
    split_provider-sides (assess_evidence_call prompt ms ev) s j = refl
    split_provider-sides (supervise_evidence_call q ms session ev) s j = refl

    behind_all-keep :
        {T : Type 0} (c : Backend d W T) (p : Call d W → Bool) (call : Call d W)
        (calls : List (Call d W)) (t : T)
        → behind_all c (keep p calls) (if p call then behind c call t else t)
          ≡ behind_all c (keep p (call ∷ calls)) t
    behind_all-keep c p call calls t = taken (p call)
      where
        taken :
            (k : Bool)
            → behind_all c (keep p calls) (if k then behind c call t else t)
              ≡ behind_all c (if k then call ∷ keep p calls else keep p calls) t
        taken true = refl
        taken false = refl

    -- However the calls of a run are interleaved, the two backends of a split provider come to the
    -- states that they would each come to alone: the skill's backend through the worker's turns,
    -- the judge's through all other calls, and both through a reset and through a new scope.
    pub split_provider-apart :
        (calls : List (Call d W)) (s : S) (j : J)
        → behind_all (split_provider a b) calls (s, j)
          ≡ (behind_all a (keep is_skill_side calls) s, behind_all b (keep is_judge_side calls) j)
    split_provider-apart [] s j = refl
    split_provider-apart (call ∷ calls) s j =
        ap (behind_all (split_provider a b) calls) (split_provider-sides call s j)
        ∙ (split_provider-apart calls _ _
            ∙ ap₂ (λ s j. (s, j)) (behind_all-keep a is_skill_side call calls s)
                (behind_all-keep b is_judge_side call calls j))
