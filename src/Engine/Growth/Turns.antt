-- ===== src/Engine/Growth/Turns.antt =====
-- How the steps of a run change the number of the worker's turns in its transcript.
use onejudge.Common.{
  some_inj, >>=-some, ℕ, suc, ◌≤◌, ◌<◌, ◌≡◌, sym, ap, ◌∙◌, subst, some, List, arith, Text, length,
  keep, length-append, keep-append,
}
use onejudge.Platform.{Platform}
use onejudge.Transcript.{
  Transcript, ToolEvent, assistant_turns, push, by_assistant, with_events, assistant_message,
}
use onejudge.Engine.Redirects.{Redirect, push_redirected, redirect_from}
use onejudge.Engine.Monad.{and_next, ◌>>=◌, M, Exit, Run, Reply, next, exit}
use onejudge.Engine.Ensures.{Extends, Ensures, Holds}
use onejudge.Engine.Growth.WorkerSteps.{redirect_from-Extends}

assistant_turns-Extends :
    {d : Platform} (t t' : Transcript d)
    → Extends t.messages t'.messages
    → assistant_turns t ≤ assistant_turns t'
unfolding assistant_turns
assistant_turns-Extends t t' x =
    subst (λ l. length (keep by_assistant t.messages) ≤ length (keep by_assistant l)) (sym x.parts)
      (subst (λ l. length (keep by_assistant t.messages) ≤ length l)
        (sym (keep-append by_assistant t.messages x.added))
        (omega (arith, length-append (keep by_assistant t.messages) (keep by_assistant x.added))))

assistant_turns-reply :
    {d : Platform} (t : Transcript d) (text : Text) (events : List (ToolEvent d))
    → assistant_turns (push t (with_events (assistant_message text) events))
      ≡ suc (assistant_turns t)
unfolding assistant_turns push with_events assistant_message
assistant_turns-reply t text events =
    ap length (keep-append by_assistant t.messages _)
    ∙ (length-append (keep by_assistant t.messages) _ ∙ omega arith)

pub push_redirected-turns :
    {d : Platform} (t : Transcript d) (rs : List Redirect) (text : Text)
    (events : List (ToolEvent d)) {t' : Transcript d}
    → push_redirected t rs text events ≡ some t'
    → suc (assistant_turns t) ≤ assistant_turns t'
unfolding push_redirected
push_redirected-turns t rs text events e =
    let (s, (e1, e2)) = >>=-some (redirect_from t rs 0 0 events) _ e in
    subst (λ u. suc (assistant_turns t) ≤ assistant_turns u) (some_inj e2)
      (omega (
        arith,
        assistant_turns-reply s.0 text s.1,
        assistant_turns-Extends t s.0 (redirect_from-Extends rs t 0 0 events e1),
      ))

module _ {d : Platform} {W : Type 0} where
  -- The relation of the run before a step to the run after it, where the step does not exit.
  abbrev pub Through : {A : Type 0} → (Run d W → Run d W → Type 0) → Run d W → Reply d W A → Type 0
  Through R r (next a s) = R r s
  Through R r (exit e s) = Unit

  pub record Relates {A : Type 0} (R : Run d W → Run d W → Type 0) (m : M d W A) : Type 0 where
    pub at : (r : Run d W) → Through R r (m r)

  pub Relates-bind :
      {A B : Type 0} {R S T : Run d W → Run d W → Type 0} {m : M d W A} {f : A → M d W B}
      → ((r s t : Run d W) → R r s → S s t → T r t)
      → Relates R m
      → ((a : A) → Relates S (f a))
      → Relates T (m >>= f)
  Relates-bind {A} {B} {R} {S} {T} {m} {f} c k l = record { at = λ r. go r (m r) (k.at r) }
    where
      through : (r s : Run d W) (y : Reply d W B) → R r s → Through S s y → Through T r y
      through r s (next b t) x z = c r s t x z
      through r s (exit e t) x z = tt

      go : (r : Run d W) (x : Reply d W A) → Through R r x → Through T r (and_next x f)
      go r (next a s) x = through r s (f a s) x ((l a).at s)
      go r (exit e s) x = tt

  abbrev pub turns : Run d W → ℕ
  turns r = assistant_turns r.transcript

  abbrev pub Keeps : Run d W → Run d W → Type 0
  Keeps r s = turns r ≤ turns s

  abbrev pub Adds : Run d W → Run d W → Type 0
  Adds r s = suc (turns r) ≤ turns s

  -- A step that goes on only below the limit.
  abbrev pub Below : ℕ → Run d W → Run d W → Type 0
  Below limit r s = (turns r < limit) × (turns r ≤ turns s)

  abbrev pub AddsBelow : ℕ → Run d W → Run d W → Type 0
  AddsBelow limit r s = (suc (turns r) < limit) × (suc (turns r) ≤ turns s)

  pub Ensures-Keeps :
      {A : Type 0} {Q : Exit → Type 0} {V : A → Type 0} {m : M d W A}
      → Ensures Q V m
      → Relates Keeps m
  Ensures-Keeps {A} {Q} {V} {m} k = record { at = λ r. go r (m r) (k.at r) }
    where
      go : (r : Run d W) (x : Reply d W A) → Holds Q V r x → Through Keeps r x
      go r (next a s) v = assistant_turns-Extends r.transcript s.transcript v.0.transcript
      go r (exit e s) v = tt
