-- ===== src/Engine/Redirects.antt =====
-- crates/onejudge/src/engine.rs: `push_redirected`, which splits a redirected turn's events and
-- texts over the messages that the transcript gets.
pub mod Events
pub mod Panics
use onejudge.Common.{
  ℕ, ◌-◌, min, max, Option, none, some, List, [], ◌∷◌, Text, codes, join, length, take, drop, leb,
  if◌then◌else◌, ◌>>=◌,
}
use onejudge.Platform.{Platform}
use onejudge.Transcript.{ToolEvent, Transcript, push, user_message, assistant_message, with_events}
use onejudge.Note.{Note}

-- A send that waits for its answer: the handle and the note.
pub record Sent : Type 0 where
  pub id : ℕ
  pub message : Note

-- A confirmed redirect of crates/onejudge/src/interrupt.rs; `tools` and `texts` are its `at`.
pub record Redirect : Type 0 where
  pub note : Note
  pub input : Text
  pub held : Option Sent
  pub tools : ℕ
  pub texts : List Text

-- `Ord::clamp`, which panics where its bounds are in the wrong order.
unfoldable pub clamp : ℕ → ℕ → ℕ → Option ℕ
clamp x lo hi = if leb lo hi then some (max lo (min x hi)) else none

-- The two messages of one redirect: what the agent had done, and the note's input.
unfoldable pub push_redirect :
    {d : Platform} → Transcript d → Text → List (ToolEvent d) → Text → Transcript d
push_redirect t said interrupted input =
    push (push t (with_events (assistant_message said) interrupted)) (user_message input)

-- The loop, with `tools`, `texts` and the events that are left; `none` is the panic.
unfoldable pub redirect_from :
    {d : Platform}
    → Transcript d
    → List Redirect
    → ℕ
    → ℕ
    → List (ToolEvent d)
    → Option (Transcript d × List (ToolEvent d))
unfolding push_redirect
redirect_from t [] tools texts events = some (t, events)
redirect_from t (r ∷ rs) tools texts events = clamp r.tools tools (length events) >>= λ upto.
    redirect_from
      (push_redirect t (join (codes "\n") (drop texts r.texts)) (take (upto - tools) events)
        r.input)
      rs upto (max (length r.texts) texts) (drop (upto - tools) events)

unfoldable pub push_redirected :
    {d : Platform}
    → Transcript d
    → List Redirect
    → Text
    → List (ToolEvent d)
    → Option (Transcript d)
unfolding redirect_from
push_redirected t redirects message events = redirect_from t redirects 0 0 events >>= λ s.
    some (push s.0 (with_events (assistant_message message) s.1))
