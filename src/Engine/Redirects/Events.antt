-- ===== src/Engine/Redirects/Events.antt =====
-- The events of a redirected turn over the messages that `push_redirected` writes.
use onejudge.Common.{
  some_inj, >>=-some, ℕ, ◌-◌, ◌≡◌, refl, sym, ap, ◌∙◌, some, List, [], ◌∷◌, ◌++◌, append-nil,
  append_assoc, Text, length, drop, take-append-drop, flat_map,
}
use onejudge.Platform.{Platform}
use onejudge.Transcript.{
  ToolEvent, Transcript, tool_events, push, Message, assistant_message, user_message, with_events,
}
use onejudge.Engine.Redirects.{Redirect, clamp, push_redirect, redirect_from, push_redirected}

flat_map-append {ℓ κ} :
    {A : Type ℓ} {B : Type κ} (f : A → List B) (xs ys : List A)
    → flat_map f (xs ++ ys) ≡ flat_map f xs ++ flat_map f ys
flat_map-append f [] ys = refl
flat_map-append f (x ∷ xs) ys =
    ap (λ l. f x ++ l) (flat_map-append f xs ys) ∙ sym (append_assoc (f x) _ _)

tool_events-push :
    {d : Platform} (t : Transcript d) (m : Message d)
    → tool_events (push t m) ≡ tool_events t ++ m.events
unfolding tool_events push
tool_events-push t m =
    flat_map-append (λ m. m.events) t.messages (m ∷ [])
    ∙ ap (λ l. flat_map (λ m. m.events) t.messages ++ l) (append-nil m.events)

tool_events-push_redirect :
    {d : Platform} (t : Transcript d) (said : Text) (interrupted : List (ToolEvent d))
    (input : Text)
    → tool_events (push_redirect t said interrupted input) ≡ tool_events t ++ interrupted
unfolding push_redirect user_message with_events
tool_events-push_redirect t said interrupted input =
    tool_events-push (push t (with_events (assistant_message said) interrupted))
      (user_message input)
    ∙ (append-nil _ ∙ tool_events-push t (with_events (assistant_message said) interrupted))

tool_events-redirect_from :
    {d : Platform} (rs : List Redirect) (t : Transcript d) (tools texts : ℕ)
    (events : List (ToolEvent d)) {t' : Transcript d} {rest : List (ToolEvent d)}
    → redirect_from t rs tools texts events ≡ some (t', rest)
    → tool_events t' ++ rest ≡ tool_events t ++ events
unfolding redirect_from
tool_events-redirect_from [] t tools texts events h =
    ap (λ s. tool_events s.0 ++ s.1) (sym (some_inj h))
tool_events-redirect_from (r ∷ rs) t tools texts events h =
    let (upto, (_, h')) = >>=-some (clamp r.tools tools (length events)) _ h in
    tool_events-redirect_from rs _ _ _ _ h'
    ∙ (ap (λ l. l ++ drop (upto - tools) events) (tool_events-push_redirect t _ _ _)
        ∙ (append_assoc (tool_events t) _ _
            ∙ ap (λ l. tool_events t ++ l) (take-append-drop (upto - tools) events)))

-- Where the split does not panic, the transcript's tool events are the old ones and then the
-- turn's, each once and in order, however many redirects there were.
pub push_redirected-tool_events :
    {d : Platform} (t : Transcript d) (rs : List Redirect) (text : Text)
    (events : List (ToolEvent d)) {t' : Transcript d}
    → push_redirected t rs text events ≡ some t'
    → tool_events t' ≡ tool_events t ++ events
unfolding push_redirected with_events
push_redirected-tool_events t rs text events h =
    let (s, (e, h')) = >>=-some (redirect_from t rs 0 0 events) _ h in
    ap tool_events (sym (some_inj h'))
    ∙ (tool_events-push s.0 _ ∙ tool_events-redirect_from rs t 0 0 events e)
