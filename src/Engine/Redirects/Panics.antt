-- ===== src/Engine/Redirects/Panics.antt =====
-- When the clamp of `push_redirected` gets its bounds in the wrong order.
use onejudge.Common.{
  ℕ, ◌+◌, ◌-◌, ◌≤◌, ◌<◌, min, ◌≡◌, refl, true, none, some, List, [], ◌∷◌, arith, Text, length, drop,
  length-drop, is_some,
}
use onejudge.Platform.{Platform}
use onejudge.Transcript.{ToolEvent, Transcript}
use onejudge.Engine.Redirects.{Redirect, clamp, redirect_from, push_redirected}

clamp-first : (x n : ℕ) → clamp x 0 n ≡ some (min x n)
unfolding clamp
clamp-first x n = ground arith

clamp-panics : (x lo hi : ℕ) → hi < lo → clamp x lo hi ≡ none
unfolding clamp
clamp-panics x lo hi h = ground arith

-- A turn with exactly one redirect never panics.
pub push_redirected-single :
    {d : Platform} (t : Transcript d) (r : Redirect) (text : Text) (events : List (ToolEvent d))
    → is_some (push_redirected t (r ∷ []) text events) ≡ true
unfolding push_redirected redirect_from
push_redirected-single t r text events = rw (clamp-first r.tools (length events)) refl

-- A turn panics that was redirected more than once, the first time behind more than half, but no
-- more than all, of its events.
pub push_redirected-panics :
    {d : Platform} (t : Transcript d) (first second : Redirect) (rs : List Redirect) (text : Text)
    (events : List (ToolEvent d))
    → first.tools ≤ length events
    → length events < first.tools + first.tools
    → push_redirected t (first ∷ second ∷ rs) text events ≡ none
unfolding push_redirected redirect_from
push_redirected-panics t first second rs text events fits late =
    rw (clamp-first first.tools (length events)) (
      rw
        (clamp-panics second.tools (min first.tools (length events))
          (length (drop (min first.tools (length events) - 0) events))
          (omega (arith, length-drop (min first.tools (length events) - 0) events)))
        refl)
