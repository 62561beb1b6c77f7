-- ===== src/Common/Strings.antt =====
-- More of what the code uses of `str` and `char`: prefixes, lines, and parts at a separator.
use Prim.Native.Nat.{ℕ}
use mathlib.Core.Bool.{Bool, ◌||◌, ◌&&◌}
use mathlib.Core.Option.{Option, none, some}
use mathlib.Core.List.{List, [], ◌∷◌}
use onejudge.Common.Tests.{leb, ltb, ◌==◌, if◌then◌else◌, map_some}
use onejudge.Common.Chars.{Text, split}

-- `char::is_control`: the general category Cc.
unfoldable pub is_control : ℕ → Bool
is_control c = ltb c 0x20 || (leb 0x7f c && leb c 0x9f)

-- `split_once` at a character.
unfoldable pub split_once : ℕ → Text → Option (Text × Text)
split_once sep [] = none
split_once sep (c ∷ s) =
    let rest = split_once sep s in
    if c == sep then some ([], s) else map_some (λ (x : Text × Text). (c ∷ x.0, x.1)) rest

unfoldable pub strip_prefix : Text → Text → Option Text
strip_prefix [] s = some s
strip_prefix (c ∷ p) [] = none
strip_prefix (c ∷ p) (d ∷ s) = let rest = strip_prefix p s in if c == d then rest else none

-- A piece without the `\r` at its end.
unfoldable pub strip_return : Text → Text
strip_return [] = []
strip_return (c ∷ []) = if c == 13 then [] else c ∷ []
strip_return (c ∷ d ∷ s) = c ∷ strip_return (d ∷ s)

-- `lines`: the pieces between line feeds, without an empty one at the end.
unfoldable pub lines_of : List Text → List Text
unfolding strip_return
lines_of [] = []
lines_of ([] ∷ []) = []
lines_of ((c ∷ s) ∷ []) = (c ∷ s) ∷ []
lines_of (p ∷ q ∷ ps) = strip_return p ∷ lines_of (q ∷ ps)

unfoldable pub lines : Text → List Text
unfolding lines_of
lines s = lines_of (split (λ c. c == 10) s)
