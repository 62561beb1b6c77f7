-- ===== src/Engine/Noop.antt =====
-- crates/onejudge/src/engine.rs: the detector of an agent and a supervisor that only repeat
-- themselves.
pub mod Settles
use onejudge.Common.{
  ℕ, ◌+◌, ◌%◌, ◌^◌, Bool, false, not, ◌&&◌, Option, none, some, List, map, Text, codes, text_eq,
  split, join, length, is_empty, keep, leb, if◌then◌else◌,
}
use onejudge.Platform.{Platform}
use onejudge.Transcript.{ToolEvent}

abbrev pub noop_settle_limit : ℕ
noop_settle_limit = 2

abbrev pub noop_exchange_chars : ℕ
noop_exchange_chars = 240

pub record NoopStreak : Type 0 where
  pub repeated : Option Text
  pub count : ℕ

abbrev pub default_streak : NoopStreak
default_streak = record { repeated = none; count = 0 }

unfoldable pub is_tiny : Text → Bool
is_tiny text = leb (length text) noop_exchange_chars

-- The words of a text in lower case, parted by single spaces.
unfoldable pub normalize : Platform → Text → Text
normalize d text = join (codes " ") (
    map d.to_lowercase (keep (λ w. not (is_empty w)) (split (λ c. not (d.is_alphanumeric c)) text)))

unfoldable pub is_quiet : {d : Platform} → Text → Text → List (ToolEvent d) → Bool
unfolding is_tiny
is_quiet instruction reply events = is_empty events && is_tiny instruction && is_tiny reply

unfoldable pub repeats : Option Text → Text → Bool
repeats none normalized = false
repeats (some before) normalized = text_eq before normalized

-- The streak after an exchange, with what `observe` returns. The count is a `u32`.
unfoldable pub observe_exchange :
    {d : Platform} → NoopStreak → Text → Text → List (ToolEvent d) → NoopStreak × Bool
unfolding is_quiet repeats
observe_exchange {d} s instruction reply events =
    let normalized = normalize d reply in
    let count = if repeats s.repeated normalized then (s.count + 1) % 2 ^ 32 else 1 in
    if is_quiet instruction reply events
    then (record { repeated = some normalized; count = count }, leb noop_settle_limit count)
    else (default_streak, false)
