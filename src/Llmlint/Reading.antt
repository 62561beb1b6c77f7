-- ===== src/Llmlint/Reading.antt =====
-- crates/onejudge/src/llmlint.rs: what is read from the linter's output, and from its version.
use onejudge.Common.{
  ℕ, ◌+◌, ◌-◌, ◌*◌, ◌^◌, Bool, true, false, not, ◌&&◌, ◌||◌, Option, none, some, List, [], ◌∷◌,
  ◌++◌, map, Text, codes, is_whitespace, is_ascii_digit, trim, split, join, show, length, take,
  is_empty, get_last?, keep, any, ltb, leb, ◌==◌, if◌then◌else◌, get_or_else, or_else, both_some,
  ◌>>=◌, is_control, split_once, strip_prefix, lines,
}
use onejudge.Platform.{Platform}
use onejudge.Transcript.{Message, is_assistant}

-- `LLMLINT_MIN_VERSION`, `RESULTS_POINTER`, `LABEL_VALUE_MAX` and `OUTPUT_BOUND`
abbrev pub min_version : Text
min_version = codes "0.4.3"

abbrev pub results_pointer : Text
results_pointer = codes "See full results with `llmlint history "

abbrev pub label_value_max : ℕ
label_value_max = 256

abbrev pub output_bound : ℕ
output_bound = 4096

unfoldable pub skip_v : Text → Text
skip_v [] = []
skip_v (c ∷ s) = let rest = skip_v s in if c == b'v' then rest else c ∷ s

-- `take_while(char::is_ascii_digit)`
unfoldable pub leading_digits : Text → Text
leading_digits [] = []
leading_digits (c ∷ s) = let rest = leading_digits s in if is_ascii_digit c then c ∷ rest else []

-- `u64::from_str` of one or more digits, which fails beyond 64 bits.
abbrev pub value_of : ℕ → Text → ℕ
value_of n [] = n
value_of n (c ∷ s) = value_of (10 * n + (c - b'0')) s

unfoldable pub parse_u64 : Text → Option ℕ
parse_u64 digits = let n = value_of 0 digits in if ltb n (2 ^ 64) then some n else none

-- The closure `next` on one part.
unfoldable pub version_part : Bool → Text → Option ℕ
unfolding leading_digits parse_u64
version_part whole part =
    let digits = leading_digits part in
    if is_empty digits || (whole && not (length digits == length part))
    then none
    else parse_u64 digits

-- The parts of `splitn(3, '.')`.
unfoldable pub parse_version : Text → Option (ℕ × (ℕ × ℕ))
unfolding skip_v version_part split_once
parse_version version = split_once b'.' (skip_v (trim version)) >>= λ first.
    version_part true first.0 >>= λ major. split_once b'.' first.1 >>= λ second.
    version_part true second.0 >>= λ minor.
    version_part false second.1 >>= λ patch. some (major, (minor, patch))

-- `>=` on versions.
unfoldable pub at_least : ℕ × (ℕ × ℕ) → ℕ × (ℕ × ℕ) → Bool
at_least (a, (b, c)) (a', (b', c')) =
    ltb a' a || ((a == a') && (ltb b' b || ((b == b') && leb c' c)))

-- `split_whitespace().last().unwrap_or_default()`
abbrev pub last_word : Text → Text
last_word s = get_or_else [] (get_last? (keep (λ p. not (is_empty p)) (split is_whitespace s)))

-- What `probe` decides on the answer to `--version`.
unfoldable pub is_supported : Text → Bool
unfolding parse_version at_least
is_supported answer =
    elim (both_some (parse_version (last_word answer)) (parse_version min_version)) [
      | none ↦ false
      | some versions ↦ at_least versions.0 versions.1
    ]

unfoldable pub label_value_problem : Text → Option Text
label_value_problem value =
    if is_empty value
    then some (codes "is empty")
    else if ltb label_value_max (length value)
    then some (codes "is longer than 256 characters")
    else if any is_control value
    then some (codes "contains a control character")
    else none

-- The id of one line, if the line points to the results.
unfoldable pub id_of_line : Text → Option Text
id_of_line line = strip_prefix results_pointer line >>= λ rest.
    split_once b'`' rest >>= λ parts. if is_empty parts.0 then none else some parts.0

abbrev pub find_map : {A B : Type 0} → (A → Option B) → List A → Option B
find_map f [] = none
find_map f (x ∷ xs) = or_else (f x) (find_map f xs)

unfoldable pub run_id : Text → Option Text
unfolding id_of_line
run_id stderr = find_map id_of_line (lines stderr)

unfoldable pub latest_assistant_turn : {d : Platform} → List (Message d) → ℕ
latest_assistant_turn messages = length (keep (λ m. is_assistant m.role) messages)

-- The last line that is not blank, trimmed.
unfoldable pub summary_line : Text → Option Text
summary_line stdout = get_last? (keep (λ l. not (is_empty l)) (map trim (lines stdout)))

-- The process's exit code, if it exited, and the text of its status.
pub record Output : Type 0 where
  pub code : Option ℕ
  pub status : Text
  pub stdout : Text
  pub stderr : Text

unfoldable pub describe : Output → Text
describe o = elim o.code [ none ↦ o.status | some code ↦ codes "exit " ++ show code ]

unfoldable pub bounded : Text → Text → Text
bounded stderr stdout =
    let text = join (codes "\n") (keep (λ p. not (is_empty p)) (trim stderr ∷ trim stdout ∷ [])) in
    let said = if is_empty text then codes "(no output)" else text in
    if ltb output_bound (length said) then take output_bound said ++ codes " […]" else said
