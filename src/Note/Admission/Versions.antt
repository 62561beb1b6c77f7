-- ===== src/Note/Admission/Versions.antt =====
-- crates/onejudge/src/note.rs: version literals and commands in code spans. A position in the text
-- is an index into its characters; `drop at chars` is the slice `chars[at..]`.
use onejudge.Common.{
  ℕ, zero, suc, ◌+◌, ◌-◌, Bool, true, false, not, ◌&&◌, ◌||◌, Option, none, some, List, [], ◌∷◌,
  ◌++◌, Text, codes, text_eq, is_whitespace, is_ascii_digit, is_ascii_alphanumeric, trim, length,
  take, drop, ◌==◌, if◌then◌else◌, or_else, ◌>>=◌,
}
use onejudge.Platform.{Platform}

unfoldable pub get : Text → ℕ → Option ℕ
get [] i = none
get (c ∷ s) zero = some c
get (c ∷ s) (suc i) = get s i

-- `matches!(chars.get(at), Some(c) if test)`
unfoldable pub at_test : (ℕ → Bool) → Text → ℕ → Bool
unfolding get
at_test p s i = elim (get s i) [ none ↦ false | some c ↦ p c ]

-- `iter().take_while(p).count()`
unfoldable pub count_while : (ℕ → Bool) → Text → ℕ
count_while p [] = 0
count_while p (c ∷ s) = let rest = count_while p s in if p c then suc rest else 0

-- `chars[start..end]`
unfoldable pub slice : Text → ℕ → ℕ → Text
slice s start end = take (end - start) (drop start s)

unfoldable pub is_boundary : Platform → Text → ℕ → Bool
is_boundary d chars zero = true
is_boundary d chars (suc before) =
    not (at_test (λ c. d.is_alphanumeric c || c == b'_') chars before)

-- One component: a dot unless it is the first, and at least one digit; the position behind it.
unfoldable pub component : Text → ℕ → ℕ → Option ℕ
component chars index at =
    let start = if index == 0 then at else at + 1 in
    let count = count_while is_ascii_digit (drop start chars) in
    if not (index == 0) && not (at_test (λ c. c == b'.') chars at)
    then none
    else if count == 0
    then none
    else some (start + count)

-- `for index in 0..components`, with the components that are left.
unfoldable pub dotted_from : Text → ℕ → ℕ → ℕ → Option ℕ
dotted_from chars index zero at = some at
dotted_from chars index (suc left) at =
    component chars index at >>= λ next. dotted_from chars (suc index) left next

unfoldable pub dotted : Text → ℕ → ℕ → Option ℕ
dotted chars at components = dotted_from chars 0 components at

unfoldable pub suffix : Text → ℕ → ℕ
suffix chars at =
    if at_test (λ c. c == b'-' || c == b'+' || c == b'.') chars at
    then at
      + 1
      + count_while (λ c. is_ascii_alphanumeric c || c == b'.' || c == b'-') (drop (at + 1) chars)
    else at

-- A word that starts here: three dotted components behind an optional `v`, or two behind a `v`
-- and not followed by a dot.
unfoldable pub version_word : Text → ℕ → Option Text
version_word chars start =
    let has_v = at_test (λ c. c == b'v') chars start in
    let two =
      if has_v
      then (dotted chars (start + 1) 2 >>= λ end.
          if at_test (λ c. c == b'.') chars end then none else some (slice chars start end))
      else none in
    elim (dotted chars (if has_v then start + 1 else start) 3) [
      | some end ↦ some (slice chars start (suffix chars end))
      | none ↦ two
    ]

-- A comparison that starts here, with two dotted components.
unfoldable pub version_bound : Text → ℕ → Option Text
version_bound chars start =
    let after = if at_test (λ c. c == b'=') chars (start + 1) then start + 2 else start + 1 in
    let at = after + count_while is_whitespace (drop after chars) in
    if at_test (λ c. c == b'>' || c == b'<' || c == b'=' || c == b'~' || c == b'^' || c == b'!')
      chars start
    then (dotted chars at 2 >>= λ end. some (trim (slice chars start end)))
    else none

unfoldable pub version_at : Platform → Text → ℕ → Option Text
version_at d chars start =
    or_else (if is_boundary d chars start then version_word chars start else none)
      (version_bound chars start)

-- `for start in 0..chars.len()`, with the positions that are left.
unfoldable pub version_from : Platform → Text → ℕ → ℕ → Option Text
version_from d chars start zero = none
version_from d chars start (suc left) =
    or_else (version_at d chars start) (version_from d chars (suc start) left)

unfoldable pub version_literal : Platform → Text → Option Text
version_literal d text = version_from d text 0 (length text)

-- `for at in 0..span.len()`: the binary at a boundary, with a white-space character behind it.
unfoldable pub binary_from : Platform → Text → Text → ℕ → ℕ → Option Text
binary_from d span needle at zero = none
binary_from d span needle at (suc left) =
    let rest = binary_from d span needle (suc at) left in
    if is_boundary d span at
      && text_eq (slice span at (at + length needle)) needle
      && at_test is_whitespace span (at + length needle)
    then some (needle ++ codes " ")
    else rest

unfoldable pub some_binary : Platform → Text → List Text → Option Text
some_binary d span [] = none
some_binary d span (b ∷ bs) = or_else (binary_from d span b 0 (length span)) (some_binary d span bs)

-- A span runs from behind each backtick to the next one, or to the end of the text.
unfoldable pub span_from : Platform → List Text → Text → Option Text
span_from d binaries [] = none
span_from d binaries (c ∷ s) =
    or_else
      (if c == b'`'
        then some_binary d (take (count_while (λ x. not (x == b'`')) s) s) binaries
        else none)
      (span_from d binaries s)

unfoldable pub code_span_invocation : Platform → Text → List Text → Option Text
code_span_invocation d text binaries = span_from d binaries text
