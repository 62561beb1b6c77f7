-- ===== src/Usage.antt =====
-- crates/onejudge/src/usage.rs: the normalized token and cost numbers of a model call, and their
-- accumulation. Token counts are `u64`; a release build wraps around on overflow.
use onejudge.Common.{
  ℕ, ◌+◌, ◌%◌, ◌^◌, Bool, ◌&&◌, Option, none, some, if◌then◌else◌, is_none, get_or_else,
}
use onejudge.Platform.{Platform}

abbrev pub u64_mod : ℕ
u64_mod = 2 ^ 64

pub record Usage (d : Platform) : Type 0 where
  pub input_tokens : Option ℕ
  pub output_tokens : Option ℕ
  pub cache_read_tokens : Option ℕ
  pub cache_write_tokens : Option ℕ
  pub cost_usd : Option d.Float

-- `Usage::default()`
abbrev pub default_usage : {d : Platform} → Usage d
default_usage = record {
  input_tokens = none;
  output_tokens = none;
  cache_read_tokens = none;
  cache_write_tokens = none;
  cost_usd = none;
}

unfoldable pub is_empty_usage : {d : Platform} → Usage d → Bool
is_empty_usage u =
    is_none u.input_tokens
    && is_none u.output_tokens
    && is_none u.cache_read_tokens
    && is_none u.cache_write_tokens
    && is_none u.cost_usd

-- One `if let Some(v) = other.field` of `add`.
unfoldable pub add_tokens : Option ℕ → Option ℕ → Option ℕ
add_tokens mine none = mine
add_tokens mine (some v) = some ((get_or_else 0 mine + v) % u64_mod)

unfoldable pub add_cost : (d : Platform) → Option d.Float → Option d.Float → Option d.Float
add_cost d mine none = mine
add_cost d mine (some v) = some (d.add_float (get_or_else d.zero_float mine) v)

unfoldable pub add_usage : {d : Platform} → Usage d → Usage d → Usage d
add_usage {d} u other = record {
  input_tokens = add_tokens u.input_tokens other.input_tokens;
  output_tokens = add_tokens u.output_tokens other.output_tokens;
  cache_read_tokens = add_tokens u.cache_read_tokens other.cache_read_tokens;
  cache_write_tokens = add_tokens u.cache_write_tokens other.cache_write_tokens;
  cost_usd = add_cost d u.cost_usd other.cost_usd;
}

-- `if let Some(u) = &usage { totals.add(u) }`
unfoldable pub add_some_usage : {d : Platform} → Usage d → Option (Usage d) → Usage d
add_some_usage totals none = totals
add_some_usage totals (some u) = add_usage totals u

-- `(!totals.is_empty()).then_some(totals)`
unfoldable pub some_unless_empty : {d : Platform} → Usage d → Option (Usage d)
some_unless_empty u = if is_empty_usage u then none else some u
