-- ===== src/Telemetry/Aggregate/Sums.antt =====
-- The strict sums of the parties' measurements.
use onejudge.Common.{
  ℕ, ◌+◌, ◌%◌, ◌<◌, ◌≡◌, refl, ap, ◌∙◌, Option, none, some, List, [], ◌∷◌, map, arith, any,
  if◌then◌else◌, is_none, get_or_else,
}
use onejudge.Platform.{Platform}
use onejudge.Usage.{u64_mod}
use onejudge.Telemetry.{InvocationTelemetry}
use onejudge.Telemetry.Aggregate.{sum_from, strict_sum_u64}

abbrev pub total : List ℕ → ℕ
total [] = 0
total (n ∷ ns) = n + total ns

-- No sum where a summand is missing, and otherwise the sum in 64 bits.
abbrev strict_total : ℕ → List (Option ℕ) → Option ℕ
strict_total t os =
    if any is_none os then none else some ((t + total (map (get_or_else 0) os)) % u64_mod)

wrap_twice : (t v rest : ℕ) → ((t + v) % u64_mod + rest) % u64_mod ≡ (t + (v + rest)) % u64_mod
wrap_twice t v rest = omega arith

sum_from-strict : (t : ℕ) (os : List (Option ℕ)) → t < u64_mod → sum_from t os ≡ strict_total t os
unfolding sum_from
sum_from-strict t [] b = ap some (omega arith)
sum_from-strict t (none ∷ os) b = refl
sum_from-strict t (some v ∷ os) b =
    sum_from-strict ((t + v) % u64_mod) os (omega arith)
    ∙ ap (λ x. if any is_none os then none else some x) (wrap_twice t v _)

-- A strict sum is missing exactly if one of the records lacks the measurement; otherwise it is the
-- sum of the measurements, wrapped to 64 bits.
pub strict_sum_u64_lem :
    {d : Platform} (records : List (InvocationTelemetry d))
    (field : InvocationTelemetry d → Option ℕ)
    → strict_sum_u64 records field ≡ (
        if any is_none (map field records)
        then none
        else some (total (map (get_or_else 0) (map field records)) % u64_mod))
unfolding strict_sum_u64
strict_sum_u64_lem records field =
    sum_from-strict 0 (map field records) (omega arith)
    ∙ ap (λ n. if any is_none (map field records) then none else some (n % u64_mod)) (omega arith)
