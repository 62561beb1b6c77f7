-- ===== src/Examples/Records.antt =====
-- Examples of telemetry.
use onejudge.Common.{
  ℕ, ◌%◌, ◌≡◌, refl, none, some, List, [], ◌∷◌, map, codes, any, All, if◌then◌else◌, is_none,
  get_or_else,
}
use onejudge.Usage.{default_usage, u64_mod}
use onejudge.Telemetry.{InvocationTelemetry, TelemetryRole, agent, judge, Telemetry}
use onejudge.Telemetry.Aggregate.{strict_sum_u64, aggregate}
use onejudge.Telemetry.Aggregate.Sums.{total, strict_sum_u64_lem}
use onejudge.Telemetry.Aggregate.Turns.{Within, turns_of, aggregate-Within}
use onejudge.Examples.{plain}

abbrev invocation : TelemetryRole → ℕ → InvocationTelemetry plain
invocation role ms = record {
  role = some role;
  model_ms = some ms;
  tool_ms = none;
  time_to_first_token_ms = none;
  usage = default_usage;
  session_id = some (codes "s");
  started_at = some (codes "t");
  finished_at = none;
  history_id = none;
  ran = none;
  fell_through = [];
  candidates = [];
  history_file = none;
  judge = none;
  posture = none;
}

abbrev invocations : List (InvocationTelemetry plain)
invocations = invocation agent 5 ∷ invocation judge 6 ∷ invocation agent 7 ∷ []

strict_sum_u64_lem_example : strict_sum_u64 invocations (λ r. r.model_ms) ≡ (
    if any is_none (map (λ r. r.model_ms) invocations)
    then none
    else some (total (map (get_or_else 0) (map (λ r. r.model_ms) invocations)) % u64_mod))
strict_sum_u64_lem_example = strict_sum_u64_lem invocations (λ r. r.model_ms)

aggregated : (t : Telemetry plain) × (aggregate 30 invocations ≡ some t)
unfolding aggregate
aggregated = (_, refl)

aggregate-Within_example : All (Within (λ role. turns_of role invocations)) aggregated.0.sessions
aggregate-Within_example = aggregate-Within 30 invocations aggregated.1
