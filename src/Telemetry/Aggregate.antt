-- ===== src/Telemetry/Aggregate.antt =====
-- crates/onejudge/src/telemetry.rs: `aggregate`, the totals of a run by party, with the links to
-- the recorded sessions and the harness attribution of each turn.
pub mod Turns
pub mod Sums
use onejudge.Common.{
  ℕ, ◌+◌, ◌-◌, ◌%◌, min, Bool, true, false, Option, none, some, List, [], ◌∷◌, ◌++◌, map, Text,
  text_eq, is_empty, keep, any, filter_map, if◌then◌else◌, get_or_else, or_else, both_some, ◌>>=◌,
}
use onejudge.Platform.{Platform}
use onejudge.Usage.{Usage, u64_mod, some_unless_empty}
use onejudge.Telemetry.{
  TelemetryRole, agent, judge, PartyTelemetry, SessionLink, HarnessAttribution, Telemetry,
  InvocationTelemetry,
}

abbrev pub is_agent : Option TelemetryRole → Bool
is_agent (some agent) = true
is_agent _ = false

abbrev pub is_judge : Option TelemetryRole → Bool
is_judge (some judge) = true
is_judge _ = false

-- The sum of `Option<u64>`: `None` as soon as one is missing.
unfoldable pub add_strict : ℕ → Option ℕ → Option ℕ
add_strict total none = none
add_strict total (some v) = some ((total + v) % u64_mod)

unfoldable pub sum_from : ℕ → List (Option ℕ) → Option ℕ
unfolding add_strict
sum_from total [] = some total
sum_from total (o ∷ os) = add_strict total o >>= λ t. sum_from t os

unfoldable pub strict_sum_u64 :
    {d : Platform} → List (InvocationTelemetry d) → (InvocationTelemetry d → Option ℕ) → Option ℕ
strict_sum_u64 records field = sum_from 0 (map field records)

unfoldable pub sum_float_from : (d : Platform) → d.Float → List (Option d.Float) → Option d.Float
sum_float_from d total [] = some total
sum_float_from d total (none ∷ os) = none
sum_float_from d total (some v ∷ os) = sum_float_from d (d.add_float total v) os

-- The session ids in order of first appearance, each once.
unfoldable pub insert_id : Text → List Text → List Text
insert_id id ids = if any (text_eq id) ids then ids else ids ++ id ∷ []

unfoldable pub distinct_from : List Text → List Text → List Text
unfolding insert_id
distinct_from seen [] = seen
distinct_from seen (id ∷ ids) = distinct_from (insert_id id seen) ids

-- The first value that is there.
unfoldable pub find_map {ℓ κ} : {A : Type ℓ} {B : Type κ} → (A → Option B) → List A → Option B
find_map f [] = none
find_map f (x ∷ xs) = or_else (f x) (find_map f xs)

unfoldable pub default_party : {d : Platform} → PartyTelemetry d
default_party = record {
  model_ms = none;
  tool_ms = none;
  time_to_first_token_ms = none;
  usage = none;
  session_ids = [];
}

unfoldable pub summed_usage : {d : Platform} → List (InvocationTelemetry d) → Usage d
unfolding strict_sum_u64 sum_float_from
summed_usage {d} records = record {
  input_tokens = strict_sum_u64 records (λ r. r.usage.input_tokens);
  output_tokens = strict_sum_u64 records (λ r. r.usage.output_tokens);
  cache_read_tokens = strict_sum_u64 records (λ r. r.usage.cache_read_tokens);
  cache_write_tokens = strict_sum_u64 records (λ r. r.usage.cache_write_tokens);
  cost_usd = sum_float_from d d.zero_float (map (λ r. r.usage.cost_usd) records);
}

unfoldable pub summarize : {d : Platform} → List (InvocationTelemetry d) → PartyTelemetry d
summarize [] = default_party
summarize (r ∷ rs) = record {
  model_ms = strict_sum_u64 (r ∷ rs) (λ x. x.model_ms);
  tool_ms = strict_sum_u64 (r ∷ rs) (λ x. x.tool_ms);
  time_to_first_token_ms = find_map (λ x. x.time_to_first_token_ms) (r ∷ rs);
  usage = some_unless_empty (summed_usage (r ∷ rs));
  session_ids = distinct_from [] (filter_map (λ x. x.session_id) (r ∷ rs));
}

-- `u64::saturating_add`
unfoldable pub saturating_add : ℕ → ℕ → ℕ
saturating_add a b = min (a + b) (u64_mod - 1)

-- The running numbers of the loop over the records.
pub record Links (d : Platform) : Type 0 where
  pub agent_turn : ℕ
  pub judge_turn : ℕ
  pub sessions : List SessionLink
  pub attribution : List (HarnessAttribution d)

unfoldable pub session_links :
    {d : Platform} → TelemetryRole → ℕ → InvocationTelemetry d → List SessionLink
session_links role turn r = elim (both_some r.session_id r.started_at) [
  | none ↦ []
  | some (id, at) ↦
      record {
        session_id = id;
        role = role;
        turn_index = turn;
        started_at = at;
        finished_at = r.finished_at;
        history_id = r.history_id;
        judge = r.judge;
      }
      ∷ []
]

unfoldable pub attributions :
    {d : Platform} → TelemetryRole → ℕ → InvocationTelemetry d → List (HarnessAttribution d)
attributions role turn r =
    if is_empty r.candidates
    then []
    else record {
      role = role;
      turn_index = turn;
      ran = r.ran;
      fell_through = r.fell_through;
      candidates = r.candidates;
      history_file = r.history_file;
      judge = r.judge;
      posture = r.posture;
    }
      ∷ []

-- A record of a role counts up that role's turns; one with no role is passed over.
unfoldable pub link_role :
    {d : Platform} → Option TelemetryRole → Links d → InvocationTelemetry d → Links d
link_role none l r = l
link_role (some agent) l r = record {
  agent_turn = l.agent_turn + 1;
  judge_turn = l.judge_turn;
  sessions = l.sessions ++ session_links agent (l.agent_turn + 1) r;
  attribution = l.attribution ++ attributions agent (l.agent_turn + 1) r;
}
link_role (some judge) l r = record {
  agent_turn = l.agent_turn;
  judge_turn = l.judge_turn + 1;
  sessions = l.sessions ++ session_links judge (l.judge_turn + 1) r;
  attribution = l.attribution ++ attributions judge (l.judge_turn + 1) r;
}

unfoldable pub link_all : {d : Platform} → Links d → List (InvocationTelemetry d) → Links d
unfolding link_role
link_all l [] = l
link_all l (r ∷ rs) = link_all (link_role r.role l r) rs

unfoldable pub no_links : {d : Platform} → Links d
no_links = record { agent_turn = 0; judge_turn = 0; sessions = []; attribution = [] }

unfoldable pub attributed_ms : {d : Platform} → PartyTelemetry d → PartyTelemetry d → ℕ
unfolding saturating_add
attributed_ms a j =
    saturating_add
      (saturating_add (saturating_add (get_or_else 0 a.model_ms) (get_or_else 0 a.tool_ms))
        (get_or_else 0 j.model_ms))
      (get_or_else 0 j.tool_ms)

-- `wall_ms.saturating_sub(attributed)` is the truncated `-`.
unfoldable pub aggregate : {d : Platform} → ℕ → List (InvocationTelemetry d) → Option (Telemetry d)
aggregate wall_ms [] = none
aggregate wall_ms (r ∷ rs) =
    let agents = summarize (keep (λ x. is_agent x.role) (r ∷ rs)) in
    let judges = summarize (keep (λ x. is_judge x.role) (r ∷ rs)) in
    let links = link_all no_links (r ∷ rs) in
    some (record {
      wall_ms = wall_ms;
      agent = agents;
      judge = judges;
      orchestration_ms = wall_ms - attributed_ms agents judges;
      sessions = links.sessions;
      attribution = links.attribution;
    })
