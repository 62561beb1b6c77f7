-- ===== src/Telemetry/Aggregate/Turns.antt =====
-- The turns that the aggregate's session links name.
use onejudge.Common.{
  some_inj, ℕ, suc, ◌+◌, ◌≤◌, ◌≡◌, refl, subst, Option, none, some, List, [], ◌∷◌, arith, Text,
  length, keep, All, All-append, if◌then◌else◌, both_some,
}
use onejudge.Platform.{Platform}
use onejudge.Telemetry.{TelemetryRole, agent, judge, SessionLink, Telemetry, InvocationTelemetry}
use onejudge.Telemetry.Aggregate.{
  is_agent, is_judge, Links, session_links, link_role, link_all, no_links, aggregate,
}

abbrev pub turns_of : {d : Platform} → TelemetryRole → List (InvocationTelemetry d) → ℕ
turns_of agent records = length (keep (λ r. is_agent r.role) records)
turns_of judge records = length (keep (λ r. is_judge r.role) records)

abbrev pub Within : (TelemetryRole → ℕ) → SessionLink → Type 0
Within bound s = (1 ≤ s.turn_index) × (s.turn_index ≤ bound s.role)

session_links-Within :
    {d : Platform} (bound : TelemetryRole → ℕ) (role : TelemetryRole) (turn : ℕ)
    (r : InvocationTelemetry d)
    → 1 ≤ turn
    → turn ≤ bound role
    → All (Within bound) (session_links role turn r)
unfolding session_links
session_links-Within bound role turn r low high = go (both_some r.session_id r.started_at)
  where
    go :
        (o : Option (Text × Text))
        → All (Within bound) (elim o [
          | none ↦ []
          | some (id, at) ↦
              record {
                session_id = id;
                role = role;
                turn_index = turn;
                started_at = at;
                finished_at = r.finished_at;
                history_id = r.history_id;
                judge = r.judge;
              }
              ∷ []
        ])
    go none = tt
    go (some x) = ((low, high), tt)

turns_of-cons :
    {d : Platform} (r : InvocationTelemetry d) (rs : List (InvocationTelemetry d))
    {o : Option TelemetryRole}
    → r.role ≡ o
    → (turns_of agent (r ∷ rs)
        ≡ (if is_agent o then suc (turns_of agent rs) else turns_of agent rs))
      × (turns_of judge (r ∷ rs)
          ≡ (if is_judge o then suc (turns_of judge rs) else turns_of judge rs))
turns_of-cons r rs e = (ground (arith, e), ground (arith, e))

-- The counters leave room for the records that are still to come.
Room : {d : Platform} → (TelemetryRole → ℕ) → Links d → List (InvocationTelemetry d) → Type 0
Room bound l records =
    (l.agent_turn + turns_of agent records ≤ bound agent)
    × ((l.judge_turn + turns_of judge records ≤ bound judge) × All (Within bound) l.sessions)

link_role-Room :
    {d : Platform} (bound : TelemetryRole → ℕ) (l : Links d) (r : InvocationTelemetry d)
    (rs : List (InvocationTelemetry d)) (o : Option TelemetryRole)
    → r.role ≡ o
    → Room bound l (r ∷ rs)
    → Room bound (link_role o l r) rs
unfolding link_role Room
link_role-Room bound l r rs none e (a, (j, k)) =
    let (x, y) = turns_of-cons r rs e in (omega (arith, x), (omega (arith, y), k))
link_role-Room bound l r rs (some agent) e (a, (j, k)) =
    let (x, y) = turns_of-cons r rs e in
    (
      omega (arith, x),
      (
        omega (arith, y),
        All-append (Within bound) l.sessions _ k
            (session_links-Within bound agent _ r (omega arith) (omega (arith, x))),
      ),
    )
link_role-Room bound l r rs (some judge) e (a, (j, k)) =
    let (x, y) = turns_of-cons r rs e in
    (
      omega (arith, x),
      (
        omega (arith, y),
        All-append (Within bound) l.sessions _ k
            (session_links-Within bound judge _ r (omega arith) (omega (arith, y))),
      ),
    )

link_all-Within :
    {d : Platform} (bound : TelemetryRole → ℕ) (records : List (InvocationTelemetry d))
    (l : Links d)
    → Room bound l records
    → All (Within bound) (link_all l records).sessions
unfolding link_all Room
link_all-Within bound [] l room = room.1.1
link_all-Within bound (r ∷ rs) l room =
    link_all-Within bound rs _ (link_role-Room bound l r rs r.role refl room)

-- Every session link of the aggregate names a turn of its role from 1 to the number of the
-- records with that role.
pub aggregate-Within :
    {d : Platform} (wall_ms : ℕ) (records : List (InvocationTelemetry d)) {t : Telemetry d}
    → aggregate wall_ms records ≡ some t
    → All (Within (λ role. turns_of role records)) t.sessions
unfolding aggregate no_links Room
aggregate-Within wall_ms [] e = absurd cc
aggregate-Within wall_ms (r ∷ rs) e =
    subst (λ t. All (Within (λ role. turns_of role (r ∷ rs))) t.sessions) (some_inj e)
      (link_all-Within (λ role. turns_of role (r ∷ rs)) (r ∷ rs) no_links
        (omega arith, (omega arith, tt)))
