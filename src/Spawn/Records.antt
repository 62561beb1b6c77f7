-- ===== src/Spawn/Records.antt =====
-- What a provider's list of processes says after a process was asked for.
use onejudge.Common.{ℕ, ◌≡◌, Option, none, [], ◌∷◌, ◌++◌, Text}
use onejudge.Error.{Error, Result, ok, err}
use onejudge.Spawn.{SpawnContext, Spawner, process_of}

module _ {W : Type 0} where
  -- A process that runs is recorded once, behind the earlier ones, in a group only where a hook is
  -- installed; a process that was refused or torn down is not recorded.
  abbrev pub Recorded : Spawner W → SpawnContext → Result ℕ → Spawner W → Type 0
  Recorded s context (ok pid) s' =
      (group : Option Text) × ((s'.records ≡ s.records ++ process_of context pid group ∷ [])
        × (s.hook ≡ none → group ≡ none))
  Recorded s context (err e) s' = s'.records ≡ s.records
