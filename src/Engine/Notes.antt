-- ===== src/Engine/Notes.antt =====
-- crates/onejudge/src/engine.rs: taking notes from the inbox, recording them as delivered, and the
-- notes whose answer waits for the supervisor's decision.
use onejudge.Common.{
  Bool, true, false, Option, none, some, List, [], ◌∷◌, ◌++◌, map, Text, get_or_else, map_some,
}
use onejudge.Platform.{Platform}
use onejudge.Note.{Note, Party, DeliveredNote, Accepted, interrupted, at_turn_end, judged_with}
use onejudge.Engine.Redirects.{Sent, Redirect}
use onejudge.Engine.Host.{Host}
use onejudge.Engine.Monad.{next, M, and_next, change_world, on_world}

-- `AwaitingDecision`: the sends, each with its answer if the turn does not complete the run.
abbrev pub AwaitingDecision : Type 0
AwaitingDecision = List (Sent × Accepted)

module _ {d : Platform} {W : Type 0} (h : Host d W) where
  -- `take_notes`
  unfoldable pub take_notes : Bool → M d W (List Sent)
  take_notes true r = on_world h.drain r
  take_notes false r = next [] r

  unfoldable pub answer_note : Sent → Accepted → M d W (Unit {0})
  answer_note s accepted r = change_world (h.answer s accepted) r

  -- `record`
  unfoldable pub record_note : Note → Party → M d W DeliveredNote
  record_note note party r =
      let handed : DeliveredNote = record { note = note; delivered_to = party } in
      next handed (record r { delivered = r.delivered ++ handed ∷ [] })

  -- `deliver`: each note is recorded, then answered.
  unfoldable pub deliver : List Sent → Party → Accepted → M d W (List DeliveredNote)
  unfolding record_note answer_note
  deliver [] party accepted r = next [] r
  deliver (s ∷ ss) party accepted r = and_next (record_note s.message party r) λ handed r1.
      and_next (answer_note s accepted r1)
        λ _ r2. and_next (deliver ss party accepted r2) λ rest r3. next (handed ∷ rest) r3

  -- The notes of a list of redirects, recorded.
  unfoldable pub record_redirects : List Redirect → Party → M d W (List DeliveredNote)
  unfolding record_note
  record_redirects [] party r = next [] r
  record_redirects (x ∷ xs) party r =
      and_next (record_note x.note party r)
        λ handed r1. and_next (record_redirects xs party r1) λ rest r2. next (handed ∷ rest) r2

  -- The notes that arrived while the supervisor decided, recorded and not yet answered.
  unfoldable pub record_arrived : List Sent → M d W (List DeliveredNote)
  unfolding record_note
  record_arrived [] r = next [] r
  record_arrived (s ∷ ss) r =
      and_next (record_note s.message Party.supervisor r)
        λ handed r1. and_next (record_arrived ss r1) λ rest r2. next (handed ∷ rest) r2

  -- `settle` with the completion reason; with none it is what `drop` does.
  unfoldable pub settle : Option Text → AwaitingDecision → M d W (Unit {0})
  unfolding answer_note
  settle reason [] r = next tt r
  settle reason ((s, otherwise) ∷ rest) r =
      and_next (answer_note s (get_or_else otherwise (map_some judged_with reason)) r)
        (λ _. settle reason rest)

  unfoldable pub drop_one : Option Sent → M d W (Unit {0})
  drop_one none r = next tt r
  drop_one (some s) r = change_world (h.drop_sent s) r

  -- The senders of redirects that go out of scope, dropped in their order.
  unfoldable pub drop_held : List Redirect → M d W (Unit {0})
  drop_held [] r = next tt r
  drop_held (x ∷ xs) r = and_next (drop_one x.held r) (λ _. drop_held xs)

-- `redirected` and `at_turn_end`, which add to the sends that wait.
unfoldable pub redirected : AwaitingDecision → List Redirect → AwaitingDecision
redirected awaiting [] = awaiting
redirected awaiting (x ∷ xs) =
    redirected
      (elim x.held [
        | none ↦ awaiting
        | some s ↦ awaiting ++ (s, interrupted Party.supervisor) ∷ []
      ])
      xs

unfoldable pub arrived_at_turn_end : AwaitingDecision → List Sent → AwaitingDecision
arrived_at_turn_end awaiting ss =
    awaiting ++ map (λ (s : Sent). (s, at_turn_end Party.supervisor)) ss
