-- ===== src/Examples/Notes.antt =====
-- Examples of the notes' blocks and of their admission.
use onejudge.Common.{
  ◌≡◌, refl, ◌≢◌, ◌↔◌, ◌⊎◌, true, none, some, List, [], ◌∷◌, Memᴰ, Infix, Text, codes, is_some,
}
use onejudge.Note.{DeliveredNote, compose, worker_block, supervisor_block, Criteria}
use onejudge.Note.Admission.{deferral_tail, deferral_lead, deferral, sequence_at}
use onejudge.Note.Blocks.{worker_block-Infix, supervisor_block-Infix, rendered_lem, RendersTo}
use onejudge.Note.Admission.{the_wording_above}
use onejudge.Note.Admission.Phrases.{sequence_at_iff}
use onejudge.Note.Admission.Deferrals.{deferral_iff, Deferral}
use onejudge.Examples.{plain_note, delivered_notes}

worker_block-Infix_example : Infix plain_note.text (worker_block delivered_notes)
worker_block-Infix_example = worker_block-Infix delivered_notes (Memᴰ.tail (Memᴰ.head refl))

supervisor_block-Infix_example :
    ((supervisor_block delivered_notes ≡ none) × (delivered_notes ≡ []))
    ⊎ ((block : Text) × (supervisor_block delivered_notes ≡ some block)
        × (delivered_notes ≢ [])
        × ((x : DeliveredNote) → Memᴰ x delivered_notes → Infix x.note.text block))
supervisor_block-Infix_example = supervisor_block-Infix delivered_notes

abbrev bound_criteria : Criteria
bound_criteria = compose (some (codes "The tests pass.")) delivered_notes

rendered_lem_example : RendersTo bound_criteria
rendered_lem_example = rendered_lem bound_criteria

abbrev some_words : List Text
some_words = codes "see" ∷ codes "the" ∷ codes "wording" ∷ codes "above" ∷ []

sequence_at_iff_example :
    (is_some (sequence_at some_words (codes "the" ∷ codes "wording" ∷ [])) ≡ true)
    ↔ Infix (codes "the" ∷ codes "wording" ∷ []) some_words
sequence_at_iff_example = sequence_at_iff some_words (codes "the" ∷ codes "wording" ∷ []) (λ e. cc)

deferral_iff_example :
    (is_some (deferral some_words) ≡ true)
    ↔ (Infix the_wording_above some_words ⊎ Deferral deferral_lead deferral_tail some_words)
deferral_iff_example = deferral_iff some_words
