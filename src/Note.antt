-- ===== src/Note.antt =====
-- crates/onejudge/src/note.rs: notes sent into a running conversation, their criteria, and the
-- blocks that the two parties read. The admission of a criterion is in Note/Admission.antt.
pub mod Texts
pub mod Blocks
pub mod Words
pub mod Admission
use onejudge.Common.{
  ℕ, zero, suc, ◌+◌, ◌-◌, ◌*◌, ◌/◌, ◌%◌, ◌^◌, ◌≤◌, ◌<◌, min, max, String, ◌≡◌, refl, sym, ap, ap₂,
  ◌∙◌, subst, ◌≡⟨◌⟩◌, ◌∎, fun_ext, ◌≢◌, ◌↔◌, ◌⊎◌, inl, inr, Bool, true, false, not, ◌&&◌, ◌||◌,
  Option, none, some, List, [], ◌∷◌, ◌++◌, map, append-nil, append_assoc, map-append, Infix,
  Infix-refl, Infix-append_left, Infix-append_right, Infix-cons, arith, Text, codes, text_eq,
  is_whitespace, is_ascii_digit, is_ascii_alphanumeric, trim_start, trim_end, trim, split, join,
  starts_with, contains, show, text_eq_iff, text_eq_refl, length, take, drop, is_empty, get_last?,
  keep, any, all, find, length-append, keep-append, length-keep, length-take, length-drop,
  take-append-drop, filter_map, flat_map, length-map, All, All-append, ltb, leb, ◌==◌,
  if◌then◌else◌, ltb→lt, lt→ltb, leb→le, ==_iff, tests, Bool-cases, Option-cases, is_some, is_none,
  get_or_else, map_some, or_else, ◌>>=◌,
}
use Texts.{
  worker_heading, worker_criterion_lead, overheard_heading, observational_heading, binding_heading,
  supervisor_heading, criteria_frame,
}

pub data Addressee : Type 0 where
  worker supervisor both : Addressee

pub data Party : Type 0 where
  worker supervisor : Party

pub data Delivery : Type 0 where
  interrupt turn_end : Delivery

pub record Criterion : Type 0 where
  pub as_str : Text

pub record Note : Type 0 where
  pub addressee : Addressee
  pub text : Text
  pub criterion : Option Criterion
  pub delivery : Delivery

pub record DeliveredNote : Type 0 where
  pub note : Note
  pub delivered_to : Party

-- How a send was answered.
pub data Accepted : Type 0 where
  queued : Accepted
  interrupted : Party → Accepted
  at_turn_end : Party → Accepted
  judged_with : Text → Accepted

-- Why a send could not be delivered.
pub data Undelivered : Type 0 where
  conversation_completed : Text → Undelivered
  member_settled : Text → Undelivered
  no_conversation : Text → Undelivered

pub record Criteria : Type 0 where
  pub configured : Option Text
  pub bound : List Criterion

unfoldable pub addressee_str : Addressee → Text
addressee_str Addressee.worker = codes "worker"
addressee_str Addressee.supervisor = codes "supervisor"
addressee_str Addressee.both = codes "both"

unfoldable pub binds : Note → Bool
binds n = is_some n.criterion

abbrev pub criterion_of : DeliveredNote → Option Criterion
criterion_of x = x.note.criterion

-- `Criteria::compose`
unfoldable pub compose : Option Text → List DeliveredNote → Criteria
compose configured delivered = record {
  configured = configured;
  bound = filter_map criterion_of delivered;
}

-- The loop of `rendered` over the numbered criteria.
unfoldable pub numbered : ℕ → List Criterion → Text
numbered index [] = []
numbered index (c ∷ cs) =
    (codes "\n" ++ (show (index + 1) ++ (codes ". " ++ c.as_str))) ++ numbered (index + 1) cs

unfoldable pub configured_lead : Option Text → Text
configured_lead none = []
configured_lead (some text) = text ++ codes "\n\n"

unfoldable pub rendered : Criteria → Option Text
unfolding numbered configured_lead
rendered c =
    if is_empty c.bound
    then c.configured
    else some (configured_lead c.configured ++ (criteria_frame ++ numbered 0 c.bound))

-- `delivered` of an inbox, over the messages and dispositions that the inbox has answered.
unfoldable pub answered_note : Note × Accepted → Option DeliveredNote
answered_note (m, queued) = none
answered_note (m, interrupted party) = some (record { note = m; delivered_to = party })
answered_note (m, at_turn_end party) = some (record { note = m; delivered_to = party })
answered_note (m, judged_with reason) = some (record { note = m; delivered_to = Party.supervisor })

unfoldable pub delivered : List (Note × Accepted) → List DeliveredNote
unfolding answered_note
delivered = filter_map answered_note

abbrev pub to_supervisor : Addressee → Bool
to_supervisor Addressee.supervisor = true
to_supervisor _ = false

abbrev pub to_worker : Addressee → Bool
to_worker Addressee.worker = true
to_worker _ = false

abbrev pub is_theirs : DeliveredNote → Bool
is_theirs x = to_supervisor x.note.addressee

abbrev pub is_mine : DeliveredNote → Bool
is_mine x = not (to_supervisor x.note.addressee)

-- One bullet of a plain list, of the worker's own notes, and of the supervisor's own notes.
unfoldable pub bullet : DeliveredNote → Text
bullet x = codes "\n- " ++ x.note.text

unfoldable pub criterion_line : Option Criterion → Text
criterion_line none = []
criterion_line (some c) = worker_criterion_lead ++ c.as_str

unfoldable pub worker_bullet : DeliveredNote → Text
unfolding bullet criterion_line
worker_bullet x = bullet x ++ criterion_line x.note.criterion

unfoldable pub addressed_bullet : DeliveredNote → Text
addressed_bullet x =
    codes "\n- (addressed to " ++ (addressee_str x.note.addressee ++ (codes ") " ++ x.note.text))

-- A section is its heading, its bullets and a line end; it is left out where it has no note, and
-- parted by a line end from what stands before it.
unfoldable pub section : Text → (DeliveredNote → Text) → List DeliveredNote → Text → Text
section heading item notes out =
    if is_empty notes
    then out
    else (if is_empty out then out else out ++ codes "\n")
      ++ (heading ++ (flat_map item notes ++ codes "\n"))

unfoldable pub worker_block : List DeliveredNote → Text
worker_block notes =
    section overheard_heading bullet (keep is_theirs notes)
      (section worker_heading worker_bullet (keep is_mine notes) [])

abbrev pub is_observational : DeliveredNote → Bool
is_observational x = to_worker x.note.addressee && not (binds x.note)

abbrev pub is_binding : DeliveredNote → Bool
is_binding x = to_worker x.note.addressee && binds x.note

abbrev pub is_yours : DeliveredNote → Bool
is_yours x = not (to_worker x.note.addressee)

unfoldable pub supervisor_block : List DeliveredNote → Option Text
supervisor_block notes =
    if is_empty notes
    then none
    else some (
        section supervisor_heading addressed_bullet (keep is_yours notes) (
          section binding_heading bullet (keep is_binding notes)
            (section observational_heading bullet (keep is_observational notes) [])))
