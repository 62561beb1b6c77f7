-- ===== src/Note/Blocks.antt =====
-- What the rendered blocks and criteria hold: no delivered note and no bound criterion is lost.
use onejudge.Common.{
  ℕ, ◌+◌, ◌≡◌, refl, sym, ap, ◌∙◌, subst, ◌≢◌, ◌⊎◌, inl, inr, Bool, true, not, Option, none, some,
  List, [], ◌∷◌, ◌++◌, Infix, Infix-refl, Infix-append_left, Infix-append_right, arith, Text, codes,
  show, is_empty, keep, flat_map, if◌then◌else◌, Bool-cases, get_or_else,
}
use mathlib.Core.List.{Memᴰ}
use onejudge.Note.{
  Criterion, DeliveredNote, Criteria, numbered, configured_lead, rendered, bullet, worker_bullet,
  addressed_bullet, section, worker_block, supervisor_block, is_theirs, is_mine, is_observational,
  is_binding, is_yours, binds, to_worker, addressee_str,
}
use onejudge.Note.Texts.{
  criteria_frame, overheard_heading, worker_heading, supervisor_heading, binding_heading,
  observational_heading,
}

-- A note's text stands in its bullet, whichever bullet that is.
abbrev ShowsText : (DeliveredNote → Text) → Type 0
ShowsText item = (x : DeliveredNote) → Infix x.note.text (item x)

bullet-ShowsText : ShowsText bullet
unfolding bullet
bullet-ShowsText x = Infix-append_left (codes "\n- ") x.note.text (Infix-refl x.note.text)

worker_bullet-ShowsText : ShowsText worker_bullet
unfolding worker_bullet
worker_bullet-ShowsText x = Infix-append_right (bullet x) _ (bullet-ShowsText x)

addressed_bullet-ShowsText : ShowsText addressed_bullet
unfolding addressed_bullet
addressed_bullet-ShowsText x =
    let t = x.note.text in
    let mark = codes "\n- (addressed to " in
    let who = addressee_str x.note.addressee in
    Infix-append_left mark _
      (Infix-append_left who _ (Infix-append_left (codes ") ") t (Infix-refl t)))

mem-keep {ℓ} :
    {A : Type ℓ} (p : A → Bool) (xs : List A) {x : A} → Memᴰ x xs → p x ≡ true → Memᴰ x (keep p xs)
mem-keep p [] m h = elim m [ ]
mem-keep p (y ∷ ys) {x} (Memᴰ.head e) h = rw ((ap p (sym e)) ∙ h) (Memᴰ.head e)
mem-keep p (y ∷ ys) {x} (Memᴰ.tail m) h = elim (Bool-cases (p y)) [
  | inl t ↦ rw t (Memᴰ.tail (mem-keep p ys m h))
  | inr f ↦ rw f (mem-keep p ys m h)
]

flat_map-Infix :
    (item : DeliveredNote → Text)
    → ShowsText item
    → (notes : List DeliveredNote) {x : DeliveredNote} → Memᴰ x notes
    → Infix x.note.text (flat_map item notes)
flat_map-Infix item shows [] m = elim m [ ]
flat_map-Infix item shows (y ∷ ys) {x} (Memᴰ.head e) =
    Infix-append_right (item y) (flat_map item ys)
      (subst (λ z. Infix x.note.text (item z)) e (shows x))
flat_map-Infix item shows (y ∷ ys) {x} (Memᴰ.tail m) =
    Infix-append_left (item y) (flat_map item ys) (flat_map-Infix item shows ys m)

section-Infix :
    (heading : Text) (item : DeliveredNote → Text)
    → ShowsText item
    → (notes : List DeliveredNote) (out : Text) {x : DeliveredNote} → Memᴰ x notes
    → Infix x.note.text (section heading item notes out)
unfolding section
section-Infix heading item shows [] out m = elim m [ ]
section-Infix heading item shows (y ∷ ys) out m =
    Infix-append_left (if is_empty out then out else out ++ codes "\n") _ (
      Infix-append_left heading _ (
        Infix-append_right (flat_map item (y ∷ ys)) (codes "\n")
          (flat_map-Infix item shows (y ∷ ys) m)))

section-keeps :
    (heading : Text) (item : DeliveredNote → Text) (notes : List DeliveredNote) (out : Text)
    {t : Text}
    → Infix t out
    → Infix t (section heading item notes out)
unfolding section
section-keeps heading item [] out s = s
section-keeps heading item (y ∷ ys) [] s = Infix-append_right [] _ s
section-keeps heading item (y ∷ ys) (c ∷ cs) s =
    Infix-append_right ((c ∷ cs) ++ codes "\n") _ (Infix-append_right (c ∷ cs) (codes "\n") s)

-- The worker's block holds the text of every delivered note it was rendered from, whoever the
-- note was addressed to.
pub worker_block-Infix :
    (notes : List DeliveredNote) {x : DeliveredNote}
    → Memᴰ x notes
    → Infix x.note.text (worker_block notes)
unfolding worker_block
worker_block-Infix notes {x} m = elim (Bool-cases (is_theirs x)) [
  | inl t ↦
      section-Infix overheard_heading bullet bullet-ShowsText (keep is_theirs notes) _
        (mem-keep is_theirs notes m t)
  | inr f ↦ section-keeps overheard_heading bullet (keep is_theirs notes) _ (
      section-Infix worker_heading worker_bullet worker_bullet-ShowsText (keep is_mine notes) []
        (mem-keep is_mine notes m (ap not f)))
]

observational_section : List DeliveredNote → Text
observational_section notes = section observational_heading bullet (keep is_observational notes) []

binding_section : List DeliveredNote → Text
binding_section notes =
    section binding_heading bullet (keep is_binding notes) (observational_section notes)

supervisor_section : List DeliveredNote → Text
supervisor_section notes =
    section supervisor_heading addressed_bullet (keep is_yours notes) (binding_section notes)

supervisor_section-Infix :
    (notes : List DeliveredNote) {x : DeliveredNote}
    → Memᴰ x notes
    → Infix x.note.text (supervisor_section notes)
unfolding supervisor_section binding_section observational_section
supervisor_section-Infix notes {x} m = elim (Bool-cases (to_worker x.note.addressee)) [
  | inr f ↦
      section-Infix supervisor_heading addressed_bullet addressed_bullet-ShowsText
        (keep is_yours notes) _ (mem-keep is_yours notes m (ap not f))
  | inl t ↦
      section-keeps supervisor_heading addressed_bullet (keep is_yours notes) _
        (elim (Bool-cases (binds x.note)) [
          | inl b ↦
              section-Infix binding_heading bullet bullet-ShowsText (keep is_binding notes) _
                (mem-keep is_binding notes m (ground arith))
          | inr o ↦ section-keeps binding_heading bullet (keep is_binding notes) _ (
              section-Infix observational_heading bullet bullet-ShowsText
                (keep is_observational notes) [] (mem-keep is_observational notes m (ground arith)))
        ])
]

-- The supervisor's block is left out exactly when no note was delivered; otherwise it holds the
-- text of every delivered note, whoever the note was addressed to and whether or not it binds.
pub supervisor_block-Infix :
    (notes : List DeliveredNote)
    → ((supervisor_block notes ≡ none) × (notes ≡ []))
      ⊎ ((block : Text) × (supervisor_block notes ≡ some block)
          × (notes ≢ [])
          × ((x : DeliveredNote) → Memᴰ x notes → Infix x.note.text block))
unfolding supervisor_block supervisor_section binding_section observational_section
supervisor_block-Infix [] = inl (refl, refl)
supervisor_block-Infix (y ∷ ys) =
    inr (supervisor_section (y ∷ ys), refl, (λ e. cc), (λ x m. supervisor_section-Infix (y ∷ ys) m))

numbered-Infix :
    (index : ℕ) (cs : List Criterion) {c : Criterion}
    → Memᴰ c cs
    → Infix c.as_str (numbered index cs)
unfolding numbered
numbered-Infix index [] m = elim m [ ]
numbered-Infix index (y ∷ ys) {c} (Memᴰ.head e) = Infix-append_right _ (numbered (index + 1) ys) (
    Infix-append_left (codes "\n") _ (
      Infix-append_left (show (index + 1)) _ (
        Infix-append_left (codes ". ") y.as_str
          (subst (λ z. Infix c.as_str z.as_str) e (Infix-refl c.as_str)))))
numbered-Infix index (y ∷ ys) (Memᴰ.tail m) =
    Infix-append_left (codes "\n" ++ (show (index + 1) ++ (codes ". " ++ y.as_str))) _
      (numbered-Infix (index + 1) ys m)

-- The configured text leads the rendered criteria.
configured_lead-Infix :
    (configured : Option Text) (t : Text)
    → configured ≡ some t
    → Infix t (configured_lead configured)
unfolding configured_lead
configured_lead-Infix none t e = cc
configured_lead-Infix (some u) t e =
    Infix-append_right u (codes "\n\n")
      (subst (λ (o : Option Text). Infix t (get_or_else t o)) (sym e) (Infix-refl t))

-- The two forms of the rendered criteria.
abbrev pub RendersTo : Criteria → Type 0
RendersTo c =
    ((c.bound ≡ []) × (rendered c ≡ c.configured))
    ⊎ ((out : Text) × (rendered c ≡ some out)
        × (c.bound ≢ [])
        × Infix criteria_frame out
        × ((t : Text) → c.configured ≡ some t → Infix t out)
        × ((k : Criterion) → Memᴰ k c.bound → Infix k.as_str out))

-- What is judged against: with no bound criterion the configured text itself, if any; with one or
-- more, a text that holds the frame of the bound criteria, the configured text, if any, and every
-- bound criterion.
pub rendered_lem : (c : Criteria) → RendersTo c
unfolding rendered
rendered_lem c = go c.bound refl
  where
    out : Text
    out = configured_lead c.configured ++ (criteria_frame ++ numbered 0 c.bound)

    go : (bs : List Criterion) → c.bound ≡ bs → RendersTo c
    go [] e = inl (e, rw e)
    go (b ∷ bs) e = inr (
      out,
      (λ i. if is_empty (e i) then c.configured else some out),
      (λ q. cc (e, q)),
      Infix-append_left (configured_lead c.configured) _
          (Infix-append_right criteria_frame _ (Infix-refl criteria_frame)),
      (λ t h. Infix-append_right _ _ (configured_lead-Infix c.configured t h)),
      (λ k m.
          Infix-append_left (configured_lead c.configured) _
            (Infix-append_left criteria_frame _ (numbered-Infix 0 c.bound m))),
    )
