-- ===== src/Note/Admission/Deferrals.antt =====
-- A criterion that defers its content to prose elsewhere is one that holds a deferring phrase.
use onejudge.Common.{
  ◌≡◌, refl, sym, ap, ◌∙◌, subst, ◌≢◌, ◌↔◌, ◌⊎◌, inl, inr, Bool, true, false, ◌||◌, Option, none,
  some, List, [], ◌∷◌, ◌++◌, append_assoc, Memᴰ, Infix, Infix-cons, arith, Text, length, drop, All,
  if◌then◌else◌, Bool-cases, is_some, or_else,
}
use onejudge.Note.Words.{prefix_eq}
use onejudge.Note.Admission.{
  sequence_at, tail_at, lead_at, some_lead, deferral, deferral_lead, deferral_tail,
  the_wording_above,
}
use onejudge.Note.Admission.Phrases.{prefix_eq→prefix, prefix→prefix_eq, sequence_at_iff}

-- One of the leads, directly followed by one of the tails.
abbrev pub Deferral : List (List Text) → List (List Text) → List Text → Type 0
Deferral leads tails words =
    (lead : List Text) × (tail : List Text) × Memᴰ lead leads
    × Memᴰ tail tails
    × Infix (lead ++ tail) words

-- Some tail begins the words behind a lead.
tail_at-some :
    (lead rest : List Text) (tails : List (List Text))
    → is_some (tail_at lead rest tails) ≡ true
    → (tail : List Text) × Memᴰ tail tails × (prefix_eq tail rest ≡ true)
unfolding tail_at
tail_at-some lead rest [] h = cc
tail_at-some lead rest (t ∷ ts) h = elim (Bool-cases (prefix_eq t rest)) [
  | inl e ↦ (t, Memᴰ.head refl, e)
  | inr f ↦ let (tail, m, e) = tail_at-some lead rest ts (ground arith) in (tail, Memᴰ.tail m, e)
]

tail_at-mem :
    (lead rest : List Text) (tails : List (List Text)) {tail : List Text}
    → Memᴰ tail tails
    → prefix_eq tail rest ≡ true
    → is_some (tail_at lead rest tails) ≡ true
unfolding tail_at
tail_at-mem lead rest [] m h = elim m [ ]
tail_at-mem lead rest (t ∷ ts) (Memᴰ.head e) h = rw (subst (λ x. prefix_eq x rest ≡ true) e h)
tail_at-mem lead rest (t ∷ ts) (Memᴰ.tail m) h = ground (arith, tail_at-mem lead rest ts m h)

-- What starts at one position: a lead with a tail behind it.
abbrev at_start : List Text → List Text → Option Text
at_start lead words =
    if prefix_eq lead words then tail_at lead (drop (length lead) words) deferral_tail else none

drop-length-append : (p rest : List Text) → drop (length p) (p ++ rest) ≡ rest
drop-length-append [] rest = refl
drop-length-append (p ∷ ps) rest = drop-length-append ps rest

at_start-Infix :
    (lead words : List Text)
    → is_some (at_start lead words) ≡ true
    → (tail : List Text) × Memᴰ tail deferral_tail × Infix (lead ++ tail) words
at_start-Infix lead words h = elim (Bool-cases (prefix_eq lead words)) [
  | inr f ↦ cc (
      ap (λ b. is_some (if b then tail_at lead (drop (length lead) words) deferral_tail else none))
        (sym f)
      ∙ h)
  | inl t ↦
      let (rest, e) = prefix_eq→prefix lead words t in
      let (tail, m, b) = tail_at-some lead (drop (length lead) words) deferral_tail (
        ap
          (λ b. is_some (if b then tail_at lead (drop (length lead) words) deferral_tail else none))
          (sym t)
        ∙ h) in
      let (after, e') = prefix_eq→prefix tail (drop (length lead) words) b in
      (
        tail,
        m,
        record {
          before = [];
          after = after;
          parts =
              e
              ∙ (ap (λ r. lead ++ r)
                    (sym (drop-length-append lead rest) ∙ (ap (drop (length lead)) (sym e) ∙ e'))
                  ∙ sym (append_assoc lead tail after));
        },
      )
]

at_start-found :
    (lead tail after : List Text)
    → Memᴰ tail deferral_tail
    → is_some (at_start lead (lead ++ (tail ++ after))) ≡ true
at_start-found lead tail after m =
    rw (prefix→prefix_eq lead (tail ++ after), drop-length-append lead (tail ++ after))
      (tail_at-mem lead (tail ++ after) deferral_tail m (prefix→prefix_eq tail after))

or_true : (a : Bool) → a || true ≡ true
or_true true = refl
or_true false = refl

is_some-or_else : {A : Type 0} (a b : Option A) → is_some (or_else a b) ≡ is_some a || is_some b
is_some-or_else none b = refl
is_some-or_else (some x) b = refl

lead_at-Infix :
    (lead words : List Text)
    → is_some (lead_at lead words) ≡ true
    → (tail : List Text) × Memᴰ tail deferral_tail × Infix (lead ++ tail) words
unfolding lead_at
lead_at-Infix lead [] h = cc
lead_at-Infix lead (w ∷ words) h = elim (Bool-cases (is_some (at_start lead (w ∷ words)))) [
  | inl t ↦ at_start-Infix lead (w ∷ words) t
  | inr f ↦
      let (tail, m, s) =
        lead_at-Infix lead words
          (cc (is_some-or_else (at_start lead (w ∷ words)) (lead_at lead words), h, f)) in
      (tail, m, Infix-cons w words s)
]

lead_at-found :
    (lead tail before after : List Text)
    → lead ≢ []
    → Memᴰ tail deferral_tail
    → is_some (lead_at lead (before ++ (lead ++ (tail ++ after)))) ≡ true
unfolding lead_at
lead_at-found [] tail before after ne m = absurd (ne refl)
lead_at-found (l ∷ ls) tail [] after ne m =
    is_some-or_else (at_start (l ∷ ls) ((l ∷ ls) ++ (tail ++ after)))
      (lead_at (l ∷ ls) (ls ++ (tail ++ after)))
    ∙ ap (λ b. b || is_some (lead_at (l ∷ ls) (ls ++ (tail ++ after))))
        (at_start-found (l ∷ ls) tail after m)
lead_at-found (l ∷ ls) tail (b ∷ before) after ne m =
    let rest = before ++ ((l ∷ ls) ++ (tail ++ after)) in
    cc (
      is_some-or_else (at_start (l ∷ ls) (b ∷ rest)) (lead_at (l ∷ ls) rest),
      lead_at-found (l ∷ ls) tail before after ne m,
      or_true (is_some (at_start (l ∷ ls) (b ∷ rest))),
    )

some_lead-Deferral :
    (leads : List (List Text)) (words : List Text)
    → is_some (some_lead leads words) ≡ true
    → Deferral leads deferral_tail words
unfolding some_lead
some_lead-Deferral [] words h = cc
some_lead-Deferral (lead ∷ leads) words h = elim (Bool-cases (is_some (lead_at lead words))) [
  | inl t ↦ let (tail, m, s) = lead_at-Infix lead words t in (lead, tail, Memᴰ.head refl, m, s)
  | inr f ↦
      let (l, tail, k, m, s) =
        some_lead-Deferral leads words
          (cc (is_some-or_else (lead_at lead words) (some_lead leads words), h, f)) in
      (l, tail, Memᴰ.tail k, m, s)
]

some_lead-found :
    (leads : List (List Text)) (words : List Text)
    → All (λ l. l ≢ []) leads
    → Deferral leads deferral_tail words
    → is_some (some_lead leads words) ≡ true
unfolding some_lead
some_lead-found [] words ne (l, tail, k, m, s) = elim k [ ]
some_lead-found (lead ∷ leads) words ne (l, tail, Memᴰ.head e, m, s) =
    is_some-or_else (lead_at lead words) (some_lead leads words)
    ∙ ap (λ b. b || is_some (some_lead leads words))
        (ap (λ r. is_some (lead_at lead r))
            (s.parts
              ∙ ap (λ r. s.before ++ r)
                  (append_assoc l tail s.after ∙ ap (λ x. x ++ (tail ++ s.after)) e))
          ∙ lead_at-found lead tail s.before s.after ne.0 m)
some_lead-found (lead ∷ leads) words ne (l, tail, Memᴰ.tail k, m, s) = cc (
  is_some-or_else (lead_at lead words) (some_lead leads words),
  some_lead-found leads words ne.1 (l, tail, k, m, s),
  or_true (is_some (lead_at lead words)),
)

-- A criterion defers its content exactly if its words hold "the wording above", or one of the
-- leads directly followed by one of the tails.
pub deferral_iff :
    (words : List Text)
    → (is_some (deferral words) ≡ true)
      ↔ (Infix the_wording_above words ⊎ Deferral deferral_lead deferral_tail words)
unfolding deferral
deferral_iff words = (to, from)
  where
    either :
        is_some (or_else (sequence_at words the_wording_above) (some_lead deferral_lead words))
        ≡ is_some (sequence_at words the_wording_above) || is_some (some_lead deferral_lead words)
    either = is_some-or_else (sequence_at words the_wording_above) (some_lead deferral_lead words)

    to :
        is_some (or_else (sequence_at words the_wording_above) (some_lead deferral_lead words))
          ≡ true
        → Infix the_wording_above words ⊎ Deferral deferral_lead deferral_tail words
    to h = elim (Bool-cases (is_some (sequence_at words the_wording_above))) [
      | inl t ↦ inl ((sequence_at_iff words the_wording_above (λ e. cc)).0 t)
      | inr f ↦ inr (some_lead-Deferral deferral_lead words (cc (either, h, f)))
    ]

    from :
        Infix the_wording_above words ⊎ Deferral deferral_lead deferral_tail words
        → is_some (or_else (sequence_at words the_wording_above) (some_lead deferral_lead words))
          ≡ true
    from (inl s) =
        either
        ∙ ap (λ b. b || is_some (some_lead deferral_lead words))
            ((sequence_at_iff words the_wording_above (λ e. cc)).1 s)
    from (inr s) = cc (
      either,
      some_lead-found deferral_lead words
          ((λ e. cc), ((λ e. cc), ((λ e. cc), ((λ e. cc), ((λ e. cc), ((λ e. cc), tt)))))) s,
      or_true (is_some (sequence_at words the_wording_above)),
    )
