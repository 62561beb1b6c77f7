-- ===== src/Note/Admission/Phrases.antt =====
-- The scan for phrases finds exactly the runs of neighbouring words that spell them.
use onejudge.Common.{
  ◌≡◌, refl, sym, ap, ap₂, ◌∙◌, ◌≢◌, ◌↔◌, inl, inr, Bool, true, false, ◌&&◌, ◌||◌, List, [], ◌∷◌,
  ◌++◌, Infix, Infix-cons, arith, Text, text_eq_iff, text_eq_refl, length, take, find,
  length-append, leb, Bool-cases, is_some,
}
use onejudge.Note.Words.{prefix_eq, windows}
use onejudge.Note.Admission.{sequence_at}

-- A phrase stands among the words.
pub prefix_eq→prefix :
    (p ws : List Text) → prefix_eq p ws ≡ true → (rest : List Text) × (ws ≡ p ++ rest)
unfolding prefix_eq
prefix_eq→prefix [] ws h = (ws, refl)
prefix_eq→prefix (p ∷ ps) [] h = cc
prefix_eq→prefix (p ∷ ps) (w ∷ ws) h =
    let (rest, e) = prefix_eq→prefix ps ws (ground (arith, text_eq_iff w p)) in
    (rest, ap₂ (λ x xs. x ∷ xs) ((text_eq_iff w p).0 (ground (arith, text_eq_iff w p))) e)

pub prefix→prefix_eq : (p rest : List Text) → prefix_eq p (p ++ rest) ≡ true
unfolding prefix_eq
prefix→prefix_eq [] rest = refl
prefix→prefix_eq (p ∷ ps) rest = rw (text_eq_refl p) (prefix→prefix_eq ps rest)

-- A window of as many words as the phrase is the phrase where the words begin with it.
prefix_eq-take :
    (p ws : List Text) → prefix_eq p (take (length p) ws) ≡ true → prefix_eq p ws ≡ true
unfolding prefix_eq
prefix_eq-take [] ws h = refl
prefix_eq-take (p ∷ ps) [] h = h
prefix_eq-take (p ∷ ps) (w ∷ ws) h = ground (arith, prefix_eq-take ps ws)

take-length-append : (p rest : List Text) → take (length p) (p ++ rest) ≡ p
take-length-append [] rest = refl
take-length-append (p ∷ ps) rest = ap (λ l. p ∷ l) (take-length-append ps rest)

-- Whether a window of the words spells the phrase.
found : List Text → List Text → Bool
found phrase ws = is_some (find (prefix_eq phrase) (windows (length phrase) ws))

found-sequence_at : (ws phrase : List Text) → is_some (sequence_at ws phrase) ≡ found phrase ws
unfolding sequence_at found
found-sequence_at ws phrase = ground arith

found_step :
    (phrase : List Text) (w : Text) (ws : List Text)
    → found phrase (w ∷ ws)
      ≡ (leb (length phrase) (length (w ∷ ws)) && prefix_eq phrase (take (length phrase) (w ∷ ws)))
        || found phrase ws
unfolding found windows
found_step phrase w ws = ground arith

found-nil : (phrase : List Text) → found phrase [] ≡ false
unfolding found windows
found-nil phrase = refl

prefix_eq_self : (p : List Text) → prefix_eq p p ≡ true
unfolding prefix_eq
prefix_eq_self [] = refl
prefix_eq_self (p ∷ ps) = rw (text_eq_refl p) (prefix_eq_self ps)

found-Infix : (phrase ws : List Text) → found phrase ws ≡ true → Infix phrase ws
found-Infix phrase [] h = cc (found-nil phrase)
found-Infix phrase (w ∷ ws) h =
    elim (Bool-cases (prefix_eq phrase (take (length phrase) (w ∷ ws)))) [
      | inl t ↦
          let (rest, e) = prefix_eq→prefix phrase (w ∷ ws) (prefix_eq-take phrase (w ∷ ws) t) in
          record { before = []; after = rest; parts = e }
      | inr f ↦ Infix-cons w ws (found-Infix phrase ws (ground (arith, found_step phrase w ws)))
    ]

Infix-found :
    (phrase before after : List Text)
    → phrase ≢ []
    → found phrase (before ++ (phrase ++ after)) ≡ true
Infix-found [] [] after ne = absurd (ne refl)
Infix-found (p ∷ ps) [] after ne =
    let here : prefix_eq (p ∷ ps) (take (length (p ∷ ps)) ((p ∷ ps) ++ after)) ≡ true =
      ap (prefix_eq (p ∷ ps)) (take-length-append (p ∷ ps) after) ∙ prefix_eq_self (p ∷ ps) in
    ground (arith, found_step (p ∷ ps) p (ps ++ after), here, length-append ps after)
Infix-found phrase (b ∷ before) after ne =
    ground
      (arith, found_step phrase b (before ++ (phrase ++ after)), Infix-found phrase before after ne)

-- For a phrase of at least one word, the scan finds a run exactly if the phrase stands among the
-- words as neighbours, in its order.
pub sequence_at_iff :
    (words phrase : List Text)
    → phrase ≢ []
    → (is_some (sequence_at words phrase) ≡ true) ↔ Infix phrase words
sequence_at_iff words phrase ne = (
  (λ h. found-Infix phrase words (sym (found-sequence_at words phrase) ∙ h)),
  (λ s.
      found-sequence_at words phrase
      ∙ (ap (found phrase) s.parts ∙ Infix-found phrase s.before s.after ne)),
)
