-- ===== src/Note/Admission.antt =====
-- crates/onejudge/src/note.rs: `refusal`, the wordings that a criterion may not have. The scan for
-- version literals is in Note/Versions.antt, and what is known of the phrases in Note/Phrases.antt.
pub mod Versions
pub mod Phrases
pub mod Deferrals
use onejudge.Common.{
  ℕ, zero, suc, ◌+◌, ◌-◌, ◌*◌, ◌/◌, ◌%◌, ◌^◌, ◌≤◌, ◌<◌, min, max, String, ◌≡◌, refl, sym, ap, ap₂,
  ◌∙◌, subst, ◌≡⟨◌⟩◌, ◌∎, fun_ext, ◌≢◌, ◌↔◌, ◌⊎◌, inl, inr, Bool, true, false, not, ◌&&◌, ◌||◌,
  Option, none, some, List, [], ◌∷◌, ◌++◌, map, append-nil, append_assoc, map-append, Infix,
  Infix-refl, Infix-append_left, Infix-append_right, Infix-cons, arith, Text, codes, text_eq,
  is_whitespace, is_ascii_digit, is_ascii_alphanumeric, trim_start, trim_end, trim, split, join,
  starts_with, contains, show, text_eq_iff, text_eq_refl, length, take, drop, is_empty, get_last?,
  keep, any, all, find, length-append, keep-append, length-keep, length-take, length-drop,
  take-append-drop, filter_map, flat_map, length-map, All, All-append, ltb, leb, ◌==◌,
  if◌then◌else◌, ltb→lt, lt→ltb, leb→le, ==_iff, tests, Bool-cases, Option-cases, is_some, is_none,
  get_or_else, map_some, or_else, ◌>>=◌,
}
use onejudge.Platform.{Platform}
use onejudge.Note.Words.{words_of, prefix_eq, windows}
use Versions.{version_literal, code_span_invocation}

abbrev pub out_of_dispatch : List Text
out_of_dispatch =
    codes "branch publishes"
    ∷ codes "is published"
    ∷ codes "pr is merged"
    ∷ codes "pull request is merged"
    ∷ codes "lands on master"
    ∷ codes "lands on main"
    ∷ codes "deploy"
    ∷ []

abbrev pub deferral_lead : List (List Text)
deferral_lead =
    (codes "of" ∷ codes "the" ∷ codes "shape" ∷ [])
    ∷ (codes "as" ∷ [])
    ∷ (codes "exactly" ∷ codes "as" ∷ [])
    ∷ (codes "in" ∷ codes "the" ∷ codes "form" ∷ [])
    ∷ (codes "matching" ∷ codes "the" ∷ codes "wording" ∷ [])
    ∷ (codes "per" ∷ codes "the" ∷ [])
    ∷ []

abbrev pub deferral_tail : List (List Text)
deferral_tail =
    (codes "described" ∷ [])
    ∷ (codes "specified" ∷ [])
    ∷ (codes "stated" ∷ [])
    ∷ (codes "set" ∷ codes "out" ∷ [])
    ∷ (codes "given" ∷ [])
    ∷ (codes "above" ∷ [])
    ∷ (codes "below" ∷ [])
    ∷ []

abbrev pub phrases : List (List Text)
phrases =
    (codes "verbatim" ∷ [])
    ∷ (codes "word" ∷ codes "for" ∷ codes "word" ∷ [])
    ∷ (codes "the" ∷ codes "exact" ∷ codes "phrase" ∷ [])
    ∷ (codes "the" ∷ codes "exact" ∷ codes "wording" ∷ [])
    ∷ (codes "the" ∷ codes "exact" ∷ codes "words" ∷ [])
    ∷ []

abbrev pub the_wording_above : List Text
the_wording_above = codes "the" ∷ codes "wording" ∷ codes "above" ∷ []

abbrev pub shell_binaries : List Text
shell_binaries =
    codes "npm" ∷ codes "pnpm" ∷ codes "nx" ∷ codes "cargo" ∷ codes "pytest" ∷ codes "git" ∷ []

-- The first window of the words that spells the phrase.
unfoldable pub sequence_at : List Text → List Text → Option Text
sequence_at words phrase =
    map_some (join (codes " ")) (find (λ w. prefix_eq phrase w) (windows (length phrase) words))

-- The inner loop over the tails, behind a lead.
unfoldable pub tail_at : List Text → List Text → List (List Text) → Option Text
tail_at lead rest [] = none
tail_at lead rest (t ∷ ts) =
    let others = tail_at lead rest ts in
    if prefix_eq t rest
    then some (join (codes " ") lead ++ (codes " " ++ join (codes " ") t))
    else others

-- The middle loop: `words` is what stands from the start position on.
unfoldable pub lead_at : List Text → List Text → Option Text
lead_at lead [] = none
lead_at lead (w ∷ words) =
    or_else
      (if prefix_eq lead (w ∷ words)
        then tail_at lead (drop (length lead) (w ∷ words)) deferral_tail
        else none)
      (lead_at lead words)

-- The outer loop over the leads.
unfoldable pub some_lead : List (List Text) → List Text → Option Text
some_lead [] words = none
some_lead (lead ∷ leads) words = or_else (lead_at lead words) (some_lead leads words)

unfoldable pub deferral : List Text → Option Text
deferral words = or_else (sequence_at words the_wording_above) (some_lead deferral_lead words)

-- The loop over the phrases that demand a wording.
unfoldable pub some_phrase : List (List Text) → List Text → Option Text
some_phrase [] words = none
some_phrase (p ∷ ps) words = or_else (sequence_at words p) (some_phrase ps words)

-- Why a criterion is refused, with the words found.
pub data Refusal : Type 0 where
  blank : Refusal
  outside : Text → Refusal
  deferred : Text → Refusal
  wording : Text → Refusal
  version : Text → Refusal
  just_invocation : Text → Refusal
  chained : Refusal
  shell_invocation : Text → Refusal

-- The checks of `refusal` behind the blank one, in their order.
unfoldable pub checks : Platform → Text → List (Option Refusal)
checks d text =
    let words = words_of d (d.to_lowercase text) in
    map_some Refusal.outside (find (λ p. contains p (d.to_lowercase text)) out_of_dispatch)
    ∷ map_some deferred (deferral words)
    ∷ map_some wording (some_phrase phrases words)
    ∷ map_some version (version_literal d text)
    ∷ map_some just_invocation (code_span_invocation d text (codes "just" ∷ []))
    ∷ (if contains (codes "&&") text then some chained else none)
    ∷ map_some shell_invocation (code_span_invocation d text shell_binaries)
    ∷ []

-- `return` at the first check that found something.
unfoldable pub first_some {ℓ} : {A : Type ℓ} → List (Option A) → Option A
first_some [] = none
first_some (o ∷ os) = or_else o (first_some os)

unfoldable pub refusal : Platform → Text → Option Refusal
refusal d text = if is_empty text then some blank else first_some (checks d text)
