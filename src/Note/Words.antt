-- ===== src/Note/Words.antt =====
-- crates/onejudge/src/note.rs: the words of a text, and runs of neighbouring words.
use onejudge.Common.{
  ℕ, Bool, true, false, not, ◌&&◌, List, [], ◌∷◌, Text, text_eq, split, length, take, is_empty,
  keep, leb, if◌then◌else◌,
}
use onejudge.Platform.{Platform}

-- The pieces between characters that are not alphanumeric, without the empty ones.
unfoldable pub words_of : Platform → Text → List Text
words_of d text = keep (λ w. not (is_empty w)) (split (λ c. not (d.is_alphanumeric c)) text)

-- `words[..p.len()]` equals `p`, where there are that many words.
unfoldable pub prefix_eq : List Text → List Text → Bool
prefix_eq [] words = true
prefix_eq (p ∷ ps) [] = false
prefix_eq (p ∷ ps) (w ∷ ws) = text_eq w p && prefix_eq ps ws

-- `slice::windows`
unfoldable pub windows {ℓ} : {A : Type ℓ} → ℕ → List A → List (List A)
windows n [] = []
windows n (x ∷ xs) =
    let rest = windows n xs in if leb n (length (x ∷ xs)) then take n (x ∷ xs) ∷ rest else rest
