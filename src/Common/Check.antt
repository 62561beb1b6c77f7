-- ===== src/Common/Check.antt =====
-- Runs of the shared text helpers.
use onejudge.Common.{
  ◌≡◌, refl, [], ◌∷◌, codes, is_whitespace, trim_start, trim_end, trim, split, show, ◌==◌,
}

trim_sides : trim (codes "  a b \n") ≡ codes "a b"
unfolding trim trim_start trim_end is_whitespace
trim_sides = refl

split_commas : split (λ c. c == b',') (codes "a,,b") ≡ codes "a" ∷ [] ∷ codes "b" ∷ []
unfolding split
split_commas = refl

show_small : show 1204 ≡ codes "1204"
unfolding show
show_small = refl
