-- ===== src/Common/Slices.antt =====
-- One list standing inside another, as a run of neighbours.
use mathlib.Core.Path.{◌≡◌, ap, sym, ◌∙◌}
use mathlib.Core.List.{List, ◌∷◌, [], ◌++◌, append_assoc, append-nil}

pub record Infix {ℓ} {A : Type ℓ} (xs ys : List A) : Type ℓ where
  pub before : List A
  pub after : List A
  pub parts : ys ≡ before ++ (xs ++ after)

module _ {ℓ} {A : Type ℓ} where
  pub Infix-refl : (xs : List A) → Infix xs xs
  Infix-refl xs = record { before = []; after = []; parts = sym (append-nil xs) }

  pub Infix-append_left : {xs : List A} (zs ys : List A) → Infix xs ys → Infix xs (zs ++ ys)
  Infix-append_left {xs} zs ys s = record {
    before = zs ++ s.before;
    after = s.after;
    parts = ap (λ l. zs ++ l) s.parts ∙ sym (append_assoc zs s.before (xs ++ s.after));
  }

  pub Infix-append_right : {xs : List A} (ys zs : List A) → Infix xs ys → Infix xs (ys ++ zs)
  Infix-append_right {xs} ys zs s = record {
    before = s.before;
    after = s.after ++ zs;
    parts =
        ap (λ l. l ++ zs) s.parts
        ∙ append_assoc s.before (xs ++ s.after) zs
        ∙ ap (λ l. s.before ++ l) (append_assoc xs s.after zs);
  }

  pub Infix-cons : {xs : List A} (y : A) (ys : List A) → Infix xs ys → Infix xs (y ∷ ys)
  Infix-cons y ys s = record {
    before = y ∷ s.before;
    after = s.after;
    parts = ap (λ l. y ∷ l) s.parts;
  }
