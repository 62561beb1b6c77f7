-- ===== src/Engine/Ensures.antt =====
-- What a step of a run ensures: how the run it leaves stands to the one it got, what is known of
-- how it ends the run, and what is known of its value.
use onejudge.Common.{
  ◌≡◌, refl, sym, ap, ◌∙◌, Bool, true, false, List, [], ◌++◌, append-nil, append_assoc,
}
use onejudge.Platform.{Platform}
use onejudge.Engine.Monad.{
  Run, Reply, next, exit, Exit, stopped, M, and_next, ◌>>=◌, get_run, on_world, change_world,
  stop_if,
}

-- A list that was only added to at its end.
pub record Extends {ℓ} {A : Type ℓ} (xs ys : List A) : Type ℓ where
  pub added : List A
  pub parts : ys ≡ xs ++ added

pub Extends-refl {ℓ} : {A : Type ℓ} (xs : List A) → Extends xs xs
Extends-refl xs = record { added = []; parts = sym (append-nil xs) }

pub Extends-trans {ℓ} :
    {A : Type ℓ} {xs ys zs : List A} → Extends xs ys → Extends ys zs → Extends xs zs
Extends-trans {xs = xs} p q = record {
  added = p.added ++ q.added;
  parts = q.parts ∙ (ap (λ l. l ++ q.added) p.parts ∙ append_assoc xs p.added q.added);
}

pub Extends-append {ℓ} : {A : Type ℓ} (xs ys : List A) → Extends xs (xs ++ ys)
Extends-append xs ys = record { added = ys; parts = refl }

-- A run whose transcript and delivered notes were only added to.
pub record Grows {d : Platform} {W : Type 0} (r r' : Run d W) : Type 0 where
  pub transcript : Extends r.transcript.messages r'.transcript.messages
  pub delivered : Extends r.delivered r'.delivered

pub Grows-refl : {d : Platform} {W : Type 0} (r : Run d W) → Grows r r
Grows-refl r = record {
  transcript = Extends-refl r.transcript.messages;
  delivered = Extends-refl r.delivered;
}

pub Grows-trans : {d : Platform} {W : Type 0} {r s t : Run d W} → Grows r s → Grows s t → Grows r t
Grows-trans a b = record {
  transcript = Extends-trans a.transcript b.transcript;
  delivered = Extends-trans a.delivered b.delivered;
}

-- A run that keeps its transcript and its delivered notes, whatever else changed.
pub Grows-same :
    {d : Platform} {W : Type 0} (r r' : Run d W)
    → r'.transcript ≡ r.transcript
    → r'.delivered ≡ r.delivered
    → Grows r r'
Grows-same r r' e f = record {
  transcript = record { added = []; parts = ap (λ t. t.messages) e ∙ sym (append-nil _) };
  delivered = record { added = []; parts = f ∙ sym (append-nil _) };
}

module _ {d : Platform} {W : Type 0} (Q : Exit → Type 0) where
  abbrev pub Holds : {A : Type 0} → (A → Type 0) → Run d W → Reply d W A → Type 0
  Holds V r (next a r') = Grows r r' × V a
  Holds V r (exit e r') = Grows r r' × Q e

  -- A record, so that the step and the predicate are determined by the type.
  pub record Ensures {A : Type 0} (V : A → Type 0) (m : M d W A) : Type 0 where
    pub at : (r : Run d W) → Holds V r (m r)

  Holds-trans :
      {A : Type 0} (V : A → Type 0) (r s : Run d W) (x : Reply d W A)
      → Grows r s
      → Holds V s x
      → Holds V r x
  Holds-trans V r s (next a t) g (k, v) = (Grows-trans g k, v)
  Holds-trans V r s (exit e t) g (k, q) = (Grows-trans g k, q)

  pub Ensures-bind :
      {A B : Type 0} {V : A → Type 0} {U : B → Type 0} {m : M d W A} {f : A → M d W B}
      → Ensures V m
      → ((a : A) → V a → Ensures U (f a))
      → Ensures U (m >>= f)
  Ensures-bind {A} {B} {V} {U} {m} {f} em ef = record { at = λ r. go r (m r) (em.at r) }
    where
      go : (r : Run d W) (x : Reply d W A) → Holds V r x → Holds U r (and_next x f)
      go r (next a s) (g, v) = Holds-trans U r s (f a s) g ((ef a v).at s)
      go r (exit e s) (g, q) = (g, q)

abbrev pub Any : {A : Type 0} → A → Type 0
Any a = Unit {0}

module _ {d : Platform} {W : Type 0} {Q : Exit → Type 0} where
  pub on_world-Ensures : {A : Type 0} (f : W → A × W) → Ensures {d = d} {W = W} Q Any (on_world f)
  unfolding on_world
  on_world-Ensures f = record {
    at = λ r. (Grows-same r (record r { world = (f r.world).1 }) refl refl, tt);
  }

  pub change_world-Ensures : (f : W → W) → Ensures {d = d} {W = W} Q Any (change_world f)
  unfolding change_world
  change_world-Ensures f = record {
    at = λ r. (Grows-same r (record r { world = f r.world }) refl refl, tt);
  }

  pub pure-Ensures :
      {A : Type 0} {V : A → Type 0} (a : A) → V a → Ensures {d = d} {W = W} Q V (λ r. next a r)
  pure-Ensures a v = record { at = λ r. (Grows-refl r, v) }

  pub exit-Ensures :
      {A : Type 0} {V : A → Type 0} (e : Exit) → Q e → Ensures {d = d} {W = W} Q V (λ r. exit e r)
  exit-Ensures e q = record { at = λ r. (Grows-refl r, q) }

  pub get_run-Ensures : Ensures {d = d} {W = W} Q {A = Run d W} Any get_run
  unfolding get_run
  get_run-Ensures = record { at = λ r. (Grows-refl r, tt) }

  pub stop_if-Ensures : (b : Bool) → Q stopped → Ensures {d = d} {W = W} Q Any (stop_if b)
  unfolding stop_if
  stop_if-Ensures true q = exit-Ensures stopped q
  stop_if-Ensures false q = pure-Ensures tt tt

  -- A step that changes neither the transcript nor the delivered notes.
  pub same-Ensures :
      {A : Type 0} (f : Run d W → A) (g : Run d W → Run d W)
      → ((r : Run d W) → (g r).transcript ≡ r.transcript)
      → ((r : Run d W) → (g r).delivered ≡ r.delivered)
      → Ensures {d = d} {W = W} Q {A = A} Any (λ r. next (f r) (g r))
  same-Ensures f g t n = record { at = λ r. (Grows-same r (g r) (t r) (n r), tt) }
