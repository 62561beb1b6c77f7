-- ===== src/Engine/Ledger/Pays.antt =====
-- What a step of a run does to the account of one send: before it so many copies are owed an
-- answer, and after it so many, or the run has ended with none owed.
use onejudge.Common.{
  ℕ, ◌+◌, ◌≡◌, refl, sym, ap, ◌∙◌, subst, ◌⊎◌, inl, inr, Bool, true, false, arith,
}
use onejudge.Platform.{Platform}
use onejudge.Engine.Monad.{
  Run, Reply, next, exit, Exit, stopped, out_of_fuel, M, and_next, ◌>>=◌, get_run, on_world,
  stop_if,
}
use onejudge.Engine.Ledger.{Counts, Same}

module _ {d : Platform} {W : Type 0} (c : Counts W) (streaming : Bool) where
  -- The send was taken once for every answer, every drop, and every copy that is owed.
  abbrev pub Due : ℕ → Run d W → Type 0
  Due n r = c.taken r.world ≡ c.answered r.world + c.dropped r.world + n

  -- Only in a streamed run is a send dropped.
  abbrev pub Kept : Run d W → Run d W → Type 0
  Kept r s = (streaming ≡ true) ⊎ (c.dropped s.world ≡ c.dropped r.world)

  pub Kept-trans : (r s t : Run d W) → Kept r s → Kept s t → Kept r t
  Kept-trans r s t (inl e) k = inl e
  Kept-trans r s t (inr a) (inl e) = inl e
  Kept-trans r s t (inr a) (inr b) = inr (b ∙ a)

  abbrev pub After : {A : Type 0} → (A → ℕ) → (A → Type 0) → Run d W → Reply d W A → Type 0
  After q V r (next a s) = V a × (Due (q a) s × Kept r s)
  After q V r (exit e s) = (e ≡ out_of_fuel) ⊎ (Due 0 s × Kept r s)

  pub record Pays {A : Type 0} (n : ℕ) (m : M d W A) (q : A → ℕ) (V : A → Type 0) : Type 0 where
    pub at : (r : Run d W) → Due n r → After q V r (m r)

  After-trans :
      {A : Type 0} (q : A → ℕ) (V : A → Type 0) (r s : Run d W) (y : Reply d W A)
      → Kept r s
      → After q V s y
      → After q V r y
  After-trans q V r s (next a t) k (v, (o, l)) = (v, (o, Kept-trans r s t k l))
  After-trans q V r s (exit e t) k (inl f) = inl f
  After-trans q V r s (exit e t) k (inr (o, l)) = inr (o, Kept-trans r s t k l)

  pub Pays-bind :
      {A B : Type 0} {n : ℕ} {q : A → ℕ} {V : A → Type 0} {q' : B → ℕ} {U : B → Type 0}
      {m : M d W A} {f : A → M d W B}
      → Pays n m q V
      → ((a : A) → V a → Pays (q a) (f a) q' U)
      → Pays n (m >>= f) q' U
  Pays-bind {A} {B} {n} {q} {V} {q'} {U} {m} {f} k l = record { at = λ r o. go r (m r) (k.at r o) }
    where
      go : (r : Run d W) (y : Reply d W A) → After q V r y → After q' U r (and_next y f)
      go r (next a s) (v, (o, kept)) = After-trans q' U r s (f a s) kept ((l a v).at s o)
      go r (exit e s) z = z

  pub weigh :
      {A : Type 0} {n n' : ℕ} {q : A → ℕ} {V : A → Type 0} {m : M d W A}
      → n ≡ n'
      → Pays n m q V
      → Pays n' m q V
  weigh {A} {n} {n'} {q} {V} {m} e k = subst (λ i. Pays i m q V) e k

abbrev pub Any : {A : Type 0} → A → Type 0
Any a = Unit {0}

abbrev pub same : {A : Type 0} → ℕ → A → ℕ
same n a = n

module _ {d : Platform} {W : Type 0} {c : Counts W} {b : Bool} where
  pub pure-Pays :
      {A : Type 0} {n : ℕ} {q : A → ℕ} {V : A → Type 0} (a : A)
      → n ≡ q a
      → V a
      → Pays {d = d} c b n (λ r. next a r) q V
  pure-Pays a e v = record { at = λ r o. (v, (omega arith, inr refl)) }

  pub exit-Pays :
      {A : Type 0} {q : A → ℕ} {V : A → Type 0} (e : Exit) → Pays {d = d} c b 0 (λ r. exit e r) q V
  exit-Pays e = record { at = λ r o. inr (o, inr refl) }

  pub on_world-Pays :
      {A : Type 0} (n : ℕ) (f : W → A × W)
      → ((w : W) → Same c w (f w).1)
      → Pays {d = d} c b n (on_world f) (same n) Any
  unfolding on_world
  on_world-Pays n f k = record {
    at = λ r o. let (t, a, x) = k r.world in (tt, (omega (arith, t, a, x), inr x));
  }

  pub get_run-Pays : (n : ℕ) → Pays {d = d} c b n get_run (same n) Any
  unfolding get_run
  get_run-Pays n = record { at = λ r o. (tt, (o, inr refl)) }

  pub stop_if-Pays : (stop : Bool) → Pays {d = d} c b 0 (stop_if stop) (same 0) Any
  unfolding stop_if
  stop_if-Pays true = exit-Pays stopped
  stop_if-Pays false = pure-Pays tt refl tt

  -- A step that keeps the host's state.
  pub same-Pays :
      {A : Type 0} (n : ℕ) (f : Run d W → A) (g : Run d W → Run d W)
      → ((r : Run d W) → (g r).world ≡ r.world)
      → Pays {d = d} c b n (λ r. next (f r) (g r)) (same n) Any
  same-Pays n f g k = record {
    at = λ r o. (
      tt,
      (
        subst (λ w. c.taken w ≡ c.answered w + c.dropped w + n) (sym (k r)) o,
        inr (ap c.dropped (k r)),
      ),
    );
  }
