-- ===== src/Harness/Choice.antt =====
-- The choice of the turn's result: it is always one of the results, and it is a turn exactly where
-- nothing says that it failed.
use onejudge.Common.{
  ℕ, zero, suc, ◌-◌, ◌≤◌, ◌<◌, ◌≡◌, refl, sym, ap, ◌∙◌, subst, ◌↔◌, ◌⊎◌, inl, inr, Bool, true,
  false, Option, none, some, List, [], ◌∷◌, arith, Text, length, is_empty, if◌then◌else◌, is_some,
  get_or_else, map_some, or_else, some_inj,
}
use onejudge.Platform.{Platform}
use onejudge.Error.{ProviderErrorKind, Error, Result, ok, err}
use onejudge.Harness.{
  FailureKind, Status, RunResult, HarnessCore, RunReport, Fallback, Supplemental, no_supplemental,
  Invocation, get_elem?,
}
use onejudge.Harness.Turn.{result}
use onejudge.Harness.Select.{
  rposition, status_kind, is_candidate, chosen, select_ran, select_by, select, failure_by,
  invocation, failure, with_selected, parse_report_typed,
}

get_elem?-some :
    {A : Type 0} (xs : List A) (n : ℕ) → n < length xs → (a : A) × (get_elem? xs n ≡ some a)
get_elem?-some [] n lt = absurd (omega arith)
get_elem?-some (x ∷ xs) zero lt = (x, refl)
get_elem?-some (x ∷ xs) (suc n) lt = get_elem?-some xs n (omega arith)

rposition-bound :
    {A : Type 0} (p : A → Bool) (xs : List A)
    → get_or_else 0 (map_some suc (rposition p xs)) ≤ length xs
unfolding rposition
rposition-bound p [] = omega arith
rposition-bound p (x ∷ xs) = found (rposition p xs) (p x) (rposition-bound p xs)
  where
    found :
        (o : Option ℕ) (b : Bool)
        → get_or_else 0 (map_some suc o) ≤ length xs
        → get_or_else 0 (map_some suc (or_else (map_some suc o) (if b then some 0 else none)))
          ≤ suc (length xs)
    found none true k = omega arith
    found none false k = omega arith
    found (some i) b k = omega arith

status_usable :
    {E : Type 0} (g : ProviderErrorKind → E) (s : Status)
    → map_some g (status_kind s) ≡ none
    → (s ≡ Status.ok) ⊎ (s ≡ Status.nonzero)
unfolding status_kind
status_usable g Status.ok e = inl refl
status_usable g Status.nonzero e = inr refl
status_usable g Status.timeout e = absurd cc
status_usable g Status.cancelled e = absurd cc
status_usable g Status.spawn_error e = absurd cc
status_usable g Status.skipped e = absurd cc
status_usable g Status.planned e = absurd cc

module _ {d : Platform} (k : HarnessCore) where
  chosen-bound :
      (id : Text) (results : List (RunResult d))
      → is_empty results ≡ false
      → chosen k id results < length results
  unfolding chosen
  chosen-bound id [] e = absurd cc
  chosen-bound id (r ∷ rs) e =
      below (rposition (is_candidate k id) (r ∷ rs)) (rposition-bound (is_candidate k id) (r ∷ rs))
    where
      below :
          (o : Option ℕ)
          → get_or_else 0 (map_some suc o) ≤ suc (length rs)
          → get_or_else (suc (length rs) - 1) o < suc (length rs)
      below none b = omega arith
      below (some i) b = omega arith

  -- An index into the results with no failure of the chain, or the failure of the whole chain.
  abbrev Selected : List (RunResult d) → Result (Option ℕ × Option Error) → Type 0
  Selected results (err e) = is_empty results ≡ true
  Selected results (ok (some index, chain)) = (index < length results) × (chain ≡ none)
  Selected results (ok (none, chain)) = is_some chain ≡ true

  guarded :
      (results : List (RunResult d)) (index : ℕ) (e : Error)
      → (is_empty results ≡ false → index < length results)
      → Selected results (if is_empty results then err e else ok (some index, none))
  guarded [] index e k = refl
  guarded (r ∷ rs) index e k = (k refl, refl)

  select_ran-Selected :
      (op : Text) (fallback : Fallback) (results : List (RunResult d)) (ran : Option Text)
      → Selected results (select_ran k op fallback results ran)
  unfolding select_ran
  select_ran-Selected op fallback results none = refl
  select_ran-Selected op fallback results (some id) = guarded results _ _ (chosen-bound id results)

  select_by-Selected :
      (op : Text) (results : List (RunResult d)) (fallback : Option Fallback)
      → Selected results (select_by k op results fallback)
  unfolding select_by
  select_by-Selected op results (some fallback) =
      select_ran-Selected op fallback results fallback.ran
  select_by-Selected op [] none = refl
  select_by-Selected op (r ∷ rs) none = (omega arith, refl)

  -- A candidate that ran to a usable end.
  abbrev pub Usable : RunResult d → Type 0
  Usable r = (r.failure_kind ≡ none) × ((r.status ≡ Status.ok) ⊎ (r.status ≡ Status.nonzero))

  failure-Usable : (op : Text) (r : RunResult d) → (failure k op r ≡ none) ↔ Usable r
  unfolding failure failure_by
  failure-Usable op r = (by_kind r.failure_kind refl, usable)
    where
      by_kind :
          (f : Option FailureKind) → r.failure_kind ≡ f → failure_by k op r f ≡ none → Usable r
      by_kind (some kind) q e = absurd cc
      by_kind none q e = (q, status_usable _ r.status e)

      usable : Usable r → failure_by k op r r.failure_kind ≡ none
      usable (f, inl s) = rw (f, s)
      usable (f, inr s) = rw (f, s)

  -- What a reading of a report comes to: an invocation whose turn is one of the report's results,
  -- or none where the whole chain failed.
  abbrev pub Read : RunReport d k → Option (Result (Invocation d k)) → Type 0
  Read report none = ⊥
  Read report (some (err e)) = is_empty report.results ≡ true
  Read report (some (ok i)) =
      (i.failure ≡ none) ↔ ((r : RunResult d) × ((result i ≡ some (some r)) × Usable r))

  with_selected-Read :
      (op : Text) (report : RunReport d k) (supplemental : Supplemental)
      (x : Result (Option ℕ × Option Error))
      → Selected report.results x
      → Read report (with_selected k op report supplemental x)
  unfolding with_selected result
  with_selected-Read op report supplemental (err e) s = s
  with_selected-Read op report supplemental (ok (none, none)) s = absurd cc
  with_selected-Read op report supplemental (ok (none, some e)) s =
      ((λ q. absurd cc), (λ (r, (q, u)). absurd cc))
  with_selected-Read op report supplemental (ok (some index, some e)) (b, s) = absurd cc
  with_selected-Read op report supplemental (ok (some index, none)) (b, s) =
      picked (get_elem? report.results index) refl (get_elem?-some report.results index b)
    where
      picked :
          (o : Option (RunResult d))
          → get_elem? report.results index ≡ o
          → ((a : RunResult d) × (get_elem? report.results index ≡ some a))
          → Read report (
              map_some
                (λ (failed : Option Error).
                  ok (invocation k report (some index) supplemental failed))
                (map_some (failure k op) o))
      picked none q (a, q') = absurd cc
      picked (some a) q found =
          let (to, from) = failure-Usable op a in
          (
            (λ e. (a, (ap (map_some some) q, to e))),
            (λ (r, (q', u)).
                from
                  (subst Usable (sym (some_inj (some_inj (sym (ap (map_some some) q) ∙ q')))) u)),
          )

  -- Reading a report never indexes out of its results. It is refused only where there are none;
  -- otherwise the invocation is without a failure exactly where one of the results is its turn,
  -- and that result names no failure and ended well or with a code other than zero.
  pub parse_report_typed-Read :
      (op : Text) (report : RunReport d k) → Read report (parse_report_typed k op report)
  unfolding parse_report_typed select
  parse_report_typed-Read op report =
      with_selected-Read op report no_supplemental (select_by k op report.results report.fallback)
        (select_by-Selected op report.results report.fallback)
