-- ===== src/Harness/Select.antt =====
-- crates/onejudge/src/oneharness/report.rs: which result of a report is the turn, and what failed.
use onejudge.Common.{
  ℕ, suc, ◌-◌, ◌⊎◌, inl, inr, Bool, true, false, ◌||◌, Option, none, some, List, [], ◌∷◌, ◌++◌, map,
  Text, codes, text_eq, trim, join, show, length, is_empty, get_last?, if◌then◌else◌, get_or_else,
  map_some, or_else, ◌>>=◌,
}
use onejudge.Platform.{Platform}
use onejudge.Error.{Error, Result, ok, err, ProviderErrorKind, spawn, protocol, provider_classified}
use onejudge.Harness.{
  Status, FailureKind, RunResult, FallenThrough, Fallback, HarnessCore, RunReport, Supplemental,
  no_supplemental, Invocation, get_elem?, classify, reason_kind, status_token,
}

abbrev pub protocol_error : Text → Text → Error
protocol_error op message = provider_classified op message protocol

-- `rposition`: the last index at which the test holds.
unfoldable pub rposition : {A : Type 0} → (A → Bool) → List A → Option ℕ
rposition p [] = none
rposition p (x ∷ xs) =
    let behind = map_some suc (rposition p xs) in or_else behind (if p x then some 0 else none)

-- The kind of the status of a candidate that is no turn.
unfoldable pub status_kind : Status → Option ProviderErrorKind
status_kind Status.timeout = some ProviderErrorKind.timeout
status_kind Status.cancelled = some ProviderErrorKind.cancelled
status_kind Status.spawn_error = some ProviderErrorKind.spawn
status_kind Status.skipped = some ProviderErrorKind.spawn
status_kind Status.planned = some ProviderErrorKind.protocol
status_kind Status.ok = none
status_kind Status.nonzero = none

abbrev pub chain_of : HarnessCore → List FallenThrough → Text
chain_of k fell_through = join (codes ", ") (
    map (λ (f : FallenThrough). f.harness ++ (codes " [" ++ (k.reason_str f.reason ++ codes "]")))
      fell_through)

unfoldable pub exhausted : HarnessCore → Text → List FallenThrough → Error
unfolding reason_kind
exhausted k op fell_through =
    provider_classified op
      (codes "no oneharness fallback candidate could run the turn; all "
        ++ (show (length fell_through)
            ++ (codes " candidate(s) failed to start (" ++ (chain_of k fell_through ++ codes ")"))))
      (elim (get_last? fell_through) [ none ↦ spawn | some f ↦ reason_kind f.reason ])

module _ {d : Platform} (k : HarnessCore) where
  abbrev pub is_candidate : Text → RunResult d → Bool
  is_candidate id r = text_eq r.harness_id id || text_eq r.harness id

  -- The candidate that ran, by its id, or else the last.
  unfoldable pub chosen : Text → List (RunResult d) → ℕ
  unfolding rposition
  chosen id results = get_or_else (length results - 1) (rposition (is_candidate id) results)

  unfoldable pub select_ran :
      Text → Fallback → List (RunResult d) → Option Text → Result (Option ℕ × Option Error)
  unfolding exhausted chosen
  select_ran op fallback results none = ok (none, some (exhausted k op fallback.fell_through))
  select_ran op fallback results (some id) =
      if is_empty results
      then err (
          protocol_error op (
            codes "oneharness reported fallback harness `"
            ++ (id ++ codes "` but carried no results")))
      else ok (some (chosen id results), none)

  unfoldable pub select_by :
      Text → List (RunResult d) → Option Fallback → Result (Option ℕ × Option Error)
  unfolding select_ran
  select_by op results (some fallback) = select_ran op fallback results fallback.ran
  select_by op results none =
      if is_empty results
      then err (protocol_error op (codes "oneharness report carried no results"))
      else ok (some 0, none)

  unfoldable pub select : Text → RunReport d k → Result (Option ℕ × Option Error)
  unfolding select_by
  select op report = select_by op report.results report.fallback

  unfoldable pub failure_by : Text → RunResult d → Option FailureKind → Option Error
  unfolding status_kind classify status_token
  failure_by op r (some kind) = some (
      provider_classified op
        (get_or_else (codes "harness failed (" ++ (k.failure_str kind ++ codes ")")) r.error)
        (classify kind))
  failure_by op r none =
      map_some
        (λ (kind : ProviderErrorKind).
          provider_classified op
            (codes "harness `"
              ++ (r.harness_id
                  ++ (codes "` did not run the turn: "
                      ++ get_or_else
                          (codes "oneharness reported status `"
                            ++ (status_token r.status ++ codes "`"))
                          r.error)))
            kind)
        (status_kind r.status)

  -- Why a candidate that was chosen is no turn.
  unfoldable pub failure : Text → RunResult d → Option Error
  unfolding failure_by
  failure op r = failure_by op r r.failure_kind

  -- The failure of the chosen result; the outer `none` is the panic of an index out of range.
  unfoldable pub chosen_failure : Text → List (RunResult d) → Option ℕ → Option (Option Error)
  unfolding failure
  chosen_failure op results none = some none
  chosen_failure op results (some index) = map_some (failure op) (get_elem? results index)

  abbrev pub failure_of :
      Text → List (RunResult d) → Option ℕ → Option Error → Option (Option Error)
  failure_of op results ran (some e) = some (some e)
  failure_of op results ran none = chosen_failure op results ran

  abbrev pub invocation : RunReport d k → Option ℕ → Supplemental → Option Error → Invocation d k
  invocation report ran supplemental failed = record {
    report = report;
    ran = ran;
    supplemental = supplemental;
    failure = failed;
  }

  unfoldable pub with_selected :
      Text
      → RunReport d k
      → Supplemental
      → Result (Option ℕ × Option Error)
      → Option (Result (Invocation d k))
  unfolding chosen_failure
  with_selected op report supplemental (err e) = some (err e)
  with_selected op report supplemental (ok (ran, chain_failure)) =
      map_some (λ (failed : Option Error). ok (invocation report ran supplemental failed))
        (failure_of op report.results ran chain_failure)

  -- `none` is a panic.
  unfoldable pub parse_report_typed : Text → RunReport d k → Option (Result (Invocation d k))
  unfolding with_selected select
  parse_report_typed op report = with_selected op report no_supplemental (select op report)

-- What serde reads of a report: the report itself with the text of its error, an element of an
-- array, and the signals that a result holds beside it.
pub record ReportReader (d : Platform) (k : HarnessCore) : Type 0 where
  pub read_report : d.Value → Text ⊎ RunReport d k
  pub at_index : d.Value → ℕ → Option d.Value
  pub read_supplemental : d.Value → Option Supplemental

module _ {d : Platform} {k : HarnessCore} (read : ReportReader d k) where
  -- The signals of the result that was selected.
  unfoldable pub supplemental_of : d.Value → Result (Option ℕ × Option Error) → Supplemental
  supplemental_of value (err e) = no_supplemental
  supplemental_of value (ok (ran, e)) = get_or_else no_supplemental (
      ran >>= λ index. d.get value (codes "results") >>= λ results.
      read.at_index results index >>= read.read_supplemental)

  unfoldable pub parse_report_value : Text → d.Value → Option (Result (Invocation d k))
  unfolding with_selected select supplemental_of
  parse_report_value op value = elim (read.read_report value) [
    | inl e ↦ some (
        err (
          protocol_error op (
            codes "oneharness report had an unreadable shape: "
            ++ (e ++ (codes "; got: " ++ d.show_value value)))))
    | inr report ↦
        let selected = select k op report in
        with_selected k op report (supplemental_of value selected) selected
  ]

  unfoldable pub parse_report : Text → Text → Option (Result (Invocation d k))
  unfolding parse_report_value
  parse_report op stdout =
      let text = trim stdout in
      elim (d.parses text) [
        | true ↦ parse_report_value op (d.from_str text)
        | false ↦ some (
            err (
              protocol_error op (
                codes "oneharness report was not valid JSON: "
                ++ (d.parse_error text ++ (codes "; got: " ++ text)))))
      ]
