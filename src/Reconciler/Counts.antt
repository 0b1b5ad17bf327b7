-- ===== src/Reconciler/Counts.antt =====
-- The counts in the reconciler's telemetry (reconciler/telemetry.py), for a report of `reconcile`
-- (reconciler/reconcile.py).
use knokeep.Prelude.{
  Bool-cases, Dict, IfSome, List, Option, Text, [], any, arith, bind-IfSome, encode_replace,
  if◌then◌else◌, inl, inr, insert, length, none, not, refl, some, sorted-length, true, ℕ, ◌+◌, ◌↔◌,
  ◌∙◌, ◌∷◌, ◌≡◌, ◌≤◌,
}
use knokeep.Reconciler.Drift.{
  DriftReport, Ended, FactDrift, FactSpec, Row, Rows, compare_all, fact_of, facts_of, has_drift,
  names_of, observe, observed, quarantined_of, reconcile, report_safe, reported, reported_or_raised,
  scanned_row,
}
use knokeep.Reconciler.Sources.{
  Fetched, Value, fetch_raised, fetched, none_value, not_a_dict, not_a_source, other_value,
  str_value,
}
use knokeep.Reconciler.Telemetry.{diverging_keys, quarantined_count, reconcile_event}
use knokeep.Gate.Platform.{Platform}
use knokeep.Gate.Scan.{secret_scan}
use knokeep.Types.{Env}
use knokeep.Reconciler.Agreement.{shown}

-- Facts whose sources differ.
abbrev pub differing : List FactDrift → ℕ
differing [] = 0
differing (f ∷ fs) = (if f.agree then 0 else 1) + differing fs

-- The states that the sources give.
abbrev pub states_onto : Dict (Dict Value) → Dict Fetched → Dict (Dict Value)
states_onto raw [] = raw
states_onto raw ((name, fetched d) ∷ sources) = states_onto (insert name d raw) sources
states_onto raw ((name, _) ∷ sources) = states_onto raw sources

module _ (p : Platform) where
  diverging_keys-differing : (fs : List FactDrift) → length (diverging_keys p fs) ≡ differing fs
  unfolding diverging_keys
  diverging_keys-differing [] = refl
  diverging_keys-differing (f ∷ fs) =
      let h = diverging_keys-differing fs in
      elim (Bool-cases f.agree) [ inl e ↦ rw e (omega arith) | inr e ↦ rw e (omega arith) ]

  has_drift-differing :
      (fs : List FactDrift) → (any (λ f. not f.agree) fs ≡ true) ↔ (1 ≤ differing fs)
  has_drift-differing [] = ground arith
  has_drift-differing (f ∷ fs) =
      let h = has_drift-differing fs in
      elim (Bool-cases f.agree) [ inl e ↦ rw e ground arith | inr e ↦ rw e ground arith ]

  differing-le : (fs : List FactDrift) → differing fs ≤ length fs
  differing-le [] = omega arith
  differing-le (f ∷ fs) =
      let h = differing-le fs in
      elim (Bool-cases f.agree) [ inl e ↦ rw e (omega arith) | inr e ↦ rw e (omega arith) ]

  abbrev hits : Option (List Text) → ℕ
  hits (some (x ∷ xs)) = 1
  hits _ = 0

  -- Whether the scanner finds a secret in a value.
  abbrev secrets_in : Option Value → ℕ
  secrets_in (some (str_value text)) = hits (secret_scan p (encode_replace text))
  secrets_in (some (other_value (some text))) = hits (secret_scan p (encode_replace text))
  secrets_in _ = 0

  abbrev secret_fields : Dict (Dict Value) → Dict Text → ℕ
  secret_fields raw [] = 0
  secret_fields raw ((source, name) ∷ fields) =
      secrets_in (shown raw source name) + secret_fields raw fields

  -- The fields of these facts under which a source shows a secret.
  abbrev pub all_secret_fields : Dict (Dict Value) → List FactSpec → ℕ
  all_secret_fields raw [] = 0
  all_secret_fields raw (spec ∷ specs) = secret_fields raw spec.fields + all_secret_fields raw specs

  module _ (env : Env) where
    abbrev labelled : List Text → ℕ
    labelled [] = 0
    labelled (x ∷ xs) = 1

    abbrev RowCount : ℕ → Row → Type 0
    RowCount n row = labelled row.labels ≡ n

    abbrev RowsCount : ℕ → Rows → Type 0
    RowsCount n r = length (quarantined_of r.rows) ≡ n

    scanned_row-RowCount :
        (source text : Text) (o : Option (List Text))
        → IfSome (RowCount (hits o)) (scanned_row p env source text o)
    unfolding scanned_row
    scanned_row-RowCount source text none = tt
    scanned_row-RowCount source text (some []) = refl
    scanned_row-RowCount source text (some (x ∷ xs)) = refl

    report_safe-RowCount :
        (source : Text) (v : Value)
        → IfSome (RowCount (secrets_in (some v))) (report_safe p env source v)
    unfolding report_safe
    report_safe-RowCount source none_value = refl
    report_safe-RowCount source (str_value text) = scanned_row-RowCount source text _
    report_safe-RowCount source (other_value none) = tt
    report_safe-RowCount source (other_value (some text)) = scanned_row-RowCount source text _

    quarantined_of-length :
        (row : Row) (rows : List Row)
        → length (quarantined_of (row ∷ rows)) ≡ labelled row.labels + length (quarantined_of rows)
    unfolding quarantined_of
    quarantined_of-length row rows = go row.labels
      where
        go :
            (labels : List Text)
            → length (elim labels [
              | [] ↦ quarantined_of rows
              | x ∷ xs ↦ (row.source, x ∷ xs) ∷ quarantined_of rows
            ])
              ≡ labelled labels + length (quarantined_of rows)
        go [] = omega arith
        go (x ∷ xs) = omega arith

    observed-RowsCount :
        (source : Text) (v : Option Value) (rest : Option Rows) (n : ℕ)
        → IfSome (RowsCount n) rest
        → IfSome (RowsCount (secrets_in v + n)) (observed p env source v rest)
    unfolding observed
    observed-RowsCount source none rest n h =
        bind-IfSome (RowsCount n) (RowsCount (0 + n)) rest _ h (λ r q. omega arith)
    observed-RowsCount source (some v) rest n h =
        bind-IfSome (RowCount (secrets_in (some v))) (RowsCount (secrets_in (some v) + n))
          (report_safe p env source v) _ (report_safe-RowCount source v)
          (λ row k.
            bind-IfSome (RowsCount n) (RowsCount (secrets_in (some v) + n)) rest _ h
              (λ r q. let l = quarantined_of-length row r.rows in omega arith))

    observe-RowsCount :
        (raw : Dict (Dict Value)) (fields : Dict Text)
        → IfSome (RowsCount (secret_fields raw fields)) (observe p env raw fields)
    unfolding observe quarantined_of
    observe-RowsCount raw [] = refl
    observe-RowsCount raw ((source, name) ∷ fields) =
        observed-RowsCount source _ _ _ (observe-RowsCount raw fields)

    -- What a report's facts count.
    record Counted (raw : Dict (Dict Value)) (specs : List FactSpec) (fs : List FactDrift)
        : Type 0 where
      one_each : length fs ≡ length specs
      secrets : quarantined_count p fs ≡ all_secret_fields raw specs

    facts_of-Counted :
        (raw : Dict (Dict Value)) (specs : List FactSpec)
        → IfSome (Counted raw specs) (facts_of p env raw specs)
    unfolding facts_of quarantined_count fact_of
    facts_of-Counted raw [] = record { one_each = refl; secrets = refl }
    facts_of-Counted raw (spec ∷ specs) =
        bind-IfSome (RowsCount (secret_fields raw spec.fields)) (Counted raw (spec ∷ specs))
          (observe p env raw spec.fields) _ (observe-RowsCount raw spec.fields)
          (λ r q.
            bind-IfSome (Counted raw specs) (Counted raw (spec ∷ specs)) (facts_of p env raw specs)
              _ (facts_of-Counted raw specs)
              (λ fs k.
                let a = k.one_each in
                let b = k.secrets in record { one_each = omega arith; secrets = omega arith }))

    abbrev CountedEnd : Dict (Dict Value) → List FactSpec → Ended → Type 0
    CountedEnd raw specs (reported report) = Counted raw specs report.facts
    CountedEnd raw specs _ = Unit

    reported-CountedEnd :
        (names : List Text) (raw : Dict (Dict Value)) (specs : List FactSpec)
        (o : Option (List FactDrift))
        → IfSome (Counted raw specs) o
        → CountedEnd raw specs (reported_or_raised p env names o)
    reported-CountedEnd names raw specs none h = tt
    reported-CountedEnd names raw specs (some fs) h = h

    compare_all-CountedEnd :
        (names : List Text) (specs : List FactSpec) (sources : Dict Fetched)
        (raw : Dict (Dict Value))
        → CountedEnd (states_onto raw sources) specs (compare_all p env names specs sources raw)
    unfolding compare_all
    compare_all-CountedEnd names specs [] raw =
        reported-CountedEnd names raw specs _ (facts_of-Counted raw specs)
    compare_all-CountedEnd names specs ((name, not_a_source) ∷ sources) raw = tt
    compare_all-CountedEnd names specs ((name, fetch_raised) ∷ sources) raw = tt
    compare_all-CountedEnd names specs ((name, not_a_dict) ∷ sources) raw = tt
    compare_all-CountedEnd names specs ((name, fetched d) ∷ sources) raw =
        compare_all-CountedEnd names specs sources (insert name d raw)

    -- The telemetry of a report of `reconcile` counts what was compared: one fact for each that was
    -- asked for; as quarantined, exactly the fields under which the sources show a text in which the
    -- scanner finds a secret; as diverging, the facts that do not agree, with one key for each. No
    -- more facts diverge than were asked for, and there is drift exactly if one does.
    pub reconcile_event-counts :
        (sources : Dict Fetched) (specs : List FactSpec) (report : DriftReport)
        → reconcile p env sources specs ≡ reported report
        → ((reconcile_event p report).fact_count ≡ length specs)
          × ((reconcile_event p report).quarantined_field_count
              ≡ all_secret_fields (states_onto [] sources) specs)
          × ((reconcile_event p report).diverging_fact_count ≡ differing report.facts)
          × (length (reconcile_event p report).diverging_fact_keys ≡ differing report.facts)
          × ((reconcile_event p report).diverging_fact_count ≤ length specs)
          × (((reconcile_event p report).has_drift ≡ true)
              ↔ (1 ≤ (reconcile_event p report).diverging_fact_count))
    unfolding reconcile reconcile_event has_drift
    reconcile_event-counts sources specs report h =
        let c : Counted (states_onto [] sources) specs report.facts =
          rw h at (compare_all-CountedEnd (names_of sources) specs sources []) in
        let d = diverging_keys-differing report.facts in
        let a = c.one_each in
        let l = differing-le report.facts in
        (
          a,
          c.secrets,
          d,
          sorted-length (diverging_keys p report.facts) ∙ d,
          omega arith,
          rw d (has_drift-differing report.facts),
        )
