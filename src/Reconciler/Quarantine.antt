-- ===== src/Reconciler/Quarantine.antt =====
-- What a drift report may show of the fetched values (reconciler/reconcile.py).
use knokeep.Prelude.{
  Dict, IfSome, bind-IfSome, if_both, insert, lookup, text_eq, Every, List, Option, Text, [], none,
  refl, some, encode_replace, ◌∷◌, ◌≡◌,
}
use knokeep.Reconciler.Drift.{
  DriftReport, Ended, FactDrift, FactSpec, compare_all, fact_of, facts_of, names_of, observe,
  raised, reconcile, reported, reported_or_raised, type_error, values_of, Row, Rows, observed,
  quarantine_template, report_safe, scanned_row,
}
use knokeep.Reconciler.Sources.{
  Fetched, fetch_raised, fetched, not_a_dict, not_a_source, Value, none_value, other_value,
  str_value,
}
use knokeep.Gate.Platform.{Platform}
use knokeep.Gate.Scan.{secret_scan}
use knokeep.Types.{Env}

module _ (p : Platform) (env : Env) where
  -- Nothing, a text in which the scanner finds nothing, or the placeholder with the first label that
  -- the scanner gives for a text.
  pub data IsReportable (shown : Text) : Type 0 where
    nothing : shown ≡ [] → IsReportable shown
    clean : secret_scan p (encode_replace shown) ≡ some [] → IsReportable shown
    placeholder :
        (text label : Text) (labels : List Text)
        (found : secret_scan p (encode_replace text) ≡ some (label ∷ labels))
        (shown_is : shown ≡ quarantine_template label)
        → IsReportable shown

  abbrev SafeRow : Row → Type 0
  SafeRow r = IsReportable r.safe

  abbrev SafeRows : Rows → Type 0
  SafeRows r = Every SafeRow r.rows

  scanned_row-SafeRow :
      (source text : Text) (o : Option (List Text))
      → secret_scan p (encode_replace text) ≡ o
      → IfSome SafeRow (scanned_row p env source text o)
  unfolding scanned_row
  scanned_row-SafeRow source text none e = tt
  scanned_row-SafeRow source text (some []) e = clean e
  scanned_row-SafeRow source text (some (label ∷ labels)) e = placeholder text label labels e refl

  report_safe-SafeRow : (source : Text) (v : Value) → IfSome SafeRow (report_safe p env source v)
  unfolding report_safe
  report_safe-SafeRow source none_value = nothing refl
  report_safe-SafeRow source (str_value text) = scanned_row-SafeRow source text _ refl
  report_safe-SafeRow source (other_value none) = tt
  report_safe-SafeRow source (other_value (some text)) = scanned_row-SafeRow source text _ refl

  observed-SafeRows :
      (source : Text) (v : Option Value) (rest : Option Rows)
      → IfSome SafeRows rest
      → IfSome SafeRows (observed p env source v rest)
  unfolding observed
  observed-SafeRows source none rest k = bind-IfSome SafeRows SafeRows rest _ k (λ r h. h)
  observed-SafeRows source (some v) rest k =
      bind-IfSome SafeRow SafeRows (report_safe p env source v) _ (report_safe-SafeRow source v)
        (λ row h. bind-IfSome SafeRows SafeRows rest _ k (λ r hs. (h, hs)))

  observe-SafeRows :
      (raw : Dict (Dict Value)) (fields : Dict Text) → IfSome SafeRows (observe p env raw fields)
  unfolding observe
  observe-SafeRows raw [] = tt
  observe-SafeRows raw ((source, name) ∷ fields) =
      observed-SafeRows source _ _ (observe-SafeRows raw fields)

  -- All that a fact shows of fetched values is fit for the report.
  pub record IsSafe (f : FactDrift) : Type 0 where
    pub values_safe : Every (λ kv. IsReportable kv.1) f.values
    pub truth_safe : IfSome IsReportable f.source_of_truth_value

  values_of-safe :
      (rows : List Row) → Every SafeRow rows → Every (λ kv. IsReportable kv.1) (values_of rows)
  unfolding values_of
  values_of-safe [] h = tt
  values_of-safe (r ∷ rs) h = (h.0, values_of-safe rs h.1)

  lookup-safe :
      (k : Text) (d : Dict Text)
      → Every (λ kv. IsReportable kv.1) d
      → IfSome IsReportable (lookup k d)
  unfolding lookup
  lookup-safe k [] h = tt
  lookup-safe k ((j, v) ∷ d) h =
      if_both (IfSome IsReportable) (text_eq j k) h.0 (lookup-safe k d h.1)

  fact_of-IsSafe : (spec : FactSpec) (r : Rows) → SafeRows r → IsSafe (fact_of spec r)
  unfolding fact_of
  fact_of-IsSafe spec r h = record {
    values_safe = values_of-safe r.rows h;
    truth_safe = lookup-safe spec.source_of_truth _ (values_of-safe r.rows h);
  }

  facts_of-IsSafe :
      (raw : Dict (Dict Value)) (specs : List FactSpec)
      → IfSome (Every IsSafe) (facts_of p env raw specs)
  unfolding facts_of
  facts_of-IsSafe raw [] = tt
  facts_of-IsSafe raw (spec ∷ specs) =
      bind-IfSome SafeRows (Every IsSafe) (observe p env raw spec.fields) _
        (observe-SafeRows raw spec.fields)
        (λ r h.
          bind-IfSome (Every IsSafe) (Every IsSafe) (facts_of p env raw specs) _
            (facts_of-IsSafe raw specs) (λ facts hs. (fact_of-IsSafe spec r h, hs)))

  abbrev SafeEnd : Ended → Type 0
  SafeEnd (reported report) = Every IsSafe report.facts
  SafeEnd type_error = Unit
  SafeEnd raised = Unit

  reported_or_raised-safe :
      (names : List Text) (o : Option (List FactDrift))
      → IfSome (Every IsSafe) o
      → SafeEnd (reported_or_raised p env names o)
  reported_or_raised-safe names none h = tt
  reported_or_raised-safe names (some facts) h = h

  compare_all-safe :
      (names : List Text) (specs : List FactSpec) (sources : Dict Fetched) (raw : Dict (Dict Value))
      → SafeEnd (compare_all p env names specs sources raw)
  unfolding compare_all
  compare_all-safe names specs [] raw = reported_or_raised-safe names _ (facts_of-IsSafe raw specs)
  compare_all-safe names specs ((name, not_a_source) ∷ sources) raw = tt
  compare_all-safe names specs ((name, fetch_raised) ∷ sources) raw = tt
  compare_all-safe names specs ((name, not_a_dict) ∷ sources) raw = tt
  compare_all-safe names specs ((name, fetched d) ∷ sources) raw =
      compare_all-safe names specs sources (insert name d raw)

  -- In every report of `reconcile`, each value of each fact, the one of the source of truth
  -- included, is empty, or a text in which the scanner finds no secret, or the placeholder that
  -- holds only a label.
  pub reconcile-IsSafe :
      (sources : Dict Fetched) (specs : List FactSpec) (report : DriftReport)
      → reconcile p env sources specs ≡ reported report
      → Every IsSafe report.facts
  unfolding reconcile
  reconcile-IsSafe sources specs report h =
      rw h at (compare_all-safe (names_of sources) specs sources [])
