-- ===== src/Tests/ReconcilerRuns.antt =====
-- The reconciler (reconciler/) at concrete sources, and its theorems there.
use knokeep.Prelude.{
  ◌⊎◌, Bool, List, text_eq_iff, Dict, Every, Option, Text, [], codes, difference, elem, false, inl,
  inr, insert, length, lookup, map, none, place, refl, some, sorted, text_eq, text_leb, true,
  encode_replace, ◌++◌, ◌↔◌, ◌∷◌, ◌≡◌, ◌≤◌,
}
use knokeep.Reconciler.Counts.{all_secret_fields, differing, reconcile_event-counts, states_onto}
use knokeep.Reconciler.Identifiers.{
  IsShort, IsPersistable, reconcile_event-IsPersistable, safe_identifier-IsShort,
}
use knokeep.Reconciler.Telemetry.{
  redacted_identifier, identifier_char, identifier_rest, is_identifier, reconcile_event,
  safe_identifier,
}
use knokeep.Tests.Scans.{scan}
use knokeep.Tests.Samples.{env, platform}
use knokeep.Reconciler.Agreement.{
  AllShow, AreDistinct, fact_of-agreeing, fact_of-diverging, secret, shown,
}
use knokeep.Reconciler.Drift.{
  reconcile, DriftReport, Ended, FactSpec, Rows, agreement, compare_all, compares_of, fact_of,
  facts_of, names_of, observe, observed, quarantine_template, quarantined_of, report_safe, reported,
  scanned_row, values_of,
}
use knokeep.Reconciler.Quarantine.{IsSafe, reconcile-IsSafe}
use knokeep.Reconciler.Sources.{Fetched, Value, fetched, str_value}

abbrev first_token : Text
first_token = codes "AKIAABCDEFGHIJKL"

abbrev second_token : Text
second_token = codes "AKIAABCDEFGHIJKL."

abbrev one_field : Text → Text → Fetched
one_field name text = fetched ((name, str_value text) ∷ [])

-- Two sources show different secrets.
abbrev sources : Dict Fetched
sources =
    (codes "store", one_field (codes "next_step") first_token)
    ∷ (codes "github", one_field (codes "head") second_token)
    ∷ []

abbrev spec : FactSpec
spec = record {
  fact_key = codes "next_step";
  fields = (codes "store", codes "next_step") ∷ (codes "github", codes "head") ∷ [];
  source_of_truth = codes "store";
}

abbrev raw : Dict (Dict Value)
raw =
    (codes "store", (codes "next_step", str_value first_token) ∷ [])
    ∷ (codes "github", (codes "head", str_value second_token) ∷ [])
    ∷ []

-- One name for all that a run goes through.
run_observe : Dict (Dict Value) → Dict Text → Option Rows
unfolding scan observe observed report_safe scanned_row quarantine_template lookup encode_replace
    text_eq
run_observe r fields = observe platform env r fields

run_reconcile : Dict Fetched → Ended
unfolding run_observe reconcile compare_all facts_of fact_of agreement difference elem values_of
    quarantined_of compares_of names_of sorted place text_leb insert
run_reconcile s = reconcile platform env s (spec ∷ [])

report_in : Ended → DriftReport
report_in (reported report) = report
report_in _ = record { facts = []; sources_consulted = [] }

reported_run :
    reconcile platform env sources (spec ∷ []) ≡ reported (report_in (run_reconcile sources))
unfolding run_reconcile report_in
reported_run = refl

abbrev shows : DriftReport → List (Dict Text × Bool)
shows report = map (λ f. (f.values, f.agree)) report.facts

-- The two secrets are shown as one placeholder, and still the fact does not agree.
placeholder_run :
    shows (report_in (run_reconcile sources))
    ≡ (
      (codes "store", codes "[secret: AWS access key quarantined]")
          ∷ (codes "github", codes "[secret: AWS access key quarantined]")
          ∷ [],
      false,
    )
      ∷ []
unfolding run_reconcile report_in
placeholder_run = refl

reconcile-IsSafe_example : Every (IsSafe platform env) (report_in (run_reconcile sources)).facts
reconcile-IsSafe_example =
    reconcile-IsSafe platform env sources (spec ∷ []) (report_in (run_reconcile sources))
      reported_run

rows_in : Option Rows → Rows
rows_in none = record { rows = []; missing = [] }
rows_in (some r) = r

rows : Rows
unfolding run_observe rows_in
rows = rows_in (run_observe raw spec.fields)

observed_run : observe platform env raw spec.fields ≡ some rows
unfolding rows
observed_run = refl

shown_store : shown raw (codes "store") (codes "next_step") ≡ some (str_value first_token)
unfolding lookup text_eq
shown_store = refl

shown_github : shown raw (codes "github") (codes "head") ≡ some (str_value second_token)
unfolding lookup text_eq
shown_github = refl

differ :
    env.sha256_hexdigest (encode_replace first_token)
      ≡ env.sha256_hexdigest (encode_replace second_token)
    → ⊥
unfolding text_eq encode_replace
differ e = (let h : false ≡ true = (text_eq_iff _ _).1 e in cc)

distinct : AreDistinct platform env first_token second_token
unfolding scan encode_replace
distinct = secret _ _ _ _ refl refl differ

fact_of-diverging_example :
    ((fact_of spec rows).agree ≡ false)
    × ((fact_of spec rows).diverging_sources ≡ sorted (names_of (fact_of spec rows).values))
fact_of-diverging_example =
    fact_of-diverging platform env raw spec rows (codes "store") (codes "next_step")
      (codes "github") (codes "head") first_token second_token observed_run (inl (refl, refl))
      shown_store (inr (inl (refl, refl))) shown_github distinct

abbrev same_raw : Dict (Dict Value)
same_raw =
    (codes "store", (codes "next_step", str_value first_token) ∷ [])
    ∷ (codes "github", (codes "head", str_value first_token) ∷ [])
    ∷ []

same_rows : Rows
unfolding run_observe rows_in
same_rows = rows_in (run_observe same_raw spec.fields)

same_run : observe platform env same_raw spec.fields ≡ some same_rows
unfolding same_rows
same_run = refl

all_show : AllShow platform env same_raw first_token spec.fields
unfolding lookup text_eq
all_show = (inr refl, (inr refl, tt))

fact_of-agreeing_example :
    ((fact_of spec same_rows).agree ≡ true) × ((fact_of spec same_rows).diverging_sources ≡ [])
fact_of-agreeing_example =
    fact_of-agreeing platform env same_raw spec same_rows first_token same_run all_show

reconcile_event-IsPersistable_example :
    Every
      (IsPersistable platform)
      (reconcile_event platform (report_in (run_reconcile sources))).sources_consulted
    × Every
        (IsPersistable platform)
        (reconcile_event platform (report_in (run_reconcile sources))).diverging_fact_keys
reconcile_event-IsPersistable_example =
    reconcile_event-IsPersistable platform (report_in (run_reconcile sources))

reconcile_event-counts_example :
    ((reconcile_event platform (report_in (run_reconcile sources))).fact_count ≡ length (spec ∷ []))
    × ((reconcile_event platform (report_in (run_reconcile sources))).quarantined_field_count
        ≡ all_secret_fields platform (states_onto [] sources) (spec ∷ []))
    × ((reconcile_event platform (report_in (run_reconcile sources))).diverging_fact_count
        ≡ differing (report_in (run_reconcile sources)).facts)
    × (length (reconcile_event platform (report_in (run_reconcile sources))).diverging_fact_keys
        ≡ differing (report_in (run_reconcile sources)).facts)
    × ((reconcile_event platform (report_in (run_reconcile sources))).diverging_fact_count
        ≤ length (spec ∷ []))
    × (((reconcile_event platform (report_in (run_reconcile sources))).has_drift ≡ true)
        ↔ (1 ≤ (reconcile_event platform (report_in (run_reconcile sources))).diverging_fact_count))
reconcile_event-counts_example =
    reconcile_event-counts platform env sources (spec ∷ []) (report_in (run_reconcile sources))
      reported_run

-- Both fields show a secret.
secret_fields_run : all_secret_fields platform (states_onto [] sources) (spec ∷ []) ≡ 2
unfolding scan insert lookup text_eq encode_replace
secret_fields_run = refl

safe_identifier-IsShort_example :
    (safe_identifier platform (codes "next_step") ≡ redacted_identifier)
    ⊎ ((safe_identifier platform (codes "next_step") ≡ codes "next_step")
        × IsShort (codes "next_step"))
safe_identifier-IsShort_example = safe_identifier-IsShort platform (codes "next_step")

-- Each lone surrogate is sent to the scanner and to the hash as `?`.
surrogates_run : encode_replace (codes "a" ++ (0xd800 ∷ 0xdfff ∷ [])) ≡ codes "a??"
unfolding encode_replace
surrogates_run = refl

-- The shape of an identifier lets a newline at its end through.
newline_run : is_identifier (codes "store" ++ (10 ∷ [])) ≡ true
unfolding is_identifier identifier_rest identifier_char
newline_run = refl
