-- ===== src/Reconciler/Drift.antt =====
-- `reconcile` (reconciler/reconcile.py): each fact is compared across the sources that report it, and
-- a value in which the scanner finds a secret is replaced by a placeholder.
use knokeep.Gate.Platform.{Platform}
use knokeep.Gate.Scan.{secret_scan}
use knokeep.Prelude.{
  Bool, Dict, List, Option, Text, [], any, codes, difference, if◌then◌else◌, insert, leb, length,
  lookup, none, not, some, sorted, text_eq, encode_replace, ◌++◌, ◌>>=◌, ◌∷◌,
}
use knokeep.Reconciler.Sources.{
  Fetched, Value, fetch_raised, fetched, none_value, not_a_dict, not_a_source, other_value,
  str_value,
}
use knokeep.Types.{Env}

pub record FactSpec : Type 0 where
  pub fact_key : Text
  -- by source, the name of the field there
  pub fields : Dict Text
  pub source_of_truth : Text

abbrev pub default_fact_specs : List FactSpec
default_fact_specs =
    record {
      fact_key = codes "next_step";
      fields =
          (codes "store", codes "next_step")
          ∷ (codes "github", codes "head")
          ∷ (codes "tracker", codes "status")
          ∷ [];
      source_of_truth = codes "store";
    }
    ∷ []

pub record FactDrift : Type 0 where
  pub fact_key : Text
  pub values : Dict Text
  pub quarantined : Dict (List Text)
  pub source_of_truth : Text
  pub source_of_truth_value : Option Text
  pub agree : Bool
  pub diverging_sources : List Text
  pub missing_sources : List Text

pub record DriftReport : Type 0 where
  pub facts : List FactDrift
  pub sources_consulted : List Text

unfoldable pub has_drift : DriftReport → Bool
has_drift report = any (λ f. not f.agree) report.facts

-- `DriftReport.fact`
unfoldable pub fact_in : Text → List FactDrift → Option FactDrift
fact_in key [] = none
fact_in key (f ∷ fs) = let rest = fact_in key fs in if text_eq f.fact_key key then some f else rest

-- What one source reports for a fact: the text for the report, the labels, and the text by which the
-- values are compared.
pub record Row : Type 0 where
  pub source : Text
  pub safe : Text
  pub labels : List Text
  pub compare : Text

-- The rows of a fact, and the sources that lack the field.
pub record Rows : Type 0 where
  pub rows : List Row
  pub missing : List Text

-- How a call ends.
pub data Ended : Type 0 where
  reported : DriftReport → Ended
  type_error raised : Ended

-- `_QUARANTINE_TEMPLATE`
unfoldable pub quarantine_template : Text → Text
quarantine_template label = codes "[secret: " ++ label ++ codes " quarantined]"

unfoldable pub names_of : {V : Type 0} → Dict V → List Text
names_of [] = []
names_of ((k, v) ∷ d) = k ∷ names_of d

unfoldable pub values_of : List Row → Dict Text
values_of [] = []
values_of (r ∷ rs) = (r.source, r.safe) ∷ values_of rs

unfoldable pub quarantined_of : List Row → Dict (List Text)
quarantined_of [] = []
quarantined_of (r ∷ rs) =
    let rest = quarantined_of rs in
    elim r.labels [ [] ↦ rest | x ∷ labels ↦ (r.source, x ∷ labels) ∷ rest ]

unfoldable pub compares_of : List Row → List Text
compares_of [] = []
compares_of (r ∷ rs) = r.compare ∷ compares_of rs

abbrev pub state_or_empty : Option (Dict Value) → Dict Value
state_or_empty none = []
state_or_empty (some d) = d

-- `len(set(compare_values.values())) <= 1`
unfoldable pub agreement : List Text → Bool
unfolding difference
agreement keys = leb (length (difference keys [])) 1

unfoldable pub fact_of : FactSpec → Rows → FactDrift
unfolding values_of quarantined_of compares_of agreement names_of sorted
fact_of spec r = record {
  fact_key = spec.fact_key;
  values = values_of r.rows;
  quarantined = quarantined_of r.rows;
  source_of_truth = spec.source_of_truth;
  source_of_truth_value = lookup spec.source_of_truth (values_of r.rows);
  agree = agreement (compares_of r.rows);
  diverging_sources =
      if agreement (compares_of r.rows) then [] else sorted (names_of (values_of r.rows));
  missing_sources = r.missing;
}

module _ (p : Platform) (env : Env) where
  unfoldable pub scanned_row : Text → Text → Option (List Text) → Option Row
  unfolding quarantine_template
  scanned_row source text none = none
  scanned_row source text (some []) =
      some (record { source = source; safe = text; labels = []; compare = text })
  scanned_row source text (some (label ∷ labels)) = some (record {
    source = source;
    safe = quarantine_template label;
    labels = label ∷ labels;
    compare = codes "quarantined:" ++ env.sha256_hexdigest (encode_replace text);
  })

  -- `_report_safe`, where `none` is an exception
  unfoldable pub report_safe : Text → Value → Option Row
  unfolding scanned_row
  report_safe source none_value =
      some (record { source = source; safe = []; labels = []; compare = [] })
  report_safe source (str_value text) =
      scanned_row source text (secret_scan p (encode_replace text))
  report_safe source (other_value none) = none
  report_safe source (other_value (some text)) =
      scanned_row source text (secret_scan p (encode_replace text))

  -- The fields of a fact, one by one.
  unfoldable pub observed : Text → Option Value → Option Rows → Option Rows
  unfolding report_safe
  observed source none rest =
      rest >>= (λ r. some (record { rows = r.rows; missing = source ∷ r.missing }))
  observed source (some v) rest =
      report_safe source v
      >>= (λ row. rest >>= (λ r. some (record { rows = row ∷ r.rows; missing = r.missing })))

  unfoldable pub observe : Dict (Dict Value) → Dict Text → Option Rows
  unfolding observed
  observe raw [] = some (record { rows = []; missing = [] })
  observe raw ((source, name) ∷ fields) =
      observed source (lookup name (state_or_empty (lookup source raw))) (observe raw fields)

  unfoldable pub facts_of : Dict (Dict Value) → List FactSpec → Option (List FactDrift)
  unfolding observe fact_of
  facts_of raw [] = some []
  facts_of raw (spec ∷ specs) =
      observe raw spec.fields
      >>= (λ r. facts_of raw specs >>= (λ facts. some (fact_of spec r ∷ facts)))

  abbrev pub reported_or_raised : List Text → Option (List FactDrift) → Ended
  reported_or_raised names none = raised
  reported_or_raised names (some facts) =
      reported (record { facts = facts; sources_consulted = sorted names })

  -- The states that were fetched, or how the fetching ends. A source is asked only if those before
  -- it gave a `dict`.
  unfoldable pub compare_all :
      (names : List Text) → List FactSpec → Dict Fetched → Dict (Dict Value) → Ended
  unfolding facts_of sorted
  compare_all names specs [] raw = reported_or_raised names (facts_of raw specs)
  compare_all names specs ((name, not_a_source) ∷ sources) raw = type_error
  compare_all names specs ((name, fetch_raised) ∷ sources) raw = raised
  compare_all names specs ((name, not_a_dict) ∷ sources) raw = type_error
  compare_all names specs ((name, fetched d) ∷ sources) raw =
      compare_all names specs sources (insert name d raw)

  -- `reconcile`, without its telemetry
  unfoldable pub reconcile : Dict Fetched → List FactSpec → Ended
  unfolding compare_all names_of
  reconcile sources specs = compare_all (names_of sources) specs sources []
