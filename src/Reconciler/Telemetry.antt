-- ===== src/Reconciler/Telemetry.antt =====
-- reconciler/telemetry.py: the record of an outcome, with identifiers and counts only.
use knokeep.Gate.Platform.{Platform}
use knokeep.Gate.Regex.{is_empty}
use knokeep.Gate.Scan.{secret_scan}
use knokeep.Prelude.{
  Bool, List, Option, Text, [], codes, false, if◌then◌else◌, leb, length, some, sorted, suc, true,
  encode_replace, zero, ℕ, ◌&&◌, ◌+◌, ◌==◌, ◌||◌, ◌∷◌,
}
use knokeep.Reconciler.Drift.{DriftReport, FactDrift, has_drift}

abbrev pub redacted_identifier : Text
redacted_identifier = codes "[non-identifier]"

-- `[A-Za-z0-9_.:-]`
unfoldable pub identifier_char : ℕ → Bool
identifier_char c =
    (leb b'A' c && leb c b'Z')
    || ((leb b'a' c && leb c b'z')
        || ((leb b'0' c && leb c b'9') || (c == b'_' || (c == b'.' || (c == b':' || c == b'-')))))

-- From the start of the text, with so many characters still allowed: `$` is the end of the text, or
-- the place before a newline that ends it.
unfoldable pub identifier_rest : ℕ → Text → Bool
unfolding identifier_char
identifier_rest n [] = true
identifier_rest zero (c ∷ t) = c == 10 && is_empty t
identifier_rest (suc n) (c ∷ t) =
    let rest = identifier_rest n t in if identifier_char c then rest else c == 10 && is_empty t

-- `_IDENTIFIER_RE.match`
unfoldable pub is_identifier : Text → Bool
unfolding identifier_char identifier_rest
is_identifier [] = false
is_identifier (c ∷ t) = identifier_char c && identifier_rest 63 t

-- The record of an event, without its time.
pub record Event : Type 0 where
  pub sources_consulted : List Text
  pub fact_count : ℕ
  pub diverging_fact_count : ℕ
  pub diverging_fact_keys : List Text
  pub quarantined_field_count : ℕ
  pub has_drift : Bool

module _ (p : Platform) where
  abbrev pub unless_hit : Text → Option (List Text) → Text
  unless_hit value (some []) = value
  unless_hit value _ = redacted_identifier

  -- `_safe_identifier`
  unfoldable pub safe_identifier : Text → Text
  unfolding is_identifier
  safe_identifier value =
      if is_identifier value
      then unless_hit value (secret_scan p (encode_replace value))
      else redacted_identifier

  unfoldable pub diverging_keys : List FactDrift → List Text
  unfolding safe_identifier
  diverging_keys [] = []
  diverging_keys (f ∷ fs) =
      let rest = diverging_keys fs in if f.agree then rest else safe_identifier f.fact_key ∷ rest

  unfoldable pub safe_identifiers : List Text → List Text
  unfolding safe_identifier
  safe_identifiers [] = []
  safe_identifiers (s ∷ ss) = safe_identifier s ∷ safe_identifiers ss

  unfoldable pub quarantined_count : List FactDrift → ℕ
  quarantined_count [] = 0
  quarantined_count (f ∷ fs) = length f.quarantined + quarantined_count fs

  -- The record that `emit_reconcile_event` appends.
  unfoldable pub reconcile_event : DriftReport → Event
  unfolding diverging_keys safe_identifiers quarantined_count sorted has_drift
  reconcile_event report = record {
    sources_consulted = sorted (safe_identifiers report.sources_consulted);
    fact_count = length report.facts;
    diverging_fact_count = length (diverging_keys report.facts);
    diverging_fact_keys = sorted (diverging_keys report.facts);
    quarantined_field_count = quarantined_count report.facts;
    has_drift = has_drift report;
  }
