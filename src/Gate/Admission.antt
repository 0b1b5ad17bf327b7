-- ===== src/Gate/Admission.antt =====
-- What `persist` of store/gate.py lets through to a backend, and that it refuses the rest before
-- any I/O.
use knokeep.Prelude.{
  Text, Bytes, ◌≡◌, ◌≢◌, refl, true, Option, none, some, List, [], ◌∷◌, arith, Bool-cases, length,
  ◌≤◌, utf8_encode, ◌⊎◌, inl, inr,
}
use knokeep.Types.{WriteResult, definitely_not_committed, commit_class}
use knokeep.Gate.Platform.{Platform}
use knokeep.Gate.Scan.{secret_scan, max_scan_bytes, contains_label}
use knokeep.Gate.Keys.{valid_key_shape}
use knokeep.Gate.Generation.{extract_generation}
use knokeep.Gate.Objects.{Obj, str_obj}
use knokeep.Gate.Persist.{
  is_acceptable_text, scan_verdict, validate_content, validate_body, validate_key,
  validate_doc_type, validate_write, bytes_of, state_doc_types,
}

-- A key, a body and a document type that may be stored.
pub record IsClean (p : Platform) (key : Text) (raw : Bytes) (doc_type : Text) : Type 0 where
  pub shaped : valid_key_shape key ≡ true
  pub bounded : length raw ≤ max_scan_bytes
  pub typed : (contains_label doc_type state_doc_types ≡ true) ⊎ (extract_generation raw ≢ none)
  pub acceptable : is_acceptable_text p raw ≡ true
  pub key_scanned : secret_scan p (utf8_encode key) ≡ some []
  pub body_scanned : secret_scan p raw ≡ some []

module _ (p : Platform) where
  scan_verdict-none :
      (a b : Option (List Text)) → scan_verdict p a b ≡ none → (a ≡ some []) × (b ≡ some [])
  unfolding scan_verdict
  scan_verdict-none none b h = cc
  scan_verdict-none (some a) none h = cc
  scan_verdict-none (some []) (some []) h = (refl, refl)
  scan_verdict-none (some []) (some (x ∷ b)) h = cc
  scan_verdict-none (some (x ∷ a)) (some b) h = cc

  validate_content-none :
      (key : Text) (raw : Bytes) (doc_type : Text)
      → valid_key_shape key ≡ true
      → validate_content p key raw doc_type ≡ none
      → IsClean p key raw doc_type
  validate_content-none key raw doc_type shaped h = record {
    shaped = shaped;
    bounded = unfold validate_content in ground arith;
    typed = unfold validate_content in ground arith;
    acceptable = unfold validate_content in ground arith;
    key_scanned = scans.0;
    body_scanned = scans.1;
  }
    where
      scans : (secret_scan p (utf8_encode key) ≡ some []) × (secret_scan p raw ≡ some [])
      scans =
          scan_verdict-none (secret_scan p (utf8_encode key)) (secret_scan p raw)
            (unfold validate_content in ground arith)

  validate_body-none :
      (key doc_type : Text) (raw : Option Bytes)
      → valid_key_shape key ≡ true
      → validate_body p key doc_type raw ≡ none
      → (b : Bytes) × (raw ≡ some b) × IsClean p key b doc_type
  unfolding validate_body
  validate_body-none key doc_type none shaped h = cc
  validate_body-none key doc_type (some b) shaped h =
      (b, refl, validate_content-none key b doc_type shaped h)

  validate_key-none :
      (key : Obj) (doc_type : Text) (raw : Option Bytes)
      → validate_key p key doc_type raw ≡ none
      → (k : Text) × (b : Bytes) × (key ≡ str_obj k) × (raw ≡ some b) × IsClean p k b doc_type
  unfolding validate_key
  validate_key-none (str_obj key) doc_type raw h = elim (Bool-cases (valid_key_shape key)) [
    | inl shaped ↦
        let (b, e, c) = validate_body-none key doc_type raw shaped (ground arith) in
        (key, b, refl, e, c)
    | inr bad ↦ absurd (ground arith)
  ]
  validate_key-none _ doc_type raw h = cc

  -- What a key, a body and a document type are when `validate_write` lets them pass.
  pub validate_write-none :
      (key raw doc_type expected_hash : Obj)
      → validate_write p key raw doc_type expected_hash ≡ none
      → (k : Text) × (b : Bytes) × (d : Text) × (key ≡ str_obj k)
        × (bytes_of raw ≡ some b)
        × (doc_type ≡ str_obj d)
        × IsClean p k b d
  unfolding validate_write validate_doc_type
  validate_write-none key raw (str_obj d) expected_hash h =
      let (k, b, e, f, c) = validate_key-none key d (bytes_of raw) (ground arith) in
      (k, b, d, e, f, refl, c)
  validate_write-none key raw _ expected_hash h = absurd (ground arith)

  scan_verdict-class :
      (a b : Option (List Text)) (r : WriteResult)
      → scan_verdict p a b ≡ some r
      → commit_class r ≡ definitely_not_committed
  unfolding scan_verdict commit_class
  scan_verdict-class none b r h = ground arith
  scan_verdict-class (some a) none r h = ground arith
  scan_verdict-class (some []) (some []) r h = cc
  scan_verdict-class (some []) (some (x ∷ b)) r h = ground arith
  scan_verdict-class (some (x ∷ a)) (some b) r h = ground arith

  validate_content-class :
      (key : Text) (raw : Bytes) (doc_type : Text) (r : WriteResult)
      → validate_content p key raw doc_type ≡ some r
      → commit_class r ≡ definitely_not_committed
  unfolding validate_content
  validate_content-class key raw doc_type r h =
      unfold commit_class in
      ground (arith, scan_verdict-class (secret_scan p (utf8_encode key)) (secret_scan p raw) r)

  validate_body-class :
      (key doc_type : Text) (raw : Option Bytes) (r : WriteResult)
      → validate_body p key doc_type raw ≡ some r
      → commit_class r ≡ definitely_not_committed
  unfolding validate_body commit_class
  validate_body-class key doc_type none r h = ground arith
  validate_body-class key doc_type (some raw) r h = validate_content-class key raw doc_type r h

  validate_key-class :
      (key : Obj) (doc_type : Text) (raw : Option Bytes) (r : WriteResult)
      → validate_key p key doc_type raw ≡ some r
      → commit_class r ≡ definitely_not_committed
  unfolding validate_key commit_class
  validate_key-class (str_obj key) doc_type raw r h =
      ground (arith, validate_body-class key doc_type raw r)
  validate_key-class _ doc_type raw r h = ground arith

  pub validate_write-class :
      (key raw doc_type expected_hash : Obj) (r : WriteResult)
      → validate_write p key raw doc_type expected_hash ≡ some r
      → commit_class r ≡ definitely_not_committed
  unfolding validate_write validate_doc_type commit_class
  validate_write-class key raw (str_obj d) expected_hash r h =
      ground (arith, validate_key-class key d (bytes_of raw) r)
  validate_write-class key raw _ expected_hash r h = ground arith
