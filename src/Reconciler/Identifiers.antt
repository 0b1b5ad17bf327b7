-- ===== src/Reconciler/Identifiers.antt =====
-- What the reconciler's telemetry may hold (reconciler/telemetry.py).
use knokeep.Prelude.{
  all, ap, ◌++◌, ◌≢◌, ◌⊎◌, ◌&&◌, ◌==◌, Bool-cases, Every, List, Option, Text, [], arith, if_both,
  inl, inr, length, none, refl, some, sorted-Every, suc, true, encode_replace, zero, ℕ, ◌∷◌, ◌≡◌,
  ◌≤◌,
}
use knokeep.Gate.Regex.{is_empty}
use knokeep.Reconciler.Telemetry.{
  identifier_char, diverging_keys, identifier_rest, is_identifier, reconcile_event,
  redacted_identifier, safe_identifier, safe_identifiers, unless_hit,
}
use knokeep.Gate.Platform.{Platform}
use knokeep.Gate.Scan.{secret_scan}
use knokeep.Reconciler.Drift.{DriftReport, FactDrift}

module _ (p : Platform) where
  -- The fixed placeholder, or a text of the identifier's shape in which the scanner finds nothing.
  pub data IsPersistable (text : Text) : Type 0 where
    redacted : text ≡ redacted_identifier → IsPersistable text
    identifier :
        (shaped : is_identifier text ≡ true) (clean : secret_scan p (encode_replace text) ≡ some [])
        → IsPersistable text

  unless_hit-IsPersistable :
      (text : Text) (o : Option (List Text))
      → is_identifier text ≡ true
      → secret_scan p (encode_replace text) ≡ o
      → IsPersistable (unless_hit p text o)
  unless_hit-IsPersistable text none i e = redacted refl
  unless_hit-IsPersistable text (some []) i e = identifier i e
  unless_hit-IsPersistable text (some (x ∷ xs)) i e = redacted refl

  safe_identifier-IsPersistable : (text : Text) → IsPersistable (safe_identifier p text)
  unfolding safe_identifier
  safe_identifier-IsPersistable text = elim (Bool-cases (is_identifier text)) [
    | inl i ↦ rw i (unless_hit-IsPersistable text _ i refl)
    | inr i ↦ rw i (redacted refl)
  ]

  diverging_keys-IsPersistable : (fs : List FactDrift) → Every IsPersistable (diverging_keys p fs)
  unfolding diverging_keys
  diverging_keys-IsPersistable [] = tt
  diverging_keys-IsPersistable (f ∷ fs) =
      if_both (Every IsPersistable) f.agree (diverging_keys-IsPersistable fs)
        (safe_identifier-IsPersistable f.fact_key, diverging_keys-IsPersistable fs)

  safe_identifiers-IsPersistable : (ss : List Text) → Every IsPersistable (safe_identifiers p ss)
  unfolding safe_identifiers
  safe_identifiers-IsPersistable [] = tt
  safe_identifiers-IsPersistable (s ∷ ss) =
      (safe_identifier-IsPersistable s, safe_identifiers-IsPersistable ss)

  -- Every text of a telemetry record is the fixed placeholder, or has the shape of an identifier and
  -- is no secret to the scanner, whatever names the caller gave to its sources and facts.
  pub reconcile_event-IsPersistable :
      (report : DriftReport)
      → Every IsPersistable (reconcile_event p report).sources_consulted
        × Every IsPersistable (reconcile_event p report).diverging_fact_keys
  unfolding reconcile_event
  reconcile_event-IsPersistable report = (
    sorted-Every IsPersistable _ (safe_identifiers-IsPersistable report.sources_consulted),
    sorted-Every IsPersistable _ (diverging_keys-IsPersistable report.facts),
  )

-- An identifier without the newline that may end it.
pub record IsShort (text : Text) : Type 0 where
  pub body : Text
  pub nonempty : body ≢ []
  pub bounded : length body ≤ 64
  pub shaped : all identifier_char body ≡ true
  pub ends : (text ≡ body) ⊎ (text ≡ body ++ (10 ∷ []))

-- The rest of an identifier, with so many characters still allowed.
record IsRest (n : ℕ) (text : Text) : Type 0 where
  body : Text
  bounded : length body ≤ n
  shaped : all identifier_char body ≡ true
  ends : (text ≡ body) ⊎ (text ≡ body ++ (10 ∷ []))

newline-IsRest : (n c : ℕ) (t : Text) → (c == 10 && is_empty t) ≡ true → IsRest n (c ∷ t)
newline-IsRest n c [] h = record {
  body = [];
  bounded = omega arith;
  shaped = refl;
  ends = inr (ap (λ d. d ∷ []) (ground (arith, h)));
}
newline-IsRest n c (d ∷ t) h = absurd (ground (arith, h))

cons_ends :
    (c : ℕ) (t body : Text)
    → (t ≡ body) ⊎ (t ≡ body ++ (10 ∷ []))
    → (c ∷ t ≡ c ∷ body) ⊎ (c ∷ t ≡ (c ∷ body) ++ (10 ∷ []))
cons_ends c t body (inl q) = inl (ap (λ l. c ∷ l) q)
cons_ends c t body (inr q) = inr (ap (λ l. c ∷ l) q)

step-IsRest : (n c : ℕ) (t : Text) → identifier_char c ≡ true → IsRest n t → IsRest (suc n) (c ∷ t)
step-IsRest n c t e k = record {
  body = c ∷ k.body;
  bounded = (let b = k.bounded in omega arith);
  shaped = rw e k.shaped;
  ends = cons_ends c t k.body k.ends;
}

identifier_rest-IsRest : (n : ℕ) (t : Text) → identifier_rest n t ≡ true → IsRest n t
unfolding identifier_rest
identifier_rest-IsRest n [] h = record {
  body = [];
  bounded = omega arith;
  shaped = refl;
  ends = inl refl;
}
identifier_rest-IsRest zero (c ∷ t) h = newline-IsRest zero c t h
identifier_rest-IsRest (suc n) (c ∷ t) h = elim (Bool-cases (identifier_char c)) [
  | inl e ↦ step-IsRest n c t e (identifier_rest-IsRest n t (rw e at h))
  | inr e ↦ newline-IsRest (suc n) c t (rw e at h)
]

is_identifier-IsShort : (t : Text) → is_identifier t ≡ true → IsShort t
unfolding is_identifier
is_identifier-IsShort [] h = cc
is_identifier-IsShort (c ∷ t) h = elim (Bool-cases (identifier_char c)) [
  | inr e ↦ cc
  | inl e ↦
      let k = identifier_rest-IsRest 63 t (rw e at h) in
      record {
        body = c ∷ k.body;
        nonempty = (λ q. cc);
        bounded = (let b = k.bounded in omega arith);
        shaped = rw e k.shaped;
        ends = cons_ends c t k.body k.ends;
      }
]

unless_hit-IsShort :
    (p : Platform) (text : Text) (o : Option (List Text))
    → IsShort text
    → (unless_hit p text o ≡ redacted_identifier) ⊎ ((unless_hit p text o ≡ text) × IsShort text)
unless_hit-IsShort p text none k = inl refl
unless_hit-IsShort p text (some []) k = inr (refl, k)
unless_hit-IsShort p text (some (x ∷ xs)) k = inl refl

-- An identifier in the telemetry is the fixed placeholder, or the name that the caller gave: then it
-- has from 1 to 64 characters, all of an identifier, and after them at most one newline.
pub safe_identifier-IsShort :
    (p : Platform) (text : Text)
    → (safe_identifier p text ≡ redacted_identifier)
      ⊎ ((safe_identifier p text ≡ text) × IsShort text)
unfolding safe_identifier
safe_identifier-IsShort p text = elim (Bool-cases (is_identifier text)) [
  | inr e ↦ rw e (inl refl)
  | inl e ↦ rw e (unless_hit-IsShort p text _ (is_identifier-IsShort text e))
]
