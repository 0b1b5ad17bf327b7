-- ===== src/Reconciler/Agreement.antt =====
-- When a fact of a drift report agrees (reconciler/reconcile.py).
use knokeep.Prelude.{
  Bool-cases, Every, ap, drop, false, sorted, sym, ◌∙◌, AllSame, AllSame-distinct, Among, Dict,
  IfSome, List, Option, Text, [], arith, bind-IfSome, codes, distinct-AllSame, inl, inr, leb→le,
  lookup, none, refl, some, true, encode_replace, ◌++◌, ◌↔◌, ◌∷◌, ◌≡◌, ◌⊎◌,
}
use knokeep.Reconciler.Drift.{
  FactSpec, fact_of, names_of, Row, Rows, agreement, compares_of, observe, observed, report_safe,
  scanned_row, state_or_empty,
}
use knokeep.Gate.Platform.{Platform}
use knokeep.Gate.Scan.{secret_scan}
use knokeep.Reconciler.Sources.{Value, str_value}
use knokeep.Types.{Env}

-- The fact's spec names this field for this source.
abbrev pub FieldOf : Dict Text → Text → Text → Type 0
FieldOf [] source name = ⊥
FieldOf ((s, n) ∷ fields) source name = ((s ≡ source) × (n ≡ name)) ⊎ FieldOf fields source name

-- What a source shows under a field, of the states that were fetched.
abbrev pub shown : Dict (Dict Value) → Text → Text → Option Value
shown raw source name = lookup name (state_or_empty (lookup source raw))

agreement-AllSame : (keys : List Text) → (agreement keys ≡ true) ↔ AllSame keys
unfolding agreement
agreement-AllSame keys = (
  (λ h. distinct-AllSame keys (leb→le _ _ h)),
  (λ h. let d = AllSame-distinct keys h in ground arith),
)

abbrev Any : {A : Type 0} → A → Type 0
Any a = Unit

IfSome-Any : {A : Type 0} (o : Option A) → IfSome Any o
IfSome-Any none = tt
IfSome-Any (some a) = tt

append-cancel : (s t u : Text) → s ++ t ≡ s ++ u → t ≡ u
append-cancel [] t u h = h
append-cancel (c ∷ s) t u h = append-cancel s t u (ap (λ l. drop 1 l) h)

value_is : {v w : Value} → some v ≡ some w → v ≡ w
value_is h = cc

module _ (p : Platform) (env : Env) where
  -- The text that stands for a value in comparisons, by what the scanner finds in it.
  abbrev compare_text : Text → Option (List Text) → Text
  compare_text text (some (label ∷ labels)) =
      codes "quarantined:" ++ env.sha256_hexdigest (encode_replace text)
  compare_text text _ = text

  abbrev key_of : Text → Text
  key_of text = compare_text text (secret_scan p (encode_replace text))

  abbrev Compares : Text → Row → Type 0
  Compares key row = row.compare ≡ key

  scanned_row-Compares :
      (source text : Text) (o : Option (List Text))
      → IfSome (Compares (compare_text text o)) (scanned_row p env source text o)
  unfolding scanned_row
  scanned_row-Compares source text none = tt
  scanned_row-Compares source text (some []) = refl
  scanned_row-Compares source text (some (label ∷ labels)) = refl

  report_safe-Compares :
      (source text : Text)
      → IfSome (Compares (key_of text)) (report_safe p env source (str_value text))
  unfolding report_safe
  report_safe-Compares source text = scanned_row-Compares source text _

  abbrev Found : Text → Rows → Type 0
  Found key r = Among (compares_of r.rows) key

  observed-Found :
      (source text : Text) (v : Option Value) (rest : Option Rows)
      → v ≡ some (str_value text)
      → IfSome (Found (key_of text)) (observed p env source v rest)
  unfolding observed compares_of
  observed-Found source text none rest e = cc
  observed-Found source text (some v) rest e =
      bind-IfSome (Compares (key_of text)) (Found (key_of text)) (report_safe p env source v) _
        (rw (value_is e) (report_safe-Compares source text))
        (λ row h. bind-IfSome Any (Found (key_of text)) rest _ (IfSome-Any rest) (λ r u. inl h))

  observed-later :
      (source key : Text) (v : Option Value) (rest : Option Rows)
      → IfSome (Found key) rest
      → IfSome (Found key) (observed p env source v rest)
  unfolding observed compares_of
  observed-later source key none rest h = bind-IfSome (Found key) (Found key) rest _ h (λ r m. m)
  observed-later source key (some v) rest h =
      bind-IfSome Any (Found key) (report_safe p env source v) _ (IfSome-Any _)
        (λ row u. bind-IfSome (Found key) (Found key) rest _ h (λ r m. inr m))

  observe-Found :
      (raw : Dict (Dict Value)) (fields : Dict Text) (source name text : Text)
      → FieldOf fields source name
      → shown raw source name ≡ some (str_value text)
      → IfSome (Found (key_of text)) (observe p env raw fields)
  unfolding observe
  observe-Found raw [] source name text m e = absurd m
  observe-Found raw ((s, n) ∷ fields) source name text (inl (e', e'')) e =
      observed-Found s text (shown raw s n) (observe p env raw fields) (rw (e', e'') e)
  observe-Found raw ((s, n) ∷ fields) source name text (inr m) e =
      observed-later s (key_of text) _ _ (observe-Found raw fields source name text m e)

  -- Two texts that the report must tell apart: two different texts without a secret, or two texts
  -- with a secret and different hashes.
  pub data AreDistinct (a b : Text) : Type 0 where
    plain :
        (clean_a : secret_scan p (encode_replace a) ≡ some [])
        (clean_b : secret_scan p (encode_replace b) ≡ some []) (differ : a ≡ b → ⊥)
        → AreDistinct a b
    secret :
        (x y : Text) (xs ys : List Text) (hit_a : secret_scan p (encode_replace a) ≡ some (x ∷ xs))
        (hit_b : secret_scan p (encode_replace b) ≡ some (y ∷ ys))
        (differ : env.sha256_hexdigest (encode_replace a) ≡ env.sha256_hexdigest (encode_replace b)
          → ⊥)
        → AreDistinct a b

  AreDistinct-key_of : (a b : Text) → AreDistinct a b → key_of a ≡ key_of b → ⊥
  AreDistinct-key_of a b (plain ca cb d) h = d (rw (ca, cb) at h)
  AreDistinct-key_of a b (secret x y xs ys ha hb d) h =
      d (append-cancel (codes "quarantined:") _ _ (rw (ha, hb) at h))

  -- If two of a fact's sources show texts that must be told apart, the fact does not agree, although
  -- the report may show one placeholder for both, and it names all its reporting sources, in order,
  -- as diverging.
  pub fact_of-diverging :
      (raw : Dict (Dict Value)) (spec : FactSpec) (r : Rows) (s n s' n' a b : Text)
      → observe p env raw spec.fields ≡ some r
      → FieldOf spec.fields s n
      → shown raw s n ≡ some (str_value a)
      → FieldOf spec.fields s' n'
      → shown raw s' n' ≡ some (str_value b)
      → AreDistinct a b
      → ((fact_of spec r).agree ≡ false)
        × ((fact_of spec r).diverging_sources ≡ sorted (names_of (fact_of spec r).values))
  unfolding fact_of
  fact_of-diverging raw spec r s n s' n' a b e m h m' h' d =
      let fa = rw e at (observe-Found raw spec.fields s n a m h) in
      let fb = rw e at (observe-Found raw spec.fields s' n' b m' h') in
      elim (Bool-cases (agreement (compares_of r.rows))) [
        | inl y ↦
            absurd
              (AreDistinct-key_of a b d ((agreement-AllSame (compares_of r.rows)).0 y _ _ fa fb))
        | inr y ↦ (y, rw y refl)
      ]

  -- Each source of the fact lacks the field or shows this text.
  abbrev pub AllShow : Dict (Dict Value) → Text → Dict Text → Type 0
  AllShow raw text =
      Every (λ f. (shown raw f.0 f.1 ≡ none) ⊎ (shown raw f.0 f.1 ≡ some (str_value text)))

  abbrev AllKeys : Text → Rows → Type 0
  AllKeys key r = (k : Text) → Among (compares_of r.rows) k → k ≡ key

  observed-AllKeys :
      (source text : Text) (v : Option Value) (rest : Option Rows)
      → (v ≡ none) ⊎ (v ≡ some (str_value text))
      → IfSome (AllKeys (key_of text)) rest
      → IfSome (AllKeys (key_of text)) (observed p env source v rest)
  unfolding observed compares_of
  observed-AllKeys source text none rest e h =
      bind-IfSome (AllKeys (key_of text)) (AllKeys (key_of text)) rest _ h (λ r k. k)
  observed-AllKeys source text (some v) rest (inl e) h = cc
  observed-AllKeys source text (some v) rest (inr e) h =
      bind-IfSome (Compares (key_of text)) (AllKeys (key_of text)) (report_safe p env source v) _
        (rw (value_is e) (report_safe-Compares source text))
        (λ row c.
          bind-IfSome (AllKeys (key_of text)) (AllKeys (key_of text)) rest _ h
            (λ r hs k m. elim m [ inl q ↦ sym q ∙ c | inr i ↦ hs k i ]))

  observe-AllKeys :
      (raw : Dict (Dict Value)) (fields : Dict Text) (text : Text)
      → AllShow raw text fields
      → IfSome (AllKeys (key_of text)) (observe p env raw fields)
  unfolding observe compares_of
  observe-AllKeys raw [] text h = (λ k m. absurd m)
  observe-AllKeys raw ((s, n) ∷ fields) text h =
      observed-AllKeys s text _ _ h.0 (observe-AllKeys raw fields text h.1)

  -- If all sources that report a fact show the same text, the fact agrees, whether or not the text
  -- is a secret, and no source is named as diverging.
  pub fact_of-agreeing :
      (raw : Dict (Dict Value)) (spec : FactSpec) (r : Rows) (text : Text)
      → observe p env raw spec.fields ≡ some r
      → AllShow raw text spec.fields
      → ((fact_of spec r).agree ≡ true) × ((fact_of spec r).diverging_sources ≡ [])
  unfolding fact_of
  fact_of-agreeing raw spec r text e h =
      let keys = rw e at (observe-AllKeys raw spec.fields text h) in
      let y = (agreement-AllSame (compares_of r.rows)).1 (λ x z m n. keys x m ∙ sym (keys z n)) in
      (y, rw y refl)
