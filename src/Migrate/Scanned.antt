-- ===== src/Migrate/Scanned.antt =====
-- Pass 1 of `_migrate_body` (migrate/migrate.py): what is known of the source once it has passed.
use knokeep.Migrate.Report.{aborted, Counts, Info, Part, Reason, passed, stop, stopped}
use knokeep.Gate.Platform.{Platform}
use knokeep.Migrate.Keeping.{Steady, heartbeat_if_due-Ended}
use knokeep.Migrate.Lease.{Lease, LeaseStep, heartbeat_if_due}
use knokeep.Migrate.LeaseDoc.{JsonLib}
use knokeep.Migrate.Passes.{
  Blobs, scan_beaten, scan_keys, scan_name, scan_read, scan_value, with_blob,
}
use knokeep.Migrate.Store.{Target}
use knokeep.Prelude.{
  Among, Bytes, List, Option, Text, [], inl, inr, none, refl, some, sym, utf8_encode, ℕ, ◌+◌, ◌∙◌,
  ◌∷◌, ◌≡◌,
}
use knokeep.Types.{Blob, Env}

-- A part of the run, by what holds where it is stopped, always with an aborted report, and where it
-- has passed.
abbrev pub Ends : {S B : Type 0} → (S → Type 0) → (B → S → Type 0) → Part S B → Type 0
Ends K J (stopped report l s) = (report.status ≡ aborted) × K s
Ends K J (passed b l s) = J b s

pub Ends-mono :
    {S B : Type 0} (K K' : S → Type 0) (J J' : B → S → Type 0)
    → ((s : S) → K s → K' s)
    → ((b : B) (s : S) → J b s → J' b s)
    → (part : Part S B) → Ends K J part
    → Ends K' J' part
Ends-mono K K' J J' f g (stopped report l s) h = (h.0, f s h.1)
Ends-mono K K' J J' f g (passed b l s) h = g b s h

pub with_blob-Ends :
    {S B : Type 0} (K : S → Type 0) (J J' : B → S → Type 0) (f : B → B)
    → ((b : B) (s : S) → J b s → J' (f b) s)
    → (part : Part S B) → Ends K J part
    → Ends K J' (with_blob f part)
with_blob-Ends K J J' f step (stopped report l s) h = h
with_blob-Ends K J J' f step (passed b l s) h = step b s h

-- The source shows the key with this value, and neither is a secret to the scanner.
pub record IsScanned (scanner : Bytes → Option (List Text)) (held : Text → Option (Option Blob))
    (key : Text) (blob : Blob) : Type 0 where
  pub read_is : held key ≡ some (some blob)
  pub clean_key : scanner (utf8_encode key) ≡ some []
  pub clean_value : scanner blob.body ≡ some []

-- The blobs are the values of the keys, in their order, and each is scanned.
abbrev pub Scanned :
    (Bytes → Option (List Text)) → (Text → Option (Option Blob)) → List Text → Blobs → Type 0
Scanned scanner held [] [] = Unit
Scanned scanner held [] (b ∷ bs) = ⊥
Scanned scanner held (k ∷ ks) [] = ⊥
Scanned scanner held (k ∷ ks) ((j, b) ∷ bs) =
    (j ≡ k) × IsScanned scanner held k b × Scanned scanner held ks bs

module _ (p : Platform) (env : Env) (json : JsonLib) {S : Type 0} (target : Target S)
    (scanner : Bytes → Option (List Text)) (source_read : Text → S → Option (Option Blob))
    (info : Info) (I : S → Type 0) (steady : Steady p env json target I) where
  module _ {B : Type 0} (J : B → S → Type 0) where
    pub stop-Ends :
        (c : Counts) (reason : Reason) (key : Option Text) (labels : List Text) (l : Lease) (s : S)
        → I s
        → Ends I J (stop target {B = B} info c reason key labels l s)
    unfolding stop
    stop-Ends c reason key labels l s i = (refl, steady.walls s i)

  module _ (J : Blobs → S → Type 0) (next : Blob → Lease → S → Part S Blobs) (key : Text)
      (n : ℕ) where
    scan_value-Ends :
        (blob : Blob) (o : Option (List Text)) (l : Lease) (s : S)
        → (o ≡ some [] → Ends I J (next blob l s))
        → I s
        → Ends I J (scan_value p env json target scanner source_read info next key n blob o l s)
    unfolding scan_value
    scan_value-Ends blob none l s h i = stop-Ends J _ _ _ _ l s i
    scan_value-Ends blob (some []) l s h i = h refl
    scan_value-Ends blob (some (x ∷ labels)) l s h i = stop-Ends J _ _ _ _ l s i

    scan_read-Ends :
        (o : Option (Option Blob)) (l : Lease) (s : S)
        → ((b : Blob) → o ≡ some (some b) → scanner b.body ≡ some [] → Ends I J (next b l s))
        → I s
        → Ends I J (scan_read p env json target scanner source_read info next key n o l s)
    unfolding scan_read
    scan_read-Ends none l s h i = stop-Ends J _ _ _ _ l s i
    scan_read-Ends (some none) l s h i = stop-Ends J _ _ _ _ l s i
    scan_read-Ends (some (some blob)) l s h i = scan_value-Ends blob _ l s (h blob refl) i

    scan_name-Ends :
        (o : Option (List Text)) (l : Lease) (s : S)
        → (o ≡ some []
            → (b : Blob) → source_read key s ≡ some (some b)
            → scanner b.body ≡ some []
            → Ends I J (next b l s))
        → I s
        → Ends I J (scan_name p env json target scanner source_read info next key n o l s)
    unfolding scan_name
    scan_name-Ends none l s h i = stop-Ends J _ _ _ _ l s i
    scan_name-Ends (some []) l s h i = scan_read-Ends _ l s (h refl) i
    scan_name-Ends (some (x ∷ labels)) l s h i = stop-Ends J _ _ _ _ l s i

    scan_beaten-Ends :
        (step : LeaseStep p env json target)
        → I step.2
        → ((b : Blob) (l : Lease) (s : S)
            → I s
            → scanner (utf8_encode key) ≡ some []
            → source_read key s ≡ some (some b)
            → scanner b.body ≡ some []
            → Ends I J (next b l s))
        → Ends I J (scan_beaten p env json target scanner source_read info next key n step)
    unfolding scan_beaten
    scan_beaten-Ends (some lost, l, s) i h = stop-Ends J _ _ _ _ l s i
    scan_beaten-Ends (none, l, s) i h = scan_name-Ends _ l s (λ c b r v. h b l s i c r v) i

  -- Where the first pass ends, the state is as good as before; and if it passes, every value of a
  -- frozen source has been read, and every key and value scanned clean.
  pub scan_keys-Ends :
      (held : Text → Option (Option Blob)) (keys : List Text) (n : ℕ) (l : Lease) (s : S)
      → ((k : Text) (t : S) → Among keys k → source_read k t ≡ held k)
      → I s
      → Ends I
          (λ blobs t. I t × Scanned scanner held keys blobs)
          (scan_keys p env json target scanner source_read info keys n l s)
  unfolding scan_keys
  scan_keys-Ends held [] n l s frozen i = (i, tt)
  scan_keys-Ends held (key ∷ keys) n l s frozen i =
      scan_beaten-Ends (λ blobs t. I t × Scanned scanner held (key ∷ keys) blobs) _ key n
        (heartbeat_if_due p env json target l s)
        (heartbeat_if_due-Ended p env json target I steady l s i)
        (λ b l' s' i' c r v.
          with_blob-Ends I (λ blobs t. I t × Scanned scanner held keys blobs) _ _
            (λ blobs t h. (
              h.0,
              (
                refl,
                record {
                  read_is = sym (frozen key s' (inl refl)) ∙ r;
                  clean_key = c;
                  clean_value = v;
                },
                h.1,
              ),
            ))
            _ (scan_keys-Ends held keys (n + 1) l' s' (λ k t m. frozen k t (inr m)) i'))
