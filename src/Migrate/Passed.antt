-- ===== src/Migrate/Passed.antt =====
-- Pass 2 of `_migrate_body` (migrate/migrate.py) as a whole: what it keeps, what it counts and what the
-- target shows at its end.
use knokeep.Migrate.Scanned.{Ends-mono, Ends}
use knokeep.Prelude.{
  inr, Bytes, List, Option, Text, [], arith, inl, length, refl, suc, ℕ, ◌+◌, ◌∙◌, ◌∷◌, ◌≡◌, ◌⊎◌,
}
use knokeep.Gate.Objects.{create_only_obj}
use knokeep.Gate.Platform.{Platform}
use knokeep.Migrate.Copied.{Advanced, copy_beaten-Ends}
use knokeep.Migrate.Keeping.{Steady, heartbeat_if_due-Ended}
use knokeep.Migrate.Lease.{Lease, gate_persist, heartbeat_if_due}
use knokeep.Migrate.LeaseDoc.{JsonLib}
use knokeep.Migrate.Passes.{Blobs, copy_keys}
use knokeep.Migrate.Report.{Counts, Info}
use knokeep.Migrate.Store.{Target}
use knokeep.Types.{Blob, Env}

-- The pair is in the list.
abbrev pub Listed : Blobs → Text → Blob → Type 0
Listed [] key blob = ⊥
Listed ((k, b) ∷ bs) key blob = ((k ≡ key) × (b ≡ blob)) ⊎ Listed bs key blob

-- Each of `n` keys was counted once as copied or as already present, and once as verified.
pub record CountedAll (n : ℕ) (c c' : Counts) : Type 0 where
  pub scanned_same : c'.scanned ≡ c.scanned
  pub verified_all : c'.verified ≡ c.verified + n
  pub found_all : c'.copied + c'.already_present ≡ c.copied + c.already_present + n

CountedAll-suc :
    (n : ℕ) (c c' c'' : Counts) → Advanced c c' → CountedAll n c' c'' → CountedAll (suc n) c c''
CountedAll-suc n c c' c'' a h = record {
  scanned_same = h.scanned_same ∙ a.scanned_same;
  verified_all = (let e = a.verified_next in let e' = h.verified_all in omega arith);
  found_all = (let e = a.found_next in let e' = h.found_all in omega arith);
}

module _ (p : Platform) (env : Env) (json : JsonLib) {S : Type 0} (target : Target S)
    (scanner : Bytes → Option (List Text)) (source_read : Text → S → Option (Option Blob))
    (info : Info) (I : S → Type 0) (steady : Steady p env json target I) where
  -- No create of one of these blobs breaks the predicate.
  abbrev pub Creatable : Blobs → Type 0
  Creatable blobs =
      (key : Text) (blob : Blob) (s : S)
      → Listed blobs key blob
      → I s
      → I (gate_persist p env json target key blob.body create_only_obj s).1

  -- Wherever the second pass ends, a predicate that the lease and the creates keep still holds; and
  -- if it passes, every key is counted.
  pub copy_keys-Ends :
      (before : List Text) (blobs : Blobs) (c : Counts) (l : Lease) (s : S)
      → Creatable blobs
      → I s
      → Ends I
          (λ c' t. I t × CountedAll (length blobs) c c')
          (copy_keys p env json target scanner source_read info before blobs c l s)
  unfolding copy_keys
  copy_keys-Ends before [] c l s creates i =
      (i, record { scanned_same = refl; verified_all = omega arith; found_all = omega arith })
  copy_keys-Ends before ((key, blob) ∷ blobs) c l s creates i =
      copy_beaten-Ends p env json target scanner source_read info I I I
        (λ c' t. I t × CountedAll (suc (length blobs)) c c') steady steady (λ t h. h) (λ t h. h) key
        blob (λ t. creates key blob t (inl (refl, refl))) (λ t b h e e'. h) before c
        (λ c' l' s'. copy_keys p env json target scanner source_read info before blobs c' l' s')
        (λ c' l' t a h.
          Ends-mono I I (λ c'' u. I u × CountedAll (length blobs) c' c'')
            (λ c'' u. I u × CountedAll (suc (length blobs)) c c'') (λ u k. k)
            (λ c'' u k. (k.0, CountedAll-suc (length blobs) c c' c'' a k.1)) _
            (copy_keys-Ends before blobs c' l' t (λ k b u m. creates k b u (inr m)) h))
        (heartbeat_if_due p env json target l s)
        (heartbeat_if_due-Ended p env json target I steady l s i)
