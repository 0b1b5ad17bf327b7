-- ===== src/Migrate/Exclusive.antt =====
-- When `_acquire_migration_lease` (migrate/migrate.py) takes the lease.
use knokeep.Gate.Platform.{Platform}
use knokeep.Migrate.Lease.{Lease, control_key}
use knokeep.Migrate.Acquire.{acquire_lease, acquired, judge_prior, prior_read}
use knokeep.Migrate.LeaseDoc.{Json, JsonLib, held, is_text, parse_lease_doc, time_of}
use knokeep.Migrate.Store.{Target}
use knokeep.Prelude.{
  Bool-cases, Dict, Option, Text, arith, codes, false, inl, inr, lookup, ltb, none, refl, some, ℕ,
  ◌≡◌, ◌≤◌,
}
use knokeep.Types.{Blob, Env}

-- The control key was absent, or held a migration's document that is released or has expired by
-- this time.
pub data IsFree (json : JsonLib) (now : ℕ) (seen : Option (Option Blob)) : Type 0 where
  absent : seen ≡ some none → IsFree json now seen
  given_up :
      (blob : Blob) (doc : Dict Json) (seen_is : seen ≡ some (some blob))
      (parsed : parse_lease_doc json (some blob) ≡ some doc)
      (not_held : is_text (lookup (codes "status") doc) held ≡ false)
      → IsFree json now seen
  expired :
      (blob : Blob) (doc : Dict Json) (seen_is : seen ≡ some (some blob))
      (parsed : parse_lease_doc json (some blob) ≡ some doc)
      (over : time_of (lookup (codes "expires_at") doc) ≤ now)
      → IsFree json now seen

module _ (p : Platform) (env : Env) (json : JsonLib) {S : Type 0} (target : Target S) where
  judge_prior-acquired :
      (owner write_id : Text) (started_at : ℕ) (blob : Blob) (doc : Option (Dict Json)) (s : S)
      (l : Lease)
      → parse_lease_doc json (some blob) ≡ doc
      → (judge_prior p env json target owner write_id started_at blob doc s).0 ≡ acquired l
      → IsFree json (target.wall s).0 (some (some blob))
  unfolding judge_prior
  judge_prior-acquired owner write_id started_at blob none s l e h = cc
  judge_prior-acquired owner write_id started_at blob (some doc) s l e h =
      elim (Bool-cases (is_text (lookup (codes "status") doc) held)) [
        | inr q ↦ given_up blob doc refl e q
        | inl q ↦
            elim (Bool-cases (ltb (target.wall s).0 (time_of (lookup (codes "expires_at") doc)))) [
              | inl r ↦ (let h' = rw (q, r) at h in cc)
              | inr r ↦ expired blob doc refl e (ground arith)
            ]
      ]

  prior_read-acquired :
      (owner write_id : Text) (started_at : ℕ) (seen : Option (Option Blob)) (s : S) (l : Lease)
      → (prior_read p env json target owner write_id started_at seen s).0 ≡ acquired l
      → IsFree json (target.wall s).0 seen
  unfolding prior_read
  prior_read-acquired owner write_id started_at none s l h = cc
  prior_read-acquired owner write_id started_at (some none) s l h = absent refl
  prior_read-acquired owner write_id started_at (some (some blob)) s l h =
      judge_prior-acquired owner write_id started_at blob _ s l refl h

  -- A migration's lease is taken only if the control key was absent when it was read, or held a
  -- migration's own document that was marked as released or had expired by the clock read next: a
  -- live lease and foreign data are never taken over.
  pub acquire_lease-IsFree :
      (owner write_id : Text) (started_at : ℕ) (s : S) (l : Lease)
      → (acquire_lease p env json target owner write_id started_at s).0 ≡ acquired l
      → IsFree json (target.wall s).0 (target.read control_key s)
  unfolding acquire_lease
  acquire_lease-IsFree owner write_id started_at s l h =
      prior_read-acquired owner write_id started_at (target.read control_key s) s l h
