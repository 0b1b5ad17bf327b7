-- ===== src/Migrate/Acquiring.antt =====
-- What taking a migration's lease keeps (migrate/migrate.py): each predicate on the state that the
-- calls on the lease keep.
use knokeep.Gate.Platform.{Platform}
use knokeep.Migrate.Acquire.{
  Prior, acquire_lease, confirm, confirmed, judge_prior, lock_taken, no_prior, prior_of, prior_read,
  recorded, take_lock,
}
use knokeep.Migrate.Keeping.{Steady, release-keeps, write_doc-Ended}
use knokeep.Migrate.Lease.{Lease, LeaseStep, fence_reacquire_attempts}
use knokeep.Migrate.LeaseDoc.{Json, JsonLib, held, is_text, text_of, time_of}
use knokeep.Migrate.Store.{LockAnswer, Target, lock_busy, lock_raised, locked}
use knokeep.Prelude.{
  Bool-cases, Dict, Option, Text, codes, inl, inr, lookup, ltb, none, not, some, ℕ,
}
use knokeep.Types.{Blob, Env, Lock, WriteResult, error, exists, ok, stale}

module _ (p : Platform) (env : Env) (json : JsonLib) {S : Type 0} (target : Target S)
    (I : S → Type 0) (steady : Steady p env json target I) where
  confirmed-keeps :
      (step : LeaseStep p env json target) → I step.2 → I (confirmed p env json target step).1
  unfolding confirmed
  confirmed-keeps (none, l, s) i = i
  confirmed-keeps (some lost, l, s) i = release-keeps p env json target I steady l s i

  confirm-keeps :
      (hash : Option Text) (l : Lease) (s : S) → I s → I (confirm p env json target hash l s).1
  unfolding confirm
  confirm-keeps (some hash) l s i = i
  confirm-keeps none l s i =
      confirmed-keeps _
        (write_doc-Ended p env json target I steady fence_reacquire_attempts held none l s i)

  recorded-keeps :
      (owner write_id : Text) (started_at : ℕ) (prior : Prior) (l : Lock)
      (result : Option WriteResult) (s : S)
      → I s
      → I (recorded p env json target owner write_id started_at prior l result s).1
  unfolding recorded
  recorded-keeps owner write_id started_at prior l (some (ok h)) s i =
      confirm-keeps prior.hash _ _ (steady.monotonics s i)
  recorded-keeps owner write_id started_at prior l none s i = steady.unlocks l s i
  recorded-keeps owner write_id started_at prior l (some (exists h)) s i = steady.unlocks l s i
  recorded-keeps owner write_id started_at prior l (some (stale current reason)) s i =
      steady.unlocks l s i
  recorded-keeps owner write_id started_at prior l (some (error kind labels)) s i =
      steady.unlocks l s i

  lock_taken-keeps :
      (owner write_id : Text) (started_at : ℕ) (prior : Prior) (answer : LockAnswer) (s : S)
      → I s
      → I (lock_taken p env json target owner write_id started_at prior answer s).1
  unfolding lock_taken
  lock_taken-keeps owner write_id started_at prior lock_busy s i = i
  lock_taken-keeps owner write_id started_at prior lock_raised s i = i
  lock_taken-keeps owner write_id started_at prior (locked l) s i =
      recorded-keeps owner write_id started_at prior l _ _
        (steady.controls _ _ _ (steady.walls s i))

  take_lock-keeps :
      (owner write_id : Text) (started_at : ℕ) (prior : Prior) (s : S)
      → I s
      → I (take_lock p env json target owner write_id started_at prior s).1
  unfolding take_lock
  take_lock-keeps owner write_id started_at prior s i =
      lock_taken-keeps owner write_id started_at prior _ _ (steady.locks _ _ s i)

  judge_prior-keeps :
      (owner write_id : Text) (started_at : ℕ) (blob : Blob) (doc : Option (Dict Json)) (s : S)
      → I s
      → I (judge_prior p env json target owner write_id started_at blob doc s).1
  unfolding judge_prior
  judge_prior-keeps owner write_id started_at blob none s i = i
  judge_prior-keeps owner write_id started_at blob (some doc) s i =
      let before = text_of (lookup (codes "owner_id") doc) in
      elim (Bool-cases (not (is_text (lookup (codes "status") doc) held))) [
        | inl e ↦ rw e (take_lock-keeps owner write_id started_at (prior_of blob before none) s i)
        | inr e ↦
            elim (Bool-cases (ltb (target.wall s).0 (time_of (lookup (codes "expires_at") doc)))) [
              | inl h ↦ rw (e, h) (steady.walls _ (steady.walls s i))
              | inr h ↦
                  rw (e, h)
                    (take_lock-keeps owner write_id started_at (prior_of blob before before) _
                      (steady.walls s i))
            ]
      ]

  prior_read-keeps :
      (owner write_id : Text) (started_at : ℕ) (o : Option (Option Blob)) (s : S)
      → I s
      → I (prior_read p env json target owner write_id started_at o s).1
  unfolding prior_read
  prior_read-keeps owner write_id started_at none s i = i
  prior_read-keeps owner write_id started_at (some none) s i =
      take_lock-keeps owner write_id started_at no_prior s i
  prior_read-keeps owner write_id started_at (some (some blob)) s i =
      judge_prior-keeps owner write_id started_at blob _ s i

  pub acquire_lease-keeps :
      (owner write_id : Text) (started_at : ℕ) (s : S)
      → I s
      → I (acquire_lease p env json target owner write_id started_at s).1
  unfolding acquire_lease
  acquire_lease-keeps owner write_id started_at s i =
      prior_read-keeps owner write_id started_at _ s i
