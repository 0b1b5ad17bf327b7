-- ===== src/Migrate/Acquire.antt =====
-- How a migration takes its lease (migrate/migrate.py): `_acquire_migration_lease`.
use knokeep.Gate.Objects.{PreconditionObj, create_only_obj}
use knokeep.Gate.Platform.{Platform}
use knokeep.Migrate.Lease.{
  Lease, LeaseStep, LostReason, control_key, fence_reacquire_attempts, gate_persist, lease_ttl,
  overwriting, release, write_doc,
}
use knokeep.Migrate.LeaseDoc.{
  Json, JsonLib, held, is_text, lease_doc_body, parse_lease_doc, text_of, time_of,
}
use knokeep.Migrate.Store.{LockAnswer, Target, lock_busy, lock_raised, locked}
use knokeep.Prelude.{Dict, Option, Text, codes, if◌then◌else◌, lookup, ltb, none, not, some, ℕ, ◌+◌}
use knokeep.Types.{Blob, Env, Lock, WriteResult, error, exists, ok, stale}

-- Why no lease was taken.
pub data LeaseError : Type 0 where
  unreadable real_data lock_is_busy lock_failed taken_first record_raised : LeaseError
  live : (owner : Option Text) → LeaseError
  record_failed : WriteResult → LeaseError
  unconfirmed : LostReason → LeaseError

-- `prior_doc`, once it is known to be a control document that is not a live lease.
pub record Prior : Type 0 where
  pub hash : Option Text
  pub owner : Option Text
  pub took_over_from : Option Text

abbrev pub prior_of : Blob → (owner took : Option Text) → Prior
prior_of blob owner took = record {
  hash = some blob.version_hash;
  owner = owner;
  took_over_from = took;
}

abbrev pub no_prior : Prior
no_prior = record { hash = none; owner = none; took_over_from = none }

-- What `_acquire_migration_lease` gives.
pub data Acquired : Type 0 where
  acquired : Lease → Acquired
  unavailable : LeaseError → Acquired

module _ (p : Platform) (env : Env) (json : JsonLib) {S : Type 0} (target : Target S) where
  unfoldable pub confirmed : LeaseStep p env json target → Acquired × S
  unfolding release
  confirmed (none, l, s) = (acquired l, s)
  confirmed (some lost, l, s) = (unavailable (unconfirmed lost), release p env json target l s)

  -- A create is confirmed by a fenced write at once.
  unfoldable pub confirm : Option Text → Lease → S → Acquired × S
  unfolding confirmed write_doc
  confirm (some hash) l s = (acquired l, s)
  confirm none l s = confirmed (write_doc p env json target fence_reacquire_attempts held none l s)

  unfoldable pub recorded :
      (owner write_id : Text) (started_at : ℕ) (prior : Prior) (l : Lock)
      → Option WriteResult
      → S
      → Acquired × S
  unfolding confirm
  recorded owner write_id started_at prior l (some (ok h)) s =
      let (t, s1) = target.monotonic s in
      confirm prior.hash
        (record {
          lock = l;
          doc_hash = h;
          owner_id = owner;
          write_id = write_id;
          started_at = started_at;
          prior_owner = prior.owner;
          took_over_from = prior.took_over_from;
          last_heartbeat = t;
        })
        s1
  recorded owner write_id started_at prior l none s = (unavailable record_raised, target.unlock l s)
  recorded owner write_id started_at prior l (some (exists h)) s =
      (unavailable taken_first, target.unlock l s)
  recorded owner write_id started_at prior l (some (stale current reason)) s =
      (unavailable taken_first, target.unlock l s)
  recorded owner write_id started_at prior l (some (error kind labels)) s =
      (unavailable (record_failed (error kind labels)), target.unlock l s)

  abbrev taking : Option Text → Lock → PreconditionObj
  taking none l = create_only_obj
  taking (some hash) l = overwriting hash l

  unfoldable pub lock_taken :
      (owner write_id : Text) (started_at : ℕ) → Prior → LockAnswer → S → Acquired × S
  unfolding recorded gate_persist
  lock_taken owner write_id started_at prior lock_busy s = (unavailable lock_is_busy, s)
  lock_taken owner write_id started_at prior lock_raised s = (unavailable lock_failed, s)
  lock_taken owner write_id started_at prior (locked l) s =
      let (now, s1) = target.wall s in
      let body = lease_doc_body json (record {
        owner_id = owner;
        write_id = write_id;
        started_at = started_at;
        status = held;
        expires_at = now + lease_ttl;
        heartbeat_at = now;
        prior_owner = prior.owner;
        took_over_from = prior.took_over_from;
        released_at = none;
      }) in
      let (result, t) = gate_persist p env json target control_key body (taking prior.hash l) s1 in
      recorded owner write_id started_at prior l result t

  unfoldable pub take_lock : (owner write_id : Text) (started_at : ℕ) → Prior → S → Acquired × S
  unfolding lock_taken
  take_lock owner write_id started_at prior s =
      let (answer, t) = target.lock control_key lease_ttl s in
      lock_taken owner write_id started_at prior answer t

  -- A held document is refused while it is live, and taken over once it has expired.
  unfoldable pub judge_prior :
      (owner write_id : Text) (started_at : ℕ) → Blob → Option (Dict Json) → S → Acquired × S
  unfolding take_lock
  judge_prior owner write_id started_at blob none s = (unavailable real_data, s)
  judge_prior owner write_id started_at blob (some doc) s =
      let prior_owner = text_of (lookup (codes "owner_id") doc) in
      let (now, s1) = target.wall s in
      if not (is_text (lookup (codes "status") doc) held)
      then take_lock owner write_id started_at (prior_of blob prior_owner none) s
      else if ltb now (time_of (lookup (codes "expires_at") doc))
      then (unavailable (live prior_owner), (target.wall s1).1)
      else take_lock owner write_id started_at (prior_of blob prior_owner prior_owner) s1

  unfoldable pub prior_read :
      (owner write_id : Text) (started_at : ℕ) → Option (Option Blob) → S → Acquired × S
  unfolding judge_prior
  prior_read owner write_id started_at none s = (unavailable unreadable, s)
  prior_read owner write_id started_at (some none) s =
      take_lock owner write_id started_at no_prior s
  prior_read owner write_id started_at (some (some blob)) s =
      judge_prior owner write_id started_at blob (parse_lease_doc json (some blob)) s

  -- `_acquire_migration_lease`
  unfoldable pub acquire_lease : (owner write_id : Text) (started_at : ℕ) → S → Acquired × S
  unfolding prior_read
  acquire_lease owner write_id started_at s =
      prior_read owner write_id started_at (target.read control_key s) s
