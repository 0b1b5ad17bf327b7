-- ===== src/Migrate/Lease.antt =====
-- The lease of a migration (migrate/migrate.py): `_MigrationLease`.
use knokeep.Prelude.{
  ℕ, zero, suc, ◌+◌, ◌-◌, Text, Bytes, codes, text_eq, Bool, false, Option, none, some,
  if◌then◌else◌, ltb,
}
use knokeep.Prelude.Int.{pos}
use knokeep.Types.{
  Env, Blob, Lock, WriteResult, ok, stale, exists, error, fence_reason, default_auth,
}
use knokeep.Fake.State.{opt_eq}
use knokeep.Gate.Platform.{Platform}
use knokeep.Gate.Objects.{
  Obj, str_obj, bytes_obj, int_obj, float_obj, lock_obj, overwrite_obj, PreconditionObj, context,
}
use knokeep.Gate.Persist.{Gated, refused, sent, persist}
use knokeep.Migrate.Store.{Target, LockAnswer, locked, lock_busy, lock_raised}
use knokeep.Migrate.LeaseDoc.{JsonLib, lease_doc_body, held, released}

abbrev pub control_key : Text
control_key = codes "knokeep-migration-control/lease"

-- seconds, in ticks of a millisecond
abbrev pub lease_ttl : ℕ
lease_ttl = 120000

abbrev pub heartbeat_interval : ℕ
heartbeat_interval = 40000

abbrev pub fence_reacquire_attempts : ℕ
fence_reacquire_attempts = 3

abbrev pub system_state : Obj
system_state = str_obj (codes "system_state")

pub record Lease : Type 0 where
  pub lock : Lock
  pub doc_hash : Text
  pub owner_id : Text
  pub write_id : Text
  pub started_at : ℕ
  pub prior_owner : Option Text
  pub took_over_from : Option Text
  pub last_heartbeat : ℕ

-- Why a lease counts as lost, by the message.
pub data LostReason : Type 0 where
  write_raised reread_raised moved reacquire_failed attempts_spent renew_raised : LostReason
  write_failed : WriteResult → LostReason

-- The result of `persist`, where `none` is an exception of the adapter.
abbrev pub outcome_of : Gated (Option WriteResult) → Option WriteResult
outcome_of (refused r) = some r
outcome_of (sent o) = o

abbrev obj_of_lock : Lock → Obj
obj_of_lock l =
    lock_obj (str_obj l.key) (str_obj l.token) (float_obj (pos l.expiry_epoch))
      (int_obj (pos l.fence))

abbrev pub overwriting : Text → Lock → PreconditionObj
overwriting hash l = overwrite_obj (str_obj hash) (obj_of_lock l)

module _ (p : Platform) (env : Env) (json : JsonLib) {S : Type 0} (target : Target S) where
  -- `gate.persist(target, key, body, ctx=..., doc_type="system_state")`
  unfoldable pub gate_persist : Text → Bytes → PreconditionObj → S → Option WriteResult × S
  gate_persist key body pre s =
      let (op, s1) = target.uuid s in
      let (nonce, s2) = target.nonce s1 in
      let (g, t) =
        persist p env target.write nonce (str_obj key) (bytes_obj body)
          (context default_auth pre op) system_state s2 in
      (outcome_of g, t)

  -- The lease, and why it is lost if it is.
  abbrev pub LeaseStep : Type 0
  LeaseStep = Option LostReason × Lease × S

  abbrev body_of : Text → Option ℕ → Lease → ℕ → Bytes
  body_of status released_at l now = lease_doc_body json (record {
    owner_id = l.owner_id;
    write_id = l.write_id;
    started_at = l.started_at;
    status = status;
    expires_at = now + lease_ttl;
    heartbeat_at = now;
    prior_owner = l.prior_owner;
    took_over_from = l.took_over_from;
    released_at = released_at;
  })

  -- The next attempt of `_write_doc`, if one is left.
  abbrev Again : Type 0
  Again = Option (Lease → S → LeaseStep)

  unfoldable pub relocked : (Lease → S → LeaseStep) → Lease → LockAnswer → S → LeaseStep
  relocked again l (locked k) s = again (record l { lock = k }) s
  relocked again l lock_busy s = (some reacquire_failed, l, s)
  relocked again l lock_raised s = (some reacquire_failed, l, s)

  unfoldable pub reacquire : Again → Lease → S → LeaseStep
  unfolding relocked
  reacquire none l s = (some attempts_spent, l, s)
  reacquire (some again) l s =
      let (answer, t) = target.lock control_key lease_ttl (target.unlock l.lock s) in
      relocked again l answer t

  -- `current is None or current.version_hash != self.doc_hash` is false.
  abbrev pub is_ours : Option Blob → Lease → Bool
  is_ours none l = false
  is_ours (some blob) l = text_eq blob.version_hash l.doc_hash

  unfoldable pub after_reread : Again → Lease → Option (Option Blob) → S → LeaseStep
  unfolding reacquire
  after_reread again l none s = (some reread_raised, l, s)
  after_reread again l (some current) s =
      if is_ours current l then reacquire again l s else (some moved, l, s)

  unfoldable pub after_write : Again → Lease → Option WriteResult → S → LeaseStep
  unfolding after_reread
  after_write again l none s = (some write_raised, l, s)
  after_write again l (some (ok h)) s = (none, record l { doc_hash = h }, s)
  after_write again l (some (stale current reason)) s =
      if opt_eq reason fence_reason
      then after_reread again l (target.read control_key s) s
      else (some moved, l, s)
  after_write again l (some (exists h)) s = (some (write_failed (exists h)), l, s)
  after_write again l (some (error kind labels)) s = (some (write_failed (error kind labels)), l, s)

  -- One attempt of `_write_doc`.
  unfoldable pub attempt_doc : Again → Text → Option ℕ → Lease → S → LeaseStep
  unfolding after_write gate_persist
  attempt_doc again status released_at l s =
      let (now, s1) = target.wall s in
      let (result, t) =
        gate_persist control_key (body_of status released_at l now) (overwriting l.doc_hash l.lock)
          s1 in
      after_write again l result t

  -- `_write_doc`, by the attempts that are left after this one.
  unfoldable pub write_doc : ℕ → Text → Option ℕ → Lease → S → LeaseStep
  unfolding attempt_doc
  write_doc zero status released_at l s = attempt_doc none status released_at l s
  write_doc (suc left) status released_at l s =
      attempt_doc (some (λ l' s'. write_doc left status released_at l' s')) status released_at l s

  unfoldable pub verify_ownership : Lease → S → Option LostReason
  verify_ownership l s = elim (target.read control_key s) [
    | none ↦ some reread_raised
    | some current ↦ if is_ours current l then none else some moved
  ]

  unfoldable pub beaten : LeaseStep → LeaseStep
  beaten (some lost, l, s) = (some lost, l, s)
  beaten (none, l, s) =
      let (t, s1) = target.monotonic s in (none, record l { last_heartbeat = t }, s1)

  unfoldable pub renewed : Lease → Option Bool → S → LeaseStep
  unfolding beaten write_doc
  renewed l none s = (some renew_raised, l, s)
  renewed l (some renewed_it) s = beaten (write_doc fence_reacquire_attempts held none l s)

  unfoldable pub heartbeat_if_due : Lease → S → LeaseStep
  unfolding renewed
  heartbeat_if_due l s =
      let (t, s1) = target.monotonic s in
      let (answer, s2) = target.renew l.lock lease_ttl s1 in
      if ltb (t - l.last_heartbeat) heartbeat_interval then (none, l, s1) else renewed l answer s2

  unfoldable pub release : Lease → S → S
  unfolding write_doc
  release l s =
      let (now, s1) = target.wall s in
      let (lost, l', t) = write_doc fence_reacquire_attempts released (some now) l s1 in
      target.unlock l'.lock t
