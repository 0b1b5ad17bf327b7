-- ===== src/Migrate/Run.antt =====
-- `_migrate_body` and `migrate` (migrate/migrate.py).
use knokeep.Prelude.{
  ℕ, Text, Bytes, text_eq, Bool, true, false, not, ◌&&◌, Option, none, some, List, [],
  if◌then◌else◌, Dict, lookup, length, elem, sorted, same_set, difference, without, codes,
}
use knokeep.Types.{Env, Blob}
use knokeep.Gate.Platform.{Platform}
use knokeep.Gate.Regex.{is_empty}
use knokeep.Fake.State.{opt_eq}
use knokeep.Migrate.Store.{Target}
use knokeep.Migrate.LeaseDoc.{JsonLib, Json, parse_lease_doc, text_of}
use knokeep.Migrate.Lease.{Lease, LostReason, control_key, verify_ownership, release}
use knokeep.Migrate.Acquire.{Acquired, acquired, unavailable, acquire_lease}
use knokeep.Migrate.Report.{
  Info, Counts, no_counts, Report, Reason, same_object, target_list_failed, looks_same,
  control_unreadable, aliases, source_list_failed, lease_unavailable, source_control_unreadable,
  source_control_collides, lost_before_cutover, success, note_success, Part, stopped, passed, abort,
}
use knokeep.Migrate.Passes.{Blobs, scan_keys, copy_keys}

-- `BackendHealth`
pub record Health : Type 0 where
  pub healthy : Bool
  pub detail : Text

-- The source, which is only read: `none` is an exception. What it shows may depend on the state of
-- the target, since the two may be one store.
pub record Source (S : Type 0) : Type 0 where
  pub list : S → Option (List Text)
  pub read : Text → S → Option (Option Blob)

-- What two backend objects say of who they are: `source is target`, `type(source) is type(target)`,
-- and `health()` of both.
pub record Identity : Type 0 where
  pub same_object_is : Bool
  pub same_type : Bool
  pub source_health : Option Health
  pub target_health : Option Health

abbrev agree : Health → Health → Bool
agree a b = a.healthy && (b.healthy && (not (is_empty a.detail) && text_eq a.detail b.detail))

abbrev same_keys : Option (List Text) → List Text → Bool
same_keys none ys = false
same_keys (some xs) ys = same_set xs ys

abbrev same_health : Option Health → Option Health → Bool
same_health (some a) (some b) = agree a b
same_health _ _ = false

-- `_looks_like_same_store`
unfoldable pub looks_like_same_store : Identity → Option (List Text) → List Text → Bool
looks_like_same_store who source_keys target_keys =
    who.same_type
    && (same_health who.source_health who.target_health && same_keys source_keys target_keys)

-- The keys to be migrated, of all that are listed.
unfoldable pub data_keys : List Text → List Text
data_keys listed = without control_key (sorted listed)

-- `doc.get("owner_id")`
abbrev pub owner_of : Option (Dict Json) → Option Text
owner_of none = none
owner_of (some doc) = text_of (lookup (codes "owner_id") doc)

abbrev pub is_some_doc : Option (Dict Json) → Bool
is_some_doc none = false
is_some_doc (some doc) = true

abbrev pub full_info : List Text → ℕ → List Text → Info
full_info before started_at keys = record {
  source_key_count = length keys;
  unexpected_target_keys = sorted (without control_key (difference before keys));
  started_at = started_at;
}

module _ (p : Platform) (env : Env) (json : JsonLib) {S : Type 0} (target : Target S)
    (scanner : Bytes → Option (List Text)) (source : Source S) where
  -- The cutover signal.
  unfoldable pub succeed : Info → Counts → Lease → S → Report × Lease × S
  succeed info counts l s =
      let (now, t) = target.wall s in
      (
        record {
          status = success;
          reason = none;
          info = info;
          counts = counts;
          aborted_key = none;
          secret_scan_labels = [];
          cutover_signaled = true;
          rollback_note = note_success;
          finished_at = now;
        },
        l,
        t,
      )

  abbrev aborting : Info → Counts → Reason → Option Text → Lease → S → Report × Lease × S
  aborting info counts reason key l s =
      let (report, t) = abort target info counts reason key [] s in (report, l, t)

  unfoldable pub finish : Info → Counts → Lease → Option LostReason → S → Report × Lease × S
  unfolding succeed abort
  finish info c l none s = succeed info c l s
  finish info c l (some lost) s = aborting info c (lost_before_cutover lost) none l s

  unfoldable pub after_copy : Info → Part S Counts → Report × Lease × S
  unfolding finish verify_ownership
  after_copy info (stopped report l s) = (report, l, s)
  after_copy info (passed c l s) = finish info c l (verify_ownership p env json target l s) s

  unfoldable pub after_scan : Info → List Text → Part S Blobs → Report × Lease × S
  unfolding after_copy copy_keys
  after_scan info before (stopped report l s) = (report, l, s)
  after_scan info before (passed blobs l s) = after_copy info (
      copy_keys p env json target scanner source.read info before blobs
        (record { scanned = length blobs; copied = 0; already_present = 0; verified = 0 }) l s)

  -- Both passes over the data keys.
  unfoldable pub run_passes : List Text → ℕ → List Text → Lease → S → Report × Lease × S
  unfolding after_scan scan_keys
  run_passes before started_at keys l s =
      let info = full_info before started_at keys in
      after_scan info before (scan_keys p env json target scanner source.read info keys 0 l s)

  abbrev pub early_info : ℕ → ℕ → Info
  early_info n started_at = record {
    source_key_count = n;
    unexpected_target_keys = [];
    started_at = started_at;
  }

  -- A control document on the source is left out; other data under its key stops the run.
  unfoldable pub check_control :
      List Text → ℕ → List Text → Option (Option Blob) → Lease → S → Report × Lease × S
  unfolding run_passes abort
  check_control before started_at keys none l s =
      aborting (early_info (length keys) started_at) no_counts source_control_unreadable
        (some control_key) l s
  check_control before started_at keys (some none) l s = run_passes before started_at keys l s
  check_control before started_at keys (some (some blob)) l s =
      if is_some_doc (parse_lease_doc json (some blob))
      then run_passes before started_at keys l s
      else aborting (early_info (length keys) started_at) no_counts source_control_collides
          (some control_key) l s

  -- `_migrate_body`
  unfoldable pub migrate_body : List Text → ℕ → Option (List Text) → Lease → S → Report × Lease × S
  unfolding check_control
  migrate_body before started_at none l s =
      aborting (early_info 0 started_at) no_counts source_list_failed none l s
  migrate_body before started_at (some listed) l s =
      if elem control_key listed
      then check_control before started_at (data_keys listed) (source.read control_key s) l s
      else run_passes before started_at (data_keys listed) l s

  unfoldable pub control_read :
      (owner : Text) → List Text → ℕ → Option (Option Blob) → Lease → S → Report × Lease × S
  unfolding migrate_body abort
  control_read owner before started_at none l s =
      aborting (early_info 0 started_at) no_counts control_unreadable none l s
  control_read owner before started_at (some blob) l s =
      if opt_eq (owner_of (parse_lease_doc json blob)) (some owner)
      then aborting (early_info 0 started_at) no_counts aliases none l s
      else migrate_body before started_at (source.list s) l s

  -- The `try` of `migrate`, with its `finally`.
  unfoldable pub with_lease : (owner : Text) → List Text → ℕ → Acquired → S → Report × S
  unfolding control_read release abort
  with_lease owner before started_at (unavailable e) s =
      abort target (early_info 0 started_at) no_counts (lease_unavailable e) none [] s
  with_lease owner before started_at (acquired l) s =
      let (report, l', t) = control_read owner before started_at (source.read control_key s) l s in
      (report, release p env json target l' t)

  unfoldable pub listed_target :
      Identity → (owner write_id : Text) → ℕ → Option (List Text) → S → Report × S
  unfolding with_lease acquire_lease looks_like_same_store abort
  listed_target who owner write_id started_at none s =
      abort target (early_info 0 started_at) no_counts target_list_failed none [] s
  listed_target who owner write_id started_at (some before) s =
      if looks_like_same_store who (source.list s) before
      then abort target (early_info 0 started_at) no_counts looks_same none [] s
      else (let (got, t) = acquire_lease p env json target owner write_id started_at s in
          with_lease owner before started_at got t)

  unfoldable pub migrate : Identity → S → Report × S
  unfolding listed_target abort
  migrate who s =
      let (started_at, s1) = target.wall s in
      let (owner, s2) = target.uuid s1 in
      let (write_id, s3) = target.uuid s2 in
      if who.same_object_is
      then abort target (early_info 0 started_at) no_counts same_object none [] s3
      else listed_target who owner write_id started_at (target.list s3) s3
