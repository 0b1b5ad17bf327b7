-- ===== src/Migrate/Report.antt =====
-- `MigrationReport` of migrate/migrate.py, and how a run is stopped.
use knokeep.Prelude.{ℕ, Text, Bool, false, Option, some, List, codes, ◌++◌, take, utf8_encode}
use knokeep.Types.{Env, WriteResult}
use knokeep.Migrate.Store.{Target}
use knokeep.Migrate.Lease.{Lease, LostReason}
use knokeep.Migrate.Acquire.{LeaseError}

-- The report's reason, by the message and what is put into it.
pub data Reason : Type 0 where
  same_object target_list_failed looks_same control_unreadable aliases source_list_failed : Reason
  lease_unavailable : LeaseError → Reason
  source_control_unreadable source_control_collides : Reason
  lost_in_scan lost_in_copy lost_before_cutover : LostReason → Reason
  lost_during_key : Text → LostReason → Reason
  key_scan_raised key_scan_hit : (ref : Text) → Reason
  read_failed vanished scan_raised scan_hit : (key : Text) → Reason
  write_raised timed_out : (key : Text) (resolved : WriteResult) → Reason
  diverges : (key target_hash source_hash : Text) → Reason
  unexpected_stale write_failed : (key : Text) → WriteResult → Reason
  read_back_raised : (key : Text) → Reason
  read_back_mismatch : (key expected : Text) (found : Option Text) → Reason

pub data Status : Type 0 where
  success aborted : Status

-- `_ROLLBACK_NOTE_SUCCESS` or `_ROLLBACK_NOTE_ABORTED`
pub data Note : Type 0 where
  note_success note_aborted : Note

pub record Counts : Type 0 where
  pub scanned : ℕ
  pub copied : ℕ
  pub already_present : ℕ
  pub verified : ℕ

abbrev pub no_counts : Counts
no_counts = record { scanned = 0; copied = 0; already_present = 0; verified = 0 }

-- What is the same in all reports of a run from some point on.
pub record Info : Type 0 where
  pub source_key_count : ℕ
  pub unexpected_target_keys : List Text
  pub started_at : ℕ

pub record Report : Type 0 where
  pub status : Status
  pub reason : Option Reason
  pub info : Info
  pub counts : Counts
  pub aborted_key : Option Text
  pub secret_scan_labels : List Text
  pub cutover_signaled : Bool
  pub rollback_note : Note
  pub finished_at : ℕ

-- `_key_ref`
unfoldable pub key_ref : Env → Text → Text
key_ref env key = codes "sha256:" ++ take 16 (env.sha256_hexdigest (utf8_encode key))

-- How a part of the run ends: stopped with a report, or passed with its result. The lease and the
-- state go on in both.
pub data Part (S B : Type 0) : Type 0 where
  stopped : Report → Lease → S → Part S B
  passed : B → Lease → S → Part S B

module _ {S : Type 0} (target : Target S) where
  -- `_abort`
  unfoldable pub abort : Info → Counts → Reason → Option Text → List Text → S → Report × S
  abort info counts reason key labels s =
      let (now, t) = target.wall s in
      (
        record {
          status = aborted;
          reason = some reason;
          info = info;
          counts = counts;
          aborted_key = key;
          secret_scan_labels = labels;
          cutover_signaled = false;
          rollback_note = note_aborted;
          finished_at = now;
        },
        t,
      )

  unfoldable pub stop :
      {B : Type 0} → Info → Counts → Reason → Option Text → List Text → Lease → S → Part S B
  unfolding abort
  stop info counts reason key labels l s =
      let (report, t) = abort info counts reason key labels s in stopped report l t
