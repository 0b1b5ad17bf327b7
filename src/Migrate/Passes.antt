-- ===== src/Migrate/Passes.antt =====
-- The two passes of `_migrate_body` (migrate/migrate.py): scan every key and value of the source,
-- and then copy each, create-only, and read it back.
use knokeep.Prelude.{
  ℕ, ◌+◌, Text, Bytes, text_eq, Bool, Option, none, some, List, [], ◌∷◌, if◌then◌else◌, utf8_encode,
  elem,
}
use knokeep.Types.{Env, Blob, WriteResult, ok, stale, exists, error, timeout_after_commit}
use knokeep.Gate.Platform.{Platform}
use knokeep.Gate.Objects.{str_obj, none_obj, create_only_obj}
use knokeep.Gate.Reconcile.{reconcile}
use knokeep.Migrate.Store.{Target}
use knokeep.Migrate.LeaseDoc.{JsonLib}
use knokeep.Migrate.Lease.{Lease, LeaseStep, gate_persist, heartbeat_if_due}
use knokeep.Migrate.Report.{
  Info, Counts, Reason, lost_in_scan, lost_in_copy, lost_during_key, key_scan_raised, key_scan_hit,
  read_failed, vanished, scan_raised, scan_hit, write_raised, timed_out, diverges, unexpected_stale,
  write_failed, read_back_raised, read_back_mismatch, key_ref, Part, stopped, passed, stop,
}

abbrev scanned_counts : ℕ → Counts
scanned_counts n = record { scanned = n; copied = 0; already_present = 0; verified = 0 }

-- A source key with the blob that was read for it, in the order of the keys.
abbrev pub Blobs : Type 0
Blobs = List (Text × Blob)

abbrev pub with_blob : {S B : Type 0} → (B → B) → Part S B → Part S B
with_blob f (stopped report l s) = stopped report l s
with_blob f (passed b l s) = passed (f b) l s

abbrev pub counted : Bool → Counts → Counts
counted present c =
    if present
    then record c { already_present = c.already_present + 1 }
    else record c { copied = c.copied + 1 }

module _ (p : Platform) (env : Env) (json : JsonLib) {S : Type 0} (target : Target S)
    (scanner : Bytes → Option (List Text)) (source_read : Text → S → Option (Option Blob))
    (info : Info) where
  -- What a round of the first pass goes on with.
  abbrev Scanning : Type 0
  Scanning = Blob → Lease → S → Part S Blobs

  unfoldable pub scan_value :
      Scanning → Text → ℕ → Blob → Option (List Text) → Lease → S → Part S Blobs
  scan_value next key n blob none l s =
      stop target info (scanned_counts n) (scan_raised key) (some key) [] l s
  scan_value next key n blob (some []) l s = next blob l s
  scan_value next key n blob (some (x ∷ labels)) l s =
      stop target info (scanned_counts n) (scan_hit key) (some key) (x ∷ labels) l s

  unfoldable pub scan_read : Scanning → Text → ℕ → Option (Option Blob) → Lease → S → Part S Blobs
  unfolding scan_value
  scan_read next key n none l s =
      stop target info (scanned_counts n) (read_failed key) (some key) [] l s
  scan_read next key n (some none) l s =
      stop target info (scanned_counts n) (vanished key) (some key) [] l s
  scan_read next key n (some (some blob)) l s = scan_value next key n blob (scanner blob.body) l s

  -- A hit on the name itself is reported without the name.
  unfoldable pub scan_name : Scanning → Text → ℕ → Option (List Text) → Lease → S → Part S Blobs
  unfolding scan_read key_ref
  scan_name next key n none l s =
      stop target info (scanned_counts n) (key_scan_raised (key_ref env key))
        (some (key_ref env key)) [] l s
  scan_name next key n (some []) l s = scan_read next key n (source_read key s) l s
  scan_name next key n (some (x ∷ labels)) l s =
      stop target info (scanned_counts n) (key_scan_hit (key_ref env key)) (some (key_ref env key))
        (x ∷ labels) l s

  unfoldable pub scan_beaten : Scanning → Text → ℕ → LeaseStep p env json target → Part S Blobs
  unfolding scan_name
  scan_beaten next key n (some lost, l, s) =
      stop target info (scanned_counts n) (lost_in_scan lost) (some key) [] l s
  scan_beaten next key n (none, l, s) = scan_name next key n (scanner (utf8_encode key)) l s

  -- Pass 1, from the `n`th key.
  unfoldable pub scan_keys : List Text → ℕ → Lease → S → Part S Blobs
  unfolding scan_beaten heartbeat_if_due
  scan_keys [] n l s = passed [] l s
  scan_keys (key ∷ keys) n l s =
      scan_beaten
        (λ blob l' s'. with_blob (λ blobs. (key, blob) ∷ blobs) (scan_keys keys (n + 1) l' s')) key
        n (heartbeat_if_due p env json target l s)

  -- What a round of the second pass goes on with.
  abbrev Copying : Type 0
  Copying = Counts → Lease → S → Part S Counts

  unfoldable pub copy_ends : Copying → Text → Counts → LeaseStep p env json target → Part S Counts
  copy_ends next key c (some lost, l, s) =
      stop target info c (lost_during_key key lost) (some key) [] l s
  copy_ends next key c (none, l, s) = next c l s

  unfoldable pub read_back :
      Copying → Text → Blob → Counts → Option (Option Blob) → Lease → S → Part S Counts
  unfolding copy_ends heartbeat_if_due
  read_back next key blob c none l s = stop target info c (read_back_raised key) (some key) [] l s
  read_back next key blob c (some none) l s =
      stop target info c (read_back_mismatch key blob.version_hash none) (some key) [] l s
  read_back next key blob c (some (some found)) l s =
      if text_eq found.version_hash blob.version_hash
      then copy_ends next key (record c { verified = c.verified + 1 })
          (heartbeat_if_due p env json target l s)
      else stop target info c (read_back_mismatch key blob.version_hash (some found.version_hash))
          (some key) [] l s

  -- The branches on the result, with the set of keys that the target had before.
  unfoldable pub copied :
      Copying → List Text → Text → Blob → Counts → WriteResult → Lease → S → Part S Counts
  unfolding read_back
  copied next before key blob c (ok h) l s =
      read_back next key blob (counted (elem key before) c) (target.read key s) l s
  copied next before key blob c (exists h) l s =
      stop target info c (diverges key h blob.version_hash) (some key) [] l s
  copied next before key blob c (stale current reason) l s =
      stop target info c (unexpected_stale key (stale current reason)) (some key) [] l s
  copied next before key blob c (error kind labels) l s =
      stop target info c (write_failed key (error kind labels)) (some key) [] l s

  -- `gate.reconcile(target, key, intended_new_hash=blob.version_hash, expected_hash=None)`
  unfoldable pub resolve : Text → Blob → S → WriteResult × S
  unfolding reconcile
  resolve key blob s = reconcile (target.read key) none (str_obj blob.version_hash) none_obj s

  unfoldable pub resolved :
      Copying
      → List Text
      → Text
      → Blob
      → Counts
      → (WriteResult → Reason)
      → WriteResult
      → Lease
      → S
      → Part S Counts
  unfolding copied
  resolved next before key blob c reason (ok h) l s = copied next before key blob c (ok h) l s
  resolved next before key blob c reason result l s =
      stop target info c (reason result) (some key) [] l s

  unfoldable pub written :
      Copying → List Text → Text → Blob → Counts → Option WriteResult → Lease → S → Part S Counts
  unfolding resolve resolved
  written next before key blob c none l s =
      let (result, t) = resolve key blob s in
      resolved next before key blob c (write_raised key) result l t
  written next before key blob c (some (error timeout_after_commit labels)) l s =
      let (result, t) = resolve key blob s in
      resolved next before key blob c (timed_out key) result l t
  written next before key blob c (some result) l s = copied next before key blob c result l s

  unfoldable pub copy_beaten :
      Copying → List Text → Text → Blob → Counts → LeaseStep p env json target → Part S Counts
  unfolding written gate_persist
  copy_beaten next before key blob c (some lost, l, s) =
      stop target info c (lost_in_copy lost) (some key) [] l s
  copy_beaten next before key blob c (none, l, s) =
      let (result, t) = gate_persist p env json target key blob.body create_only_obj s in
      written next before key blob c result l t

  -- Pass 2.
  unfoldable pub copy_keys : List Text → Blobs → Counts → Lease → S → Part S Counts
  unfolding copy_beaten heartbeat_if_due
  copy_keys before [] c l s = passed c l s
  copy_keys before ((key, blob) ∷ blobs) c l s =
      copy_beaten (λ c' l' s'. copy_keys before blobs c' l' s') before key blob c
        (heartbeat_if_due p env json target l s)
