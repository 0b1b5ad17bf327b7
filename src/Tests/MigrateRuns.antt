-- ===== src/Tests/MigrateRuns.antt =====
-- A migration (migrate/migrate.py) of one key to a `FakeBackend`, and its theorems there.
use knokeep.Fake.Lease.{extend_owner, lock, owns, renew, unlock, held as held_lock}
use knokeep.Fake.State.{consume_fault, fence_at, init, read}
use knokeep.Migrate.Lease.{
  renewed, control_key, Lease, after_reread, after_write, attempt_doc, beaten, gate_persist,
  heartbeat_if_due, reacquire, release, relocked, verify_ownership, write_doc,
}
use knokeep.Migrate.Report.{stop, Report, abort, success}
use knokeep.Migrate.Run.{
  finish, Identity, Source, after_copy, after_scan, check_control, control_read, data_keys,
  listed_target, looks_like_same_store, migrate, migrate_body, run_passes, succeed, with_lease,
}
use knokeep.Migrate.Safety.{migrate-Kept, migrate-IsScanned, migrate-success, migrate-counts}
use knokeep.Migrate.OnFake.{fake_view, fake_target-IsTarget, World, fake_target}
use knokeep.Gate.Persist.{
  is_valid_hash_text, fence_of, hash_of_obj, lock_of, persist_overwrite, submit, well_formed_lease,
  validate_doc_type, validate_body, persist, validate_write, validate_key, validate_content,
  state_doc_types, is_acceptable_text,
}
use knokeep.Migrate.Scanned.{IsScanned}
use knokeep.Prelude.{
  inl, ◌≡◌, ◌⊎◌, ◌+◌, length, refl, none, List, Bytes, [], difference, elem, erase, insert, lookup,
  place, sorted, utf8_encode, without, Option, Text, codes, false, if◌then◌else◌, some, text_eq,
  ◌∷◌,
}
use knokeep.Migrate.Acquire.{
  Acquired, acquired, unavailable, acquire_lease, confirm, confirmed, judge_prior, lock_taken,
  prior_read, recorded, take_lock,
}
use knokeep.Migrate.Exclusive.{IsFree, acquire_lease-IsFree}
use knokeep.Tests.Scans.{scan}
use knokeep.Tests.Samples.{env, platform, key, old_body, hash_of_length}
use knokeep.Types.{Blob, sha256_hex}
use knokeep.Fake.Write.{
  after_section, apply_injected_fault, attempt, create_section, fence_ok, update_section,
  write_scanned, write_section, finish as finish_section,
}
use knokeep.Migrate.LeaseDoc.{JsonLib, lease_doc_body, parse_lease_doc}
use knokeep.Migrate.Outcome.{Frozen}
use knokeep.Migrate.Passes.{
  copied, copy_beaten, copy_ends, copy_keys, read_back, resolve, resolved, scan_beaten, scan_keys,
  scan_name, scan_read, scan_value, written,
}
use knokeep.Gate.Marker.{make_scanned_key, make_scanned_body, verify, compute_marker}
use knokeep.Gate.Keys.{valid_key_shape}
use knokeep.Gate.Scan.{secret_scan}
use knokeep.Gate.Generation.{extract_generation}

-- A document is written as one word, and no text is read back as a document.
abbrev json : JsonLib
json = record { loads = (λ t. none); dumps = (λ d. codes "doc") }

abbrev blob : Blob
blob = record { body = old_body; version_hash = hash_of_length 2 }

abbrev held : Text → Option (Option Blob)
held k = if text_eq k key then some (some blob) else some none

abbrev source : Source World
source = record { list = (λ w. some (key ∷ [])); read = (λ k w. held k) }

frozen : Frozen source (some (key ∷ [])) held
frozen = record { lists = (λ t. refl); reads = (λ k t n. refl) }

abbrev who : Identity
who = record {
  same_object_is = false;
  same_type = false;
  source_health = none;
  target_health = none;
}

abbrev start : World
start = record { fake = init; now = 100; drawn = 0 }

-- One name for all that a run of the migration goes through.
run_migrate : World → Report × World
unfolding is_valid_hash_text migrate listed_target looks_like_same_store with_lease control_read
    migrate_body data_keys check_control run_passes after_scan after_copy finish succeed
    acquire_lease prior_read judge_prior take_lock lock_taken recorded confirm confirmed release
    heartbeat_if_due renewed beaten verify_ownership write_doc attempt_doc after_write after_reread
    reacquire relocked gate_persist lease_doc_body parse_lease_doc copy_keys copy_beaten written
    resolved resolve copied read_back copy_ends scan_keys scan_beaten scan_name scan_read scan_value
    stop abort fake_target sorted place without difference elem text_eq utf8_encode lookup insert
    erase lock held_lock unlock owns renew extend_owner read fence_at write_scanned attempt
    write_section create_section update_section finish_section apply_injected_fault consume_fault
    after_section fence_ok scan persist persist_overwrite submit validate_write validate_doc_type
    validate_key validate_body validate_content hash_of_obj fence_of well_formed_lease lock_of
    is_acceptable_text state_doc_types valid_key_shape make_scanned_key make_scanned_body verify
    compute_marker sha256_hex extract_generation
run_migrate w = migrate platform env json (fake_target env) (secret_scan platform) source who w

success_run : (run_migrate start).0.status ≡ success
unfolding run_migrate
success_run = refl

present : fake_view key (run_migrate start).1 ≡ some blob
unfolding run_migrate fake_view
present = refl

key_is_data : key ≡ control_key → ⊥
key_is_data e = cc

scanner : Bytes → Option (List Text)
unfolding run_migrate
scanner = secret_scan platform

migrate-Kept_example :
    (fake_view key (migrate platform env json (fake_target env) scanner source who start).1
      ≡ fake_view key start)
    ⊎ ((fake_view key start ≡ none)
        × (b : Blob) × (held key ≡ some (some b))
        × (fake_view key (migrate platform env json (fake_target env) scanner source who start).1
            ≡ some (record { body = b.body; version_hash = sha256_hex env b.body })))
migrate-Kept_example =
    migrate-Kept platform env json (fake_target env) fake_view (fake_target-IsTarget env) scanner
      source (some (key ∷ [])) held frozen start who key key_is_data

changed :
    fake_view key (migrate platform env json (fake_target env) scanner source who start).1
      ≡ fake_view key start
    → ⊥
unfolding run_migrate scanner fake_view
changed e = (let p = present in cc)

migrate-IsScanned_example : (b : Blob) × IsScanned scanner held key b
migrate-IsScanned_example =
    migrate-IsScanned platform env json (fake_target env) fake_view (fake_target-IsTarget env)
      scanner source (some (key ∷ [])) held frozen start who (key ∷ []) key key key_is_data changed
      refl key_is_data (inl refl)

succeeded :
    (migrate platform env json (fake_target env) scanner source who start).0.status ≡ success
unfolding run_migrate scanner
succeeded = success_run

migrate-success_example :
    (b : Blob) × IsScanned scanner held key b
    × ((t : Blob) × (fake_view key
            (migrate platform env json (fake_target env) scanner source who start).1
          ≡ some t)
        × (t.version_hash ≡ b.version_hash))
migrate-success_example =
    migrate-success platform env json (fake_target env) fake_view (fake_target-IsTarget env) scanner
      source (some (key ∷ [])) held frozen start who (key ∷ []) key refl succeeded key_is_data
      (inl refl)

migrate-counts_example :
    ((migrate platform env json (fake_target env) scanner source who start).0.counts.scanned
      ≡ length (data_keys (key ∷ [])))
    × ((migrate platform env json (fake_target env) scanner source who start).0.counts.verified
        ≡ length (data_keys (key ∷ [])))
    × ((migrate platform env json (fake_target env) scanner source who start).0.counts.copied
          + (migrate platform env json
              (fake_target env)
              scanner
              source
              who
              start).0.counts.already_present
        ≡ length (data_keys (key ∷ [])))
    × ((migrate platform env json
          (fake_target env)
          scanner
          source
          who
          start).0.info.source_key_count
        ≡ length (data_keys (key ∷ [])))
migrate-counts_example =
    migrate-counts platform env json (fake_target env) fake_view (fake_target-IsTarget env) scanner
      source (some (key ∷ [])) held frozen start who (key ∷ []) refl succeeded

no_lease : Lease
no_lease = record {
  lock = record { key = []; token = []; expiry_epoch = 0; fence = 0 };
  doc_hash = [];
  owner_id = [];
  write_id = [];
  started_at = 0;
  prior_owner = none;
  took_over_from = none;
  last_heartbeat = 0;
}

-- The lease that a run takes, if it does.
lease_in : Acquired → Lease
lease_in (acquired l) = l
lease_in (unavailable e) = no_lease

run_acquire : World → Acquired × World
unfolding run_migrate
run_acquire w = acquire_lease platform env json (fake_target env) (codes "o") (codes "w") 100 w

took :
    (acquire_lease platform env json (fake_target env) (codes "o") (codes "w") 100 start).0
    ≡ acquired (lease_in (run_acquire start).0)
unfolding run_acquire lease_in
took = refl

acquire_lease-IsFree_example :
    IsFree json ((fake_target env).wall start).0 ((fake_target env).read control_key start)
acquire_lease-IsFree_example =
    acquire_lease-IsFree platform env json (fake_target env) (codes "o") (codes "w") 100 start
      (lease_in (run_acquire start).0) took
