-- ===== src/Migrate/Safety.antt =====
-- What `migrate` (migrate/migrate.py) promises of the target's data, of the scan before the copy, and of
-- a success.
use knokeep.Prelude.{
  length, Among, Bytes, List, Option, Text, elem, if_both, inl, inr, none, refl, some, sym, ℕ, ◌+◌,
  ◌≡◌, ◌⊎◌,
}
use knokeep.Fake.State.{opt_eq}
use knokeep.Gate.Platform.{Platform}
use knokeep.Migrate.Keeping.{Steady, release-keeps}
use knokeep.Migrate.Acquiring.{acquire_lease-keeps}
use knokeep.Migrate.Lease.{Lease, control_key}
use knokeep.Migrate.Acquire.{Acquired, acquired, unavailable}
use knokeep.Migrate.LeaseDoc.{JsonLib, parse_lease_doc}
use knokeep.Migrate.Outcome.{
  Frozen, Good, Good-Steady, Same-Steady, aborting-Good, data_keys-Among, run_passes-Good,
}
use knokeep.Migrate.Report.{Counts, Info, Reason, Report, abort, success}
use knokeep.Migrate.Run.{
  Identity, Source, check_control, control_read, data_keys, is_some_doc, listed_target,
  looks_like_same_store, migrate, migrate_body, owner_of, run_passes, with_lease,
}
use knokeep.Migrate.Scanned.{IsScanned}
use knokeep.Migrate.Store.{IsTarget, Target, View}
use knokeep.Migrate.Views.{Unmoved}
use knokeep.Types.{Blob, Env, sha256_hex}

module _ (p : Platform) (env : Env) (json : JsonLib) {S : Type 0} (target : Target S)
    (view : View S) (laws : IsTarget env target view) (scanner : Bytes → Option (List Text))
    (source : Source S) (listing : Option (List Text)) (held : Text → Option (Option Blob))
    (frozen : Frozen source listing held) (start : S) where
  abbrev Best : Report × S → Type 0
  Best r = Good p env json target view laws scanner source listing held frozen start r.0 r.1

  abbrev Fine : Report × Lease × S → Type 0
  Fine r = Good p env json target view laws scanner source listing held frozen start r.0 r.2

  abbrev Same : S → Type 0
  Same t = Unmoved p env json target view laws start t

  steady : Steady p env json target Same
  steady = Same-Steady p env json target view laws scanner source listing held frozen start

  aborted-Fine :
      (info : Info) (c : Counts) (reason : Reason) (key : Option Text) (labels : List Text) (s : S)
      → Same s
      → Best (abort target info c reason key labels s)
  aborted-Fine info c reason key labels s u =
      aborting-Good p env json target view laws scanner source listing held frozen start info c
        reason key labels s u

  passes-Fine :
      (before : List Text) (started_at : ℕ) (keys : List Text) (l : Lease) (s : S)
      → listing ≡ some keys
      → Same s
      → Fine (run_passes p env json target scanner source before started_at (data_keys keys) l s)
  passes-Fine = run_passes-Good p env json target view laws scanner source listing held frozen start

  check_control-Fine :
      (before : List Text) (started_at : ℕ) (keys : List Text) (o : Option (Option Blob))
      (l : Lease) (s : S)
      → listing ≡ some keys
      → Same s
      → Fine
          (check_control p env json target scanner source before started_at (data_keys keys) o l s)
  unfolding check_control
  check_control-Fine before started_at keys none l s q u = aborted-Fine _ _ _ _ _ s u
  check_control-Fine before started_at keys (some none) l s q u =
      passes-Fine before started_at keys l s q u
  check_control-Fine before started_at keys (some (some blob)) l s q u =
      if_both Fine (is_some_doc (parse_lease_doc json (some blob)))
        (passes-Fine before started_at keys l s q u) (aborted-Fine _ _ _ _ _ s u)

  migrate_body-Fine :
      (before : List Text) (started_at : ℕ) (o : Option (List Text)) (l : Lease) (s : S)
      → listing ≡ o
      → Same s
      → Fine (migrate_body p env json target scanner source before started_at o l s)
  unfolding migrate_body
  migrate_body-Fine before started_at none l s q u = aborted-Fine _ _ _ _ _ s u
  migrate_body-Fine before started_at (some listed) l s q u =
      if_both Fine (elem control_key listed) (check_control-Fine before started_at listed _ l s q u)
        (passes-Fine before started_at listed l s q u)

  control_read-Fine :
      (owner : Text) (before : List Text) (started_at : ℕ) (o : Option (Option Blob)) (l : Lease)
      (s : S)
      → Same s
      → Fine (control_read p env json target scanner source owner before started_at o l s)
  unfolding control_read
  control_read-Fine owner before started_at none l s u = aborted-Fine _ _ _ _ _ s u
  control_read-Fine owner before started_at (some blob) l s u =
      if_both Fine (opt_eq (owner_of (parse_lease_doc json blob)) (some owner))
        (aborted-Fine _ _ _ _ _ s u)
        (migrate_body-Fine before started_at _ l s (sym (frozen.lists s)) u)

  with_lease-Best :
      (owner : Text) (before : List Text) (started_at : ℕ) (got : Acquired) (s : S)
      → Same s
      → Best (with_lease p env json target scanner source owner before started_at got s)
  unfolding with_lease
  with_lease-Best owner before started_at (unavailable e) s u = aborted-Fine _ _ _ _ _ s u
  with_lease-Best owner before started_at (acquired l) s u =
      release-keeps p env json target _
        (Good-Steady p env json target view laws scanner source listing held frozen start _) _ _
        (control_read-Fine owner before started_at _ l s u)

  listed_target-Best :
      (who : Identity) (owner write_id : Text) (started_at : ℕ) (o : Option (List Text)) (s : S)
      → Same s
      → Best (listed_target p env json target scanner source who owner write_id started_at o s)
  unfolding listed_target
  listed_target-Best who owner write_id started_at none s u = aborted-Fine _ _ _ _ _ s u
  listed_target-Best who owner write_id started_at (some before) s u =
      if_both Best (looks_like_same_store who (source.list s) before) (aborted-Fine _ _ _ _ _ s u) (
        with_lease-Best owner before started_at _ _
          (acquire_lease-keeps p env json target Same steady owner write_id started_at s u))

  migrate-Best : (who : Identity) → Best (migrate p env json target scanner source who start)
  unfolding migrate
  migrate-Best who =
      let u = steady.uuids _ (steady.uuids _ (steady.walls start (λ j n. refl))) in
      if_both Best who.same_object_is (aborted-Fine _ _ _ _ _ _ u)
        (listed_target-Best who _ _ _ _ _ u)

  -- However a migration from a frozen source ends, each key of the target but the control key holds
  -- what it held before, or was absent before and now holds exactly the body that the source has
  -- under it: nothing is overwritten, and nothing is deleted.
  pub migrate-Kept :
      (who : Identity) (j : Text)
      → (j ≡ control_key → ⊥)
      → (view j (migrate p env json target scanner source who start).1 ≡ view j start)
        ⊎ ((view j start ≡ none)
            × (b : Blob) × (held j ≡ some (some b))
            × (view j (migrate p env json target scanner source who start).1
                ≡ some (record { body = b.body; version_hash = sha256_hex env b.body })))
  migrate-Kept who j n = (migrate-Best who).kept j n

  -- A migration from a frozen source changes the target's data only if every key that the source
  -- lists, the control key aside, can be read, and neither its name nor its value is a hit for the
  -- scanner.
  pub migrate-IsScanned :
      (who : Identity) (keys : List Text) (j k : Text)
      → (j ≡ control_key → ⊥)
      → (view j (migrate p env json target scanner source who start).1 ≡ view j start → ⊥)
      → listing ≡ some keys
      → (k ≡ control_key → ⊥)
      → Among keys k
      → (b : Blob) × IsScanned scanner held k b
  migrate-IsScanned who keys j k n changed q m a = elim ((migrate-Best who).guarded) [
    | inl same ↦ absurd (changed (same j n))
    | inr clean ↦ clean keys q k (data_keys-Among keys k m a)
  ]

  -- A migration from a frozen source that reports success has read and scanned every key that the
  -- source lists, the control key aside, and when it returns the target holds under this key a value
  -- with the hash of the source's.
  pub migrate-success :
      (who : Identity) (keys : List Text) (k : Text)
      → listing ≡ some keys
      → (migrate p env json target scanner source who start).0.status ≡ success
      → (k ≡ control_key → ⊥)
      → Among keys k
      → (b : Blob) × IsScanned scanner held k b
        × ((t : Blob) × (view k (migrate p env json target scanner source who start).1 ≡ some t)
            × (t.version_hash ≡ b.version_hash))
  migrate-success who keys k q e n a =
      ((migrate-Best who).complete e keys q).all_found k (data_keys-Among keys k n a)

  -- In a report of success, the numbers of keys scanned, of keys verified, and of keys copied or
  -- already present are all the number of the source's keys, the control key aside.
  pub migrate-counts :
      (who : Identity) (keys : List Text)
      → listing ≡ some keys
      → (migrate p env json target scanner source who start).0.status ≡ success
      → ((migrate p env json target scanner source who start).0.counts.scanned
          ≡ length (data_keys keys))
        × ((migrate p env json target scanner source who start).0.counts.verified
            ≡ length (data_keys keys))
        × ((migrate p env json target scanner source who start).0.counts.copied
              + (migrate p env json target scanner source who start).0.counts.already_present
            ≡ length (data_keys keys))
        × ((migrate p env json target scanner source who start).0.info.source_key_count
            ≡ length (data_keys keys))
  migrate-counts who keys q e =
      let c = (migrate-Best who).complete e keys q in
      (c.all_scanned, c.all_verified, c.all_copied, c.all_counted)
