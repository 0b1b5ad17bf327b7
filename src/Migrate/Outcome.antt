-- ===== src/Migrate/Outcome.antt =====
-- What a whole run of `migrate` (migrate/migrate.py) ends with, whichever way it ends.
use knokeep.Prelude.{
  arith, ℕ, none, refl, sorted-Among, without-Among, Among, Bytes, List, Option, Text, inl, inr,
  length, some, sorted, without-other, ◌+◌, ◌∙◌, ◌≡◌, ◌⊎◌,
}
use knokeep.Migrate.Delivered.{Scanned-Among, Scanned-Listed, Scanned-length, copy_keys-Found}
use knokeep.Migrate.Passed.{copy_keys-Ends, CountedAll, Listed}
use knokeep.Migrate.Report.{
  passed, stopped, Counts, Info, Part, Reason, abort, Report, aborted, success,
}
use knokeep.Migrate.Run.{
  after_scan, full_info, run_passes, after_copy, finish, succeed, Source, data_keys,
}
use knokeep.Migrate.Scanned.{scan_keys-Ends, Ends, Scanned, IsScanned}
use knokeep.Migrate.Views.{Kept-create, Kept-Steady, Found, Kept, Unmoved, data-Steady}
use knokeep.Migrate.Lease.{Lease, LostReason, control_key}
use knokeep.Migrate.Passes.{Blobs}
use knokeep.Gate.Platform.{Platform}
use knokeep.Migrate.Keeping.{Steady}
use knokeep.Migrate.LeaseDoc.{JsonLib}
use knokeep.Migrate.Store.{IsTarget, Target, View}
use knokeep.Types.{Blob, Env}

-- The source is frozen: its listing and its data are the same throughout the run.
pub record Frozen {S : Type 0} (source : Source S) (listing : Option (List Text))
    (held : Text → Option (Option Blob)) : Type 0 where
  pub lists : (t : S) → source.list t ≡ listing
  pub reads : (k : Text) (t : S) → (k ≡ control_key → ⊥) → source.read k t ≡ held k

pub data_keys-other : (keys : List Text) (k : Text) → Among (data_keys keys) k → k ≡ control_key → ⊥
unfolding data_keys
data_keys-other keys k = without-other control_key k (sorted keys)

pub data_keys-Among :
    (keys : List Text) (k : Text) → (k ≡ control_key → ⊥) → Among keys k → Among (data_keys keys) k
unfolding data_keys
data_keys-Among keys k n m = without-Among control_key k (sorted keys) n (sorted-Among keys k m)

module _ (p : Platform) (env : Env) (json : JsonLib) {S : Type 0} (target : Target S)
    (view : View S) (laws : IsTarget env target view) (scanner : Bytes → Option (List Text))
    (source : Source S) (listing : Option (List Text)) (held : Text → Option (Option Blob))
    (frozen : Frozen source listing held) (start : S) where
  -- Every data key was read, and it and its value were scanned clean.
  abbrev pub AllClean : Type 0
  AllClean =
      (keys : List Text)
      → listing ≡ some keys
      → (k : Text) → Among (data_keys keys) k
      → (b : Blob) × IsScanned scanner held k b

  -- The target holds every data key of the source, by its hash, and the report counts them all.
  pub record Complete (keys : List Text) (report : Report) (t : S) : Type 0 where
    pub all_found :
        (k : Text)
        → Among keys k
        → (b : Blob) × IsScanned scanner held k b × Found p env json target view laws k b t
    pub all_counted : report.info.source_key_count ≡ length keys
    pub all_scanned : report.counts.scanned ≡ length keys
    pub all_verified : report.counts.verified ≡ length keys
    pub all_copied : report.counts.copied + report.counts.already_present ≡ length keys

  -- The data is kept; nothing is written unless all is clean; and a success is complete.
  pub record Good (report : Report) (t : S) : Type 0 where
    pub kept : Kept p env json target view laws held start t
    pub guarded : Unmoved p env json target view laws start t ⊎ AllClean
    pub complete :
        report.status ≡ success
        → (keys : List Text) → listing ≡ some keys
        → Complete (data_keys keys) report t

  abbrev pub Same : S → Type 0
  Same t = Unmoved p env json target view laws start t

  pub Same-Steady : Steady p env json target Same
  Same-Steady = data-Steady p env json target view laws Same (λ s t same u j n. same j n ∙ u j n)

  pub Good-Steady : (report : Report) → Steady p env json target (Good report)
  Good-Steady report = data-Steady p env json target view laws (Good report) (λ s t same g. record {
    kept = (λ j n. elim (g.kept j n) [
      | inl e ↦ inl (same j n ∙ e)
      | inr (absent, b, e, now) ↦ inr (absent, b, e, same j n ∙ now)
    ]);
    guarded = elim g.guarded [ inl u ↦ inl (λ j n. same j n ∙ u j n) | inr c ↦ inr c ];
    complete = (λ e keys q.
        let c = g.complete e keys q in
        record {
          all_found = (λ k m.
              let (b, i, f) = c.all_found k m in
              (b, i, (f.0, same k (data_keys-other keys k m) ∙ f.1, f.2)));
          all_counted = c.all_counted;
          all_scanned = c.all_scanned;
          all_verified = c.all_verified;
          all_copied = c.all_copied;
        });
  })

  untouched-Good : (report : Report) (t : S) → report.status ≡ aborted → Same t → Good report t
  untouched-Good report t e u = record {
    kept = (λ j n. inl (u j n));
    guarded = inl u;
    complete = (λ e'. cc);
  }

  stopped-Good :
      (report : Report) (t : S)
      → report.status ≡ aborted
      → Kept p env json target view laws held start t
      → AllClean
      → Good report t
  stopped-Good report t e k c = record { kept = k; guarded = inr c; complete = (λ e'. cc) }

  pub aborting-Good :
      (info : Info) (c : Counts) (reason : Reason) (key : Option Text) (labels : List Text) (s : S)
      → Same s
      → Good (abort target info c reason key labels s).0 (abort target info c reason key labels s).1
  unfolding abort
  aborting-Good info c reason key labels s u = untouched-Good _ _ refl (Same-Steady.walls s u)

  finish-Good :
      (info : Info) (c : Counts) (l : Lease) (lost : Option LostReason) (s : S)
      → Kept p env json target view laws held start s
      → AllClean
      → ((keys : List Text)
          → listing ≡ some keys
          → (report : Report) → report.info ≡ info
          → report.counts ≡ c
          → Complete (data_keys keys) report s)
      → Good
          (finish p env json target scanner source info c l lost s).0
          (finish p env json target scanner source info c l lost s).2
  unfolding finish abort succeed
  finish-Good info c l (some lost) s k clean done =
      stopped-Good _ _ refl ((Kept-Steady p env json target view laws held start).walls s k) clean
  finish-Good info c l none s k clean done =
      (Good-Steady _).walls s
        (record { kept = k; guarded = inr clean; complete = (λ e keys q. done keys q _ refl refl) })

  scanned-AllClean :
      (keys : List Text) (blobs : Blobs)
      → listing ≡ some keys
      → Scanned scanner held (data_keys keys) blobs
      → AllClean
  scanned-AllClean keys blobs q sc keys' q' k m =
      let same : keys' ≡ keys = cc in
      let r = Scanned-Among scanner held (data_keys keys) blobs k sc (rw same at m) in (r.0, r.2)

  -- What the second pass starts to count from.
  abbrev counted_from : Blobs → Counts
  counted_from blobs = record {
    scanned = length blobs;
    copied = 0;
    already_present = 0;
    verified = 0;
  }

  abbrev Copies : Blobs → Counts → S → Type 0
  Copies blobs c t =
      Kept p env json target view laws held start t
      × CountedAll (length blobs) (counted_from blobs) c

  after_copy-Good :
      (info : Info) (keys : List Text) (blobs : Blobs) (part : Part S Counts)
      → listing ≡ some keys
      → info.source_key_count ≡ length (data_keys keys)
      → Scanned scanner held (data_keys keys) blobs
      → Ends (Kept p env json target view laws held start) (Copies blobs) part
      → ((key : Text) (blob : Blob)
          → (key ≡ control_key → ⊥)
          → Listed blobs key blob
          → Ends (λ t. Unit) (λ c t. Found p env json target view laws key blob t) part)
      → Good
          (after_copy p env json target scanner source info part).0
          (after_copy p env json target scanner source info part).2
  unfolding after_copy
  after_copy-Good info keys blobs (stopped report l s) q n sc ends found =
      stopped-Good report s ends.0 ends.1 (scanned-AllClean keys blobs q sc)
  after_copy-Good info keys blobs (passed c l s) q n sc (kept, tally) found =
      finish-Good info c l _ s kept (scanned-AllClean keys blobs q sc) (λ keys' q' report ei ec.
        let same : keys' ≡ keys = cc in
        let len = Scanned-length scanner held (data_keys keys) blobs sc in
        let a = tally.verified_all in
        let b = tally.found_all in
        rw same (record {
          all_found = (λ k m.
              let (blob, listed, i) = Scanned-Among scanner held (data_keys keys) blobs k sc m in
              (blob, i, found k blob (data_keys-other keys k m) listed));
          all_counted = rw ei n;
          all_scanned = rw ec (tally.scanned_same ∙ len);
          all_verified = rw (ec, ← len) (omega arith);
          all_copied = rw (ec, ← len) (omega arith);
        }))

  after_scan-Good :
      (info : Info) (before keys : List Text) (part : Part S Blobs)
      → listing ≡ some keys
      → info.source_key_count ≡ length (data_keys keys)
      → Ends Same (λ blobs t. Same t × Scanned scanner held (data_keys keys) blobs) part
      → Good
          (after_scan p env json target scanner source info before part).0
          (after_scan p env json target scanner source info before part).2
  unfolding after_scan
  after_scan-Good info before keys (stopped report l s) q n ends =
      untouched-Good report s ends.0 ends.1
  after_scan-Good info before keys (passed blobs l s) q n (same, sc) =
      after_copy-Good info keys blobs _ q n sc
        (copy_keys-Ends p env json target scanner source.read info
          (Kept p env json target view laws held start)
          (Kept-Steady p env json target view laws held start) before blobs (counted_from blobs) l s
          (λ k b t m.
            Kept-create p env json target view laws held start t k b
              (Scanned-Listed scanner held (data_keys keys) blobs k b sc m).1.read_is)
          (λ j m. inl (same j m)))
        (λ k b m listed.
          copy_keys-Found p env json target view laws scanner source.read info before blobs
            (counted_from blobs) l s k b m listed)

  pub run_passes-Good :
      (before : List Text) (started_at : ℕ) (keys : List Text) (l : Lease) (s : S)
      → listing ≡ some keys
      → Same s
      → Good
          (run_passes p env json target scanner source before started_at (data_keys keys) l s).0
          (run_passes p env json target scanner source before started_at (data_keys keys) l s).2
  unfolding run_passes
  run_passes-Good before started_at keys l s q same =
      let info = full_info before started_at (data_keys keys) in
      after_scan-Good info before keys _ q refl (
        scan_keys-Ends p env json target scanner source.read info Same Same-Steady held
          (data_keys keys) 0 l s (λ k t m. frozen.reads k t (data_keys-other keys k m)) same)
