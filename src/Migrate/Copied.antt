-- ===== src/Migrate/Copied.antt =====
-- Pass 2 of `_migrate_body` (migrate/migrate.py): what is known of the target where it is stopped and
-- where it has passed.
use knokeep.Migrate.Report.{timed_out, write_raised, Counts, Info, Part, Reason, stop}
use knokeep.Types.{timeout_after_commit, Blob, Env, WriteResult, error, exists, ok, stale}
use knokeep.Gate.Resolution.{reconcile-unchanged}
use knokeep.Migrate.Passes.{
  copy_beaten, counted, written, copied, copy_ends, read_back, resolve, resolved,
}
use knokeep.Gate.Objects.{create_only_obj}
use knokeep.Gate.Platform.{Platform}
use knokeep.Migrate.Keeping.{Steady, heartbeat_if_due-Ended}
use knokeep.Migrate.Lease.{Lease, LeaseStep, gate_persist}
use knokeep.Migrate.LeaseDoc.{JsonLib}
use knokeep.Migrate.Scanned.{Ends}
use knokeep.Migrate.Store.{Target}
use knokeep.Prelude.{
  Bool, Bool-cases, Bytes, List, Option, Text, arith, elem, false, inl, inr, none, refl, some,
  text_eq, text_eq_iff, true, ◌+◌, ◌≡◌,
}

-- One key was counted once, as copied or as already present, and once as verified.
pub record Advanced (c c' : Counts) : Type 0 where
  pub scanned_same : c'.scanned ≡ c.scanned
  pub verified_next : c'.verified ≡ c.verified + 1
  pub found_next : c'.copied + c'.already_present ≡ c.copied + c.already_present + 1

counted-Advanced :
    (present : Bool) (c : Counts)
    → Advanced c (record (counted present c) { verified = (counted present c).verified + 1 })
counted-Advanced true c = record {
  scanned_same = refl;
  verified_next = refl;
  found_next = omega arith;
}
counted-Advanced false c = record {
  scanned_same = refl;
  verified_next = refl;
  found_next = omega arith;
}

module _ (p : Platform) (env : Env) (json : JsonLib) {S : Type 0} (target : Target S)
    (scanner : Bytes → Option (List Text)) (source_read : Text → S → Option (Option Blob))
    (info : Info) where
  -- One key of the pass: `I` holds up to its read-back, `I'` from there on, `K` where the run stops,
  -- and `J` where the pass ends.
  module _ (I I' K : S → Type 0) (J : Counts → S → Type 0) (steady : Steady p env json target I)
      (steady' : Steady p env json target I') (stops : (s : S) → I s → K s)
      (stops' : (s : S) → I' s → K s) (key : Text) (blob : Blob)
      (creates : (s : S)
        → I s
        → I (gate_persist p env json target key blob.body create_only_obj s).1)
      (found : (s : S) (b : Blob)
        → I s
        → target.read key s ≡ some (some b)
        → b.version_hash ≡ blob.version_hash
        → I' s)
      (before : List Text) (c : Counts) (next : Counts → Lease → S → Part S Counts)
      (goes : (c' : Counts) (l : Lease) (s : S)
        → Advanced c c'
        → I' s
        → Ends K J (next c' l s)) where
    stop-I :
        (n : Counts) (reason : Reason) (k : Option Text) (labels : List Text) (l : Lease) (s : S)
        → I s
        → Ends K J (stop target {B = Counts} info n reason k labels l s)
    unfolding stop
    stop-I n reason k labels l s i = (refl, stops _ (steady.walls s i))

    copy_ends-Ends :
        (c' : Counts)
        → Advanced c c'
        → (step : LeaseStep p env json target) → I' step.2
        → Ends K J (copy_ends p env json target scanner source_read info next key c' step)
    unfolding copy_ends stop
    copy_ends-Ends c' a (some lost, l, s) i = (refl, stops' _ (steady'.walls s i))
    copy_ends-Ends c' a (none, l, s) i = goes c' l s a i

    read_back-Ends :
        (present : Bool) (o : Option (Option Blob)) (l : Lease) (s : S)
        → target.read key s ≡ o
        → I s
        → Ends K J (
            read_back p env json target scanner source_read info next key blob
              (counted present c)
              o
              l
              s)
    unfolding read_back
    read_back-Ends present none l s e i = stop-I _ _ _ _ l s i
    read_back-Ends present (some none) l s e i = stop-I _ _ _ _ l s i
    read_back-Ends present (some (some b)) l s e i =
        elim (Bool-cases (text_eq b.version_hash blob.version_hash)) [
          | inl h ↦ rw h (
              copy_ends-Ends _ (counted-Advanced present c) _ (
                heartbeat_if_due-Ended p env json target I' steady' l s
                  (found s b i e ((text_eq_iff _ _).0 h))))
          | inr h ↦ rw h (stop-I _ _ _ _ l s i)
        ]

    copied-Ends :
        (result : WriteResult) (l : Lease) (s : S)
        → I s
        → Ends K J
            (copied p env json target scanner source_read info next before key blob c result l s)
    unfolding copied
    copied-Ends (ok h) l s i = read_back-Ends (elem key before) _ l s refl i
    copied-Ends (exists h) l s i = stop-I _ _ _ _ l s i
    copied-Ends (stale current reason) l s i = stop-I _ _ _ _ l s i
    copied-Ends (error kind labels) l s i = stop-I _ _ _ _ l s i

    resolved-Ends :
        (reason : WriteResult → Reason) (result : WriteResult) (l : Lease) (s : S)
        → I s
        → Ends K J (
            resolved p env json target scanner source_read info next before key blob c reason result
              l s)
    unfolding resolved
    resolved-Ends reason (ok h) l s i = copied-Ends (ok h) l s i
    resolved-Ends reason (exists h) l s i = stop-I _ _ _ _ l s i
    resolved-Ends reason (stale current why) l s i = stop-I _ _ _ _ l s i
    resolved-Ends reason (error kind labels) l s i = stop-I _ _ _ _ l s i

    resolve-keeps :
        (s : S) → I s → I (resolve p env json target scanner source_read info key blob s).1
    unfolding resolve
    resolve-keeps s i = rw (reconcile-unchanged (target.read key)) i

    written-Ends :
        (result : Option WriteResult) (l : Lease) (s : S)
        → I s
        → Ends K J
            (written p env json target scanner source_read info next before key blob c result l s)
    unfolding written
    written-Ends none l s i = resolved-Ends (λ r. write_raised key r) _ l _ (resolve-keeps s i)
    written-Ends (some (error timeout_after_commit labels)) l s i =
        resolved-Ends (λ r. timed_out key r) _ l _ (resolve-keeps s i)
    written-Ends (some result) l s i = copied-Ends result l s i

    pub copy_beaten-Ends :
        (step : LeaseStep p env json target)
        → I step.2
        → Ends K J
            (copy_beaten p env json target scanner source_read info next before key blob c step)
    unfolding copy_beaten
    copy_beaten-Ends (some lost, l, s) i = stop-I _ _ _ _ l s i
    copy_beaten-Ends (none, l, s) i = written-Ends _ l _ (creates s i)
