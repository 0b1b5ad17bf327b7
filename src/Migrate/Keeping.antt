-- ===== src/Migrate/Keeping.antt =====
-- What the operations of a migration's lease keep (migrate/migrate.py): each predicate on the
-- state that the calls on the lease keep.
use knokeep.Prelude.{ℕ, zero, suc, Text, Bytes, Option, none, some, ltb, if_both, Bool, ◌-◌}
use knokeep.Fake.State.{opt_eq}
use knokeep.Types.{Env, Blob, Lock, WriteResult, ok, stale, exists, error, fence_reason}
use knokeep.Gate.Platform.{Platform}
use knokeep.Gate.Objects.{PreconditionObj}
use knokeep.Migrate.Store.{Target, LockAnswer, locked, lock_busy, lock_raised}
use knokeep.Migrate.LeaseDoc.{JsonLib, held, released}
use knokeep.Migrate.Lease.{
  Lease, LeaseStep, gate_persist, relocked, reacquire, after_reread, after_write, attempt_doc,
  write_doc, beaten, renewed, heartbeat_if_due, release, control_key, is_ours, heartbeat_interval,
  fence_reacquire_attempts,
}

module _ (p : Platform) (env : Env) (json : JsonLib) {S : Type 0} (target : Target S) where
  -- No call on the lease, the clocks and the random source breaks the predicate.
  pub record Steady (I : S → Type 0) : Type 0 where
    pub locks : (k : Text) (ttl : ℕ) (s : S) → I s → I (target.lock k ttl s).1
    pub unlocks : (l : Lock) (s : S) → I s → I (target.unlock l s)
    pub renews : (l : Lock) (ttl : ℕ) (s : S) → I s → I (target.renew l ttl s).1
    pub walls : (s : S) → I s → I (target.wall s).1
    pub monotonics : (s : S) → I s → I (target.monotonic s).1
    pub uuids : (s : S) → I s → I (target.uuid s).1
    pub controls :
        (body : Bytes) (pre : PreconditionObj) (s : S)
        → I s
        → I (gate_persist p env json target control_key body pre s).1

  module _ (I : S → Type 0) (steady : Steady I) where
    abbrev pub Ended : LeaseStep p env json target → Type 0
    Ended step = I step.2

    abbrev Continues : Option (Lease → S → LeaseStep p env json target) → Type 0
    Continues none = Unit
    Continues (some again) = (l : Lease) (s : S) → I s → Ended (again l s)

    relocked-Ended :
        (again : Lease → S → LeaseStep p env json target)
        → Continues (some again)
        → (l : Lease) (answer : LockAnswer) (s : S) → I s
        → Ended (relocked p env json target again l answer s)
    unfolding relocked
    relocked-Ended again c l (locked k) s i = c _ s i
    relocked-Ended again c l lock_busy s i = i
    relocked-Ended again c l lock_raised s i = i

    reacquire-Ended :
        (again : Option (Lease → S → LeaseStep p env json target))
        → Continues again
        → (l : Lease) (s : S) → I s
        → Ended (reacquire p env json target again l s)
    unfolding reacquire
    reacquire-Ended none c l s i = i
    reacquire-Ended (some again) c l s i =
        relocked-Ended again c l _ _ (steady.locks _ _ _ (steady.unlocks _ _ i))

    after_reread-Ended :
        (again : Option (Lease → S → LeaseStep p env json target))
        → Continues again
        → (l : Lease) (current : Option (Option Blob)) (s : S) → I s
        → Ended (after_reread p env json target again l current s)
    unfolding after_reread
    after_reread-Ended again c l none s i = i
    after_reread-Ended again c l (some current) s i =
        if_both Ended (is_ours p env json target current l) (reacquire-Ended again c l s i) i

    after_write-Ended :
        (again : Option (Lease → S → LeaseStep p env json target))
        → Continues again
        → (l : Lease) (result : Option WriteResult) (s : S) → I s
        → Ended (after_write p env json target again l result s)
    unfolding after_write
    after_write-Ended again c l none s i = i
    after_write-Ended again c l (some (ok h)) s i = i
    after_write-Ended again c l (some (stale current reason)) s i =
        if_both Ended (opt_eq reason fence_reason) (after_reread-Ended again c l _ s i) i
    after_write-Ended again c l (some (exists h)) s i = i
    after_write-Ended again c l (some (error kind labels)) s i = i

    attempt_doc-Ended :
        (again : Option (Lease → S → LeaseStep p env json target))
        → Continues again
        → (status : Text) (released_at : Option ℕ) (l : Lease) (s : S) → I s
        → Ended (attempt_doc p env json target again status released_at l s)
    unfolding attempt_doc
    attempt_doc-Ended again c status released_at l s i =
        after_write-Ended again c l _ _ (steady.controls _ _ _ (steady.walls _ i))

    pub write_doc-Ended :
        (left : ℕ) (status : Text) (released_at : Option ℕ) (l : Lease) (s : S)
        → I s
        → Ended (write_doc p env json target left status released_at l s)
    unfolding write_doc
    write_doc-Ended zero status released_at l s i =
        attempt_doc-Ended none tt status released_at l s i
    write_doc-Ended (suc left) status released_at l s i =
        attempt_doc-Ended (some (write_doc p env json target left status released_at))
          (write_doc-Ended left status released_at) status released_at l s i

    beaten-Ended :
        (step : LeaseStep p env json target) → Ended step → Ended (beaten p env json target step)
    unfolding beaten
    beaten-Ended (some lost, l, s) i = i
    beaten-Ended (none, l, s) i = steady.monotonics s i

    renewed-Ended :
        (l : Lease) (answer : Option Bool) (s : S)
        → I s
        → Ended (renewed p env json target l answer s)
    unfolding renewed
    renewed-Ended l none s i = i
    renewed-Ended l (some b) s i =
        beaten-Ended _ (write_doc-Ended fence_reacquire_attempts held none l s i)

    pub heartbeat_if_due-Ended :
        (l : Lease) (s : S) → I s → Ended (heartbeat_if_due p env json target l s)
    unfolding heartbeat_if_due
    heartbeat_if_due-Ended l s i =
        if_both Ended (ltb ((target.monotonic s).0 - l.last_heartbeat) heartbeat_interval)
          (steady.monotonics s i)
          (renewed-Ended l _ _ (steady.renews _ _ _ (steady.monotonics s i)))

    pub release-keeps : (l : Lease) (s : S) → I s → I (release p env json target l s)
    unfolding release
    release-keeps l s i = steady.unlocks _ _ (
        write_doc-Ended fence_reacquire_attempts released (some (target.wall s).0) l _
          (steady.walls s i))
