-- ===== src/Tests/FakeRuns.antt =====
-- `FakeBackend` (store/fake.py) on short histories, and its theorems there.
use knokeep.Prelude.{
  ℕ, ◌≡◌, refl, Option, some, lookup, insert, text_eq, codes, arith, [], ◌∷◌, ◌⊎◌, ◌<◌, utf8_encode,
  List, Text,
}
use knokeep.Types.{sha256_hex, ok, exists, commit_class, Lock}
use knokeep.Gate.Marker.{verify, compute_marker}
use knokeep.Fake.State.{no_fence, Fake, init, fence_at, hash_of}
use knokeep.Fake.Write.{write_scanned, returned, write_section, settle, Moment}
use knokeep.Fake.Lease.{lock}
use knokeep.Fake.Effect.{SameData, SectionSpec, write_section-SectionSpec, Permits}
use knokeep.Fake.Outcomes.{write-not_committed, write-committed, write-no_clobber}
use knokeep.Fake.Settle.{settle_total, FirstSettled}
use knokeep.Fake.Steps.{here, next, locked}
use knokeep.Fake.Invariant.{IsValid, Reach-IsValid}
use knokeep.Fake.Superseded.{lock-lock_lt, write-superseded, FenceRefused}
use knokeep.Tests.Samples.{
  env, key, sealed_key, sealed_old, sealed_new, old_body, new_body, creating, updating, lease_of,
  at_time, hash_of_length,
}

-- The states of one history: create, lock, update, let the lease run out, lock again.
abbrev created : Fake
created = record init {
  store = (key, (old_body, hash_of_length 2)) ∷ [];
  fence = (key, no_fence) ∷ [];
}

abbrev owned : ℕ → ℕ → Text → ℕ → Fake → Fake
owned expiry fence token accepted s = record s {
  locks = (key, (token, expiry)) ∷ [];
  fence =
      (
        key,
        record {
          owner_token = some token;
          owner_expiry = expiry;
          owner_fence = fence;
          last_accepted_fence = accepted;
        },
      )
      ∷ [];
}

abbrev first_owned : Fake
first_owned = owned 110 1 (codes "t1") 0 created

abbrev second_owned : Fake
second_owned = owned 130 2 (codes "t2") 0 created

abbrev first_lease : Lock
first_lease = lease_of 1 (codes "t1")

abbrev second_lease : Lock
second_lease = record (lease_of 2 (codes "t2")) { expiry_epoch = 130 }

create_run :
    write_scanned env sealed_key sealed_old creating (at_time 100) init
    ≡ (returned (ok (hash_of_length 2)), created)
unfolding write_scanned verify compute_marker utf8_encode text_eq lookup insert fence_at sha256_hex
create_run = refl

lock_run : lock key 10 100 (codes "t1") created ≡ (some first_lease, first_owned)
unfolding lock lookup insert text_eq fence_at
lock_run = refl

relock_run : lock key 10 120 (codes "t2") first_owned ≡ (some second_lease, second_owned)
unfolding lock lookup insert text_eq fence_at
relock_run = refl

update_run :
    (write_scanned env sealed_key sealed_new (updating first_lease) (at_time 105) first_owned).0
    ≡ returned (ok (hash_of_length 3))
unfolding write_scanned verify compute_marker utf8_encode text_eq lookup insert fence_at sha256_hex
update_run = refl

exists_run :
    (write_scanned env sealed_key sealed_new creating (at_time 105) created).0
    ≡ returned (exists (hash_of_length 2))
unfolding write_scanned verify compute_marker utf8_encode text_eq lookup insert fence_at sha256_hex
exists_run = refl

write_section-SectionSpec_example :
    SectionSpec key new_body
      (hash_of_length 3)
      (updating first_lease).precondition
      105
      first_owned
      (write_section key new_body
        (hash_of_length 3)
        (updating first_lease).precondition
        105
        first_owned).0
      (write_section key new_body
        (hash_of_length 3)
        (updating first_lease).precondition
        105
        first_owned).1
write_section-SectionSpec_example =
    write_section-SectionSpec key new_body (hash_of_length 3) (updating first_lease).precondition
      105 first_owned

write-not_committed_example :
    SameData (write_scanned env sealed_key sealed_new creating (at_time 105) created).1 created
write-not_committed_example =
    write-not_committed env sealed_key sealed_new creating (at_time 105) created
      (exists (hash_of_length 2)) exists_run (unfold commit_class in refl)

write-committed_example :
    (ok (hash_of_length 3) ≡ ok (sha256_hex env new_body))
    × (hash_of (
          lookup key
            (write_scanned env sealed_key sealed_new
              (updating first_lease)
              (at_time 105)
              first_owned).1.store)
        ≡ some (sha256_hex env new_body))
write-committed_example =
    write-committed env sealed_key sealed_new (updating first_lease) (at_time 105) first_owned
      (ok (hash_of_length 3)) update_run (unfold commit_class in refl)

write-no_clobber_example :
    (lookup key (write_scanned env sealed_key sealed_new creating (at_time 105) created).1.store
      ≡ lookup key created.store)
    ⊎ ((key ≡ key)
        × Permits key creating.precondition 105 created
        × (lookup key
              (write_scanned env sealed_key sealed_new creating (at_time 105) created).1.store
            ≡ some (new_body, sha256_hex env new_body)))
write-no_clobber_example =
    write-no_clobber env sealed_key sealed_new creating (at_time 105) created key

abbrev late : List Moment
late =
    record { state = second_owned; now = 106; monotonic = 0 }
    ∷ record { state = second_owned; now = 106; monotonic = 5000 }
    ∷ []

settle_total_example :
    (current : Option Text) × (settle key (hash_of_length 2) 5000 late ≡ some current)
    × FirstSettled key (hash_of_length 2) 5000 late current
settle_total_example = settle_total key (hash_of_length 2) 5000 late (omega arith)

Reach-IsValid_example : IsValid env (lock key 10 100 (codes "t1") init).1
Reach-IsValid_example =
    Reach-IsValid env {t = (lock key 10 100 (codes "t1") init).1}
      (next here (locked key 10 100 (codes "t1")))

lock-lock_lt_example : first_lease.fence < second_lease.fence
lock-lock_lt_example =
    lock-lock_lt env key 10 100 10 120 (codes "t1") (codes "t2") created first_owned first_owned
      second_owned first_lease second_lease lock_run here relock_run

write-superseded_example :
    SameData
      (write_scanned env sealed_key sealed_new (updating first_lease) (at_time 105) second_owned).1
      second_owned
    × FenceRefused
        (write_scanned env sealed_key sealed_new
          (updating first_lease)
          (at_time 105)
          second_owned).0
write-superseded_example =
    write-superseded env sealed_key sealed_new (updating first_lease) (at_time 105) 10 100 10 120
      (codes "t1") (codes "t2") created first_owned first_owned second_owned second_owned
      first_lease second_lease (hash_of_length 2) lock_run here relock_run here refl
