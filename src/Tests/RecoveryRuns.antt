-- ===== src/Tests/RecoveryRuns.antt =====
-- `reconcile` (store/gate.py) after injected faults of `FakeBackend` (store/fake.py).
use knokeep.Prelude.{
  ◌≡◌, refl, Option, none, some, codes, [], ◌∷◌, text_eq, lookup, insert, utf8_encode, ℕ, true,
}
use knokeep.Types.{WriteResult, ok, stale, error, timeout_after_commit, sha256_hex}
use knokeep.Gate.Marker.{verify, compute_marker}
use knokeep.Gate.Objects.{str_obj, none_obj}
use knokeep.Gate.Persist.{is_valid_hash_text, hash_of_obj}
use knokeep.Gate.Reconcile.{reconcile}
use knokeep.Gate.Resolution.{Resolved, reconcile-Resolved}
use knokeep.Fake.State.{Fake, init, read, no_fence, fence_at}
use knokeep.Fake.Write.{returned, write_scanned}
use knokeep.Door.Recovery.{reconcile-lost_ack}
use knokeep.Tests.Samples.{
  env, key, sealed_key, sealed_old, old_body, creating, at_time, hash_of_length,
}

abbrev faulty : ℕ → ℕ → Fake
faulty timeout conflict = record init {
  faults = record { network = 0; timeout = timeout; conflict = conflict };
}

abbrev landed_state : Fake
landed_state = record init {
  store = (key, (old_body, hash_of_length 2)) ∷ [];
  fence = (key, no_fence) ∷ [];
}

lost_run :
    write_scanned env sealed_key sealed_old creating (at_time 100) (faulty 1 0)
    ≡ (returned (error timeout_after_commit []), landed_state)
unfolding write_scanned verify compute_marker utf8_encode text_eq lookup insert fence_at sha256_hex
lost_run = refl

abbrev owned_state : ℕ → Fake
owned_state conflict = record (faulty 0 conflict) {
  store = (key, (old_body, hash_of_length 2)) ∷ [];
  locks = (key, (codes "t1", 110)) ∷ [];
  fence =
      (
        key,
        record {
          owner_token = some (codes "t1");
          owner_expiry = 110;
          owner_fence = 1;
          last_accepted_fence = 0;
        },
      )
      ∷ [];
}

old_valid : is_valid_hash_text (sha256_hex env old_body) ≡ true
unfolding is_valid_hash_text sha256_hex
old_valid = refl

abbrev stale_retry : Fake → Option WriteResult × Fake
stale_retry s = (some (stale none none), s)

reconcile-lost_ack_example :
    reconcile
      (λ u. some (read key u))
      none
      (str_obj (sha256_hex env old_body))
      none_obj
      landed_state
    ≡ (ok (sha256_hex env old_body), landed_state)
reconcile-lost_ack_example =
    reconcile-lost_ack env sealed_key sealed_old creating (at_time 100) (faulty 1 0) landed_state []
      none none none_obj lost_run old_valid (unfold hash_of_obj in refl)

reconcile-Resolved_example :
    Resolved
      (λ u. some (read key u))
      (some stale_retry)
      (hash_of_length 3)
      (some (hash_of_length 2))
      (owned_state 0)
      (reconcile
        (λ u. some (read key u))
        (some stale_retry)
        (str_obj (hash_of_length 3))
        (str_obj (hash_of_length 2))
        (owned_state 0)).0
      (reconcile
        (λ u. some (read key u))
        (some stale_retry)
        (str_obj (hash_of_length 3))
        (str_obj (hash_of_length 2))
        (owned_state 0)).1
reconcile-Resolved_example =
    reconcile-Resolved (λ u. some (read key u)) (some stale_retry) (hash_of_length 3)
      (some (hash_of_length 2)) (str_obj (hash_of_length 2)) (owned_state 0)
      (unfold is_valid_hash_text in refl) (unfold hash_of_obj is_valid_hash_text in refl)
