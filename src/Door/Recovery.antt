-- ===== src/Door/Recovery.antt =====
-- A lost acknowledgement of `FakeBackend.write` (store/fake.py), resolved by `reconcile`
-- (store/gate.py).
use knokeep.Prelude.{Text, ◌≡◌, refl, true, Option, some, lookup-insert, text_eq_refl, List}
use knokeep.Types.{Env, sha256_hex, WriteResult, ok, error, timeout_after_commit, OperationContext}
use knokeep.Gate.Marker.{ScannedKey, ScannedBody}
use knokeep.Gate.Objects.{Obj, str_obj}
use knokeep.Gate.Persist.{hash_of_obj, is_valid_hash_text}
use knokeep.Gate.Reconcile.{reconcile}
use knokeep.Fake.State.{Fake, read}
use knokeep.Fake.Write.{returned, Schedule, write_scanned}
use knokeep.Fake.Outcomes.{write_scanned-WriteSpec}

module _ (env : Env) (key : ScannedKey) (body : ScannedBody) (ctx : OperationContext)
    (time : Schedule) (s t : Fake) (labels : List Text)
    (retry : Option (Fake → Option WriteResult × Fake)) where
  lost_ack-read :
      write_scanned env key body ctx time s ≡ (returned (error timeout_after_commit labels), t)
      → read key.key t ≡ some (record { body = body.body; version_hash = sha256_hex env body.body })
  unfolding read
  lost_ack-read e =
      let spec = rw e at (write_scanned-WriteSpec env key body ctx time s) in
      rw (spec.1.store) (
        rw (lookup-insert key.key key.key (body.body, sha256_hex env body.body) s.store)
          (rw text_eq_refl refl))

  -- A write whose acknowledgement was lost after the commit is resolved to `OK` with its hash, and
  -- nothing is written again.
  pub reconcile-lost_ack :
      (expected : Option Text) (expected_hash : Obj)
      → write_scanned env key body ctx time s ≡ (returned (error timeout_after_commit labels), t)
      → is_valid_hash_text (sha256_hex env body.body) ≡ true
      → hash_of_obj expected_hash ≡ some expected
      → reconcile
          (λ u. some (read key.key u))
          retry
          (str_obj (sha256_hex env body.body))
          expected_hash
          t
        ≡ (ok (sha256_hex env body.body), t)
  unfolding reconcile
  reconcile-lost_ack expected expected_hash e v h =
      rw (v, hash_of_obj) (rw h (rw (lost_ack-read e) (rw text_eq_refl refl)))
