-- ===== src/Gate/Reconcile.antt =====
-- `reconcile` of store/gate.py: the true outcome of a write whose acknowledgement was lost.
use knokeep.Prelude.{Text, text_eq, Bool, false, Option, none, some, if◌then◌else◌}
use knokeep.Types.{Blob, WriteResult, ok, invalid_argument, conflict_unknown}
use knokeep.Gate.Objects.{Obj}
use knokeep.Gate.Persist.{error_of, hash_of_obj}

abbrev pub hash_of_blob : Option Blob → Option Text
hash_of_blob none = none
hash_of_blob (some b) = some b.version_hash

-- `current_hash is not None and current_hash == h`
abbrev pub is_hash : Option Text → Text → Bool
is_hash none h = false
is_hash (some current) h = text_eq current h

-- `expected_hash is not None and current_hash == expected_hash`
abbrev pub is_expected : Option Text → Option Text → Bool
is_expected current none = false
is_expected current (some expected) = is_hash current expected

-- `read` gives no value where it raises, and so does the caller's single retry.
module _ {S : Type 0} (read : S → Option (Option Blob))
    (retry : Option (S → Option WriteResult × S)) where
  unfoldable pub run_retry : Option (S → Option WriteResult × S) → S → WriteResult × S
  run_retry none s = (error_of conflict_unknown, s)
  run_retry (some again) s =
      let (result, t) = again s in
      (elim result [ none ↦ error_of conflict_unknown | some r ↦ r ], t)

  unfoldable pub decide : Text → Option Text → Option (Option Blob) → S → WriteResult × S
  unfolding run_retry
  decide intended expected none s = (error_of conflict_unknown, s)
  decide intended expected (some blob) s =
      let current = hash_of_blob blob in
      if is_hash current intended
      then (ok intended, s)
      else if is_expected current expected
      then run_retry retry s
      else (error_of conflict_unknown, s)

  unfoldable pub with_expected : Text → Option (Option Text) → S → WriteResult × S
  unfolding decide
  with_expected intended none s = (error_of invalid_argument, s)
  with_expected intended (some expected) s = decide intended expected (read s) s

  unfoldable pub with_intended : Option (Option Text) → Obj → S → WriteResult × S
  unfolding with_expected hash_of_obj
  with_intended none expected_hash s = (error_of invalid_argument, s)
  with_intended (some none) expected_hash s = (error_of invalid_argument, s)
  with_intended (some (some intended)) expected_hash s =
      with_expected intended (hash_of_obj expected_hash) s

  unfoldable pub reconcile : Obj → Obj → S → WriteResult × S
  unfolding with_intended
  reconcile intended_new_hash expected_hash s =
      with_intended (hash_of_obj intended_new_hash) expected_hash s
