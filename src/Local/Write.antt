-- ===== src/Local/Write.antt =====
-- The critical section of `LocalBackend.write`, its leases, and the replay at its start
-- (store/local.py).
use knokeep.Prelude.{
  ℕ, ◌+◌, max, Bytes, Text, text_eq, Bool, true, false, not, ◌&&◌, Option, none, some, List, [],
  ◌∷◌, if◌then◌else◌, Dict, lookup, insert, erase, ltb, leb, ◌==◌,
}
use knokeep.Types.{Env, sha256_hex, ok, exists, stale, error, invalid_argument, Lock}
use knokeep.Gate.Generation.{extract_generation}
use knokeep.Local.Journal.{Entry, journal_records}
use knokeep.Local.State.{
  Local, FenceOwner, accepted_at, check_case_collision, Faults, Ended, answered, fence_lost, commit,
}

-- The lease owns the durable record, which has not expired, with exactly its fence.
unfoldable pub owner_ok : Lock → ℕ → ℕ → Option FenceOwner → Bool
owner_ok lease accepted now none = false
owner_ok lease accepted now (some owner) =
    text_eq lease.token owner.token
    && (not (leb owner.expiry now)
        && (lease.fence == owner.fence && not (ltb lease.fence accepted)))

unfoldable pub fence_ok : Text → Lock → ℕ → Local → Bool
unfolding owner_ok
fence_ok key lease now s = owner_ok lease (accepted_at key s) now (lookup key s.owners)

-- Both generations are there, and the new one is not past the stored one.
unfoldable pub generation_behind : Option ℕ → Option ℕ → Bool
generation_behind (some new) (some stored) = leb new stored
generation_behind _ _ = false

abbrev pub hash_of_file : Env → Option Bytes → Option Text
hash_of_file env none = none
hash_of_file env (some raw) = some (sha256_hex env raw)

module _ (env : Env) (sha256_digest : Bytes → Bytes) where
  unfoldable pub create_section : Text → Bytes → Faults → Option Bytes → Local → Ended × Local
  unfolding commit
  create_section key raw faults none s =
      commit env sha256_digest (record { key = key; raw = raw; last_accepted_fence = 0 }) true
        faults s
  create_section key raw faults (some current) s =
      let current_hash = sha256_hex env current in
      let new_hash = sha256_hex env raw in
      (answered (if text_eq current_hash new_hash then ok new_hash else exists current_hash), s)

  unfoldable pub update_section :
      Text → Bytes → Text → Lock → Faults → Option Bytes → Local → Ended × Local
  unfolding commit generation_behind
  update_section key raw expected lease faults none s = (answered (stale none none), s)
  update_section key raw expected lease faults (some current) s =
      let current_hash = sha256_hex env current in
      if not (text_eq current_hash expected)
      then (answered (stale (some current_hash) none), s)
      else if generation_behind (extract_generation raw) (extract_generation current)
      then (answered (stale (some current_hash) none), s)
      else commit env sha256_digest
          (record { key = key; raw = raw; last_accepted_fence = lease.fence }) false faults s

  unfoldable pub fenced_section :
      Text → Bytes → Text → Option Lock → Faults → ℕ → Local → Ended × Local
  unfolding update_section fence_ok
  fenced_section key raw expected none faults now s =
      (fence_lost (hash_of_file env (lookup key s.data_dir)), s)
  fenced_section key raw expected (some lease) faults now s =
      if fence_ok key lease now s
      then update_section key raw expected lease faults (lookup key s.data_dir) s
      else (fence_lost (hash_of_file env (lookup key s.data_dir)), s)

  unfoldable pub checked_section :
      Text → Bytes → Option Text → Option Lock → Faults → ℕ → Local → Ended × Local
  unfolding create_section fenced_section
  checked_section key raw none lease faults now s =
      create_section key raw faults (lookup key s.data_dir) s
  checked_section key raw (some expected) lease faults now s =
      fenced_section key raw expected lease faults now s

  unfoldable pub write_under_cas_lock :
      (Text → Text) → Text → Bytes → Option Text → Option Lock → Faults → ℕ → Local → Ended × Local
  unfolding checked_section
  write_under_cas_lock lower key raw expected_hash lease faults now s =
      if check_case_collision lower key s
      then (answered (error invalid_argument []), s)
      else checked_section key raw expected_hash lease faults now s

-- `lock`, with the guards taken: `none` is a `BackendBusyError`.
unfoldable pub held : ℕ → Option (Text × ℕ) → Bool
held now none = false
held now (some (token, expiry)) = ltb now expiry

abbrev pub allocated : Option FenceOwner → ℕ
allocated none = 0
allocated (some owner) = owner.fence

unfoldable pub lock : Text → ℕ → ℕ → Text → Local → Option Lock × Local
unfolding held
lock key ttl now token s =
    let fence = max (allocated (lookup key s.owners)) (accepted_at key s) + 1 in
    let expiry = now + ttl in
    if held now (lookup key s.advisory) then (none, s) else (
      some (record { key = key; token = token; expiry_epoch = expiry; fence = fence }),
      record s {
        owners = insert key (record { token = token; expiry = expiry; fence = fence }) s.owners;
        advisory = insert key (token, expiry) s.advisory;
      },
    )

unfoldable pub holds : Lock → ℕ → Option (Text × ℕ) → Bool
holds l now none = false
holds l now (some (token, expiry)) = text_eq token l.token && not (leb expiry now)

-- With the guard taken; the owner's file stays.
unfoldable pub unlock : Lock → ℕ → Local → Bool × Local
unfolding holds
unlock l now s =
    if holds l now (lookup l.key s.advisory)
    then (true, record s { advisory = erase l.key s.advisory })
    else (false, s)

-- `renew` after its test of the lock file: the durable owner goes first.
unfoldable pub renew_owner : Lock → ℕ → Option FenceOwner → Local → Bool × Local
renew_owner l expiry none s = (false, s)
renew_owner l expiry (some owner) s =
    if text_eq owner.token l.token
    then (
      true,
      record s {
        owners = insert l.key (record owner { expiry = expiry }) s.owners;
        advisory = insert l.key (l.token, expiry) s.advisory;
      },
    )
    else (false, s)

-- With the guard taken, and both files written.
unfoldable pub renew : Lock → ℕ → ℕ → Local → Bool × Local
unfolding holds renew_owner
renew l ttl now s =
    if holds l now (lookup l.key s.advisory)
    then renew_owner l (now + ttl) (lookup l.key s.owners) s
    else (false, s)

-- `latest` of `_resume`: the last record per key wins.
unfoldable pub latest_onto : Dict (Bytes × ℕ) → List Entry → Dict (Bytes × ℕ)
latest_onto d [] = d
latest_onto d (e ∷ es) = latest_onto (insert e.key (e.raw, e.last_accepted_fence) d) es

module _ (env : Env) (sha256_digest : Bytes → Bytes) where
  unfoldable pub is_current : Bytes → Option Bytes → Bool
  is_current raw none = false
  is_current raw (some current) = text_eq (sha256_hex env current) (sha256_hex env raw)

  -- One round of the second loop of `_resume`, whose publications end well: a failed one raises
  -- out of the constructor, and there is no backend.
  unfoldable pub rebuild : Text → Bytes → ℕ → Local → Local
  unfolding is_current
  rebuild key raw fence s = record s {
    data_dir =
        if is_current raw (lookup key s.data_dir) then s.data_dir else insert key raw s.data_dir;
    last_accepted = insert key fence s.last_accepted;
  }

  unfoldable pub rebuild_all : Dict (Bytes × ℕ) → Local → Local
  rebuild_all [] s = s
  rebuild_all ((key, (raw, fence)) ∷ later) s = rebuild_all later (rebuild key raw fence s)

  unfoldable pub resume : Local → Local
  unfolding rebuild_all latest_onto
  resume s = rebuild_all (latest_onto [] (journal_records sha256_digest s.journal)) s
