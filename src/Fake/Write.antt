-- ===== src/Fake/Write.antt =====
-- `FakeBackend.write` (store/fake.py). The mutex makes the critical section one step; after a lost
-- fence the call waits, and sees what the other callers leave.
use knokeep.Prelude.{
  ℕ, ◌+◌, Bytes, Text, text_eq, Bool, false, not, ◌&&◌, Option, none, some, List, [], ◌∷◌, ltb, leb,
  ◌==◌, if◌then◌else◌, lookup, insert,
}
use knokeep.Types.{
  Env, sha256_hex, WriteResult, ok, stale, exists, error, timeout_after_commit, conflict_unknown,
  fence_reason, Lock, OperationContext, Precondition, create_only, overwrite,
}
use knokeep.Gate.Marker.{Sealed, scanned_key, scanned_body, ScannedKey, ScannedBody, verify}
use knokeep.Fake.State.{
  Fake, fence_at, hash_of, opt_eq, network_fault, timeout_fault, conflict_fault, consume_fault,
}

-- The lease must be the current owner, unexpired, with exactly the fence that `lock` gave out.
unfoldable pub fence_ok : Text → Option Lock → ℕ → Fake → Bool
fence_ok key none now s = false
fence_ok key (some lease) now s =
    let fs = fence_at key s in
    opt_eq (some lease.token) fs.owner_token
    && (not (leb fs.owner_expiry now)
        && (lease.fence == fs.owner_fence && not (ltb lease.fence fs.last_accepted_fence)))

-- `_commit_create` and `_commit_update`: the body and the accepted fence together
abbrev pub commit : Text → Bytes → Text → ℕ → Fake → Fake
commit k raw new_hash accepted s = record s {
  store = insert k (raw, new_hash) s.store;
  fence = insert k (record (fence_at k s) { last_accepted_fence = accepted }) s.fence;
}

-- The outcome is ambiguous: the first fault commits, the second does not.
unfoldable pub apply_injected_fault : (Fake → Fake) → Fake → Option WriteResult × Fake
unfolding consume_fault
apply_injected_fault do_commit s =
    let (lost, s1) = consume_fault timeout_fault s in
    let (unclear, s2) = consume_fault conflict_fault s in
    if lost
    then (some (error timeout_after_commit []), do_commit s1)
    else if unclear
    then (some (error conflict_unknown []), s2)
    else (none, s)

-- What the critical section ends with: a result, or a lost fence, after which the call waits.
pub data Section : Type 0 where
  done : WriteResult → Section
  fence_lost : Section

unfoldable pub finish : (Fake → Fake) → Text → Fake → Section × Fake
unfolding apply_injected_fault
finish do_commit new_hash s =
    let (fault, s') = apply_injected_fault do_commit s in
    elim fault [ some result ↦ (done result, s') | none ↦ (done (ok new_hash), do_commit s) ]

unfoldable pub create_section : Text → Bytes → Text → Option (Bytes × Text) → Fake → Section × Fake
unfolding finish
create_section k raw new_hash none s = finish (commit k raw new_hash 0) new_hash s
create_section k raw new_hash (some (body, current_hash)) s =
    (done (if text_eq current_hash new_hash then ok new_hash else exists current_hash), s)

accepted_fence : Option Lock → ℕ
accepted_fence none = 0
accepted_fence (some lease) = lease.fence

unfoldable pub update_section :
    Text → Bytes → Text → Text → Option Lock → Option (Bytes × Text) → Fake → Section × Fake
unfolding finish accepted_fence
update_section k raw new_hash expected lease none s = (done (stale none none), s)
update_section k raw new_hash expected lease (some (body, current_hash)) s =
    if text_eq current_hash expected
    then finish (commit k raw new_hash (accepted_fence lease)) new_hash s
    else (done (stale (some current_hash) none), s)

-- The section that `write` runs under the mutex, up to the wait after a lost fence. The lease of
-- an `Overwrite` without a hash is not looked at.
unfoldable pub write_section : Text → Bytes → Text → Precondition → ℕ → Fake → Section × Fake
unfolding create_section update_section fence_ok
write_section k raw new_hash create_only now s = create_section k raw new_hash (lookup k s.store) s
write_section k raw new_hash (overwrite none lease) now s =
    create_section k raw new_hash (lookup k s.store) s
write_section k raw new_hash (overwrite (some expected) lease) now s =
    if fence_ok k lease now s
    then update_section k raw new_hash expected lease (lookup k s.store) s
    else (fence_lost, s)

-- What one round of the wait sees: the state that the other callers have left, and both clocks.
pub record Moment : Type 0 where
  pub state : Fake
  pub now : ℕ
  pub monotonic : ℕ

-- The round's answer, or `none` to wait on. `deadline - monotonic <= 0` is `deadline <= monotonic`.
unfoldable pub settle_round : Text → Text → ℕ → Moment → Option (Option Text)
settle_round key expected deadline m =
    let current = hash_of (lookup key m.state.store) in
    let fs = fence_at key m.state in
    if not (opt_eq current (some expected))
    then some current
    else if not (ltb fs.last_accepted_fence fs.owner_fence && ltb m.now fs.owner_expiry)
    then some current
    else if leb deadline m.monotonic
    then some current
    else none

-- `_settle_current_hash_after_fence_loss` over the moments at which it wakes. The inner `none` says
-- that the key is absent, the outer one that the call still waits after all of the moments.
unfoldable pub settle : Text → Text → ℕ → List Moment → Option (Option Text)
unfolding settle_round
settle key expected deadline [] = none
settle key expected deadline (m ∷ later) =
    let rest = settle key expected deadline later in
    elim (settle_round key expected deadline m) [ some current ↦ some current | none ↦ rest ]

-- How a call ends: it returns, it raises, or it still waits.
pub data Outcome : Type 0 where
  returned : WriteResult → Outcome
  connection_error type_error : Outcome
  waiting : Outcome

unfoldable pub expected_hash_of : Precondition → Text
expected_hash_of create_only = []
expected_hash_of (overwrite none lease) = []
expected_hash_of (overwrite (some expected) lease) = expected

unfoldable pub settled : Option (Option Text) → Outcome
settled none = waiting
settled (some current) = returned (stale current fence_reason)

unfoldable pub after_section : Text → Precondition → ℕ → List Moment → Section → Outcome
unfolding expected_hash_of settled
after_section k pre deadline moments (done result) = returned result
after_section k pre deadline moments fence_lost =
    settled (settle k (expected_hash_of pre) deadline moments)

-- `_FENCE_LOSS_SETTLE_MAX_S`, in ticks of the monotonic clock
abbrev pub fence_loss_settle_max : ℕ
fence_loss_settle_max = 5000

-- The reads of both clocks, and the moments at which the wait wakes.
pub record Schedule : Type 0 where
  pub now : ℕ
  pub monotonic : ℕ
  pub moments : List Moment

-- From the section to the end of the call.
unfoldable pub attempt : Text → Bytes → Text → Precondition → Schedule → Fake → Outcome × Fake
unfolding write_section after_section
attempt k raw new_hash pre time s =
    let (section, t) = write_section k raw new_hash pre time.now s in
    let deadline = time.monotonic + fence_loss_settle_max in
    (after_section k pre deadline time.moments section, t)

module _ (env : Env) where
  unfoldable pub write_scanned :
      ScannedKey → ScannedBody → OperationContext → Schedule → Fake → Outcome × Fake
  unfolding attempt consume_fault
  write_scanned key body ctx time s =
      if not (verify env (scanned_key key) && verify env (scanned_body body))
      then (type_error, s)
      else let (dropped, s1) = consume_fault network_fault s in
        if dropped
        then (connection_error, s1)
        else attempt key.key body.body (sha256_hex env body.body) ctx.precondition time s

  unfoldable pub write : Sealed → Sealed → OperationContext → Schedule → Fake → Outcome × Fake
  unfolding write_scanned
  write (scanned_key key) (scanned_body body) ctx time s = write_scanned key body ctx time s
  write _ _ ctx time s = (type_error, s)
