-- ===== src/Local/Backend.antt =====
-- `LocalBackend.write` (store/local.py), from its checks to its end, with the wait after a lost fence.
use knokeep.Prelude.{
  ℕ, ◌+◌, Bytes, Text, Bool, false, not, ◌&&◌, ◌||◌, Option, none, some, List, [], ◌∷◌,
  if◌then◌else◌, lookup, ltb, leb,
}
use knokeep.Types.{
  Env, WriteResult, stale, error, busy, fence_reason, Lock, OperationContext, Precondition,
  create_only, overwrite,
}
use knokeep.Gate.Marker.{Sealed, scanned_key, scanned_body, ScannedKey, ScannedBody, verify}
use knokeep.Local.State.{
  Local, FenceOwner, Faults, Ended, answered, fence_lost, struct_error, os_error, accepted_at,
}
use knokeep.Local.Write.{write_under_cas_lock, hash_of_file}
use knokeep.Fake.State.{opt_eq}

-- What one round of the wait sees: the fence state first, and then the published file, which may
-- have moved on; both clocks; and whether the published file could be read.
pub record Glimpse : Type 0 where
  pub fences : Local
  pub files : Local
  pub now : ℕ
  pub monotonic : ℕ
  pub readable : Bool

abbrev pub pending_owner : Option FenceOwner → ℕ → ℕ → Bool
pending_owner none accepted now = false
pending_owner (some owner) accepted now = ltb accepted owner.fence && ltb now owner.expiry

-- `pending`: a fenced write may still land.
unfoldable pub pending : Text → Glimpse → Bool
pending key g = pending_owner (lookup key g.fences.owners) (accepted_at key g.fences) g.now

-- The hash that the round has seen, or the one before if the file could not be read.
unfoldable pub seen_hash : Env → Text → Option Text → Glimpse → Option Text
seen_hash env key before g =
    if g.readable then hash_of_file env (lookup key g.files.data_dir) else before

unfoldable pub settle_from :
    Env → Text → Text → ℕ → Option Text → List Glimpse → Option (Option Text)
unfolding pending seen_hash
settle_from env key expected deadline before [] = none
settle_from env key expected deadline before (g ∷ later) =
    let current = seen_hash env key before g in
    let rest = settle_from env key expected deadline current later in
    if not (opt_eq current (some expected)) || (not (pending key g) || leb deadline g.monotonic)
    then some current
    else rest

-- `_settle_current_hash_after_fence_loss`: the outer `none` says that the call still waits.
unfoldable pub settle : Env → Text → Text → ℕ → List Glimpse → Option (Option Text)
unfolding settle_from
settle env key expected deadline glimpses =
    settle_from env key expected deadline (some expected) glimpses

-- `_FENCE_LOSS_SETTLE_MAX_S`, in ticks of the monotonic clock
abbrev pub fence_loss_settle_max : ℕ
fence_loss_settle_max = 5000

pub data Outcome : Type 0 where
  returned : WriteResult → Outcome
  type_error struct_error_raised os_error_raised : Outcome
  waiting : Outcome

-- What the call takes from the system: whether cas.lock was got in time, the faults of the
-- commit, the clocks, and the moments of the wait.
pub record Turn : Type 0 where
  pub acquired : Bool
  pub faults : Faults
  pub now : ℕ
  pub monotonic : ℕ
  pub glimpses : List Glimpse

unfoldable pub lease_of : Precondition → Option Lock
lease_of create_only = none
lease_of (overwrite expected lease) = lease

unfoldable pub expected_of : Precondition → Option Text
expected_of create_only = none
expected_of (overwrite expected lease) = expected

unfoldable pub settled : Option (Option Text) → Outcome
settled none = waiting
settled (some current) = returned (stale current fence_reason)

-- From the end of the section to the end of the call; a fence is lost only with an expected hash.
unfoldable pub after_section : Env → Text → Option Text → Turn → Ended → Outcome
unfolding settled
after_section env key expected turn (answered result) = returned result
after_section env key expected turn struct_error = struct_error_raised
after_section env key expected turn os_error = os_error_raised
after_section env key none turn (fence_lost current) = returned (stale current fence_reason)
after_section env key (some expected) turn (fence_lost current) =
    settled (settle env key expected (turn.monotonic + fence_loss_settle_max) turn.glimpses)

module _ (env : Env) (sha256_digest : Bytes → Bytes) (lower : Text → Text) where
  unfoldable pub locked_write : Text → Bytes → Precondition → Turn → Local → Outcome × Local
  unfolding after_section lease_of expected_of
  locked_write key raw pre turn s =
      let (ended, t) =
        write_under_cas_lock env sha256_digest lower key raw (expected_of pre) (lease_of pre)
          turn.faults turn.now s in
      (after_section env key (expected_of pre) turn ended, t)

  unfoldable pub write_scanned :
      ScannedKey → ScannedBody → OperationContext → Turn → Local → Outcome × Local
  unfolding locked_write
  write_scanned key body ctx turn s =
      if not (verify env (scanned_key key) && verify env (scanned_body body))
      then (type_error, s)
      else if not turn.acquired
      then (returned (error busy []), s)
      else locked_write key.key body.body ctx.precondition turn s

  unfoldable pub write : Sealed → Sealed → OperationContext → Turn → Local → Outcome × Local
  unfolding write_scanned
  write (scanned_key key) (scanned_body body) ctx turn s = write_scanned key body ctx turn s
  write _ _ ctx turn s = (type_error, s)
