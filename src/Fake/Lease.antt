-- ===== src/Fake/Lease.antt =====
-- `lock`, `unlock` and `renew` of `FakeBackend` (store/fake.py).
use knokeep.Prelude.{
  ℕ, ◌+◌, max, Text, text_eq, Bool, true, false, not, ◌&&◌, Option, none, some, ltb, leb,
  if◌then◌else◌, Dict, lookup, insert, erase,
}
use knokeep.Types.{Lock}
use knokeep.Fake.State.{Fake, FenceState, fence_at, opt_eq}

-- `lock`: `none` is a `BackendBusyError`.
unfoldable pub held : ℕ → Option (Text × ℕ) → Bool
held now none = false
held now (some (token, expiry)) = ltb now expiry

-- Past both the last owner's fence and the last accepted one.
abbrev pub next_fence : FenceState → ℕ
next_fence fs = max fs.owner_fence fs.last_accepted_fence + 1

unfoldable pub lock : Text → ℕ → ℕ → Text → Fake → Option Lock × Fake
unfolding held
lock key ttl now token s = if held now (lookup key s.locks) then (none, s) else (
  some (record {
    key = key;
    token = token;
    expiry_epoch = now + ttl;
    fence = next_fence (fence_at key s);
  }),
  record s {
    locks = insert key (token, now + ttl) s.locks;
    fence =
        insert key
          (record (fence_at key s) {
            owner_token = some token;
            owner_expiry = now + ttl;
            owner_fence = next_fence (fence_at key s);
          })
          s.fence;
  },
)

-- The test that `unlock` and `renew` share: this token holds the lock, and it has not expired.
unfoldable pub owns : Lock → ℕ → Option (Text × ℕ) → Bool
owns l now none = false
owns l now (some (token, expiry)) = text_eq token l.token && not (leb expiry now)

unfoldable pub unlock : Lock → ℕ → Fake → Bool × Fake
unfolding owns
unlock l now s =
    if owns l now (lookup l.key s.locks)
    then (true, record s { locks = erase l.key s.locks })
    else (false, s)

-- The owner's expiry moves with the lock's, if this token owns the fence.
unfoldable pub extend_owner : Text → Text → ℕ → Fake → Dict FenceState
extend_owner key token expiry s =
    let fs = fence_at key s in
    if opt_eq fs.owner_token (some token)
    then insert key (record fs { owner_expiry = expiry }) s.fence
    else s.fence

-- `renew` finds the lock by its token, so the token that it writes is the lock's.
unfoldable pub renew : Lock → ℕ → ℕ → Fake → Bool × Fake
unfolding owns extend_owner
renew l ttl now s =
    let expiry = now + ttl in
    if owns l now (lookup l.key s.locks)
    then (
      true,
      record s {
        locks = insert l.key (l.token, expiry) s.locks;
        fence = extend_owner l.key l.token expiry s;
      },
    )
    else (false, s)
