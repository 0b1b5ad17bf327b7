-- ===== src/Fake/Superseded.antt =====
-- Fences of `FakeBackend` (store/fake.py): they only grow, and a lease that was superseded by a
-- later `lock` can write nothing, whatever happens in between.
use knokeep.Prelude.{
  ℕ, ◌+◌, Bytes, Text, ◌≡◌, refl, ◌≤◌, ◌<◌, arith, text_eq_iff, lookup-insert, inl, inr, Option,
  none, some, false,
}
use knokeep.Types.{
  Env, Lock, OperationContext, Precondition, overwrite, ok, stale, exists, error,
  timeout_after_commit, conflict_unknown, fence_reason, sha256_hex,
}
use knokeep.Gate.Marker.{ScannedKey, ScannedBody}
use knokeep.Fake.State.{
  Fake, fence_at, inject_network_failure, inject_timeout_after_commit, inject_conflict_unknown,
  set_latency,
}
use knokeep.Fake.Write.{
  commit, fence_ok, settled, attempt, after_section, write_section, Outcome, returned,
  connection_error, type_error, waiting, write_scanned, Schedule,
}
use knokeep.Fake.Lease.{lock, unlock, renew}
use knokeep.Fake.Effect.{SameData, accepts}
use knokeep.Fake.Outcomes.{WriteSpec, of_eq, write_scanned-WriteSpec, write_scanned-cases}
use knokeep.Fake.Invariant.{granted}
use knokeep.Fake.Steps.{
  Step, Reach, here, next, wrote, locked, unlocked, renewed, network_injected, timeout_injected,
  conflict_injected, latency_set,
}

-- No key's owner fence is smaller in `t`.
abbrev pub FenceLe : Fake → Fake → Type 0
FenceLe s t = (k : Text) → (fence_at k s).owner_fence ≤ (fence_at k t).owner_fence

lock-FenceLe :
    (key : Text) (ttl now : ℕ) (token : Text) (s : Fake) → FenceLe s (lock key ttl now token s).1
unfolding lock fence_at
lock-FenceLe key ttl now token s k = ground (
  arith,
  text_eq_iff key k,
  lookup-insert k key (granted (fence_at key s) token (now + ttl)) s.fence,
)

unlock-FenceLe : (l : Lock) (now : ℕ) (s : Fake) → FenceLe s (unlock l now s).1
unfolding unlock fence_at
unlock-FenceLe l now s k = ground arith

renew-FenceLe : (l : Lock) (ttl now : ℕ) (s : Fake) → FenceLe s (renew l ttl now s).1
unfolding renew fence_at
renew-FenceLe l ttl now s k = ground (
  arith,
  text_eq_iff l.key k,
  lookup-insert k l.key (record (fence_at l.key s) { owner_expiry = now + ttl }) s.fence,
)

SameData-FenceLe : (s t : Fake) → SameData t s → FenceLe s t
unfolding fence_at
SameData-FenceLe s t f k = rw f.fence (omega arith)

commit-FenceLe :
    (key : Text) (raw : Bytes) (h : Text) (accepted : ℕ) (s t : Fake)
    → SameData t (commit key raw h accepted s)
    → FenceLe s t
unfolding fence_at
commit-FenceLe key raw h accepted s t f k = rw f.fence (
    ground (
      arith,
      text_eq_iff key k,
      lookup-insert k key (record (fence_at key s) { last_accepted_fence = accepted }) s.fence,
    ))

module _ (k : Text) (raw : Bytes) (h : Text) (pre : Precondition) (now : ℕ) (s : Fake) where
  WriteSpec-FenceLe : (o : Outcome) (t : Fake) → WriteSpec k raw h pre now s o t → FenceLe s t
  WriteSpec-FenceLe (returned (ok new)) t (e, inl (p, f)) =
      commit-FenceLe k raw h (accepts pre) s t f
  WriteSpec-FenceLe (returned (ok new)) t (e, inr (q, p, f)) = SameData-FenceLe s t (of_eq q)
  WriteSpec-FenceLe (returned (stale x reason)) t f = SameData-FenceLe s t (of_eq f.0)
  WriteSpec-FenceLe (returned (exists x)) t f = SameData-FenceLe s t (of_eq f.0)
  WriteSpec-FenceLe (returned (error timeout_after_commit labels)) t f =
      commit-FenceLe k raw h (accepts pre) s t f.1
  WriteSpec-FenceLe (returned (error conflict_unknown labels)) t f = SameData-FenceLe s t f.1
  WriteSpec-FenceLe (returned (error kind labels)) t f = elim f [ ]
  WriteSpec-FenceLe connection_error t f = SameData-FenceLe s t f
  WriteSpec-FenceLe type_error t f = SameData-FenceLe s t (of_eq f)
  WriteSpec-FenceLe waiting t f = SameData-FenceLe s t (of_eq f.0)

module _ (env : Env) where
  Step-FenceLe : {s t : Fake} → Step env s t → FenceLe s t
  Step-FenceLe {s} (wrote key body ctx time) =
      WriteSpec-FenceLe key.key body.body (sha256_hex env body.body) ctx.precondition time.now s
        (write_scanned env key body ctx time s).0 (write_scanned env key body ctx time s).1
        (write_scanned-WriteSpec env key body ctx time s)
  Step-FenceLe {s} (locked key ttl now token) = lock-FenceLe key ttl now token s
  Step-FenceLe {s} (unlocked l now) = unlock-FenceLe l now s
  Step-FenceLe {s} (renewed l ttl now) = renew-FenceLe l ttl now s
  Step-FenceLe {s} (network_injected n) =
      unfold inject_network_failure in
      SameData-FenceLe s _ (record { store = refl; locks = refl; fence = refl })
  Step-FenceLe {s} (timeout_injected n) =
      unfold inject_timeout_after_commit in
      SameData-FenceLe s _ (record { store = refl; locks = refl; fence = refl })
  Step-FenceLe {s} (conflict_injected n) =
      unfold inject_conflict_unknown in
      SameData-FenceLe s _ (record { store = refl; locks = refl; fence = refl })
  Step-FenceLe {s} (latency_set n) =
      unfold set_latency in
      SameData-FenceLe s _ (record { store = refl; locks = refl; fence = refl })

  Reach-FenceLe : {s t : Fake} → Reach env s t → FenceLe s t
  Reach-FenceLe here k = omega arith
  Reach-FenceLe (next r st) k = omega (arith, Reach-FenceLe r k, Step-FenceLe st k)

-- A granted lease carries the fence that its key now has, above every earlier one.
lock-grants :
    (key : Text) (ttl now : ℕ) (token : Text) (s t : Fake) (lease : Lock)
    → lock key ttl now token s ≡ (some lease, t)
    → ((fence_at key s).owner_fence < lease.fence)
      × ((fence_at key t).owner_fence ≡ lease.fence)
      × (lease.key ≡ key)
unfolding lock fence_at
lock-grants key ttl now token s t lease h = ground (
  arith,
  text_eq_iff key key,
  lookup-insert key key (granted (fence_at key s) token (now + ttl)) s.fence,
)

module _ (env : Env) where
  -- Between two grants on one key, whatever is called in between, the fence grows strictly.
  pub lock-lock_lt :
      (key : Text) (ttl now ttl' now' : ℕ) (token token' : Text) (s s1 s2 s3 : Fake)
      (lease lease' : Lock)
      → lock key ttl now token s ≡ (some lease, s1)
      → Reach env s1 s2
      → lock key ttl' now' token' s2 ≡ (some lease', s3)
      → lease.fence < lease'.fence
  lock-lock_lt key ttl now ttl' now' token token' s s1 s2 s3 lease lease' l r l' =
      let g = lock-grants key ttl now token s s1 lease l in
      let g' = lock-grants key ttl' now' token' s2 s3 lease' l' in
      omega (arith, Reach-FenceLe env r key)

-- The call refused the lease, or did not get as far as the fence.
abbrev pub FenceRefused : Outcome → Type 0
FenceRefused (returned (stale current reason)) = reason ≡ fence_reason
FenceRefused (returned r) = ⊥
FenceRefused connection_error = Unit
FenceRefused type_error = Unit
FenceRefused waiting = Unit

fence_ok-older :
    (key : Text) (lease : Lock) (now : ℕ) (s : Fake)
    → lease.fence < (fence_at key s).owner_fence
    → fence_ok key (some lease) now s ≡ false
unfolding fence_ok
fence_ok-older key lease now s h = ground arith

settled-FenceRefused : (o : Option (Option Text)) → FenceRefused (settled o)
unfolding settled
settled-FenceRefused none = tt
settled-FenceRefused (some c) = refl

module _ (env : Env) where
  write-FenceRefused :
      (key : ScannedKey) (body : ScannedBody) (ctx : OperationContext) (time : Schedule) (s : Fake)
      (expected : Text) (lease : Lock)
      → ctx.precondition ≡ overwrite (some expected) (some lease)
      → fence_ok key.key (some lease) time.now s ≡ false
      → SameData (write_scanned env key body ctx time s).1 s
        × FenceRefused (write_scanned env key body ctx time s).0
  write-FenceRefused key body ctx time s expected lease p f =
      elim (write_scanned-cases env key body ctx time s) [
        | inl e ↦ rw e (record { store = refl; locks = refl; fence = refl }, tt)
        | inr (inl e) ↦ rw e (record { store = refl; locks = refl; fence = refl }, tt)
        | inr (inr e) ↦ rw e (
            unfold attempt after_section write_section in
            rw p
              (rw f (record { store = refl; locks = refl; fence = refl }, settled-FenceRefused _)))
      ]

  -- A lease that a later `lock` of its key has superseded writes nothing, after any calls in
  -- between: the data stays as it is, and a call that returns says `STALE` with reason `FENCE`.
  pub write-superseded :
      (key : ScannedKey) (body : ScannedBody) (ctx : OperationContext) (time : Schedule)
      (ttl now ttl' now' : ℕ) (token token' : Text) (s s1 s2 s3 s4 : Fake) (lease lease' : Lock)
      (expected : Text)
      → lock key.key ttl now token s ≡ (some lease, s1)
      → Reach env s1 s2
      → lock key.key ttl' now' token' s2 ≡ (some lease', s3)
      → Reach env s3 s4
      → ctx.precondition ≡ overwrite (some expected) (some lease)
      → SameData (write_scanned env key body ctx time s4).1 s4
        × FenceRefused (write_scanned env key body ctx time s4).0
  write-superseded key body ctx time ttl now ttl' now' token token' s s1 s2 s3 s4 lease lease'
        expected l r l' r' p =
      let g = lock-grants key.key ttl now token s s1 lease l in
      let g' = lock-grants key.key ttl' now' token' s2 s3 lease' l' in
      write-FenceRefused key body ctx time s4 expected lease p (
        fence_ok-older key.key lease time.now s4
          (omega (arith, Reach-FenceLe env r key.key, Reach-FenceLe env r' key.key)))
