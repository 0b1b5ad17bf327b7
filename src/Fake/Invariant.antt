-- ===== src/Fake/Invariant.antt =====
-- The invariant of `FakeBackend` (store/fake.py), and that every call keeps it.
use knokeep.Prelude.{
  ℕ, ◌+◌, Bytes, Text, text_eq_iff, ◌≡◌, refl, inl, inr, true, Option, none, some, arith, lookup,
  lookup-insert, lookup-erase, Bool-cases, ◌≤◌, lookup-nil,
}
use knokeep.Types.{
  Env, sha256_hex, Lock, Precondition, create_only, overwrite, ok, stale, exists, error,
  timeout_after_commit, conflict_unknown,
}
use knokeep.Fake.State.{
  Fake, FenceState, fence_at, init, inject_network_failure, inject_timeout_after_commit,
  inject_conflict_unknown, set_latency,
}
use knokeep.Fake.Write.{
  commit, fence_ok, write_scanned, Outcome, returned, connection_error, type_error, waiting,
}
use knokeep.Fake.Lease.{lock, unlock, renew, next_fence, owns}
use knokeep.Fake.Effect.{SameData, Permits, accepts}
use knokeep.Fake.Outcomes.{WriteSpec, write_scanned-WriteSpec}
use knokeep.Fake.Steps.{
  Step, Reach, here, next, wrote, locked, unlocked, renewed, network_injected, timeout_injected,
  conflict_injected, latency_set,
}

-- Stored hashes are the hashes of the bodies; no accepted fence is above the owner's; a held lock
-- is the owner of its key's fence, with the same expiry.
pub record IsValid (env : Env) (s : Fake) : Type 0 where
  pub hashed :
      (k : Text) (body : Bytes) (h : Text)
      → lookup k s.store ≡ some (body, h)
      → h ≡ sha256_hex env body
  pub ordered : (k : Text) → (fence_at k s).last_accepted_fence ≤ (fence_at k s).owner_fence
  pub leased :
      (k token : Text) (expiry : ℕ)
      → lookup k s.locks ≡ some (token, expiry)
      → ((fence_at k s).owner_token ≡ some token) × ((fence_at k s).owner_expiry ≡ expiry)

owns-eq-some :
    (l : Lock) (now : ℕ) (o : Option (Text × ℕ))
    → owns l now o ≡ true
    → (x : ℕ) × (o ≡ some (l.token, x))
unfolding owns
owns-eq-some l now none h = cc
owns-eq-some l now (some (token, x)) h = (x, ground (arith, text_eq_iff token l.token))

-- The owner that `lock` installs.
abbrev pub granted : FenceState → Text → ℕ → FenceState
granted fs token expiry = record fs {
  owner_token = some token;
  owner_expiry = expiry;
  owner_fence = next_fence fs;
}

module _ (env : Env) where
  lock-IsValid :
      (key : Text) (ttl now : ℕ) (token : Text) (s : Fake)
      → IsValid env s
      → IsValid env (lock key ttl now token s).1
  unfolding lock fence_at
  lock-IsValid key ttl now token s v = record {
    hashed = λ k body h e. ground (arith, v.hashed k body h);
    ordered = λ k. ground (
      arith,
      v.ordered k,
      text_eq_iff key k,
      lookup-insert k key (granted (fence_at key s) token (now + ttl)) s.fence,
    );
    leased = λ k t x e. ground (
      arith,
      v.leased k t x,
      text_eq_iff key k,
      lookup-insert k key (granted (fence_at key s) token (now + ttl)) s.fence,
      lookup-insert k key (token, now + ttl) s.locks,
    );
  }

  unlock-IsValid : (l : Lock) (now : ℕ) (s : Fake) → IsValid env s → IsValid env (unlock l now s).1
  unfolding unlock fence_at
  unlock-IsValid l now s v = record {
    hashed = λ k body h e. ground (arith, v.hashed k body h);
    ordered = λ k. ground (arith, v.ordered k);
    leased = λ k t x e. ground (arith, v.leased k t x, lookup-erase k l.key s.locks);
  }

  renew-IsValid :
      (l : Lock) (ttl now : ℕ) (s : Fake) → IsValid env s → IsValid env (renew l ttl now s).1
  unfolding renew fence_at
  renew-IsValid l ttl now s v = record {
    hashed = λ k body h e. ground (arith, v.hashed k body h);
    ordered = λ k. ground (
      arith,
      v.ordered k,
      text_eq_iff l.key k,
      lookup-insert k l.key (record (fence_at l.key s) { owner_expiry = now + ttl }) s.fence,
    );
    leased = λ k t x e. elim (Bool-cases (owns l now (lookup l.key s.locks))) [
      | inl o ↦
          let (x0, e0) = owns-eq-some l now (lookup l.key s.locks) o in
          ground (
            arith,
            v.leased k t x,
            v.leased l.key l.token x0 e0,
            text_eq_iff l.key k,
            text_eq_iff l.token l.token,
            lookup-insert k l.key (record (fence_at l.key s) { owner_expiry = now + ttl }) s.fence,
            lookup-insert k l.key (l.token, now + ttl) s.locks,
          )
      | inr o ↦ ground (arith, v.leased k t x)
    ];
  }

  SameData-IsValid : (s t : Fake) → SameData t s → IsValid env s → IsValid env t
  unfolding fence_at
  SameData-IsValid s t f v = record {
    hashed = λ k body h e. v.hashed k body h (rw f.store at e);
    ordered = λ k. rw f.fence (v.ordered k);
    leased = λ k token x e. rw f.fence (v.leased k token x (rw f.locks at e));
  }

  commit-IsValid :
      (k : Text) (body : Bytes) (accepted : ℕ) (s : Fake)
      → accepted ≤ (fence_at k s).owner_fence
      → IsValid env s
      → IsValid env (commit k body (sha256_hex env body) accepted s)
  unfolding fence_at
  commit-IsValid k body accepted s a v = record {
    hashed = λ j b h e.
        ground (arith, v.hashed j b h, lookup-insert j k (body, sha256_hex env body) s.store);
    ordered = λ j. ground (
      arith,
      v.ordered j,
      text_eq_iff k j,
      lookup-insert j k (record (fence_at k s) { last_accepted_fence = accepted }) s.fence,
    );
    leased = λ j t x e. ground (
      arith,
      v.leased j t x,
      text_eq_iff k j,
      lookup-insert j k (record (fence_at k s) { last_accepted_fence = accepted }) s.fence,
    );
  }

  accepts-le-owner_fence :
      (k : Text) (pre : Precondition) (now : ℕ) (s : Fake)
      → Permits k pre now s
      → accepts pre ≤ (fence_at k s).owner_fence
  unfolding fence_ok
  accepts-le-owner_fence k create_only now s p = omega arith
  accepts-le-owner_fence k (overwrite none lease) now s p = omega arith
  accepts-le-owner_fence k (overwrite (some expected) none) now s p = omega arith
  accepts-le-owner_fence k (overwrite (some expected) (some lease)) now s p = ground arith

  module _ (k : Text) (raw : Bytes) (pre : Precondition) (now : ℕ) (s : Fake)
      (v : IsValid env s) where
    committed-IsValid :
        (t : Fake)
        → Permits k pre now s
        → SameData t (commit k raw (sha256_hex env raw) (accepts pre) s)
        → IsValid env t
    committed-IsValid t p f =
        SameData-IsValid (commit k raw (sha256_hex env raw) (accepts pre) s) t f
          (commit-IsValid k raw (accepts pre) s (accepts-le-owner_fence k pre now s p) v)

    eq-IsValid : (t : Fake) → t ≡ s → IsValid env t
    eq-IsValid t e = rw e v

    WriteSpec-IsValid :
        (o : Outcome) (t : Fake)
        → WriteSpec k raw (sha256_hex env raw) pre now s o t
        → IsValid env t
    WriteSpec-IsValid (returned (ok new)) t (e, inl (p, f)) = committed-IsValid t p f
    WriteSpec-IsValid (returned (ok new)) t (e, inr (q, p, f)) = eq-IsValid t q
    WriteSpec-IsValid (returned (stale x reason)) t f = eq-IsValid t f.0
    WriteSpec-IsValid (returned (exists x)) t f = eq-IsValid t f.0
    WriteSpec-IsValid (returned (error timeout_after_commit labels)) t f =
        committed-IsValid t f.0 f.1
    WriteSpec-IsValid (returned (error conflict_unknown labels)) t f = SameData-IsValid s t f.1 v
    WriteSpec-IsValid (returned (error kind labels)) t f = elim f [ ]
    WriteSpec-IsValid connection_error t f = SameData-IsValid s t f v
    WriteSpec-IsValid type_error t f = eq-IsValid t f
    WriteSpec-IsValid waiting t f = eq-IsValid t f.0

  -- Every call keeps the invariant, on every branch.
  pub Step-IsValid : {s t : Fake} → Step env s t → IsValid env s → IsValid env t
  Step-IsValid {s} (wrote key body ctx time) v =
      WriteSpec-IsValid key.key body.body ctx.precondition time.now s v
        (write_scanned env key body ctx time s).0 (write_scanned env key body ctx time s).1
        (write_scanned-WriteSpec env key body ctx time s)
  Step-IsValid {s} (locked key ttl now token) v = lock-IsValid key ttl now token s v
  Step-IsValid {s} (unlocked l now) v = unlock-IsValid l now s v
  Step-IsValid {s} (renewed l ttl now) v = renew-IsValid l ttl now s v
  Step-IsValid {s} (network_injected n) v =
      unfold inject_network_failure in
      SameData-IsValid s _ (record { store = refl; locks = refl; fence = refl }) v
  Step-IsValid {s} (timeout_injected n) v =
      unfold inject_timeout_after_commit in
      SameData-IsValid s _ (record { store = refl; locks = refl; fence = refl }) v
  Step-IsValid {s} (conflict_injected n) v =
      unfold inject_conflict_unknown in
      SameData-IsValid s _ (record { store = refl; locks = refl; fence = refl }) v
  Step-IsValid {s} (latency_set n) v =
      unfold set_latency in
      SameData-IsValid s _ (record { store = refl; locks = refl; fence = refl }) v

  init-IsValid : IsValid env init
  unfolding fence_at
  init-IsValid = record {
    hashed = λ k body h e. cc (lookup-nil {V = Bytes × Text} k);
    ordered = λ k. ground (arith, lookup-nil {V = FenceState} k);
    leased = λ k token x e. cc (lookup-nil {V = Text × ℕ} k);
  }

  -- In every state that calls by any callers, in any order, can reach: stored hashes are those of
  -- the bodies, no accepted fence is above the owner's, and a held lock owns its key's fence.
  pub Reach-IsValid : {t : Fake} → Reach env init t → IsValid env t
  Reach-IsValid here = init-IsValid
  Reach-IsValid (next r st) = Step-IsValid st (Reach-IsValid r)
