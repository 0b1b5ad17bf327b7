-- ===== src/Migrate/Store.antt =====
-- What migrate/migrate.py takes from the backend that it migrates to, and from the clocks and the
-- random source.
use knokeep.Prelude.{ℕ, Text, Bytes, Bool, Option, none, some, List, ◌≡◌, ◌⊎◌}
use knokeep.Types.{
  Env, sha256_hex, Blob, WriteResult, Lock, OperationContext, Precondition, create_only, overwrite,
}
use knokeep.Gate.Marker.{ScannedKey, ScannedBody}

-- `lock`: a lease, a `BackendBusyError`, or another exception.
pub data LockAnswer : Type 0 where
  locked : Lock → LockAnswer
  lock_busy lock_raised : LockAnswer

-- The calls on a state `S`, where `none` is an exception. Exceptions of `unlock` are suppressed by
-- every caller, and its answer is not read.
pub record Target (S : Type 0) : Type 0 where
  pub list : S → Option (List Text)
  pub read : Text → S → Option (Option Blob)
  pub write : ScannedKey → ScannedBody → OperationContext → S → Option WriteResult × S
  pub lock : Text → ℕ → S → LockAnswer × S
  pub unlock : Lock → S → S
  pub renew : Lock → ℕ → S → Option Bool × S
  -- `time.time`, in ticks
  pub wall : S → ℕ × S
  -- `time.monotonic`, in ticks
  pub monotonic : S → ℕ × S
  -- `secrets.token_bytes(16)`
  pub nonce : S → Bytes × S
  -- `uuid.uuid4().hex`
  pub uuid : S → Text × S

-- `S` holds this blob under a key.
abbrev pub View : Type 0 → Type 0
View S = Text → S → Option Blob

abbrev pub Creates : Precondition → Type 0
Creates create_only = Unit {0}
Creates (overwrite none lease) = Unit {0}
Creates (overwrite (some expected) lease) = ⊥

-- What the store contract promises of the calls (design/store_backend_contract.md): a read shows
-- what is held; a write changes at most its own key, to its own body, and as a create only if the
-- key was absent; nothing else changes what is held.
pub record IsTarget (env : Env) {S : Type 0} (t : Target S) (view : View S) : Type 0 where
  pub reads : (k : Text) (s : S) (o : Option Blob) → t.read k s ≡ some o → o ≡ view k s
  pub writes :
      (k : ScannedKey) (b : ScannedBody) (c : OperationContext) (s : S) (j : Text)
      → (view j (t.write k b c s).1 ≡ view j s)
        ⊎ ((k.key ≡ j)
            × (Creates c.precondition → view j s ≡ none)
            × (view j (t.write k b c s).1
                ≡ some (record { body = b.body; version_hash = sha256_hex env b.body })))
  pub locks : (k : Text) (ttl : ℕ) (s : S) (j : Text) → view j (t.lock k ttl s).1 ≡ view j s
  pub unlocks : (l : Lock) (s : S) (j : Text) → view j (t.unlock l s) ≡ view j s
  pub renews : (l : Lock) (ttl : ℕ) (s : S) (j : Text) → view j (t.renew l ttl s).1 ≡ view j s
  pub walls : (s : S) (j : Text) → view j (t.wall s).1 ≡ view j s
  pub monotonics : (s : S) (j : Text) → view j (t.monotonic s).1 ≡ view j s
  pub nonces : (s : S) (j : Text) → view j (t.nonce s).1 ≡ view j s
  pub uuids : (s : S) (j : Text) → view j (t.uuid s).1 ≡ view j s
