-- ===== src/Fake/Steps.antt =====
-- Histories of a `FakeBackend` (store/fake.py): every method call, by any callers in any order, is
-- one step. The wait of a fence-losing write changes nothing, and stands for no step.
use knokeep.Prelude.{ℕ, Text}
use knokeep.Types.{Env, Lock, OperationContext}
use knokeep.Gate.Marker.{ScannedKey, ScannedBody}
use knokeep.Fake.State.{
  Fake, inject_network_failure, inject_timeout_after_commit, inject_conflict_unknown, set_latency,
}
use knokeep.Fake.Write.{write_scanned, Schedule}
use knokeep.Fake.Lease.{lock, unlock, renew}

module _ (env : Env) where
  pub data Step (s : Fake) : Fake → Type 0 where
    wrote :
        (key : ScannedKey) (body : ScannedBody) (ctx : OperationContext) (time : Schedule)
        → Step s (write_scanned env key body ctx time s).1
    locked : (key : Text) (ttl now : ℕ) (token : Text) → Step s (lock key ttl now token s).1
    unlocked : (l : Lock) (now : ℕ) → Step s (unlock l now s).1
    renewed : (l : Lock) (ttl now : ℕ) → Step s (renew l ttl now s).1
    network_injected : (n : ℕ) → Step s (inject_network_failure n s)
    timeout_injected : (n : ℕ) → Step s (inject_timeout_after_commit n s)
    conflict_injected : (n : ℕ) → Step s (inject_conflict_unknown n s)
    latency_set : (n : ℕ) → Step s (set_latency n s)

  pub data Reach (s : Fake) : Fake → Type 0 where
    here : Reach s s
    next : {t u : Fake} → Reach s t → Step t u → Reach s u
