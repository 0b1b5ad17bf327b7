-- ===== src/Fake/State.antt =====
-- The state of `FakeBackend` (store/fake.py), its faults, and the reads.
use knokeep.Prelude.{
  ℕ, ◌+◌, ◌-◌, Bytes, Text, text_eq, Bool, true, false, Option, none, some, [], ltb, if◌then◌else◌,
  Dict, lookup,
}
use knokeep.Types.{Blob, Caps}

-- The fence state of a key. A field that the source's inner dict lacks reads as the default that
-- every use gives it: `None`, or 0.
pub record FenceState : Type 0 where
  pub owner_token : Option Text
  pub owner_expiry : ℕ
  pub owner_fence : ℕ
  pub last_accepted_fence : ℕ

abbrev pub no_fence : FenceState
no_fence = record { owner_token = none; owner_expiry = 0; owner_fence = 0; last_accepted_fence = 0 }

pub record FaultCounts : Type 0 where
  pub network : ℕ
  pub timeout : ℕ
  pub conflict : ℕ

pub record Fake : Type 0 where
  pub store : Dict (Bytes × Text)
  pub locks : Dict (Text × ℕ)
  pub fence : Dict FenceState
  pub faults : FaultCounts
  pub latency_s : ℕ

abbrev pub init : Fake
init = record {
  store = [];
  locks = [];
  fence = [];
  faults = record { network = 0; timeout = 0; conflict = 0 };
  latency_s = 0;
}

unfoldable pub inject_network_failure : ℕ → Fake → Fake
inject_network_failure times s = record s {
  faults = record s.faults { network = s.faults.network + times };
}

unfoldable pub inject_timeout_after_commit : ℕ → Fake → Fake
inject_timeout_after_commit times s = record s {
  faults = record s.faults { timeout = s.faults.timeout + times };
}

unfoldable pub inject_conflict_unknown : ℕ → Fake → Fake
inject_conflict_unknown times s = record s {
  faults = record s.faults { conflict = s.faults.conflict + times };
}

unfoldable pub set_latency : ℕ → Fake → Fake
set_latency seconds s = record s { latency_s = seconds }

pub data Fault : Type 0 where
  network_fault timeout_fault conflict_fault : Fault

fault_count : Fault → FaultCounts → ℕ
fault_count network_fault c = c.network
fault_count timeout_fault c = c.timeout
fault_count conflict_fault c = c.conflict

set_fault_count : Fault → ℕ → FaultCounts → FaultCounts
set_fault_count network_fault n c = record c { network = n }
set_fault_count timeout_fault n c = record c { timeout = n }
set_fault_count conflict_fault n c = record c { conflict = n }

unfoldable pub consume_fault : Fault → Fake → Bool × Fake
unfolding fault_count set_fault_count
consume_fault name s =
    let n = fault_count name s.faults in
    if ltb 0 n
    then (true, record s { faults = set_fault_count name (n - 1) s.faults })
    else (false, s)

unfoldable pub capabilities : Caps
capabilities = record {
  atomic = true;
  cas = true;
  lock = true;
  durable = false;
  remote = false;
  fence = true;
}

abbrev blob_of : Option (Bytes × Text) → Option Blob
blob_of none = none
blob_of (some (body, version_hash)) = some (record { body = body; version_hash = version_hash })

unfoldable pub read : Text → Fake → Option Blob
read key s = blob_of (lookup key s.store)

abbrev pub hash_of : Option (Bytes × Text) → Option Text
hash_of none = none
hash_of (some (body, h)) = some h

-- `==` and `!=` between optional texts
abbrev pub opt_eq : Option Text → Option Text → Bool
opt_eq none none = true
opt_eq none (some b) = false
opt_eq (some a) none = false
opt_eq (some a) (some b) = text_eq a b

abbrev pub fence_or : Option FenceState → FenceState
fence_or none = no_fence
fence_or (some fs) = fs

-- `self._fence.get(key)`, with the defaults
unfoldable pub fence_at : Text → Fake → FenceState
fence_at key s = fence_or (lookup key s.fence)
