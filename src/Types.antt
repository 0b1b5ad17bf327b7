-- ===== src/Types.antt =====
-- store/types.py, store/backend.py (`Lock`) and store/context.py: the values that the gate and the
-- backends exchange.
use knokeep.Prelude.{ℕ, Bytes, Text, codes, Bool, Option, none, some, List}

-- What the store takes from `hashlib`, `hmac` and `secrets`: the hexadecimal SHA-256 digest, the
-- HMAC of a key and a message, and the process key.
pub record Env : Type 0 where
  pub sha256_hexdigest : Bytes → Text
  pub hmac_sha256 : Bytes → Bytes → Bytes
  pub process_key : Bytes

unfoldable pub sha256_hex : Env → Bytes → Text
sha256_hex env body = env.sha256_hexdigest body

pub record Blob : Type 0 where
  pub body : Bytes
  pub version_hash : Text

pub record Caps : Type 0 where
  pub atomic : Bool
  pub cas : Bool
  pub lock : Bool
  pub durable : Bool
  pub remote : Bool
  pub fence : Bool

pub data ErrorKind : Type 0 where
  not_found permission network corruption scan_failure unsupported : ErrorKind
  invalid_argument busy timeout_after_commit conflict_unknown secret_blocked : ErrorKind

-- `STALE` carries the current hash, if the key is there, and the reason, if one is given.
pub data WriteResult : Type 0 where
  ok : Text → WriteResult
  stale : Option Text → Option Text → WriteResult
  exists : Text → WriteResult
  error : ErrorKind → List Text → WriteResult

abbrev pub fence_reason : Option Text
fence_reason = some (codes "FENCE")

pub data CommitClass : Type 0 where
  committed definitely_not_committed outcome_unknown : CommitClass

error_class : ErrorKind → CommitClass
error_class timeout_after_commit = outcome_unknown
error_class conflict_unknown = outcome_unknown
error_class _ = definitely_not_committed

unfoldable pub commit_class : WriteResult → CommitClass
unfolding error_class
commit_class (ok h) = committed
commit_class (stale h reason) = definitely_not_committed
commit_class (exists h) = definitely_not_committed
commit_class (error kind labels) = error_class kind

-- `expiry_epoch` is in ticks of the clock, of any fixed resolution.
pub record Lock : Type 0 where
  pub key : Text
  pub token : Text
  pub expiry_epoch : ℕ
  pub fence : ℕ

pub record AuthContext : Type 0 where
  pub mode : Text
  pub principal : Option Text
  pub tenant_id : Option Text
  pub user_id : Option Text

-- Python does not hold `Overwrite` to its annotations: both fields may be `None` at run time.
pub data Precondition : Type 0 where
  create_only : Precondition
  overwrite : Option Text → Option Lock → Precondition

pub record OperationContext : Type 0 where
  pub auth : AuthContext
  pub precondition : Precondition
  pub operation_id : Text

abbrev pub default_auth : AuthContext
default_auth = record { mode = codes "shared"; principal = none; tenant_id = none; user_id = none }

auth_or_default : Option AuthContext → AuthContext
auth_or_default none = default_auth
auth_or_default (some auth) = auth

-- `uuid4().hex` is the first argument of both.
unfoldable pub create_ctx : Text → Option AuthContext → OperationContext
unfolding auth_or_default
create_ctx uuid auth = record {
  auth = auth_or_default auth;
  precondition = create_only;
  operation_id = uuid;
}

unfoldable pub overwrite_ctx : Text → Text → Lock → Option AuthContext → OperationContext
unfolding auth_or_default
overwrite_ctx uuid expected_hash lease auth = record {
  auth = auth_or_default auth;
  precondition = overwrite (some expected_hash) (some lease);
  operation_id = uuid;
}
