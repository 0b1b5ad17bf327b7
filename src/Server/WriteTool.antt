-- ===== src/Server/WriteTool.antt =====
-- `_tool_knokeep_write` (mcp/server.py): one write through the gate, under a lease of its own for an
-- update.
use knokeep.Gate.Objects.{PreconditionObj, bytes_obj, context, create_only_obj, str_obj}
use knokeep.Gate.Persist.{persist, validate_write}
use knokeep.Gate.Platform.{Platform}
use knokeep.Migrate.Lease.{outcome_of, overwriting}
use knokeep.Migrate.Store.{LockAnswer, Target, lock_busy, lock_raised, locked}
use knokeep.Prelude.{
  Bytes, Dict, List, Option, Text, [], codes, is_surrogate, lookup, none, some, utf8_encode, ℕ,
  ◌>>=◌, ◌∷◌, if◌then◌else◌, ◌++◌,
}
use knokeep.Server.Handle.{Arg, ToolEnd, bad_input, gave, null_arg, other_arg, str_arg, tool_raised}
use knokeep.Types.{
  CommitClass, Env, ErrorKind, WriteResult, busy, default_auth, error, exists, ok, secret_blocked,
  stale, commit_class,
}

-- The dict of `_write_result_to_dict`.
pub record ResultDict : Type 0 where
  pub commit_class : CommitClass
  pub status : Text
  pub hash : Option (Option Text)
  pub kind : Option ErrorKind
  pub labels : Option (List Text)

unfoldable pub blocked_labels : ErrorKind → List Text → Option (List Text)
blocked_labels secret_blocked labels = some labels
blocked_labels _ labels = none

-- `_write_result_to_dict`
unfoldable pub write_result_to_dict : WriteResult → ResultDict
unfolding blocked_labels commit_class
write_result_to_dict (ok h) = record {
  commit_class = commit_class (ok h);
  status = codes "OK";
  hash = some (some h);
  kind = none;
  labels = none;
}
write_result_to_dict (stale current reason) = record {
  commit_class = commit_class (stale current reason);
  status = codes "STALE";
  hash = some current;
  kind = none;
  labels = none;
}
write_result_to_dict (exists h) = record {
  commit_class = commit_class (exists h);
  status = codes "EXISTS";
  hash = some (some h);
  kind = none;
  labels = none;
}
write_result_to_dict (error kind labels) = record {
  commit_class = commit_class (error kind labels);
  status = codes "ERROR";
  hash = none;
  kind = some kind;
  labels = blocked_labels kind labels;
}

-- `_require_str`, where `none` is a `ToolInputError`
unfoldable pub require_str : Option Arg → Option Text
require_str (some (str_arg t)) = some t
require_str _ = none

-- `_optional_str`, where the outer `none` is a `ToolInputError`
unfoldable pub optional_str : Option Arg → Option (Option Text)
optional_str none = some none
optional_str (some null_arg) = some none
optional_str (some (str_arg t)) = some (some t)
optional_str (some other_arg) = none

-- What the arguments ask for, once they are accepted.
pub record Asked : Type 0 where
  pub key : Text
  pub doc_type : Text
  pub expected_hash : Option Text
  pub raw : Bytes

-- 30 seconds, in ticks of a millisecond
abbrev pub write_lease_ttl : ℕ
write_lease_ttl = 30000

-- `str.encode("utf-8")`, which raises at a surrogate
unfoldable pub encode_strict : Text → Option Bytes
unfolding is_surrogate
encode_strict [] = some []
encode_strict (c ∷ s) =
    let rest = encode_strict s in
    if is_surrogate c then none else rest >>= (λ bytes. some (utf8_encode (c ∷ []) ++ bytes))

-- `base64.b64decode` with `validate=True`, and `json.dumps` of the payload, are parameters; `none` is an
-- exception.
module _ (p : Platform) (env : Env) (b64decode : Text → Option Bytes)
    (dumps : ResultDict → Option Text) {S : Type 0} (target : Target S) where
  -- Exactly one of the two bodies. `some none` is the exception of an encoding.
  unfoldable pub raw_bytes : Option Text → Option Text → Option (Option Bytes)
  unfolding encode_strict
  raw_bytes (some body) (some b64) = none
  raw_bytes (some body) none = some (encode_strict body)
  raw_bytes none (some b64) = b64decode b64 >>= (λ raw. some (some raw))
  raw_bytes none none = none

  unfoldable pub asked : Dict Arg → Option (Option Asked)
  unfolding require_str optional_str raw_bytes
  asked args = require_str (lookup (codes "key") args) >>= (λ key.
      require_str (lookup (codes "doc_type") args) >>= (λ doc_type.
        optional_str (lookup (codes "expected_hash") args) >>= (λ expected_hash.
          optional_str (lookup (codes "body") args) >>= (λ body.
            optional_str (lookup (codes "body_b64") args) >>= (λ b64. raw_bytes body b64 >>= (λ raw.
              some (
                raw >>= (λ bytes. some (record {
                  key = key;
                  doc_type = doc_type;
                  expected_hash = expected_hash;
                  raw = bytes;
                })))))))))

  unfoldable pub payload_of : WriteResult → ToolEnd
  unfolding write_result_to_dict
  payload_of r = gave (record {
    status = some (write_result_to_dict r).status;
    text = dumps (write_result_to_dict r);
  })

  unfoldable pub end_of : Option WriteResult → ToolEnd
  unfolding payload_of
  end_of none = tool_raised
  end_of (some r) = payload_of r

  -- `gate.persist` with a fresh context
  unfoldable pub persist_asked : Asked → PreconditionObj → S → Option WriteResult × S
  persist_asked a pre s =
      let (op, s1) = target.uuid s in
      let (nonce, s2) = target.nonce s1 in
      let (g, t) =
        persist p env target.write nonce (str_obj a.key) (bytes_obj a.raw)
          (context default_auth pre op) (str_obj a.doc_type) s2 in
      (outcome_of g, t)

  unfoldable pub under_lease : Asked → Text → LockAnswer → S → ToolEnd × S
  unfolding payload_of end_of persist_asked
  under_lease a expected lock_busy s = (payload_of (error busy []), s)
  under_lease a expected lock_raised s = (tool_raised, s)
  under_lease a expected (locked lease) s =
      let (result, t) = persist_asked a (overwriting expected lease) s in
      (end_of result, target.unlock lease t)

  -- A request that the gate would refuse takes no lease.
  unfoldable pub update_valid : Asked → Text → Option WriteResult → S → ToolEnd × S
  unfolding under_lease payload_of
  update_valid a expected (some refusal) s = (payload_of refusal, s)
  update_valid a expected none s =
      let (answer, t) = target.lock a.key write_lease_ttl s in under_lease a expected answer t

  unfoldable pub write_asked : Asked → Option Text → S → ToolEnd × S
  unfolding update_valid persist_asked end_of
  write_asked a none s = let (result, t) = persist_asked a create_only_obj s in (end_of result, t)
  write_asked a (some expected) s =
      update_valid a expected
        (validate_write p (str_obj a.key) (bytes_obj a.raw) (str_obj a.doc_type) (str_obj expected))
        s

  unfoldable pub write_or_reject : Option (Option Asked) → S → ToolEnd × S
  unfolding write_asked
  write_or_reject none s = (bad_input, s)
  write_or_reject (some none) s = (tool_raised, s)
  write_or_reject (some (some a)) s = write_asked a a.expected_hash s

  -- `_tool_knokeep_write`
  unfoldable pub knokeep_write : Dict Arg → S → ToolEnd × S
  unfolding write_or_reject asked
  knokeep_write args s = write_or_reject (asked args) s
