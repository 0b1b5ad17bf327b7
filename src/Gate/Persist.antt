-- ===== src/Gate/Persist.antt =====
-- `validate_write` and `persist` of store/gate.py.
use knokeep.Prelude.{
  ℕ, ◌-◌, ◌^◌, Text, Bytes, codes, text_eq, Bool, true, false, not, ◌||◌, ◌&&◌, Option, none, some,
  List, [], ◌∷◌, ◌++◌, length, leb, ltb, all, if◌then◌else◌, utf8_encode, ◌==◌,
}
use knokeep.Prelude.Int.{pos, negsuc}
use knokeep.Types.{
  AuthContext, Env, WriteResult, error, ErrorKind, invalid_argument, scan_failure, secret_blocked,
  Lock, OperationContext, create_only, overwrite,
}
use knokeep.Gate.Marker.{ScannedKey, ScannedBody, make_scanned_key, make_scanned_body}
use knokeep.Gate.Platform.{Platform, utf8_decode}
use knokeep.Gate.Regex.{is_empty}
use knokeep.Gate.Patterns.{one_of}
use knokeep.Gate.Scan.{secret_scan, dedupe, contains_label, max_scan_bytes}
use knokeep.Gate.Keys.{valid_key_shape, is_hex}
use knokeep.Gate.Generation.{extract_generation}
use knokeep.Gate.Objects.{
  Obj, none_obj, str_obj, bytes_obj, bytearray_obj, int_obj, float_obj, lock_obj, create_only_obj,
  other_precondition, overwrite_obj, CtxObj, not_a_context, context,
}

abbrev pub max_fence : ℕ
max_fence = 2 ^ 63 - 1

abbrev pub is_none {ℓ} : {A : Type ℓ} → Option A → Bool
is_none none = true
is_none (some a) = false

-- `_HASH_RE.fullmatch`
unfoldable pub is_valid_hash_text : Text → Bool
is_valid_hash_text h = length h == 64 && all is_hex h

unfoldable pub state_doc_types : List Text
state_doc_types =
    codes "system_state"
    ∷ codes "session_log"
    ∷ codes "HANDOFF"
    ∷ codes "journal"
    ∷ codes "conflict"
    ∷ []

abbrev pub error_of : ErrorKind → WriteResult
error_of kind = error kind []

-- The bytes of a `bytes` or `bytearray` object.
unfoldable pub bytes_of : Obj → Option Bytes
bytes_of (bytes_obj b) = some b
bytes_of (bytearray_obj b) = some b
bytes_of _ = none

-- An expected hash that passes step 1: absent, or well formed.
unfoldable pub hash_of_obj : Obj → Option (Option Text)
hash_of_obj none_obj = some none
hash_of_obj (str_obj h) = if is_valid_hash_text h then some (some h) else none
hash_of_obj _ = none

-- The number of a fence in range; `bool` is another constructor.
unfoldable pub fence_of : Obj → Option ℕ
fence_of (int_obj (pos n)) = if leb n max_fence then some n else none
fence_of _ = none

-- The expiry of an `int` or `float` field. An expiry before the epoch is before every clock value,
-- as 0 is, and no backend reads the field.
unfoldable pub expiry_of : Obj → Option ℕ
expiry_of (int_obj (pos n)) = some n
expiry_of (int_obj (negsuc n)) = some 0
expiry_of (float_obj (pos n)) = some n
expiry_of (float_obj (negsuc n)) = some 0
expiry_of _ = none

unfoldable pub lock_of : Text → Text → Text → Option ℕ → Option ℕ → Option Lock
lock_of key k token (some expiry) (some fence) =
    if text_eq k key && not (is_empty token)
    then some (record { key = k; token = token; expiry_epoch = expiry; fence = fence })
    else none
lock_of _ _ _ _ _ = none

-- `_is_well_formed_lease`: the lease as a `Lock` for this key, if it is one.
unfoldable pub well_formed_lease : Obj → Obj → Option Lock
unfolding lock_of expiry_of fence_of
well_formed_lease (lock_obj (str_obj k) (str_obj token) expiry fence) (str_obj key) =
    lock_of key k token (expiry_of expiry) (fence_of fence)
well_formed_lease _ _ = none

module _ (p : Platform) where
  -- `_is_acceptable_text`
  unfoldable pub is_acceptable_text : Bytes → Bool
  is_acceptable_text raw = elim (utf8_decode raw) [
    | none ↦ false
    | some s ↦ all (λ c. p.isprintable c || one_of (9 ∷ 10 ∷ 13 ∷ []) c) s
  ]

  -- Step 5 on the labels of key and body; `none` is an exception of the scanner.
  unfoldable pub scan_verdict : Option (List Text) → Option (List Text) → Option WriteResult
  scan_verdict none body = some (error_of scan_failure)
  scan_verdict (some key) none = some (error_of scan_failure)
  scan_verdict (some key) (some body) =
      if is_empty (key ++ body) then none else some (error secret_blocked (dedupe (key ++ body)))

  -- The checks on a typed key, body and document type, from the shape of the key to the scan.
  unfoldable pub validate_content : Text → Bytes → Text → Option WriteResult
  unfolding scan_verdict
  validate_content key raw doc_type =
      if ltb max_scan_bytes (length raw)
      then some (error_of invalid_argument)
      else if not (contains_label doc_type state_doc_types) && is_none (extract_generation raw)
      then some (error_of invalid_argument)
      else if not (is_acceptable_text raw)
      then some (error_of invalid_argument)
      else scan_verdict (secret_scan p (utf8_encode key)) (secret_scan p raw)

  unfoldable pub validate_body : Text → Text → Option Bytes → Option WriteResult
  validate_body key doc_type none = some (error_of invalid_argument)
  validate_body key doc_type (some raw) = validate_content key raw doc_type

  unfoldable pub validate_key : Obj → Text → Option Bytes → Option WriteResult
  unfolding validate_body
  validate_key (str_obj key) doc_type raw =
      if valid_key_shape key
      then validate_body key doc_type raw
      else some (error_of invalid_argument)
  validate_key _ doc_type raw = some (error_of invalid_argument)

  unfoldable pub validate_doc_type : Obj → Obj → Obj → Option WriteResult
  unfolding validate_key bytes_of
  validate_doc_type key raw (str_obj doc_type) = validate_key key doc_type (bytes_of raw)
  validate_doc_type key raw _ = some (error_of invalid_argument)

  -- `none` lets the write proceed.
  unfoldable pub validate_write : Obj → Obj → Obj → Obj → Option WriteResult
  unfolding validate_doc_type hash_of_obj
  validate_write key raw doc_type expected_hash = elim (hash_of_obj expected_hash) [
    | none ↦ some (error_of invalid_argument)
    | some h ↦ validate_doc_type key raw doc_type
  ]

-- The end of a call of the gate: refused before any I/O, or what the backend's `write` gives.
pub data Gated (O : Type 0) : Type 0 where
  refused : WriteResult → Gated O
  sent : O → Gated O

-- The key and the body of validated arguments.
abbrev pub text_or_empty : Obj → Text
text_or_empty (str_obj s) = s
text_or_empty _ = []

abbrev pub bytes_or_empty : Option Bytes → Bytes
bytes_or_empty none = []
bytes_or_empty (some b) = b

abbrev pub hash_or_none : Option (Option Text) → Option Text
hash_or_none none = none
hash_or_none (some h) = h

module _ (p : Platform) (env : Env) {O S : Type 0}
    (backend_write : ScannedKey → ScannedBody → OperationContext → S → O × S) where
  -- Validation, the wrapping under one nonce, and the call of the adapter.
  unfoldable pub submit : Bytes → Obj → Obj → Obj → Obj → OperationContext → S → Gated O × S
  unfolding bytes_of
  submit nonce key raw doc_type expected_hash ctx s =
      elim (validate_write p key raw doc_type expected_hash) [
        | some err ↦ (refused err, s)
        | none ↦
            let (o, t) =
              backend_write (make_scanned_key env (text_or_empty key) nonce)
                (make_scanned_body env (bytes_or_empty (bytes_of raw)) nonce) ctx s in
            (sent o, t)
      ]

  unfoldable pub persist_overwrite :
      Bytes → Obj → Obj → Obj → AuthContext → Obj → Text → Option Lock → S → Gated O × S
  unfolding submit hash_of_obj
  persist_overwrite nonce key raw doc_type auth expected_hash op none s =
      (refused (error_of invalid_argument), s)
  persist_overwrite nonce key raw doc_type auth expected_hash op (some lease) s =
      submit nonce key raw doc_type expected_hash
        (record {
          auth = auth;
          precondition = overwrite (hash_or_none (hash_of_obj expected_hash)) (some lease);
          operation_id = op;
        })
        s

  -- `nonce` is what `secrets.token_bytes(16)` gives.
  unfoldable pub persist : Bytes → Obj → Obj → CtxObj → Obj → S → Gated O × S
  unfolding submit persist_overwrite well_formed_lease
  persist nonce key raw not_a_context doc_type s = (refused (error_of invalid_argument), s)
  persist nonce key raw (context auth other_precondition op) doc_type s =
      (refused (error_of invalid_argument), s)
  persist nonce key raw (context auth create_only_obj op) doc_type s =
      submit nonce key raw doc_type none_obj
        (record { auth = auth; precondition = create_only; operation_id = op }) s
  persist nonce key raw (context auth (overwrite_obj expected_hash lease) op) doc_type s =
      persist_overwrite nonce key raw doc_type auth expected_hash op (well_formed_lease lease key) s
