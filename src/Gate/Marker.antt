-- ===== src/Gate/Marker.antt =====
-- `ScannedKey` and `ScannedBody` of store/gate.py: values sealed by a marker that the adapters check.
use knokeep.Prelude.{Bytes, Text, Bool, false, ◌&&◌, ◌∷◌, ◌++◌, codes, text_eq, utf8_encode}
use knokeep.Types.{Env}

pub record ScannedKey : Type 0 where
  pub key : Text
  pub nonce : Bytes
  pub marker : Bytes

pub record ScannedBody : Type 0 where
  pub body : Bytes
  pub nonce : Bytes
  pub marker : Bytes

-- Any Python object, as `verify` and the adapters tell objects apart.
pub data Sealed : Type 0 where
  scanned_key : ScannedKey → Sealed
  scanned_body : ScannedBody → Sealed
  other_object : Sealed

-- The message that is authenticated: role, NUL, payload, NUL, nonce.
unfoldable pub marker_message : Bytes → Bytes → Bytes → Bytes
marker_message role payload nonce = role ++ (0 ∷ (payload ++ (0 ∷ nonce)))

module _ (env : Env) where
  unfoldable pub compute_marker : Bytes → Bytes → Bytes → Bytes
  unfolding marker_message
  compute_marker role payload nonce =
      env.hmac_sha256 env.process_key (marker_message role payload nonce)

  -- The constructors, which only `persist` can call (it alone holds the sentinel).
  unfoldable pub make_scanned_key : Text → Bytes → ScannedKey
  make_scanned_key key nonce = record {
    key = key;
    nonce = nonce;
    marker = compute_marker (codes "key") (utf8_encode key) nonce;
  }

  unfoldable pub make_scanned_body : Bytes → Bytes → ScannedBody
  make_scanned_body body nonce = record {
    body = body;
    nonce = nonce;
    marker = compute_marker (codes "body") body nonce;
  }

  unfoldable pub verify : Sealed → Bool
  verify (scanned_key k) =
      text_eq (compute_marker (codes "key") (utf8_encode k.key) k.nonce) k.marker
  verify (scanned_body b) = text_eq (compute_marker (codes "body") b.body b.nonce) b.marker
  verify other_object = false

  unfoldable pub verify_pair : Sealed → Sealed → Bool
  verify_pair (scanned_key k) (scanned_body b) =
      verify (scanned_key k) && (verify (scanned_body b) && text_eq k.nonce b.nonce)
  verify_pair _ _ = false
