-- ===== src/Tests/Samples.antt =====
-- A concrete environment and platform, and short documents.
use knokeep.Prelude.{ℕ, ◌+◌, ◌%◌, Text, Bytes, codes, false, some, [], ◌∷◌, ◌++◌, length, leb, ◌&&◌}
use knokeep.Prelude.Int.{pos}
use knokeep.Types.{Env, Lock, OperationContext, create_only, overwrite, default_auth}
use knokeep.Gate.Marker.{ScannedKey, ScannedBody}
use knokeep.Gate.Platform.{Platform}
use knokeep.Gate.Objects.{
  Obj, CtxObj, context, create_only_obj, str_obj, int_obj, float_obj, lock_obj,
}
use knokeep.Fake.Write.{Schedule}

-- 63 digits and one for the length: a stand-in for a digest, with its shape.
abbrev pub env : Env
env = record {
  sha256_hexdigest = λ body.
      codes "000000000000000000000000000000000000000000000000000000000000000"
      ++ ((b'0' + length body % 10) ∷ []);
  hmac_sha256 = λ key message. key ++ message;
  process_key = codes "k";
}

abbrev pub platform : Platform
platform = record {
  Float = ℕ;
  float = λ n. n;
  float_sub = λ a b. 0;
  float_mul = λ a b. 0;
  float_div = λ a b. 0;
  log2 = λ a. 0;
  float_ge = λ a b. false;
  nfkc = λ s. s;
  lower = λ s. s;
  is_format = λ c. false;
  isprintable = λ c. leb 32 c && leb c 126;
  isupper = λ c. leb b'A' c && leb c b'Z';
  islower = λ c. leb b'a' c && leb c b'z';
  isdigit = λ c. leb b'0' c && leb c b'9';
  isalnum = λ c. leb b'0' c && leb c b'z';
}

abbrev pub key : Text
key = codes "a/b"

abbrev pub nonce : Bytes
nonce = 7 ∷ []

abbrev pub old_body : Bytes
old_body = codes "v1"

abbrev pub new_body : Bytes
new_body = codes "v22"

abbrev pub hash_of_length : ℕ → Text
hash_of_length n =
    codes "000000000000000000000000000000000000000000000000000000000000000" ++ ((b'0' + n) ∷ [])

abbrev pub sealed_key : ScannedKey
sealed_key = record {
  key = key;
  nonce = nonce;
  marker = codes "kkey" ++ (0 ∷ (key ++ (0 ∷ nonce)));
}

abbrev pub sealed_old : ScannedBody
sealed_old = record {
  body = old_body;
  nonce = nonce;
  marker = codes "kbody" ++ (0 ∷ (old_body ++ (0 ∷ nonce)));
}

abbrev pub sealed_new : ScannedBody
sealed_new = record {
  body = new_body;
  nonce = nonce;
  marker = codes "kbody" ++ (0 ∷ (new_body ++ (0 ∷ nonce)));
}

abbrev pub creating : OperationContext
creating = record { auth = default_auth; precondition = create_only; operation_id = codes "1" }

abbrev pub lease_of : ℕ → Text → Lock
lease_of fence token = record { key = key; token = token; expiry_epoch = 110; fence = fence }

abbrev pub updating : Lock → OperationContext
updating lease = record {
  auth = default_auth;
  precondition = overwrite (some (hash_of_length 2)) (some lease);
  operation_id = codes "2";
}

abbrev pub at_time : ℕ → Schedule
at_time now = record { now = now; monotonic = now; moments = [] }

abbrev pub create_obj : CtxObj
create_obj = context default_auth create_only_obj (codes "1")

abbrev pub lease_obj : Obj
lease_obj = lock_obj (str_obj key) (str_obj (codes "t1")) (float_obj (pos 110)) (int_obj (pos 1))
