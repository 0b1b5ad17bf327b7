-- ===== src/Migrate/LeaseDoc.antt =====
-- The control document of a migration (migrate/migrate.py): its schema and its body. `json` is a
-- parameter.
use knokeep.Prelude.{
  ℕ, Text, Bytes, codes, text_eq, Bool, true, false, ◌&&◌, ◌||◌, Option, none, some, List, [], ◌∷◌,
  ◌++◌, ◌>>=◌, any, all, if◌then◌else◌, Dict, lookup, utf8_encode, elem, map,
}
use knokeep.Prelude.Int.{ℤ, pos}
use knokeep.Types.{Blob}
use knokeep.Gate.Platform.{utf8_decode}

-- A value of a document; numbers are ticks, and lists and objects are told apart from nothing else.
pub data Json : Type 0 where
  null_json other_json : Json
  bool_json : Bool → Json
  num_json : ℤ → Json
  str_json : Text → Json

-- `json.loads`, where the outer `none` is an exception and the inner one a value that is no `dict`;
-- and `json.dumps` with sorted keys.
pub record JsonLib : Type 0 where
  pub loads : Text → Option (Option (Dict Json))
  pub dumps : Dict Json → Text

pub data JsonType : Type 0 where
  str_type num_type null_type : JsonType

-- `isinstance`, where a `bool` is none of them
unfoldable pub has_type : Json → JsonType → Bool
has_type (str_json t) str_type = true
has_type (num_json n) num_type = true
has_type null_json null_type = true
has_type _ _ = false

abbrev pub Schema : Type 0
Schema = Dict (List JsonType)

unfoldable pub lease_doc_required : Schema
lease_doc_required =
    (codes "kind", str_type ∷ [])
    ∷ (codes "owner_id", str_type ∷ [])
    ∷ (codes "write_id", str_type ∷ [])
    ∷ (codes "started_at", num_type ∷ [])
    ∷ (codes "status", str_type ∷ [])
    ∷ []

unfoldable pub lease_doc_optional : Schema
lease_doc_optional =
    (codes "expires_at", num_type ∷ null_type ∷ [])
    ∷ (codes "heartbeat_at", num_type ∷ null_type ∷ [])
    ∷ (codes "prior_owner", str_type ∷ null_type ∷ [])
    ∷ (codes "took_over_from", str_type ∷ null_type ∷ [])
    ∷ (codes "released_at", num_type ∷ null_type ∷ [])
    ∷ []

abbrev pub lease_doc_kind : Text
lease_doc_kind = codes "knokeep-migration-lease"

abbrev pub held : Text
held = codes "held"

abbrev pub released : Text
released = codes "released"

abbrev names : {V : Type 0} → Dict V → List Text
names d = map (λ f. f.0) d

-- `doc.get(name) == text`
abbrev pub is_text : Option Json → Text → Bool
is_text (some (str_json t)) text = text_eq t text
is_text _ text = false

abbrev fits : Option Json → List JsonType → Bool
fits none types = true
fits (some v) types = any (λ t. has_type v t) types

unfoldable pub is_lease_doc : Dict Json → Bool
unfolding has_type lease_doc_required lease_doc_optional
is_lease_doc doc =
    let schema = lease_doc_required ++ lease_doc_optional in
    is_text (lookup (codes "kind") doc) lease_doc_kind
    && (all (λ k. elem k (names doc)) (names lease_doc_required)
        && (all (λ k. elem k (names schema)) (names doc)
            && (all (λ f. fits (lookup f.0 doc) f.1) schema
                && (is_text (lookup (codes "status") doc) held
                    || is_text (lookup (codes "status") doc) released))))

abbrev checked_doc : Option (Option (Dict Json)) → Option (Dict Json)
checked_doc none = none
checked_doc (some none) = none
checked_doc (some (some doc)) = if is_lease_doc doc then some doc else none

-- `_parse_lease_doc`
unfoldable pub parse_lease_doc : JsonLib → Option Blob → Option (Dict Json)
unfolding is_lease_doc
parse_lease_doc json none = none
parse_lease_doc json (some blob) = checked_doc (utf8_decode blob.body >>= (λ t. json.loads t))

-- The fields of a document that this module writes.
pub record LeaseDoc : Type 0 where
  pub owner_id : Text
  pub write_id : Text
  pub started_at : ℕ
  pub status : Text
  pub expires_at : ℕ
  pub heartbeat_at : ℕ
  pub prior_owner : Option Text
  pub took_over_from : Option Text
  pub released_at : Option ℕ

abbrev text_or_null : Option Text → Json
text_or_null none = null_json
text_or_null (some t) = str_json t

abbrev num_or_null : Option ℕ → Json
num_or_null none = null_json
num_or_null (some n) = num_json (pos n)

unfoldable pub lease_doc_body : JsonLib → LeaseDoc → Bytes
lease_doc_body json d = utf8_encode (
    json.dumps (
      (codes "kind", str_json lease_doc_kind)
      ∷ (codes "owner_id", str_json d.owner_id)
      ∷ (codes "write_id", str_json d.write_id)
      ∷ (codes "started_at", num_json (pos d.started_at))
      ∷ (codes "status", str_json d.status)
      ∷ (codes "expires_at", num_json (pos d.expires_at))
      ∷ (codes "heartbeat_at", num_json (pos d.heartbeat_at))
      ∷ (codes "prior_owner", text_or_null d.prior_owner)
      ∷ (codes "took_over_from", text_or_null d.took_over_from)
      ∷ (codes "released_at", num_or_null d.released_at)
      ∷ []))

-- `doc.get("owner_id")` of a document of this schema
abbrev pub text_of : Option Json → Option Text
text_of (some (str_json t)) = some t
text_of _ = none

-- `float(doc.get("expires_at") or 0.0)`; a time before the epoch is before every clock value, as 0
-- is.
abbrev pub time_of : Option Json → ℕ
time_of (some (num_json (pos n))) = n
time_of _ = 0
