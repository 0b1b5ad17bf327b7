-- ===== src/Server/Replies.antt =====
-- Which messages get a reply from `KnoKeepServer.handle` (mcp/server.py), and with which `id`.
use knokeep.Prelude.{Bool, Dict, Option, Text, none, some, true, ◌≡◌, ◌⊎◌}
use knokeep.Server.Handle.{
  Arg, MessageId, Message, Reply, RequestId, Session, ToolEnd, bad_id, error_reply, good_id,
  invalid_request, no_id, not_an_object, null_id, object, result_reply,
}
use knokeep.Server.Lifecycle.{acknowledges}

-- A reply that carries this `id`.
abbrev pub Carries : MessageId → Option Reply → Type 0
Carries id none = ⊥
Carries id (some (result_reply j r)) = j ≡ id
Carries id (some (error_reply none c)) = ⊥
Carries id (some (error_reply (some j) c)) = j ≡ id

-- What a message of this `id` may get.
abbrev pub Replied : RequestId → Message → Option Reply → Type 0
Replied no_id m reply = reply ≡ none
Replied null_id m reply = reply ≡ some (error_reply none invalid_request)
Replied bad_id m reply = reply ≡ some (error_reply none invalid_request)
Replied (good_id id) m reply = Carries id reply ⊎ ((reply ≡ none) × (acknowledges m ≡ true))

abbrev pub id_of : Message → RequestId
id_of not_an_object = bad_id
id_of (object r) = r.id

-- The reply to a method that is handled for this `id`.
abbrev Handled : Option MessageId → Bool → Option Reply → Type 0
Handled none ack reply = reply ≡ none
Handled (some id) ack reply = Carries id reply ⊎ ((reply ≡ none) × (ack ≡ true))

module _ {S : Type 0} (tools : Text → Option (Dict Arg → S → ToolEnd × S)) (session : Session)
    (s : S) where
  abbrev Answers : Option MessageId → Bool → Option Reply × Session × S → Type 0
  Answers id ack out = Handled id ack out.0
