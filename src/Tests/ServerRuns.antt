-- ===== src/Tests/ServerRuns.antt =====
-- The server (mcp/server.py) at concrete messages, and its theorems there.
use knokeep.Server.Writes.{Admitted, knokeep_write-Kept, knokeep_write-Admitted}
use knokeep.Prelude.{
  Bytes, lookup, utf8_encode, Dict, List, Option, Text, [], codes, if◌then◌else◌, none, refl, some,
  text_eq, ℕ, ◌+◌, ◌∷◌, ◌≡◌, ◌⊎◌,
}
use knokeep.Server.Handle.{
  str_arg, Arg, Message, Reply, RequestId, Session, ToolEnd, acknowledged, call_arguments,
  call_tools, checked, dispatch, error_reply, finished, gave, good_id, handle, handle_tools_call,
  invalid_request, new_session, no_arguments, no_id, num_id, object, params, reply_to, run_tool,
  serve, tool_done, with_id, with_method, with_params,
}
use knokeep.Server.WriteTool.{
  Asked, ResultDict, asked, knokeep_write, optional_str, raw_bytes, require_str, encode_strict,
}
use knokeep.Tests.Samples.{env, platform, key, old_body, hash_of_length}
use knokeep.Migrate.LeaseDoc.{JsonLib}
use knokeep.Migrate.OnFake.{World, fake_target, fake_view, fake_target-IsTarget}
use knokeep.Fake.State.{init}
use knokeep.Types.{sha256_hex}
use knokeep.Server.Lifecycle.{Handshake, serve-Handshake}

-- One tool, which counts its calls.
abbrev counting : Text → Option (Dict Arg → ℕ → ToolEnd × ℕ)
counting name =
    if text_eq name (codes "knokeep_write")
    then some (λ args n.
      (gave (record { status = some (codes "ERROR"); text = some (codes "{}") }), n + 1))
    else none

abbrev message : RequestId → Text → Message
message id method = object (record {
  id = id;
  jsonrpc = some (codes "2.0");
  method = some method;
  members = params (some (codes "knokeep_write")) no_arguments;
})

abbrev one : RequestId
one = good_id (num_id (codes "1"))

abbrev early : List Message
early = message no_id (codes "notifications/initialized") ∷ message one (codes "tools/call") ∷ []

abbrev complete : List Message
complete =
    message one (codes "initialize")
    ∷ message no_id (codes "notifications/initialized")
    ∷ message one (codes "tools/call")
    ∷ []

run : List Message → Session → ℕ → List (Option Reply) × Session × ℕ
unfolding serve handle checked with_id with_method with_params dispatch acknowledged call_tools
    handle_tools_call call_arguments run_tool tool_done finished reply_to text_eq
run ms session n = serve counting ms session n

early_run :
    serve counting early new_session 0
    ≡ (none ∷ some (error_reply (some (num_id (codes "1"))) invalid_request) ∷ [], new_session, 0)
unfolding run
early_run = refl

complete_run : (serve counting complete new_session 0).2 ≡ 1
unfolding run
complete_run = refl

serve-Handshake_example : ((serve counting complete new_session 0).2 ≡ 0) ⊎ Handshake complete
serve-Handshake_example = serve-Handshake counting complete 0

-- A request of the acknowledgement's method, with an `id`, gets no reply.
silent_run :
    (handle counting (message one (codes "notifications/initialized")) new_session 0).0 ≡ none
unfolding run
silent_run = refl

-- A create of a new key through the tool, on a `FakeBackend`.
abbrev no_json : JsonLib
no_json = record { loads = (λ t. none); dumps = (λ d. []) }

abbrev dumps_any : ResultDict → Option Text
dumps_any d = some d.status

abbrev no_b64 : Text → Option Bytes
no_b64 t = none

abbrev backend : World
backend = record { fake = init; now = 100; drawn = 0 }

abbrev write_args : Text → Dict Arg
write_args body =
    (codes "key", str_arg key)
    ∷ (codes "doc_type", str_arg (codes "system_state"))
    ∷ (codes "expected_hash", str_arg (hash_of_length 2))
    ∷ (codes "body", str_arg body)
    ∷ []

abbrev secret_ask : Asked
secret_ask = record {
  key = key;
  doc_type = codes "system_state";
  expected_hash = some (hash_of_length 2);
  raw = codes "AKIAABCDEFGHIJKL";
}

asked_run :
    asked platform env no_b64 dumps_any (fake_target env) (write_args (codes "AKIAABCDEFGHIJKL"))
    ≡ some (some secret_ask)
unfolding asked require_str optional_str encode_strict raw_bytes lookup text_eq utf8_encode
asked_run = refl

knokeep_write-Admitted_example :
    Admitted platform env no_b64 dumps_any
      (fake_target env)
      (asked platform env no_b64 dumps_any (fake_target env) (write_args old_body))
      backend
      (knokeep_write platform env no_b64 dumps_any
        (fake_target env)
        (write_args old_body)
        backend).1
knokeep_write-Admitted_example =
    knokeep_write-Admitted platform env no_b64 dumps_any (fake_target env) (write_args old_body)
      backend

knokeep_write-Kept_example :
    (fake_view key
        (knokeep_write platform env no_b64 dumps_any
          (fake_target env)
          (write_args old_body)
          backend).1
      ≡ fake_view key backend)
    ⊎ ((a : Asked) × (asked platform env no_b64 dumps_any (fake_target env) (write_args old_body)
          ≡ some (some a))
        × (a.key ≡ key)
        × (a.expected_hash ≡ none → fake_view key backend ≡ none)
        × (fake_view key
              (knokeep_write platform env no_b64 dumps_any
                (fake_target env)
                (write_args old_body)
                backend).1
            ≡ some (record { body = a.raw; version_hash = sha256_hex env a.raw })))
knokeep_write-Kept_example =
    knokeep_write-Kept platform env no_b64 dumps_any (fake_target env) no_json fake_view
      (fake_target-IsTarget env) (write_args old_body) backend key
