-- ===== src/Server/Handle.antt =====
-- `KnoKeepServer.handle` (mcp/server.py): the handshake, and the dispatch of a message to the tools.
use knokeep.Prelude.{
  Bool, Dict, List, Option, Text, [], codes, false, if◌then◌else◌, none, some, text_eq, true, ◌&&◌,
  ◌||◌, ◌∷◌,
}

-- An `id` that a reply can carry: a string, or a finite number by its text.
pub data MessageId : Type 0 where
  str_id num_id : Text → MessageId

-- The `id` of a message: absent, `null`, of another type (`bool`, a list, an object, or a number that
-- is not finite), or good.
pub data RequestId : Type 0 where
  no_id null_id bad_id : RequestId
  good_id : MessageId → RequestId

-- An argument of a tool, where `none` is no string and not `null`.
pub data Arg : Type 0 where
  null_arg : Arg
  str_arg : Text → Arg
  other_arg : Arg

-- `arguments`: absent or `null`, an object, or another value.
pub data Arguments : Type 0 where
  no_arguments : Arguments
  arguments : Dict Arg → Arguments
  bad_arguments : Arguments

-- `params`: absent or `null`, an object, of which `name` (if it is a string) and `arguments` are read,
-- or another value.
pub data Params : Type 0 where
  no_params : Params
  params : (name : Option Text) → Arguments → Params
  bad_params : Params

-- A decoded object; a member that is absent or no string is `none`.
pub record Request : Type 0 where
  pub id : RequestId
  pub jsonrpc : Option Text
  pub method : Option Text
  pub members : Params

pub data Message : Type 0 where
  not_an_object : Message
  object : Request → Message

-- What is read of a tool's payload: its `status`, and its text in JSON, where `none` is an exception.
pub record Payload : Type 0 where
  pub status : Option Text
  pub text : Option Text

-- How a tool ends: with a payload, a `ToolInputError` or another exception.
pub data ToolEnd : Type 0 where
  gave : Payload → ToolEnd
  bad_input tool_raised : ToolEnd

pub data Content : Type 0 where
  payload_text : Text → Content
  tool_exception : Content

pub data Result : Type 0 where
  initialize_result empty_result tools_result : Result
  tool_result : Content → (is_error : Bool) → Result

pub data Code : Type 0 where
  invalid_request invalid_params method_not_found internal_error : Code

pub data Reply : Type 0 where
  result_reply : MessageId → Result → Reply
  error_reply : Option MessageId → Code → Reply

-- The server's own state.
pub record Session : Type 0 where
  pub initialized : Bool
  pub awaiting_initialized_ack : Bool

abbrev pub new_session : Session
new_session = record { initialized = false; awaiting_initialized_ack = false }

-- What a method gives: a result, or an error.
pub data Done : Type 0 where
  done : Result → Done
  failed : Code → Done

-- The reply to a request, and none to a notification.
unfoldable pub reply_to : Option MessageId → Done → Option Reply
reply_to none d = none
reply_to (some id) (done r) = some (result_reply id r)
reply_to (some id) (failed c) = some (error_reply (some id) c)

abbrev pub is_text : Option Text → Text → Bool
is_text none t = false
is_text (some s) t = text_eq s t

unfoldable pub finished : Text → Payload → Option Text → Done
finished name payload none = failed internal_error
finished name payload (some text) = done (
    tool_result (payload_text text)
      (text_eq name (codes "knokeep_write") && is_text payload.status (codes "ERROR")))

unfoldable pub tool_done : Text → ToolEnd → Done
unfolding finished
tool_done name (gave payload) = finished name payload payload.text
tool_done name bad_input = failed invalid_params
tool_done name tool_raised = done (tool_result tool_exception true)

-- The tools are a table, and work on a state `S`.
module _ {S : Type 0} (tools : Text → Option (Dict Arg → S → ToolEnd × S)) where
  unfoldable pub run_tool : Text → Option (Dict Arg → S → ToolEnd × S) → Dict Arg → S → Done × S
  unfolding tool_done
  run_tool name none args s = (failed invalid_params, s)
  run_tool name (some tool) args s = let (end, t) = tool args s in (tool_done name end, t)

  unfoldable pub call_arguments : Text → Arguments → S → Done × S
  unfolding run_tool
  call_arguments name no_arguments s = run_tool name (tools name) [] s
  call_arguments name (arguments args) s = run_tool name (tools name) args s
  call_arguments name bad_arguments s = (failed invalid_params, s)

  -- `_handle_tools_call`
  unfoldable pub handle_tools_call : Params → S → Done × S
  unfolding call_arguments
  handle_tools_call no_params s = (failed invalid_params, s)
  handle_tools_call bad_params s = (failed invalid_params, s)
  handle_tools_call (params none args) s = (failed invalid_params, s)
  handle_tools_call (params (some name) args) s = call_arguments name args s

  unfoldable pub call_tools : Option MessageId → Params → Session → S → Option Reply × Session × S
  unfolding handle_tools_call reply_to
  call_tools id members session s =
      let (d, t) = handle_tools_call members s in
      if session.initialized
      then (reply_to id d, session, t)
      else (reply_to id (failed invalid_request), session, s)

  -- `notifications/initialized`
  unfoldable pub acknowledged : Session → Session
  acknowledged session =
      if session.awaiting_initialized_ack
      then record { initialized = true; awaiting_initialized_ack = false }
      else session

  unfoldable pub dispatch :
      Text → Option MessageId → Params → Session → S → Option Reply × Session × S
  unfolding call_tools acknowledged reply_to
  dispatch method id members session s =
      if text_eq method (codes "initialize")
      then (
        reply_to id (done initialize_result),
        record session { awaiting_initialized_ack = true },
        s,
      )
      else if text_eq method (codes "notifications/initialized")
          || text_eq method (codes "initialized")
      then (none, acknowledged session, s)
      else if text_eq method (codes "ping")
      then (reply_to id (done empty_result), session, s)
      else if text_eq method (codes "tools/list")
      then (reply_to id (done tools_result), session, s)
      else if text_eq method (codes "tools/call")
      then call_tools id members session s
      else (reply_to id (failed method_not_found), session, s)

  unfoldable pub with_params :
      Text → Option MessageId → Params → Session → S → Option Reply × Session × S
  unfolding dispatch
  with_params method id bad_params session s = (reply_to id (failed invalid_params), session, s)
  with_params method id members session s = dispatch method id members session s

  unfoldable pub with_method :
      Option Text → Option MessageId → Params → Session → S → Option Reply × Session × S
  unfolding with_params
  with_method none id members session s = (reply_to id (failed invalid_request), session, s)
  with_method (some method) id members session s = with_params method id members session s

  unfoldable pub with_id : Option MessageId → Request → Session → S → Option Reply × Session × S
  unfolding with_method
  with_id id r session s =
      if is_text r.jsonrpc (codes "2.0")
      then with_method r.method id r.members session s
      else (reply_to id (failed invalid_request), session, s)

  unfoldable pub checked : RequestId → Request → Session → S → Option Reply × Session × S
  unfolding with_id
  checked no_id r session s = with_id none r session s
  checked null_id r session s = (some (error_reply none invalid_request), session, s)
  checked bad_id r session s = (some (error_reply none invalid_request), session, s)
  checked (good_id id) r session s = with_id (some id) r session s

  -- `handle`
  unfoldable pub handle : Message → Session → S → Option Reply × Session × S
  unfolding checked
  handle not_an_object session s = (some (error_reply none invalid_request), session, s)
  handle (object r) session s = checked r.id r session s

  -- The messages of a connection, one after the other.
  unfoldable pub serve : List Message → Session → S → List (Option Reply) × Session × S
  unfolding handle
  serve [] session s = ([], session, s)
  serve (m ∷ ms) session s =
      let (reply, session', t) = handle m session s in
      let (replies, session2, u) = serve ms session' t in (reply ∷ replies, session2, u)
