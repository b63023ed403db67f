-- ===== src/Adapter/Dispatch.antt =====
-- `MCPAdapter::dispatch`, its handlers and `run` in mcptoolkit/src/mcp_adapter.cpp.
use mcptoolkit.Prelude.{
  ℕ, Bool, true, false, ◌||◌, ◌&&◌, not, Option, none, some, List, [], ◌∷◌, ◌++◌, ltb, ◌==◌,
  if◌then◌else◌, take, Bytes, codes, beq, empty, ℤ, negsuc,
}
use mcptoolkit.Json.Message.{Message, span}
use mcptoolkit.Json.Parser.{parse_message, default_max_bytes, parse_error}
use mcptoolkit.Auth.{AuthHandler, Hmac, AuthConfig, configure, validate_request, decode_token}
use mcptoolkit.Rbac.{AccessControl, User, Role, check_permission}
use mcptoolkit.Validation.{contains_shell_metacharacters, contains_encoded_metacharacters}
use mcptoolkit.Adapter.Extract.{extract_string, extract_value_span}
use mcptoolkit.Adapter.Replies.{ToolResult, error_reply, initialize_reply, call_reply}
use mcptoolkit.Adapter.Tools.{ToolDefinition, first_error, list_reply}

-- The fields of the adapter that `dispatch` reads.
pub record Adapter : Type 0 where
  pub auth_handler : AuthHandler
  pub rbac : AccessControl
  pub auth_enabled : Bool
  pub rbac_enabled : Bool

-- The virtual methods, which a server overrides; a null user says that authentication is off.
pub record Hooks : Type 0 where
  pub extract_auth_token : Message → Bytes
  pub list_tools : List ToolDefinition
  pub call_tool : Bytes → Bytes → Option User → ToolResult

-- The default of `extract_auth_token`.
unfoldable pub extract_auth_token : Message → Bytes
extract_auth_token msg =
    elim (extract_string (codes "auth_token") (span msg.params_start msg.params_len)) [
      | none ↦ []
      | some (start, len) ↦ take len start
    ]

unfoldable pub configure_auth : AuthConfig → Adapter → Adapter
configure_auth config a = record a {
  auth_handler = configure config a.auth_handler;
  auth_enabled = true;
}

-- `rbac()` hands out the access control, and switches it on.
unfoldable pub enable_rbac : Adapter → Adapter
enable_rbac a = record a { rbac_enabled = true }

-- What a message makes happen: a call of `call_tool`, or a line on the standard output.
pub data Event : Type 0 where
  called : Bytes → Bytes → Option User → Event
  printed : Bytes → Event

abbrev pub print : Bytes → List Event
print line = printed (line ++ (10 ∷ [])) ∷ []

abbrev pub internal_error : ℤ
internal_error = negsuc 32602

abbrev pub invalid_params : ℤ
invalid_params = negsuc 32601

abbrev pub method_not_found : ℤ
method_not_found = negsuc 32600

unfoldable pub send_error : Option ℤ → ℤ → Bytes → List Event
send_error id error_code message = print (error_reply id error_code message)

unfoldable pub handle_initialize : Message → List Event
handle_initialize msg = print (initialize_reply msg.id)

unfoldable pub handle_tools_list : Hooks → Message → List Event
handle_tools_list hooks msg =
    let error = first_error hooks.list_tools in
    if empty error
    then print (list_reply msg.id hooks.list_tools)
    else send_error msg.id internal_error (codes "Invalid tool definition: " ++ error)

abbrev pub max_params_size : ℕ
max_params_size = 1048576

-- Where the arguments are, or `{}`.
unfoldable pub arguments_json : Bytes → Bytes
arguments_json params = elim (extract_value_span (codes "arguments") params) [
  | none ↦ codes "{}"
  | some (start, len) ↦ take len start
]

-- The part of `handle_tools_call` behind the tool's name.
unfoldable pub call_named : Hooks → Message → Option User → Bytes → Bytes → List Event
call_named hooks msg who tool_name args_json =
    if contains_shell_metacharacters args_json || contains_encoded_metacharacters args_json
    then send_error msg.id invalid_params
        (codes "Arguments contain invalid characters (potential injection)")
    else called tool_name args_json who
      ∷ print (call_reply msg.id (hooks.call_tool tool_name args_json who))

-- A missing name and an empty one are one error.
unfoldable pub call_from : Hooks → Message → Option User → Bytes → List Event
unfolding call_named arguments_json
call_from hooks msg who params = elim (extract_string (codes "name") params) [
  | none ↦ send_error msg.id invalid_params (codes "Missing tool name")
  | some (start, len) ↦
      if len == 0
      then send_error msg.id invalid_params (codes "Missing tool name")
      else call_named hooks msg who (take len start) (arguments_json params)
]

unfoldable pub handle_tools_call : Hooks → Message → Option User → List Event
unfolding call_from
handle_tools_call hooks msg who = elim msg.params_start [
  | none ↦ send_error msg.id invalid_params (codes "Invalid params")
  | some start ↦
      if msg.params_len == 0
      then send_error msg.id invalid_params (codes "Invalid params")
      else if ltb max_params_size msg.params_len
      then send_error msg.id invalid_params (codes "Parameters exceed maximum size (1 MB)")
      else call_from hooks msg who (take msg.params_len start)
]

-- `User current_user`, before it is authenticated.
abbrev pub nobody : User
nobody = record { user_id = []; role = Role.guest; group_ids = []; authenticated = false }

abbrev pub authenticated_user : Bytes → User
authenticated_user user_id = record {
  user_id = user_id;
  role = Role.user;
  group_ids = [];
  authenticated = true;
}

-- The two readings of the clock that a dispatch makes: in `validate_request` and in `decode_token`.
pub record Clock : Type 0 where
  pub at_validate : ℕ
  pub at_decode : ℕ

-- The authentication step: an error message, or the user.
pub data Identity : Type 0 where
  refused : Bytes → Identity
  known : User → Identity

unfoldable pub authenticate : Hmac → Hooks → Adapter → Clock → Message → Identity
authenticate hmac hooks a clock msg =
    if not a.auth_enabled
    then known nobody
    else (let token = hooks.extract_auth_token msg in
        if empty token
        then refused (codes "Authentication required")
        else (let auth = validate_request a.auth_handler token clock.at_validate in
            if not auth.allowed
            then refused auth.error
            else (let user_id = decode_token hmac a.auth_handler token clock.at_decode in
                if empty user_id
                then refused (codes "Invalid token: failed to decode user identity")
                else known (authenticated_user user_id))))

-- The methods, once the caller is authenticated and authorized.
unfoldable pub route : Hooks → Adapter → Message → User → List Event
route hooks a msg who =
    let method = span msg.method msg.method_len in
    if beq method (codes "initialize")
    then handle_initialize msg
    else if beq method (codes "tools/list")
    then handle_tools_list hooks msg
    else if beq method (codes "tools/call")
    then handle_tools_call hooks msg (if a.auth_enabled then some who else none)
    else send_error msg.id method_not_found (codes "Method not found")

unfoldable pub authorize : Hooks → Adapter → Message → User → List Event
authorize hooks a msg who =
    if a.rbac_enabled && a.auth_enabled
    then if not (check_permission a.rbac who (span msg.method msg.method_len))
      then send_error msg.id internal_error (codes "Unauthorized")
      else route hooks a msg who
    else route hooks a msg who

-- A response and a notification are ignored.
unfoldable pub dispatch : Hmac → Hooks → Adapter → Clock → Message → List Event
dispatch hmac hooks a clock msg = if not msg.is_request then [] else elim msg.id [
  | none ↦ []
  | some id ↦ elim (authenticate hmac hooks a clock msg) [
    | refused error ↦ send_error msg.id internal_error error
    | known who ↦ authorize hooks a msg who
  ]
]

-- `if (line.back() == '\r') line.pop_back()`
unfoldable pub strip_return : Bytes → Bytes
strip_return [] = []
strip_return (c ∷ []) = if c == 13 then [] else c ∷ []
strip_return (c ∷ d ∷ s) = c ∷ strip_return (d ∷ s)

-- One round of `run`.
unfoldable pub handle_line : Hmac → Hooks → Adapter → Clock → Bytes → List Event
handle_line hmac hooks a clock line =
    if empty line
    then []
    else (let msg = parse_message (some (strip_return line)) default_max_bytes in
        if not msg.valid
        then send_error none parse_error (codes "Parse error")
        else dispatch hmac hooks a clock msg)

-- `run` on the lines of the standard input, each with the clock at its dispatch.
unfoldable pub run : Hmac → Hooks → Adapter → List (Clock × Bytes) → List Event
run hmac hooks a [] = []
run hmac hooks a ((clock, line) ∷ lines) =
    handle_line hmac hooks a clock line ++ run hmac hooks a lines
