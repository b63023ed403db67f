-- ===== src/Examples.antt =====
-- Runs of the modelled code on concrete inputs, and the theorems applied to them.
pub mod Services
pub mod Headers
pub mod Defences
pub mod Replies
pub mod Conversations
use mcptoolkit.Prelude.{
  suc, c_str, ◌≤◌, ◌<◌, ◌^◌, find_byte, contains_byte, contains_any, is_prefix, ◌≡◌, ◌≢◌, ◌↔◌, refl,
  true, false, not, ◌&&◌, none, some, [], ◌∷◌, ◌++◌, if◌then◌else◌, inl, length, replicate, Bytes,
  codes, beq, pos, negsuc, ltb_ℤ, arith, contains,
}
use mcptoolkit.Prelude.Dict.{lookup, has}
use mcptoolkit.Json.Message.{Message, blank}
use mcptoolkit.Json.Scan.{
  string_end, quote, parse_int, skip_container, is_digit, skip_ws, parse_string, skip_value,
}
use mcptoolkit.Json.Scan.Shapes.{skip_container_too_deep}
use mcptoolkit.Json.Builder.{escape_all, to_string}
use mcptoolkit.Json.Builder.Decimal.{parse_int-to_string}
use mcptoolkit.Json.Builder.Escape.{string_end-escape_all}
use mcptoolkit.Json.Builder.Unescape.{unescape, plain, unescape-escape_all}
use mcptoolkit.Json.Parser.{
  Step, parse, parse_message, members, run_members, read_field, read_error_field,
  parse_error_object, close_error, object_at,
}
use mcptoolkit.Json.Parser.Total.{Shrinks}
use mcptoolkit.Json.Parser.Readers.{object_loops_total}
use mcptoolkit.Json.Parser.Spans.{IsWellFormed, parse_message-IsWellFormed}
use mcptoolkit.Auth.{
  AuthHandler, Hmac, new_handler, register_token, reset_failures, is_locked_out, decode_parts,
  validate_token, validate_format, xor_all, is_revoked, member, is_expired, revoke_token,
  validate_request, decode_token, compute_token_signature, verify_token_signature,
}
use mcptoolkit.Auth.Base64.{base64_encode, base64_decode}
use mcptoolkit.Auth.Base64.RoundTrip.{base64_decode-base64_encode}
use mcptoolkit.Auth.Requests.{Accepts, validate_request_iff}
use mcptoolkit.Auth.Tokens.{registers, apply_all, revoke_token-refuses}
use mcptoolkit.Auth.Lockout.{fail_times, is_locked_out_after}
use mcptoolkit.Auth.Signatures.{IsTokenOf, verify_token_signature_iff, decode_token_iff}
use mcptoolkit.Rbac.{
  Role, ResourceAccess, User, AccessControl, new_control, register_resource, update_resource_owner,
  get_resource, policy_grants, check_permission, can_access_resource, can_access_resource_by_id,
  deny,
}
use mcptoolkit.Rbac.Decisions.{
  IsGranted, MayAccess, check_permission_iff, can_access_resource_iff,
  can_access_resource_by_id_agrees,
}
use mcptoolkit.Rbac.Registry.{get_resource-update_resource_owner}
use mcptoolkit.Validation.{
  ToolValidationRules, Regex, matched, unmatched, contains_shell_metacharacters,
  contains_encoded_metacharacters, contains_one_of, escape_shell_argument, validate_by_rules,
}
use mcptoolkit.Validation.Shell.{shell_word, unquoted, shell_word-escape_shell_argument}
use mcptoolkit.Validation.Rules.{IsAdmitted, validate_by_rules_iff}
use mcptoolkit.Adapter.Replies.{error_reply}
use mcptoolkit.Adapter.Replies.Error.{IsErrorResponse, parse_message-error_reply}
use mcptoolkit.Adapter.Dispatch.{
  Adapter, Hooks, called, Clock, authenticate, authorize, route, handle_tools_call, dispatch,
  authenticated_user,
}
use mcptoolkit.Adapter.Extract.{extract_string, extract_value_span}
use mcptoolkit.Adapter.Gate.{
  Happens, IsCleared, dispatch-IsCleared, count_printed, expects_reply, dispatch-printed,
}

abbrev pub call_line : Bytes
call_line =
    codes
      "{\"jsonrpc\":\"2.0\",\"id\":7,\"method\":\"tools/call\",\"params\":{\"name\":\"echo\",\"arguments\":{\"x\":1}}}"

call_line_valid : (parse_message (some call_line) 1000).valid ≡ true
unfolding parse_message parse skip_ws run_members parse_string read_field beq skip_value parse_int
call_line_valid = refl

parse_message-IsWellFormed_example : IsWellFormed call_line (parse_message (some call_line) 1000)
parse_message-IsWellFormed_example = parse_message-IsWellFormed call_line 1000 call_line_valid

object_loops_total_example :
    ((step : Step) × (members read_error_field (suc (length call_line)) blank call_line ≡ some step)
      × (parse_error_object blank (b'{' ∷ call_line) ≡ close_error step)
      × (Shrinks call_line step))
    × ((step : Step) × (members read_field (suc (length call_line)) blank call_line ≡ some step)
        × (object_at blank (b'{' ∷ call_line) ≡ step)
        × (Shrinks call_line step))
object_loops_total_example = object_loops_total blank call_line

error_reply_fits : length (error_reply (some (pos 7)) (negsuc 32602) (codes "Say \"no\"")) ≤ 200
unfolding error_reply
error_reply_fits = omega arith

parse_message-error_reply_example :
    IsErrorResponse
      (parse_message (some (error_reply (some (pos 7)) (negsuc 32602) (codes "Say \"no\""))) 200)
      (pos 7)
      (negsuc 32602)
      (escape_all (c_str (codes "Say \"no\"")))
parse_message-error_reply_example =
    parse_message-error_reply (pos 7) (negsuc 32602) (codes "Say \"no\"") 200 (omega arith)
      (omega arith) error_reply_fits

unescape-escape_all_example :
    unescape plain (escape_all (34 ∷ 92 ∷ 10 ∷ 7 ∷ [])) ≡ some (34 ∷ 92 ∷ 10 ∷ 7 ∷ [])
unescape-escape_all_example = unescape-escape_all (34 ∷ 92 ∷ 10 ∷ 7 ∷ [])

small_text : length (base64_encode (codes "ab")) < 2 ^ 31
unfolding base64_encode
small_text = omega arith

base64_decode-base64_encode_example :
    base64_decode (base64_encode (codes "ab")) ≡ (true, codes "ab")
base64_decode-base64_encode_example =
    base64_decode-base64_encode (codes "ab") (omega arith) small_text

-- Key and text, one behind the other, in place of the HMAC.
abbrev pub toy_hmac : Hmac
toy_hmac key text = key ++ text

abbrev pub handler : AuthHandler
handler = record new_handler {
  config = record {
    min_token_length = 4;
    require_bearer_prefix = false;
    max_failed_attempts = pos 2;
    token_ttl = pos 60;
  };
  configured = true;
  token_secret = codes "k";
}

abbrev pub token : Bytes
token = codes "bob.a2JvYg=="

token_is_good : decode_token toy_hmac handler token 0 ≡ codes "bob"
unfolding decode_token find_byte decode_parts verify_token_signature compute_token_signature
    base64_encode xor_all is_revoked member is_expired lookup
token_is_good = refl

validate_request_iff_example :
    ((validate_request handler token 0).allowed ≡ true) ↔ ((t : Bytes) × Accepts handler token 0 t)
validate_request_iff_example = validate_request_iff handler token 0

decode_token_iff_example :
    (decode_token toy_hmac handler token 0 ≡ codes "bob")
    ↔ IsTokenOf toy_hmac handler 0 token (codes "bob")
decode_token_iff_example =
    decode_token_iff toy_hmac handler token (codes "bob") 0 (omega arith) (λ e. cc)

is_locked_out_after_example :
    (is_locked_out (fail_times 2 (codes "a") (reset_failures (codes "a") handler)) (codes "a")
      ≡ not (ltb_ℤ (pos 2) handler.config.max_failed_attempts))
    × (is_locked_out (fail_times 2 (codes "a") (reset_failures (codes "a") handler)) (codes "b")
        ≡ is_locked_out handler (codes "b"))
unfolding beq
is_locked_out_after_example =
    is_locked_out_after handler (codes "a") (codes "b") 2 refl refl (omega arith)

abbrev bob : User
bob = authenticated_user (codes "bob")

abbrev note : ResourceAccess
note = record {
  resource_id = codes "note";
  owner_id = codes "bob";
  group_ids = [];
  is_public = false;
}

abbrev readers : AccessControl
readers = record {
  policy = record { required_role = Role.user; action = codes "tools/call" } ∷ [];
  resources = (codes "note", note) ∷ [];
}

can_access_resource_iff_example :
    ((can_access_resource readers bob note (codes "tools/call")).allowed ≡ true)
    ↔ MayAccess readers bob note (codes "tools/call")
can_access_resource_iff_example = can_access_resource_iff readers bob note (codes "tools/call")

shell_word-escape_shell_argument_example :
    shell_word unquoted (escape_shell_argument (codes "it's $HOME")) ≡ some (codes "it's $HOME")
unfolding contains_byte
shell_word-escape_shell_argument_example =
    shell_word-escape_shell_argument (codes "it's $HOME") refl

-- A pattern that matches itself only.
abbrev same_text : Regex
same_text pattern value = if beq pattern value then matched else unmatched

abbrev copy_rules : ToolValidationRules
copy_rules = record {
  tool_name = codes "copy";
  required_args =
      record {
        arg_name = codes "from";
        pattern = codes "a";
        allow_shell_metacharacters = false;
        allow_path_traversal = false;
      }
      ∷ [];
  optional_args = [];
  strict_mode = true;
}

validate_by_rules_iff_example :
    (validate_by_rules same_text copy_rules ((codes "from", codes "a") ∷ []) ≡ none)
    ↔ IsAdmitted same_text copy_rules ((codes "from", codes "a") ∷ [])
validate_by_rules_iff_example =
    validate_by_rules_iff same_text copy_rules ((codes "from", codes "a") ∷ [])

abbrev pub hooks : Hooks
hooks = record {
  extract_auth_token = λ msg. token;
  list_tools = [];
  call_tool = λ name args who. record { text = args; is_error = false };
}

abbrev pub adapter : Adapter
adapter = record {
  auth_handler = handler;
  rbac = readers;
  auth_enabled = true;
  rbac_enabled = true;
}

abbrev pub clock : Clock
clock = record { at_validate = 0; at_decode = 0 }

abbrev call_params : Bytes
call_params = codes "{\"name\":\"echo\",\"arguments\":{\"x\":1}}"

abbrev pub call_message : Message
call_message = record blank {
  method = some (codes "tools/call");
  method_len = 10;
  id = some (pos 7);
  params_start = some call_params;
  params_len = length call_params;
  is_request = true;
  valid = true;
}

echo_is_called :
    Happens
      (called (codes "echo") (codes "{\"x\":1}") (some bob))
      (dispatch toy_hmac hooks adapter clock call_message)
unfolding dispatch authenticate validate_request validate_token validate_format contains_byte member
    is_expired lookup decode_token find_byte decode_parts verify_token_signature
    compute_token_signature base64_encode xor_all is_revoked authorize check_permission
    policy_grants beq route handle_tools_call extract_string extract_value_span
    contains_shell_metacharacters contains_any contains_encoded_metacharacters contains_one_of
    contains is_prefix
echo_is_called = inl refl

dispatch-IsCleared_example :
    (user : User) × IsCleared toy_hmac hooks adapter clock call_message
      (codes "{\"x\":1}")
      (some bob)
      user
dispatch-IsCleared_example =
    dispatch-IsCleared toy_hmac hooks adapter clock call_message (codes "echo") (codes "{\"x\":1}")
      (some bob) refl echo_is_called
