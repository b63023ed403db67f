-- ===== src/Examples/Headers.antt =====
-- A call whose header has the prefix `Bearer `, and runs over lines.
use mcptoolkit.Prelude.{
  none, negsuc, ◌∷◌, [], ◌≡◌, ◌≢◌, ◌⊎◌, refl, inl, true, false, some, ◌++◌, Bytes, codes, find_byte,
  contains_byte, contains_any, contains, is_prefix, beq,
}
use mcptoolkit.Prelude.Dict.{lookup}
use mcptoolkit.Auth.{
  bearer_prefix, revoke_token, validate_request, validate_token, validate_format, extract_bearer,
  member, is_expired, decode_token, decode_parts, verify_token_signature, compute_token_signature,
  xor_all, is_revoked,
}
use mcptoolkit.Auth.Base64.{base64_encode}
use mcptoolkit.Rbac.{User, check_permission, policy_grants}
use mcptoolkit.Validation.{
  contains_shell_metacharacters, contains_encoded_metacharacters, contains_one_of,
}
use mcptoolkit.Adapter.Extract.{extract_string, extract_value_span}
use mcptoolkit.Adapter.Dispatch.{
  Adapter, Hooks, called, dispatch, authenticate, authorize, route, handle_tools_call,
  authenticated_user,
}
use mcptoolkit.Adapter.Gate.{Happens}
use mcptoolkit.Adapter.Dispatch.{run, print, internal_error, send_error, handle_tools_list}
use mcptoolkit.Adapter.Replies.{error_reply}
use mcptoolkit.Adapter.Tools.{list_reply}
use mcptoolkit.Adapter.Tools.Valid.{AreTools}
use mcptoolkit.Adapter.Listing.{handle_tools_list_cases}
use mcptoolkit.Adapter.Lines.{all_due, run-printed}
use mcptoolkit.Adapter.Gate.{count_printed}
use mcptoolkit.Adapter.Bearer.{called-bearer}
use mcptoolkit.Adapter.Revoked.{calls, run-revoked}
use mcptoolkit.Adapter.Runs.{message_of}
use mcptoolkit.Auth.Requests.{Carries}
use mcptoolkit.Json.Scan.{skip_ws, parse_string, skip_value, parse_int}
use mcptoolkit.Json.Parser.{parse_message, parse, run_members, read_field}
use mcptoolkit.Examples.{call_line, toy_hmac, token, handler, hooks, adapter, clock, call_message}

-- The signature is that of `Bearer bob`.
abbrev header_hooks : Hooks
header_hooks = record hooks { extract_auth_token = λ msg. codes "Bearer bob.a0JlYXJlciBib2I=" }

abbrev strict_adapter : Adapter
strict_adapter = record adapter {
  auth_handler = record handler { config = record handler.config { require_bearer_prefix = true } };
}

abbrev bearer_bob : User
bearer_bob = authenticated_user (codes "Bearer bob")

bearer_bob_calls :
    Happens
      (called (codes "echo") (codes "{\"x\":1}") (some bearer_bob))
      (dispatch toy_hmac header_hooks strict_adapter clock call_message)
unfolding dispatch authenticate validate_request extract_bearer validate_token validate_format
    contains_byte member is_expired lookup decode_token find_byte decode_parts
    verify_token_signature compute_token_signature base64_encode xor_all is_revoked authorize
    check_permission policy_grants beq route handle_tools_call extract_string extract_value_span
    contains_shell_metacharacters contains_any contains_encoded_metacharacters contains_one_of
    contains is_prefix
bearer_bob_calls = inl refl

called-bearer_example :
    (user : User) × (rest : Bytes) × (some bearer_bob ≡ some user)
    × (user.user_id ≡ bearer_prefix ++ rest)
called-bearer_example =
    called-bearer toy_hmac header_hooks strict_adapter clock call_message (codes "echo")
      (codes "{\"x\":1}") (some bearer_bob) refl refl bearer_bob_calls

run-printed_example :
    count_printed (run toy_hmac hooks adapter ((clock, codes "{}") ∷ (clock, codes "no") ∷ []))
    ≡ all_due ((clock, codes "{}") ∷ (clock, codes "no") ∷ [])
run-printed_example =
    run-printed toy_hmac hooks adapter ((clock, codes "{}") ∷ (clock, codes "no") ∷ [])

-- The handler after a revocation of the token in the header.
abbrev revoking_adapter : Adapter
revoking_adapter = record adapter { auth_handler = revoke_token token handler }

token_is_carried : Carries false (hooks.extract_auth_token (message_of call_line)) token
token_is_carried = refl

run-revoked_example :
    calls (run toy_hmac hooks revoking_adapter ((clock, codes "no") ∷ (clock, call_line) ∷ []))
    ≡ calls (run toy_hmac hooks revoking_adapter ((clock, codes "no") ∷ []))
unfolding revoke_token
run-revoked_example =
    run-revoked toy_hmac hooks revoking_adapter ((clock, codes "no") ∷ []) [] clock call_line
      handler token [] refl refl token_is_carried

handle_tools_list_cases_example :
    (AreTools hooks.list_tools
      × (handle_tools_list hooks call_message
          ≡ print (list_reply call_message.id hooks.list_tools)))
    ⊎ ((¬ AreTools hooks.list_tools)
        × (error : Bytes) × (error ≢ [])
        × (handle_tools_list hooks call_message
            ≡ send_error call_message.id internal_error
                (codes "Invalid tool definition: " ++ error)))
handle_tools_list_cases_example = handle_tools_list_cases hooks call_message

-- The parser refuses the id of an error reply to a line that did not parse.
null_id_is_refused :
    (parse_message (some (error_reply none (negsuc 32699) (codes "Parse error"))) 1000).valid
    ≡ false
unfolding error_reply parse_message parse skip_ws run_members parse_string read_field beq skip_value
    parse_int
null_id_is_refused = refl
