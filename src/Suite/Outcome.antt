-- ===== src/Suite/Outcome.antt =====
-- Which assertions of TestMcp/TestMcp.cpp the modelled library fails.
use mcptoolkit.Prelude.{
  ◌+◌, length, true, false, arith, ◌≡◌, refl, List, [], ◌∷◌, ◌++◌, codes, beq, is_prefix, contains,
  contains_any,
}
use mcptoolkit.Json.Builder.{
  start_object, end_object, add_field, add_field_number, add_object_field, close_object_field,
  add_array_field, close_array_field, add_array_element_raw, to_string,
}
use mcptoolkit.Auth.{Hmac, member}
use mcptoolkit.Validation.{
  contains_shell_metacharacters, contains_path_traversal, contains_encoded_metacharacters,
  contains_one_of, escape_shell_argument, Regex, matched, register_tool_rules, validate_arguments,
  validate_by_rules, validate_required, validate_argument, validate_optional, reject_unknown,
  arg_names,
}
use mcptoolkit.Prelude.Dict.{lookup, insert}
use mcptoolkit.Adapter.Dispatch.{Clock}
use mcptoolkit.Suite.{Assertion, Tally, assert_eq, assert_all, failed, parse_mcp_json}
use mcptoolkit.Suite.Parsing
use mcptoolkit.Suite.Building
use mcptoolkit.Suite.Serving
use mcptoolkit.Suite.Invalid
use mcptoolkit.Suite.Bounds
use mcptoolkit.Suite.Validating

-- The counters: an assertion that is counted passes or is among those that failed.
assert_all-failed :
    (assertions : List Assertion) (t : Tally)
    → ((assert_all assertions t).test_count ≡ t.test_count + length assertions)
      × ((assert_all assertions t).pass_count + length (failed assertions)
          ≡ t.pass_count + length assertions)
unfolding assert_eq
assert_all-failed [] t = (omega arith, omega arith)
assert_all-failed ((name, true) ∷ assertions) t =
    let (tests, passed) = assert_all-failed assertions (assert_eq (name, true) t) in
    (omega (arith, tests), omega (arith, passed))
assert_all-failed ((name, false) ∷ assertions) t =
    let (tests, passed) = assert_all-failed assertions (assert_eq (name, false) t) in
    (omega (arith, tests), omega (arith, passed))

parsing_passes :
    failed (
      Parsing.test_parse_initialize_request ++ Parsing.test_parse_tools_list
      ++ Parsing.test_parse_response_result ++ Parsing.test_parse_error_response
      ++ Parsing.test_complex_params ++ Parsing.test_parse_generic_json)
    ≡ []
unfolding parse_mcp_json
parsing_passes = refl

building_passes :
    failed (
      Building.test_build_response ++ Building.test_build_error ++ Building.test_round_trip
      ++ Building.test_array_building ++ Building.test_security_builder_injection
      ++ Building.test_security_escape_injection_scenario)
    ≡ []
unfolding parse_mcp_json start_object end_object add_field add_field_number add_object_field
    close_object_field add_array_field close_array_field add_array_element_raw contains
building_passes = refl

invalid_passes :
    failed (
      Invalid.test_invalid_json_strings ++ Invalid.test_security_escape_sequences
      ++ Invalid.test_security_type_confusion ++ Invalid.test_security_error_handling
      ++ Invalid.test_security_escape_edge_cases)
    ≡ []
unfolding parse_mcp_json
invalid_passes = refl

nesting_passes : failed (Bounds.test_security_dos_deeply_nested 99) ≡ []
unfolding parse_mcp_json
nesting_passes = refl

-- The id is larger than an `int`, so that the parser refuses the message.
overflow_fails :
    failed (Bounds.test_security_integer_overflow 999)
    ≡ codes "S2a: Max int64 ID parsed" ∷ codes "S2b: ID field present" ∷ []
unfolding parse_mcp_json
overflow_fails = refl

validation_passes :
    failed (
      Validating.test_input_validation_shell_metacharacters
      ++ Validating.test_input_validation_path_traversal
      ++ Validating.test_input_validation_url_encoding
      ++ Validating.test_input_validation_shell_escape)
    ≡ []
unfolding beq is_prefix contains_any contains contains_shell_metacharacters contains_path_traversal
    contains_encoded_metacharacters contains_one_of escape_shell_argument
validation_passes = refl

-- The pattern of the test matches the one path that is handed to it.
regex_passes :
    (regex : Regex)
    → regex Validating.path_rule.pattern (codes "data/file.txt") ≡ matched
    → failed (Validating.test_input_validation_regex_patterns regex) ≡ []
unfolding beq is_prefix contains_any contains contains_shell_metacharacters contains_path_traversal
    contains_encoded_metacharacters contains_one_of register_tool_rules validate_arguments lookup
    insert validate_by_rules validate_required validate_argument validate_optional reject_unknown
    member arg_names
regex_passes regex h = simp h refl

length_passes : failed Bounds.test_security_string_length_validation ≡ []
unfolding parse_mcp_json
length_passes = refl

expansion_passes : failed (Bounds.test_security_billion_laughs_analog 9999) ≡ []
unfolding parse_mcp_json
expansion_passes = refl

bounds_passes : failed Bounds.test_security_buffer_bounds ≡ []
unfolding parse_mcp_json to_string
bounds_passes = refl

module _ (hmac : Hmac) (clock : Clock) where
  initialize_passes : failed (Serving.test_adapter_initialize hmac clock) ≡ []
  unfolding Serving.run_adapter
  initialize_passes = refl

  tools_list_empty_passes : failed (Serving.test_adapter_tools_list_empty hmac clock) ≡ []
  unfolding Serving.run_adapter
  tools_list_empty_passes = refl

  tools_list_with_tools_passes : failed (Serving.test_adapter_tools_list_with_tools hmac clock) ≡ []
  unfolding Serving.run_adapter
  tools_list_with_tools_passes = refl

  tools_call_passes : failed (Serving.test_adapter_tools_call hmac clock) ≡ []
  unfolding Serving.run_adapter
  tools_call_passes = refl

  tools_call_unknown_passes : failed (Serving.test_adapter_tools_call_unknown hmac clock) ≡ []
  unfolding Serving.run_adapter
  tools_call_unknown_passes = refl

  unknown_method_passes : failed (Serving.test_adapter_unknown_method hmac clock) ≡ []
  unfolding Serving.run_adapter
  unknown_method_passes = refl

  parse_error_passes : failed (Serving.test_adapter_parse_error hmac clock) ≡ []
  unfolding Serving.run_adapter
  parse_error_passes = refl

  notification_no_response_passes :
      failed (Serving.test_adapter_notification_no_response hmac clock) ≡ []
  unfolding Serving.run_adapter
  notification_no_response_passes = refl

  multiple_messages_passes : failed (Serving.test_adapter_multiple_messages hmac clock) ≡ []
  unfolding Serving.run_adapter
  multiple_messages_passes = refl

  stub_server_fails :
      failed (Validating.test_input_validation_with_stub_server hmac clock)
      ≡ codes "Command injection rejected" ∷ codes "URL-encoded injection rejected" ∷ []
  unfolding Serving.run_adapter
  stub_server_fails = refl
