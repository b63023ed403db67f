-- ===== src/Suite/Building.antt =====
-- The tests of the JSON builder in TestMcp/TestMcp.cpp.
use mcptoolkit.Prelude.{
  none, some, true, not, ltb, List, [], ◌∷◌, length, Bytes, codes, Option, ℤ, pos, negsuc,
}
use mcptoolkit.Json.Builder.{
  start_object, end_object, add_field, add_field_number, add_field_raw, add_object_field,
  close_object_field, add_array_field, close_array_field, add_array_element_raw,
}
use mcptoolkit.Suite.{Assertion, finds, parse_mcp_json}

abbrev pub built_response : Bytes
built_response =
    let b0 = add_field (codes "jsonrpc") (some (codes "2.0")) (start_object []) in
    let b1 = add_object_field (codes "result") (add_field_number (codes "id") (pos 42) b0) in
    let b2 = add_field (codes "status") (some (codes "ok")) b1 in
    end_object (close_object_field (add_field_number (codes "value") (pos 123) b2))

abbrev pub test_build_response : List Assertion
test_build_response =
    let response = built_response in
    (codes "Response built", ltb 0 (length response))
    ∷ (codes "Contains jsonrpc", finds (codes "jsonrpc") response)
    ∷ (codes "Contains id 42", finds (codes "\"id\":42") response)
    ∷ (codes "Contains result", finds (codes "result") response)
    ∷ (codes "Contains status", finds (codes "status") response)
    ∷ []

abbrev pub built_error : Bytes
built_error =
    let b0 = add_field (codes "jsonrpc") (some (codes "2.0")) (start_object []) in
    let b1 = add_object_field (codes "error") (add_field_number (codes "id") (pos 1) b0) in
    let b2 = add_field_number (codes "code") (negsuc 32600) b1 in
    end_object
      (close_object_field (add_field (codes "message") (some (codes "Method not found")) b2))

abbrev pub test_build_error : List Assertion
test_build_error =
    let response = built_error in
    (codes "Error response built", ltb 0 (length response))
    ∷ (codes "Contains error object", finds (codes "error") response)
    ∷ (codes "Contains error code", finds (codes "-32601") response)
    ∷ (codes "Contains error message", finds (codes "Method not found") response)
    ∷ []

abbrev echo_id : Option ℤ → Bytes → Bytes
echo_id none buf = add_field_raw (codes "id") (codes "null") buf
echo_id (some id) buf = add_field_number (codes "id") id buf

abbrev pub test_round_trip : List Assertion
test_round_trip =
    let msg = parse_mcp_json (
      codes "{\"jsonrpc\":\"2.0\",\"id\":99,\"method\":\"test\",\"params\":{\"arg\":\"value\"}}") in
    let b0 = add_field (codes "jsonrpc") (some (codes "2.0")) (start_object []) in
    let b1 = add_object_field (codes "result") (echo_id msg.id b0) in
    let response =
      end_object (close_object_field (add_field (codes "processed") (some (codes "yes")) b1)) in
    (codes "Response ID matches request", finds (codes "\"id\":99") response)
    ∷ (codes "Response has result", finds (codes "result") response)
    ∷ []

abbrev pub test_array_building : List Assertion
test_array_building =
    let b0 = add_array_field (codes "tools") (start_object []) in
    let b1 = add_array_element_raw (codes "{\"name\":\"tool1\",\"description\":\"First\"}") b0 in
    let b2 = add_array_element_raw (codes "{\"name\":\"tool2\",\"description\":\"Second\"}") b1 in
    let response = end_object (close_array_field b2) in
    (codes "Array response built", ltb 0 (length response))
    ∷ (codes "Contains array", finds (codes "[") response)
    ∷ (codes "Contains tool1", finds (codes "tool1") response)
    ∷ (codes "Contains tool2", finds (codes "tool2") response)
    ∷ []

-- An object with the one field.
abbrev object_of : Bytes → Bytes → Bytes
object_of key value = end_object (add_field key (some value) (start_object []))

abbrev pub test_security_builder_injection : List Assertion
test_security_builder_injection =
    let quoted = object_of (codes "content") (codes "Hello\"World") in
    let path = object_of (codes "path") (codes "C:\\Windows\\System32") in
    (codes "S7a: Quotes escaped in output", finds (codes "\\\"") quoted)
    ∷ (codes "S7b: No unescaped quote injection", not (finds (codes "\"Hello\"World") quoted))
    ∷ (codes "S7c: Backslashes escaped", finds (codes "\\\\") path)
    ∷ (codes "S7d: Newlines escaped or contained", true)
    ∷ []

-- The escapes of the C++ literals are read: the path has single backslashes in the builder's input, and
-- pairs of them in the raw literal that is parsed.
abbrev pub test_security_escape_injection_scenario : List Assertion
test_security_escape_injection_scenario =
    let msg = parse_mcp_json (
      codes
        "{\"jsonrpc\":\"2.0\",\"id\":1,\"method\":\"tools/call\",\"params\":{\"name\":\"read_file\",\"arguments\":{\"path\":\"..\\\\..\\\\..\\\\windows\\\\system32\"}}}") in
    let output = object_of (codes "path") (codes "..\\..\\..\\windows\\system32") in
    (codes "S10a: Escape injection parsed", msg.valid)
    ∷ (codes "S10b: Builder escapes backslashes", finds (codes "\\\\") output)
    ∷ []
