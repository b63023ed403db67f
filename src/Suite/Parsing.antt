-- ===== src/Suite/Parsing.antt =====
-- The tests of the parser in TestMcp/TestMcp.cpp on messages and on other JSON.
use mcptoolkit.Prelude.{not, ltb, ◌==◌, List, [], ◌∷◌, length, codes, pos, negsuc}
use mcptoolkit.Suite.{Assertion, parse_mcp_json, is_set, starts_with, has_id, equals_ℤ}

abbrev pub test_parse_initialize_request : List Assertion
test_parse_initialize_request =
    let msg =
      parse_mcp_json
        (codes "{\"jsonrpc\":\"2.0\",\"id\":1,\"method\":\"initialize\",\"params\":{}}") in
    (codes "Parse valid", msg.valid)
    ∷ (codes "Is marked as request", msg.is_request)
    ∷ (codes "ID correctly parsed as 1", has_id (pos 1) msg.id)
    ∷ (codes "Method pointer not null", is_set msg.method)
    ∷ (codes "Method length correct", msg.method_len == length (codes "initialize"))
    ∷ (codes "Params start pointer set", is_set msg.params_start)
    ∷ (codes "Params length > 0", ltb 0 msg.params_len)
    ∷ []

abbrev pub test_parse_tools_list : List Assertion
test_parse_tools_list =
    let msg =
      parse_mcp_json
        (codes "{\"jsonrpc\":\"2.0\",\"id\":2,\"method\":\"tools/list\",\"params\":{}}") in
    (codes "Parse valid", msg.valid)
    ∷ (codes "Is request", msg.is_request)
    ∷ (codes "ID is 2", has_id (pos 2) msg.id)
    ∷ (codes "Method pointer set", is_set msg.method)
    ∷ (codes "Method length correct", msg.method_len == length (codes "tools/list"))
    ∷ []

abbrev pub test_parse_response_result : List Assertion
test_parse_response_result =
    let msg =
      parse_mcp_json (codes "{\"jsonrpc\":\"2.0\",\"id\":1,\"result\":{\"status\":\"ok\"}}") in
    (codes "Parse valid", msg.valid)
    ∷ (codes "Is marked as response", msg.is_response)
    ∷ (codes "Has result flag set", msg.has_result)
    ∷ (codes "No error flag", not msg.has_error)
    ∷ (codes "Result pointer set", is_set msg.result_start)
    ∷ (codes "Result length > 0", ltb 0 msg.result_len)
    ∷ (codes "Result is valid JSON object", starts_with b'{' msg.result_start)
    ∷ []

abbrev pub test_parse_error_response : List Assertion
test_parse_error_response =
    let msg = parse_mcp_json (
      codes
        "{\"jsonrpc\":\"2.0\",\"id\":1,\"error\":{\"code\":-32601,\"message\":\"Method not found\"}}") in
    (codes "Parse valid", msg.valid)
    ∷ (codes "Is marked as response", msg.is_response)
    ∷ (codes "Error flag set", msg.has_error)
    ∷ (codes "No result flag", not msg.has_result)
    ∷ (codes "Error code is -32601", equals_ℤ msg.error_code (negsuc 32600))
    ∷ (codes "Error message pointer set", is_set msg.error_msg)
    ∷ (codes "Error message length correct", msg.error_msg_len == length (codes "Method not found"))
    ∷ []

abbrev pub test_complex_params : List Assertion
test_complex_params =
    let msg = parse_mcp_json (
      codes
        "{\"jsonrpc\":\"2.0\",\"id\":2,\"method\":\"tools/call\",\"params\":{\"name\":\"query_db\",\"arguments\":{\"sql\":\"SELECT *\",\"db\":\"sales\"}}}") in
    (codes "Parse valid", msg.valid)
    ∷ (codes "Request parsed", msg.is_request)
    ∷ (codes "Method contains tools/call", is_set msg.method)
    ∷ (codes "Method length correct", msg.method_len == length (codes "tools/call"))
    ∷ (codes "Params detected", is_set msg.params_start)
    ∷ (codes "Params length reasonable", ltb 10 msg.params_len)
    ∷ (codes "Params starts with brace", starts_with b'{' msg.params_start)
    ∷ []

-- The eight blocks of the test.
abbrev pub test_parse_generic_json : List Assertion
test_parse_generic_json =
    let plain = parse_mcp_json (codes "{\"name\":\"Alice\",\"age\":30,\"active\":true}") in
    let nested = parse_mcp_json (codes "{\"user\":{\"id\":42,\"role\":\"admin\"},\"count\":7}") in
    let arrays = parse_mcp_json (codes "{\"tags\":[\"a\",\"b\",\"c\"],\"scores\":[1,2,3]}") in
    let deep = parse_mcp_json (codes "{\"a\":{\"b\":{\"c\":{\"d\":{\"e\":\"deep\"}}}}}") in
    let mixed =
      parse_mcp_json
        (codes "{\"str\":\"hello\",\"num\":123,\"flt\":3.14,\"flag\":false,\"nothing\":null}") in
    let hollow = parse_mcp_json (codes "{}") in
    let malformed = parse_mcp_json (codes "{\"key\": \"unterminated") in
    let root_array = parse_mcp_json (codes "[1,2,3]") in
    (codes "Generic object: parses without error", plain.valid)
    ∷ (codes "Generic object: not flagged as request", not plain.is_request)
    ∷ (codes "Generic object: not flagged as response", not plain.is_response)
    ∷ (codes "Generic object: no result", not plain.has_result)
    ∷ (codes "Generic object: no error", not plain.has_error)
    ∷ (codes "Nested object: parses without error", nested.valid)
    ∷ (codes "Nested object: not a request", not nested.is_request)
    ∷ (codes "Nested object: not a response", not nested.is_response)
    ∷ (codes "Array values: parses without error", arrays.valid)
    ∷ (codes "Array values: not a request", not arrays.is_request)
    ∷ (codes "Deep nesting: parses without error", deep.valid)
    ∷ (codes "Mixed types: parses without error", mixed.valid)
    ∷ (codes "Empty object: parses without error", hollow.valid)
    ∷ (codes "Empty object: not a request", not hollow.is_request)
    ∷ (codes "Empty object: not a response", not hollow.is_response)
    ∷ (codes "Malformed JSON: valid is false", not malformed.valid)
    ∷ (codes "Root array: valid is false", not root_array.valid)
    ∷ []
