-- ===== src/Suite/Invalid.antt =====
-- The tests of the parser in TestMcp/TestMcp.cpp on text that is not what it should be.
use mcptoolkit.Prelude.{not, none, true, List, [], ◌∷◌, codes}
use mcptoolkit.Json.Message.{Message}
use mcptoolkit.Json.Parser.{parse_message, default_max_bytes}
use mcptoolkit.Suite.{Assertion, parse_mcp_json, starts_with}

-- The thirteen blocks of the test.
abbrev pub test_invalid_json_strings : List Assertion
test_invalid_json_strings =
    let unterminated_string = parse_mcp_json (codes "{\"key\": \"unterminated") in
    let unterminated_object = parse_mcp_json (codes "{\"key\": \"value\"") in
    let invalid_escape = parse_mcp_json (codes "{\"key\": \"bad\\x escape\"}") in
    let trailing_comma = parse_mcp_json (codes "{\"key\": \"value\",}") in
    let single_quotes = parse_mcp_json (codes "{'key': 'value'}") in
    let missing_colon = parse_mcp_json (codes "{\"key\" \"value\"}") in
    let leading_zero = parse_mcp_json (codes "{\"id\": 01234}") in
    let duplicate_keys = parse_mcp_json (codes "{\"id\": 1, \"id\": 2}") in
    let empty_string = parse_mcp_json [] in
    let null_pointer : Message = parse_message none default_max_bytes in
    let garbage = parse_mcp_json (codes "!@#$%^&*()") in
    let root_array = parse_mcp_json (codes "[1, 2, 3]") in
    let root_number = parse_mcp_json (codes "123") in
    (codes "Unterminated string: invalid", not unterminated_string.valid)
    ∷ (codes "Unterminated object: invalid", not unterminated_object.valid)
    ∷ (codes "Invalid escape: parser is lenient", invalid_escape.valid)
    ∷ (codes "Trailing comma: parser is lenient", trailing_comma.valid)
    ∷ (codes "Single quotes: invalid", not single_quotes.valid)
    ∷ (codes "Missing colon: invalid", not missing_colon.valid)
    ∷ (codes "Leading zero number: parser is lenient", leading_zero.valid)
    ∷ (codes "Duplicate keys: valid (implementation-dependent)", duplicate_keys.valid)
    ∷ (codes "Empty string: invalid", not empty_string.valid)
    ∷ (codes "Null pointer: invalid", not null_pointer.valid)
    ∷ (codes "Random garbage: invalid", not garbage.valid)
    ∷ (codes "Root array: invalid", not root_array.valid)
    ∷ (codes "Root number: invalid", not root_number.valid)
    ∷ []

abbrev pub test_security_escape_sequences : List Assertion
test_security_escape_sequences =
    let standard = parse_mcp_json (codes "{\"text\":\"Hello\\nWorld\\t\\\"quoted\\\"\\\\\"}") in
    let unicode = parse_mcp_json (codes "{\"text\":\"\\u0048\\u0065\\u006c\\u006c\\u006f\"}") in
    let null_bytes = parse_mcp_json (codes "{\"text\":\"\\u0000\\u0000\\u0000\\u0000\"}") in
    let invalid = parse_mcp_json (codes "{\"text\":\"bad\\xescape\"}") in
    (codes "S3a: Standard escapes accepted", standard.valid)
    ∷ (codes "S3b: Unicode escapes accepted", unicode.valid)
    ∷ (codes "S3c: Null-byte escapes parsed", null_bytes.valid)
    ∷ (codes "S3d: Invalid escape accepted (lenient design)", invalid.valid)
    ∷ []

abbrev pub test_security_type_confusion : List Assertion
test_security_type_confusion =
    let array_params =
      parse_mcp_json
        (codes "{\"jsonrpc\":\"2.0\",\"id\":1,\"method\":\"tools/call\",\"params\":[]}") in
    let array_result = parse_mcp_json (codes "{\"jsonrpc\":\"2.0\",\"id\":1,\"result\":[]}") in
    (codes "S5a: Type mismatch detected or accepted", true)
    ∷ (codes "S5b: Array params parsed as raw span", array_params.valid)
    ∷ (codes "S5c: Params start with bracket", starts_with b'[' array_params.params_start)
    ∷ (codes "S5d: Array result accepted", array_result.valid)
    ∷ (codes "S5e: has_result flag set", array_result.has_result)
    ∷ []

abbrev pub test_security_error_handling : List Assertion
test_security_error_handling =
    let malformed = parse_mcp_json (codes "{bad json") in
    let truncated_object = parse_mcp_json (codes "{\"key\":\"value\"") in
    let truncated_string = parse_mcp_json (codes "{\"key\":\"unterminated") in
    (codes "S9a: Malformed JSON rejected", not malformed.valid)
    ∷ (codes "S9b: Truncated object rejected", not truncated_object.valid)
    ∷ (codes "S9c: Unterminated string rejected", not truncated_string.valid)
    ∷ []

abbrev pub test_security_escape_edge_cases : List Assertion
test_security_escape_edge_cases =
    let incomplete = parse_mcp_json (codes "{\"key\":\"value\\}") in
    let multiple = parse_mcp_json (codes "{\"key\":\"\\\\\\\\n\\\\t\"}") in
    let null_byte = parse_mcp_json (codes "{\"key\":\"\\u0000value\"}") in
    (codes "S13a: Incomplete escape rejected", not incomplete.valid)
    ∷ (codes "S13b: Multiple escapes handled", multiple.valid)
    ∷ (codes "S13c: Null-byte escape parsed", null_byte.valid)
    ∷ []
