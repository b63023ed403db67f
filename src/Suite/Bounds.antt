-- ===== src/Suite/Bounds.antt =====
-- The tests of sizes and times in TestMcp/TestMcp.cpp. A `duration` is what the program measures, in the
-- unit of the test.
use mcptoolkit.Prelude.{
  ℕ, zero, suc, ◌+◌, not, some, List, [], ◌∷◌, ◌++◌, ltb, ◌==◌, if◌then◌else◌, Option, none, Bool,
  false, replicate, Bytes, codes, ℤ, pos, negsuc,
}
use mcptoolkit.Json.Builder.{to_string}
use mcptoolkit.Suite.{Assertion, parse_mcp_json, has_id, equals_ℤ}

-- The first loop, from `i` on with the given number of rounds left.
abbrev nested_from : ℕ → ℕ → Bytes
nested_from i zero = []
nested_from i (suc rounds) =
    let rest = nested_from (i + 1) rounds in
    codes "\"a\":" ++ ((if ltb i 99 then codes "{" else []) ++ rest)

abbrev pub nested_json : Bytes
nested_json = codes "{" ++ (nested_from 0 100 ++ (codes "1" ++ replicate 100 b'}'))

abbrev pub test_security_dos_deeply_nested : ℕ → List Assertion
test_security_dos_deeply_nested duration =
    let msg = parse_mcp_json nested_json in
    (codes "S1a: Deep nesting (100 levels) rejected", not msg.valid)
    ∷ (codes "S1b: Parse completes < 100ms (no stack overflow)", ltb duration 100)
    ∷ []

-- `msg.id.has_value() && msg.id.value() != 0`
abbrev has_nonzero_id : Option ℤ → Bool
has_nonzero_id none = false
has_nonzero_id (some n) = not (equals_ℤ n (pos 0))

abbrev pub test_security_integer_overflow : ℕ → List Assertion
test_security_integer_overflow duration =
    let largest = parse_mcp_json (
      codes "{\"jsonrpc\":\"2.0\",\"id\":9223372036854775807,\"method\":\"test\",\"params\":{}}") in
    let negative =
      parse_mcp_json (codes "{\"jsonrpc\":\"2.0\",\"id\":-1,\"method\":\"test\",\"params\":{}}") in
    (codes "S2a: Max int64 ID parsed", largest.valid)
    ∷ (codes "S2b: ID field present", has_nonzero_id largest.id)
    ∷ (codes "S2c: Negative ID parsed", negative.valid)
    ∷ (codes "S2d: Negative ID stored correctly", has_id (negsuc 0) negative.id)
    ∷ (codes "S2e: Large number parses quickly", ltb duration 1000)
    ∷ []

-- A request for a method.
abbrev pub request_of : Bytes → Bytes
request_of method =
    codes "{\"jsonrpc\":\"2.0\",\"id\":1,\"method\":\"" ++ (method ++ codes "\",\"params\":{}}")

-- The fields of the loop from `i` on, with the given number of rounds left.
abbrev fields_from : ℕ → ℕ → Bytes
fields_from i zero = []
fields_from i (suc rounds) =
    let rest = fields_from (i + 1) rounds in
    (if ltb 0 i then codes "," else [])
    ++ (codes "\"field" ++ (to_string (pos i) ++ (codes "\":\"value\"" ++ rest)))

abbrev pub test_security_buffer_bounds : List Assertion
test_security_buffer_bounds =
    let long_method = parse_mcp_json (request_of (replicate 10000 b'a')) in
    let long_value =
      parse_mcp_json (codes "{\"data\":\"" ++ (replicate 100000 b'x' ++ codes "\"}")) in
    let many_fields = parse_mcp_json (codes "{" ++ (fields_from 0 1000 ++ codes "}")) in
    (codes "S4a: Long method name parsed", long_method.valid)
    ∷ (codes "S4b: Method length correct", long_method.method_len == 10000)
    ∷ (codes "S4c: Long string parsed", long_value.valid)
    ∷ (codes "S4d: Many fields parsed", many_fields.valid)
    ∷ []

abbrev pub test_security_string_length_validation : List Assertion
test_security_string_length_validation =
    let msg = parse_mcp_json (request_of (replicate 5000 b'a')) in
    (codes "S12a: Long method parsed", msg.valid)
    ∷ (codes "S12b: Length accurate", msg.method_len == 5000)
    ∷ []

abbrev pub test_security_billion_laughs_analog : ℕ → List Assertion
test_security_billion_laughs_analog duration =
    let text = replicate 1000 b'x' in
    let msg =
      parse_mcp_json
        (codes "{\"base\":\"" ++ (text ++ (codes "\",\"copy\":\"" ++ (text ++ codes "\"}")))) in
    (codes "S11a: Large expansion parses", msg.valid)
    ∷ (codes "S11b: Expansion DoS prevented (linear)", ltb duration 10000)
    ∷ []
