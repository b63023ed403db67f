-- ===== src/Suite/Serving.antt =====
-- The tests of the adapter in TestMcp/TestMcp.cpp: what `run` writes for lines of input. The hash function
-- and the clock are never asked, for authentication is off.
use mcptoolkit.Prelude.{
  ℕ, ◌+◌, true, false, not, List, [], ◌∷◌, ◌++◌, ◌==◌, if◌then◌else◌, Bytes, codes, beq, empty,
  contains, contains_any,
}
use mcptoolkit.Auth.{Hmac, new_handler}
use mcptoolkit.Rbac.{new_control}
use mcptoolkit.Adapter.Extract.{extract_string, extract_value_span}
use mcptoolkit.Adapter.Replies.{ToolResult, initialize_reply, call_reply, error_reply}
use mcptoolkit.Adapter.Tools.{ToolDefinition, validate_param, first_error, list_reply}
use mcptoolkit.Validation.{
  contains_shell_metacharacters, contains_encoded_metacharacters, contains_one_of,
}
use mcptoolkit.Adapter.Dispatch.{
  Adapter, Hooks, Event, called, printed, Clock, extract_auth_token, run, handle_line, strip_return,
  dispatch, authenticate, authorize, route, handle_initialize, handle_tools_list, handle_tools_call,
  send_error,
}
use mcptoolkit.Suite.{Assertion, finds, parse_mcp_json}

-- `MCPAdapter()`
abbrev pub new_adapter : Adapter
new_adapter = record {
  auth_handler = new_handler;
  rbac = new_control;
  auth_enabled = false;
  rbac_enabled = false;
}

-- The virtual methods as `MCPAdapter` has them.
abbrev pub default_hooks : Hooks
default_hooks = record {
  extract_auth_token = extract_auth_token;
  list_tools = [];
  call_tool = λ name args who. record { text = codes "unknown tool"; is_error = true };
}

abbrev pub echo_tools : List ToolDefinition
echo_tools =
    record {
      name = codes "echo";
      description = codes "Echoes back the input";
      params =
          record {
            name = codes "text";
            type = codes "string";
            description = codes "Text to echo";
            required = true;
          }
          ∷ [];
    }
    ∷ []

abbrev pub call_echo : Bytes → ToolResult
call_echo name =
    if beq name (codes "echo")
    then record { text = codes "hello from echo"; is_error = false }
    else record { text = codes "unknown tool"; is_error = true }

abbrev pub test_server : Hooks
test_server = record {
  extract_auth_token = extract_auth_token;
  list_tools = echo_tools;
  call_tool = λ name args who. call_echo name;
}

-- The lines that `std::getline` reads: what stands in front of each line feed, and a rest that has none.
abbrev pub get_lines : Bytes → Bytes → List Bytes
get_lines line [] = if empty line then [] else line ∷ []
get_lines line (c ∷ input) = elim (c == 10) [
  | true ↦ line ∷ get_lines [] input
  | false ↦ get_lines (line ++ (c ∷ [])) input
]

abbrev with_clock : Clock → List Bytes → List (Clock × Bytes)
with_clock clock [] = []
with_clock clock (line ∷ lines) = (clock, line) ∷ with_clock clock lines

-- All that was written.
abbrev pub written : List Event → Bytes
written [] = []
written (called name args who ∷ events) = written events
written (printed line ∷ events) = line ++ written events

-- `last_tool_name` and `last_tool_args`
abbrev pub last_call : Bytes × Bytes → List Event → Bytes × Bytes
last_call last [] = last
last_call last (called name args who ∷ events) = last_call (name, args) events
last_call last (printed line ∷ events) = last_call last events

abbrev pub count_lines : Bytes → ℕ
count_lines [] = 0
count_lines (c ∷ out) = if c == 10 then count_lines out + 1 else count_lines out

module _ (hmac : Hmac) (clock : Clock) where
  unfoldable pub run_adapter : Hooks → Bytes → List Event
  unfolding run handle_line strip_return parse_mcp_json dispatch authenticate authorize route
      handle_initialize initialize_reply handle_tools_list first_error list_reply handle_tools_call
      extract_string extract_value_span call_reply send_error error_reply validate_param
      contains_shell_metacharacters contains_any contains_encoded_metacharacters contains_one_of
      contains
  run_adapter hooks input = run hmac hooks new_adapter (with_clock clock (get_lines [] input))

  abbrev pub test_adapter_initialize : List Assertion
  test_adapter_initialize =
      let out = written (
        run_adapter default_hooks
          (codes "{\"jsonrpc\":\"2.0\",\"id\":1,\"method\":\"initialize\",\"params\":{}}\n")) in
      (codes "Response non-empty", not (empty out))
      ∷ (codes "Contains id 1", finds (codes "\"id\":1") out)
      ∷ (codes "Contains result", finds (codes "\"result\"") out)
      ∷ (codes "Contains protocolVersion", finds (codes "protocolVersion") out)
      ∷ (codes "Protocol is 2024-11-05", finds (codes "2024-11-05") out)
      ∷ (codes "Contains capabilities", finds (codes "capabilities") out)
      ∷ (codes "Contains tools capability", finds (codes "\"tools\"") out)
      ∷ (codes "Contains serverInfo", finds (codes "serverInfo") out)
      ∷ (codes "Server name mcptoolkit", finds (codes "mcptoolkit") out)
      ∷ []

  abbrev pub test_adapter_tools_list_empty : List Assertion
  test_adapter_tools_list_empty =
      let out = written (
        run_adapter default_hooks
          (codes "{\"jsonrpc\":\"2.0\",\"id\":2,\"method\":\"tools/list\",\"params\":{}}\n")) in
      (codes "Response non-empty", not (empty out))
      ∷ (codes "Contains id 2", finds (codes "\"id\":2") out)
      ∷ (codes "Tools array is empty", finds (codes "\"tools\":[]") out)
      ∷ []

  abbrev pub test_adapter_tools_list_with_tools : List Assertion
  test_adapter_tools_list_with_tools =
      let out = written (
        run_adapter test_server
          (codes "{\"jsonrpc\":\"2.0\",\"id\":3,\"method\":\"tools/list\",\"params\":{}}\n")) in
      (codes "Response non-empty", not (empty out))
      ∷ (codes "Tool name 'echo'", finds (codes "\"echo\"") out)
      ∷ (codes "Tool description present", finds (codes "Echoes back") out)
      ∷ (codes "inputSchema present", finds (codes "inputSchema") out)
      ∷ (codes "Param 'text' present", finds (codes "\"text\"") out)
      ∷ (codes "Required array has 'text'", finds (codes "\"required\":[\"text\"]") out)
      ∷ []

  abbrev pub test_adapter_tools_call : List Assertion
  test_adapter_tools_call =
      let events = run_adapter test_server (
        codes
          "{\"jsonrpc\":\"2.0\",\"id\":4,\"method\":\"tools/call\",\"params\":{\"name\":\"echo\",\"arguments\":{\"text\":\"hello\"}}}\n") in
      let out = written events in
      let (last_tool_name, last_tool_args) = last_call ([], []) events in
      (codes "Response non-empty", not (empty out))
      ∷ (codes "Contains result", finds (codes "\"result\"") out)
      ∷ (codes "Contains content array", finds (codes "\"content\"") out)
      ∷ (codes "Result text present", finds (codes "hello from echo") out)
      ∷ (codes "isError is false", finds (codes "\"isError\":false") out)
      ∷ (codes "Tool name dispatched", beq last_tool_name (codes "echo"))
      ∷ (codes "Arguments forwarded", finds (codes "hello") last_tool_args)
      ∷ []

  abbrev pub test_adapter_tools_call_unknown : List Assertion
  test_adapter_tools_call_unknown =
      let out = written (
        run_adapter test_server (
          codes
            "{\"jsonrpc\":\"2.0\",\"id\":5,\"method\":\"tools/call\",\"params\":{\"name\":\"no_such\",\"arguments\":{}}}\n")) in
      (codes "Response non-empty", not (empty out))
      ∷ (codes "isError is true", finds (codes "\"isError\":true") out)
      ∷ (codes "Contains 'unknown tool'", finds (codes "unknown tool") out)
      ∷ []

  abbrev pub test_adapter_unknown_method : List Assertion
  test_adapter_unknown_method =
      let out = written (
        run_adapter default_hooks
          (codes "{\"jsonrpc\":\"2.0\",\"id\":6,\"method\":\"resources/list\",\"params\":{}}\n")) in
      (codes "Response non-empty", not (empty out))
      ∷ (codes "Contains error", finds (codes "\"error\"") out)
      ∷ (codes "Error code -32601", finds (codes "-32601") out)
      ∷ (codes "Method not found", finds (codes "Method not found") out)
      ∷ []

  abbrev pub test_adapter_parse_error : List Assertion
  test_adapter_parse_error =
      let out = written (run_adapter default_hooks (codes "{bad json\n")) in
      (codes "Response non-empty", not (empty out))
      ∷ (codes "Contains error", finds (codes "\"error\"") out)
      ∷ (codes "Parse error code -32700", finds (codes "-32700") out)
      ∷ []

  abbrev pub test_adapter_notification_no_response : List Assertion
  test_adapter_notification_no_response =
      let out = written (
        run_adapter default_hooks
          (codes "{\"jsonrpc\":\"2.0\",\"method\":\"notifications/initialized\"}\n")) in
      (codes "No response emitted", empty out) ∷ []

  abbrev pub test_adapter_multiple_messages : List Assertion
  test_adapter_multiple_messages =
      let input =
        codes "{\"jsonrpc\":\"2.0\",\"id\":1,\"method\":\"initialize\",\"params\":{}}\n"
        ++ (codes "{\"jsonrpc\":\"2.0\",\"method\":\"notifications/initialized\"}\n"
            ++ codes "{\"jsonrpc\":\"2.0\",\"id\":2,\"method\":\"tools/list\",\"params\":{}}\n") in
      let out = written (run_adapter test_server input) in
      (codes "Two response lines", count_lines out == 2)
      ∷ (codes "initialize response present", finds (codes "protocolVersion") out)
      ∷ (codes "tools/list response present", finds (codes "\"tools\"") out)
      ∷ []

  abbrev pub run_adapter_tests : List Assertion
  run_adapter_tests =
      test_adapter_initialize
      ++ (test_adapter_tools_list_empty
          ++ (test_adapter_tools_list_with_tools
              ++ (test_adapter_tools_call
                  ++ (test_adapter_tools_call_unknown
                      ++ (test_adapter_unknown_method
                          ++ (test_adapter_parse_error
                              ++ (test_adapter_notification_no_response
                                  ++ test_adapter_multiple_messages)))))))
