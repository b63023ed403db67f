-- ===== src/Lib.antt =====
-- mcptoolkit: a C++ library for servers of the Model Context Protocol. A server reads one JSON-RPC
-- message per line from the standard input, checks who calls and what they may do, calls a tool, and
-- prints one line per reply.
--
-- The parts and the files:
--   Prelude            byte strings, lists and maps; what the code uses of the standard library
--   Json/Scan          JsonParser's lexical functions    (mcptoolkit/src/json/json_parser.cpp)
--   Json/Message       MCPMessage                        (mcptoolkit/include/json/json_msg.h)
--   Json/Parser        JsonParser::parse, MCPMessage::parse (mcptoolkit/src/json)
--   Json/Grammar       the texts of JSON, by RFC 8259, as an independent description, and what a
--                      message keeps of an object (Contents, Readings, Kept)
--   Json/Builder       JsonBuilder                       (mcptoolkit/src/json/json_builder.cpp)
--   Auth               AuthenticationHandler             (mcptoolkit/src/authentication_handler.cpp)
--   Rbac               RoleBasedAccessControl            (mcptoolkit/src/rbac.cpp)
--   Validation         InputValidationHandler            (mcptoolkit/src/input_validation.cpp)
--   Adapter            MCPAdapter                        (mcptoolkit/src/mcp_adapter.cpp)
--   Sanitizer          ResponseSanitizer                 (mcptoolkit/src/response_sanitizer.cpp)
--   Paths              PathValidator                     (mcptoolkit/src/path_validator.cpp)
--   Rates              RateLimiter                       (mcptoolkit/src/rate_limiter.cpp)
--   Monitor            ResourceMonitor                   (mcptoolkit/src/resource_monitor.cpp)
--   Security           log_security_event                (mcptoolkit/src/security_logging.cpp)
--   Double             what the code does with a `double`, and the laws that theorems assume
--   Sessions           SessionManager                    (mcptoolkit/src/session_manager.cpp)
--   Runtime            RequestQueue, TimeoutManager and ToolExecutionGuard
--                      (mcptoolkit/src/request_queue.cpp, timeout_manager.cpp,
--                      tool_execution_guard.cpp)
--   Suite              the assertions of the test program (TestMcp/TestMcp.cpp), and which of them fail
--   Examples           runs on concrete inputs
-- The child modules of each part hold its theorems. `Adapter.Dispatch` composes the others the way
-- `MCPAdapter::run` and `dispatch` do: `parse_message`, then `validate_request` and `decode_token`,
-- then `check_permission`, then the handler of the method, which prints a reply of `Adapter.Replies`.
-- `Adapter.Requests` follows a client's line through all of it, `Adapter.Conversation` what is printed.
--
-- State is passed explicitly: an operation takes the object and returns it changed. A pointer into a
-- buffer is the suffix of the buffer that starts there. A `bool` result with an output parameter is an
-- Option. The standard output is the list of the lines that are printed, next to the calls of tools.
-- The clock is an argument, in nanoseconds. The bounds of `int` are written out in `parse_int`, in the
-- length that `base64_decode` narrows, and in the count of a client's failures, which is kept as its
-- 32 bits; no other `int` counts beyond a limit of the code or the length of a text.
--
-- Fuel: the object loops of the parser run on the length of the rest of the input and one more, which
-- is enough since every round moves forward; `digits` runs on the number and one more.
--
-- Parameters: the HMAC of the crypto library, the regular expressions and the file system of the
-- standard library, the system calls that give random bytes, the arithmetic of doubles, and the
-- virtual methods that a server overrides. The laws that theorems assume of them are the records
-- `FillsBuffer` (a system call keeps the size of its buffer and leaves bytes in it) and `IsIeee`
-- (what IEEE 754 says of comparisons, of subtracting one, and of counts below 2 ^ 53); Thousandths
-- in Double meet the latter. The adapter calls none of the sanitizer, the path validator, the rate
-- limiter, the monitor, the queue and the guard: a server uses them next to it.
--
-- Not modelled: mutexes (a method is one step), the failure of a call of the crypto library, the
-- source of random bytes on Windows, the text of a timestamp, the programs under mcptoolkit/test,
-- and of TestMcp the benchmark, the test of the denial of service, whose input is too large to
-- evaluate, and the test of the lifetime of a buffer. Where a lone backslash ends a span,
-- `extract_value_span` reaches one byte past it; the model does not read that byte.
pub mod Adapter
pub mod Auth
pub mod Double
pub mod Examples
pub mod Json
pub mod Monitor
pub mod Paths
pub mod Prelude
pub mod Rates
pub mod Rbac
pub mod Runtime
pub mod Sanitizer
pub mod Security
pub mod Sessions
pub mod Suite
pub mod Validation
