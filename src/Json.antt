-- ===== src/Json.antt =====
-- The zero-copy JSON-RPC parser: mcptoolkit/include/json/json_msg.h, mcptoolkit/include/json/json_parser.h,
-- mcptoolkit/src/json/json_msg.cpp and mcptoolkit/src/json/json_parser.cpp; and the response builder of
-- mcptoolkit/include/json/json_builder.h and mcptoolkit/src/json/json_builder.cpp.
-- A pointer into the input is the suffix of the input that starts there; the parser's `pos` is the
-- suffix that is still to be read, so `pos < len` says that it is not empty.
pub mod Scan
pub mod Message
pub mod Parser
pub mod Builder
pub mod RoundTrip
pub mod Grammar
