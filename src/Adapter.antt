-- ===== src/Adapter.antt =====
-- `MCPAdapter`: mcptoolkit/include/mcp_adapter.h and mcptoolkit/src/mcp_adapter.cpp. What a handler does
-- to the outside is a list of events: a line that it prints, or a call of the tool hook.
pub mod Extract
pub mod Replies
pub mod Tools
pub mod Dispatch
pub mod Gate
pub mod Lines
pub mod Bearer
pub mod Revoked
pub mod Listing
pub mod Answers
pub mod Runs
pub mod Conversation
pub mod Requests
