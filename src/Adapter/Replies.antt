-- ===== src/Adapter/Replies.antt =====
-- The replies that mcptoolkit/src/mcp_adapter.cpp builds: errors, results, and the answer to
-- `initialize`.
pub mod Error
pub mod Text
pub mod Fields
pub mod Header
pub mod Initialize
pub mod Object
pub mod Result
use mcptoolkit.Prelude.{Bool, Option, none, some, [], Bytes, codes, ℤ}
use mcptoolkit.Json.Builder.{
  start_object, end_object, add_field, add_field_number, add_field_bool, add_field_raw,
  add_object_field, close_object_field, add_array_field, close_array_field, add_array_element_raw,
}

-- `add_field_number("id", id)`, or a raw `null` where there is none.
unfoldable pub add_id : Option ℤ → Bytes → Bytes
unfolding add_field_number add_field_raw
add_id none buf = add_field_raw (codes "id") (codes "null") buf
add_id (some n) buf = add_field_number (codes "id") n buf

-- The four lines with which each reply starts.
unfoldable pub begin_reply : Option ℤ → Bytes
unfolding start_object add_field add_id
begin_reply id = add_id id (add_field (codes "jsonrpc") (some (codes "2.0")) (start_object []))

-- The line of `send_error`, without the newline that ends it.
unfoldable pub error_reply : Option ℤ → ℤ → Bytes → Bytes
unfolding begin_reply add_object_field add_field_number add_field close_object_field end_object
error_reply id error_code message =
    let opened = add_object_field (codes "error") (begin_reply id) in
    let coded = add_field_number (codes "code") error_code opened in
    let told = add_field (codes "message") (some message) coded in
    end_object (close_object_field told)

-- The line of `send_response`.
unfoldable pub result_reply : Option ℤ → Bytes → Bytes
unfolding begin_reply add_field_raw end_object
result_reply id result_json =
    end_object (add_field_raw (codes "result") result_json (begin_reply id))

abbrev pub server_name : Bytes
server_name = codes "mcptoolkit"

abbrev pub server_version : Bytes
server_version = codes "0.1.0"

abbrev pub protocol_version : Bytes
protocol_version = codes "2024-11-05"

-- The line of `handle_initialize`.
unfoldable pub initialize_reply : Option ℤ → Bytes
unfolding begin_reply add_object_field add_field close_object_field end_object
initialize_reply id =
    let b0 = add_object_field (codes "result") (begin_reply id) in
    let b1 = add_field (codes "protocolVersion") (some protocol_version) b0 in
    let b2 = add_object_field (codes "capabilities") b1 in
    let b3 = close_object_field (add_object_field (codes "tools") b2) in
    let b4 = add_object_field (codes "serverInfo") (close_object_field b3) in
    let b5 = add_field (codes "name") (some server_name) b4 in
    let b6 = close_object_field (add_field (codes "version") (some server_version) b5) in
    end_object (close_object_field b6)

pub record ToolResult : Type 0 where
  pub text : Bytes
  pub is_error : Bool

-- The content item `cb` of `handle_tools_call`.
unfoldable pub text_item : Bytes → Bytes
unfolding start_object add_field end_object
text_item text =
    let typed = add_field (codes "type") (some (codes "text")) (start_object []) in
    end_object (add_field (codes "text") (some text) typed)

-- The line of `handle_tools_call` for a tool's result.
unfoldable pub call_reply : Option ℤ → ToolResult → Bytes
unfolding begin_reply add_object_field add_array_field add_array_element_raw close_array_field
    add_field_bool close_object_field end_object text_item
call_reply id result =
    let b0 =
      add_array_field (codes "content") (add_object_field (codes "result") (begin_reply id)) in
    let b1 = close_array_field (add_array_element_raw (text_item result.text) b0) in
    let b2 = add_field_bool (codes "isError") result.is_error b1 in
    end_object (close_object_field b2)
