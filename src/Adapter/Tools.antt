-- ===== src/Adapter/Tools.antt =====
-- Tool definitions: `validate_tool_definition` and the listing of `handle_tools_list` in
-- mcptoolkit/src/mcp_adapter.cpp.
pub mod Valid
pub mod Text
pub mod Descriptor
pub mod Listed
pub mod Scanned
use mcptoolkit.Prelude.{
  Bool, ◌||◌, not, Option, some, List, [], ◌∷◌, ltb, if◌then◌else◌, length, Bytes, codes, beq,
  empty, contains_byte, ℤ,
}
use mcptoolkit.Json.Builder.{
  start_object, end_object, add_field, add_object_field, close_object_field, add_array_field,
  close_array_field, add_array_element, add_array_element_raw,
}
use mcptoolkit.Adapter.Replies.{begin_reply}

pub record ToolParam : Type 0 where
  pub name : Bytes
  pub type : Bytes
  pub description : Bytes
  pub required : Bool

pub record ToolDefinition : Type 0 where
  pub name : Bytes
  pub description : Bytes
  pub params : List ToolParam

-- A line feed, a carriage return or a NUL.
unfoldable pub has_control : Bytes → Bool
unfolding contains_byte
has_control s = contains_byte 10 s || contains_byte 13 s || contains_byte 0 s

unfoldable pub is_param_type : Bytes → Bool
is_param_type t =
    beq t (codes "string")
    || beq t (codes "integer")
    || beq t (codes "boolean")
    || beq t (codes "number")

-- One round of the loop over the parameters; an empty text says that nothing is wrong.
unfoldable pub validate_param : ToolParam → Bytes
unfolding has_control is_param_type
validate_param param =
    if empty param.name
    then codes "Parameter name cannot be empty"
    else if has_control param.name
    then codes "Parameter name contains invalid control characters"
    else if ltb 256 (length param.name)
    then codes "Parameter name exceeds maximum length"
    else if empty param.type || not (is_param_type param.type)
    then codes "Parameter type must be string, integer, boolean, or number"
    else if ltb 1024 (length param.description)
    then codes "Parameter description exceeds maximum length"
    else []

unfoldable pub validate_params : List ToolParam → Bytes
validate_params [] = []
validate_params (param ∷ params) =
    let error = validate_param param in if empty error then validate_params params else error

unfoldable pub validate_tool_definition : ToolDefinition → Bytes
unfolding has_control validate_params
validate_tool_definition tool =
    if empty tool.name
    then codes "Tool name cannot be empty"
    else if has_control tool.name
    then codes "Tool name contains invalid control characters"
    else if ltb 256 (length tool.name)
    then codes "Tool name exceeds maximum length (256 characters)"
    else if ltb 4096 (length tool.description)
    then codes "Tool description exceeds maximum length (4096 characters)"
    else if ltb 256 (length tool.params)
    then codes "Too many parameters (maximum 256)"
    else validate_params tool.params

-- The first error of a list of tools; empty if there is none.
unfoldable pub first_error : List ToolDefinition → Bytes
unfolding validate_tool_definition
first_error [] = []
first_error (tool ∷ tools) =
    let error = validate_tool_definition tool in if empty error then first_error tools else error

unfoldable pub add_properties : List ToolParam → Bytes → Bytes
unfolding add_object_field add_field close_object_field
add_properties [] buf = buf
add_properties (p ∷ ps) buf =
    let b0 = add_object_field p.name buf in
    let b1 = add_field (codes "type") (some p.type) b0 in
    let b2 = add_field (codes "description") (some p.description) b1 in
    add_properties ps (close_object_field b2)

unfoldable pub add_required : List ToolParam → Bytes → Bytes
unfolding add_array_element
add_required [] buf = buf
add_required (p ∷ ps) buf =
    add_required ps (if p.required then add_array_element (some p.name) buf else buf)

-- The descriptor `tb` of one tool.
unfoldable pub describe_tool : ToolDefinition → Bytes
unfolding start_object add_field add_object_field add_properties close_object_field add_array_field
    add_required close_array_field end_object
describe_tool t =
    let b0 = add_field (codes "name") (some t.name) (start_object []) in
    let b1 = add_field (codes "description") (some t.description) b0 in
    let b2 =
      add_field (codes "type") (some (codes "object"))
        (add_object_field (codes "inputSchema") b1) in
    let b3 = add_properties t.params (add_object_field (codes "properties") b2) in
    let b4 = add_array_field (codes "required") (close_object_field b3) in
    let b5 = close_array_field (add_required t.params b4) in end_object (close_object_field b5)

unfoldable pub add_tools : List ToolDefinition → Bytes → Bytes
unfolding describe_tool add_array_element_raw
add_tools [] buf = buf
add_tools (t ∷ ts) buf = add_tools ts (add_array_element_raw (describe_tool t) buf)

-- The line of `handle_tools_list` for tools without an error.
unfoldable pub list_reply : Option ℤ → List ToolDefinition → Bytes
unfolding begin_reply add_object_field add_array_field add_tools close_array_field
    close_object_field end_object
list_reply id tools =
    let opened =
      add_array_field (codes "tools") (add_object_field (codes "result") (begin_reply id)) in
    end_object (close_object_field (close_array_field (add_tools tools opened)))
