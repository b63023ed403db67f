-- ===== src/Adapter/Tools/Listed.antt =====
-- The text of the answer to `tools/list` in mcptoolkit/src/mcp_adapter.cpp.
use mcptoolkit.Prelude.{
  ◌≡◌, refl, ◌∙◌, ap, some, List, [], ◌∷◌, ◌++◌, append_assoc, Bytes, codes, c_str, c_str-of_no_nul,
  ℤ,
}
use mcptoolkit.Json.Builder.{
  to_string, add_key, separate, end_object, add_object_field, close_object_field, add_array_field,
  close_array_field, add_array_element_raw,
}
use mcptoolkit.Adapter.Replies.{begin_reply}
use mcptoolkit.Adapter.Replies.Text.{
  separate_open, separate-to_string, separate_list, separate_behind_list, begin_reply-text,
}
use mcptoolkit.Adapter.Tools.{ToolDefinition, describe_tool, add_tools, list_reply}
use mcptoolkit.Adapter.Tools.Text.{joined, steps, steps-joined}
use mcptoolkit.Adapter.Tools.Descriptor.{tool_body, describe_tool-text, tool_body-no_nul}

abbrev tool_step : ToolDefinition → Bytes → Bytes
tool_step t buf = add_array_element_raw (describe_tool t) buf

tool_step-text :
    (t : ToolDefinition) (buf front : Bytes)
    → separate b'[' buf ≡ front
    → tool_step t buf ≡ (front ++ tool_body t) ++ (b'}' ∷ [])
unfolding add_array_element_raw
tool_step-text t buf front e =
    let shown = c_str-of_no_nul (tool_body t ++ (b'}' ∷ [])) (tool_body-no_nul t) in
    rw (describe_tool-text t, e, shown) (simp append_assoc)

add_tools-steps :
    (ts : List ToolDefinition) (buf : Bytes)
    → add_tools ts buf ≡ steps tool_body b'}' tool_step ts buf
unfolding add_tools
add_tools-steps [] buf = refl
add_tools-steps (t ∷ ts) buf = add_tools-steps ts (tool_step t buf)

add_tools-text :
    (ts : List ToolDefinition) (buf : Bytes)
    → add_tools ts (buf ++ (b'[' ∷ [])) ≡ buf ++ (b'[' ∷ joined tool_body b'}' ts)
add_tools-text ts buf =
    add_tools-steps ts (buf ++ (b'[' ∷ []))
    ∙ steps-joined tool_body b'}' tool_step
        (λ t b.
          tool_step-text t (b ++ (b'}' ∷ [])) _ (separate_behind_list b b'}' refl)
          ∙ simp append_assoc)
        b'[' (λ t b. tool_step-text t (b ++ (b'[' ∷ [])) _ (separate_list b) ∙ simp append_assoc) ts
        buf

-- The result's object, behind its opening brace.
abbrev pub tools_tail : List ToolDefinition → Bytes
tools_tail tools = codes "\"tools\":[" ++ (joined tool_body b'}' tools ++ codes "]}")

abbrev opened : ℤ → Bytes
opened id =
    codes "{\"jsonrpc\":\"2.0\",\"id\":" ++ (to_string id ++ codes ",\"result\":{\"tools\":")

opened-text :
    (id : ℤ)
    → add_array_field (codes "tools") (add_object_field (codes "result") (begin_reply (some id)))
      ≡ opened id ++ (b'[' ∷ [])
unfolding add_array_field add_object_field add_key c_str
opened-text id =
    rw (begin_reply-text id, separate-to_string _ id, separate_open _) (simp append_assoc)

pub list_reply-text :
    (id : ℤ) (tools : List ToolDefinition)
    → list_reply (some id) tools
      ≡ codes "{\"jsonrpc\":\"2.0\",\"id\":"
        ++ (to_string id ++ (codes ",\"result\":" ++ ((b'{' ∷ tools_tail tools) ++ codes "}")))
unfolding list_reply close_array_field close_object_field end_object
list_reply-text id tools =
    let listed = ap (add_tools tools) (opened-text id) ∙ add_tools-text tools (opened id) in
    ap (λ b. ((b ++ (b']' ∷ [])) ++ (b'}' ∷ [])) ++ (b'}' ∷ [])) listed ∙ simp append_assoc
