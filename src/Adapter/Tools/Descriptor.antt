-- ===== src/Adapter/Tools/Descriptor.antt =====
-- The text of a tool's descriptor and of the whole answer to `tools/list` in
-- mcptoolkit/src/mcp_adapter.cpp.
use mcptoolkit.Prelude.{
  ℕ, ◌≡◌, refl, ◌∙◌, ap, false, ◌==◌, some, List, [], ◌∷◌, ◌++◌, append_assoc, Bytes, codes, c_str,
  contains_byte, arith,
}
use mcptoolkit.Json.Scan.{quote}
use mcptoolkit.Json.Builder.{
  escape_all, start_object, end_object, add_field, add_object_field, close_object_field,
  add_array_field, close_array_field,
}
use mcptoolkit.Json.Builder.Nul.{c_str-no_nul, contains_byte-join, escaped-no_nul}
use mcptoolkit.Adapter.Replies.Fields.{field-open, field-behind, object-behind, array-behind}
use mcptoolkit.Adapter.Tools.{
  ToolParam, ToolDefinition, add_properties, add_required, describe_tool,
}
use mcptoolkit.Adapter.Tools.Text.{
  more, joined, param_body, required_names, name_body, add_properties-text, add_required-text,
}

module _ (t : ToolDefinition) where
  abbrev head : Bytes
  head =
      codes "{\"name\":\""
      ++ (escape_all (c_str t.name)
          ++ (codes "\",\"description\":\""
              ++ (escape_all (c_str t.description)
                  ++ codes "\",\"inputSchema\":{\"type\":\"object\",\"properties\":")))

  -- The descriptor without its last brace.
  abbrev pub tool_body : Bytes
  tool_body =
      codes "{\"name\":\""
      ++ (escape_all (c_str t.name)
          ++ (codes "\",\"description\":\""
              ++ (escape_all (c_str t.description)
                  ++ (codes "\",\"inputSchema\":{\"type\":\"object\",\"properties\":{"
                      ++ (joined param_body b'}' t.params
                          ++ (codes "},\"required\":["
                              ++ (joined name_body quote (required_names t.params)
                                  ++ codes "]}")))))))

  schema-text :
      add_object_field (codes "properties") (
        add_field (codes "type") (some (codes "object")) (
          add_object_field (codes "inputSchema") (
            add_field
              (codes "description")
              (some t.description)
              (add_field (codes "name") (some t.name) (start_object [])))))
      ≡ head ++ (b'{' ∷ [])
  unfolding start_object c_str escape_all
  schema-text =
      let x1 = codes "{\"name\":\"" ++ escape_all (c_str t.name) in
      let x2 = x1 ++ (codes "\",\"description\":\"" ++ escape_all (c_str t.description)) in
      let x3 = x2 ++ codes "\",\"inputSchema\":" in
      let x4 = x3 ++ codes "{\"type\":\"object" in
      let named = field-open [] (codes "name") t.name in
      let described =
        ap (add_field (codes "description") (some t.description)) named
        ∙ field-behind x1 (codes "description") t.description in
      let schema =
        ap (add_object_field (codes "inputSchema")) described
        ∙ object-behind x2 (codes "inputSchema") in
      let typed =
        ap (add_field (codes "type") (some (codes "object"))) schema
        ∙ field-open x3 (codes "type") (codes "object") in
      ap (add_object_field (codes "properties")) typed
      ∙ object-behind x4 (codes "properties")
      ∙ simp append_assoc

  pub describe_tool-text : describe_tool t ≡ tool_body ++ (b'}' ∷ [])
  unfolding c_str describe_tool close_object_field close_array_field end_object
  describe_tool-text =
      let listed = head ++ (b'{' ∷ joined param_body b'}' t.params) in
      let params = ap (add_properties t.params) schema-text ∙ add_properties-text t.params head in
      let required =
        ap (λ b. add_array_field (codes "required") (b ++ (b'}' ∷ []))) params
        ∙ array-behind listed (codes "required") in
      let x = listed ++ codes "},\"required\":" in
      let names = ap (add_required t.params) required ∙ add_required-text t.params x in
      ap (λ b. ((b ++ (b']' ∷ [])) ++ (b'}' ∷ [])) ++ (b'}' ∷ [])) names ∙ simp append_assoc

-- No NUL in a list written with commas, if there is none in its elements.
module _ {A : Type 0} (body : A → Bytes) (close_byte : ℕ) (not_nul : (close_byte == 0) ≡ false)
    (clean : (x : A) → contains_byte 0 (body x) ≡ false) where
  more-no_nul : (xs : List A) → contains_byte 0 (more body close_byte xs) ≡ false
  unfolding contains_byte
  more-no_nul [] = refl
  more-no_nul (x ∷ xs) =
      contains_byte-join 0 (body x) (close_byte ∷ more body close_byte xs) (clean x)
        (let rest = more-no_nul xs in ground arith)

  joined-no_nul : (xs : List A) → contains_byte 0 (joined body close_byte xs) ≡ false
  unfolding contains_byte
  joined-no_nul [] = refl
  joined-no_nul (x ∷ xs) =
      contains_byte-join 0 (body x) (close_byte ∷ more body close_byte xs) (clean x)
        (let rest = more-no_nul xs in ground arith)

param_body-no_nul : (p : ToolParam) → contains_byte 0 (param_body p) ≡ false
unfolding contains_byte
param_body-no_nul p = contains_byte-join 0 (c_str p.name) _ (c_str-no_nul p.name) (
    contains_byte-join 0 (escape_all (c_str p.type)) _ (escaped-no_nul p.type) (
      contains_byte-join 0 (escape_all (c_str p.description)) _ (escaped-no_nul p.description)
        refl))

pub tool_body-no_nul : (t : ToolDefinition) → contains_byte 0 (tool_body t ++ (b'}' ∷ [])) ≡ false
unfolding contains_byte
tool_body-no_nul t =
    let params = joined-no_nul param_body b'}' refl param_body-no_nul t.params in
    let names =
      joined-no_nul name_body quote refl (λ name. escaped-no_nul name) (required_names t.params) in
    simp append_assoc (
      contains_byte-join 0 (escape_all (c_str t.name)) _ (escaped-no_nul t.name) (
        contains_byte-join 0 (escape_all (c_str t.description)) _ (escaped-no_nul t.description) (
          contains_byte-join 0 (joined param_body b'}' t.params) _ params (
            contains_byte-join 0 (joined name_body quote (required_names t.params)) _ names refl))))
