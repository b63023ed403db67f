-- ===== src/Adapter/Tools/Scanned.antt =====
-- The parser of mcptoolkit/src/json reads the answer to `tools/list` that mcptoolkit/src/mcp_adapter.cpp
-- builds.
use mcptoolkit.Prelude.{
  ℕ, ◌≤◌, ◌≡◌, refl, ◌∙◌, ap, false, some, List, [], ◌∷◌, ◌++◌, append_assoc, length, Bytes, codes,
  c_str, contains_byte, ℤ, arith,
}
use mcptoolkit.Json.Scan.{quote, backslash, string_end, container_end, inside, outside}
use mcptoolkit.Json.Scan.Suffix.{IsInt}
use mcptoolkit.Json.Scan.Shapes.{then_outside, container_end-string_end}
use mcptoolkit.Json.Builder.{escape_all}
use mcptoolkit.Json.Builder.Escape.{string_end-escape_all}
use mcptoolkit.Json.Parser.{parse_message}
use mcptoolkit.Adapter.Replies.Object.{ClosesObject, IsResultResponse, parse_message-object}
use mcptoolkit.Adapter.Tools.{ToolParam, ToolDefinition, list_reply}
use mcptoolkit.Adapter.Tools.Text.{more, joined, param_body, required_names, name_body}
use mcptoolkit.Adapter.Tools.Descriptor.{tool_body}
use mcptoolkit.Adapter.Tools.Listed.{tools_tail, list_reply-text}

-- A name without a quote and a backslash.
abbrev pub IsPlain : Bytes → Type 0
IsPlain name = (contains_byte quote name ≡ false) × (contains_byte backslash name ≡ false)

string_end-plain :
    (name rest : Bytes) → IsPlain name → string_end false (c_str name ++ quote ∷ rest) ≡ some rest
unfolding string_end contains_byte c_str
string_end-plain [] rest h = refl
string_end-plain (c ∷ name) rest (h, k) =
    let later = string_end-plain name rest (ground arith, ground arith) in ground arith

-- The scan of an object passes over a text at some depth: it comes out behind it at the same depth.
abbrev Passes : ℕ → Bytes → Type 0
Passes depth text =
    (rest : Bytes)
    → container_end b'{' b'}' outside depth (text ++ rest)
      ≡ container_end b'{' b'}' outside depth rest

-- Inside a string whose text the string scan passes.
pub behind_string :
    (depth : ℕ) (body rest : Bytes)
    → string_end false (body ++ quote ∷ rest) ≡ some rest
    → container_end b'{' b'}' inside depth (body ++ quote ∷ rest)
      ≡ container_end b'{' b'}' outside depth rest
behind_string depth body rest e =
    container_end-string_end b'{' b'}' depth false (body ++ quote ∷ rest)
    ∙ ap (then_outside b'{' b'}' depth) e

abbrev pub AllOf : {A : Type 0} → (A → Type 0) → List A → Type 0
AllOf P [] = Unit {0}
AllOf P (x ∷ xs) = P x × AllOf P xs

module _ {A : Type 0} (body : A → Bytes) (close_byte depth : ℕ) (P : A → Type 0)
    (passes : (x : A) → P x → Passes depth (body x ++ (close_byte ∷ []))) where
  -- The scan passes over an element and what follows it.
  element :
      (x : A) (text rest : Bytes)
      → P x
      → container_end b'{' b'}' outside depth ((body x ++ (close_byte ∷ text)) ++ rest)
        ≡ container_end b'{' b'}' outside depth (text ++ rest)
  element x text rest good =
      let e : (body x ++ (close_byte ∷ text)) ++ rest
          ≡ (body x ++ (close_byte ∷ [])) ++ (text ++ rest) =
        simp append_assoc in
      ap (container_end b'{' b'}' outside depth) e ∙ passes x good (text ++ rest)

  more-Passes : (xs : List A) → AllOf P xs → Passes depth (more body close_byte xs)
  unfolding container_end
  more-Passes [] h rest = refl
  more-Passes (x ∷ xs) (good, h) rest =
      element x (more body close_byte xs) rest good ∙ more-Passes xs h rest

  joined-Passes : (xs : List A) → AllOf P xs → Passes depth (joined body close_byte xs)
  joined-Passes [] h rest = refl
  joined-Passes (x ∷ xs) (good, h) rest =
      element x (more body close_byte xs) rest good ∙ more-Passes xs h rest

-- A written text value, and the key of a parameter, at any depth.
behind_escaped :
    (depth : ℕ) (text rest : Bytes)
    → container_end b'{' b'}' inside depth (escape_all (c_str text) ++ quote ∷ rest)
      ≡ container_end b'{' b'}' outside depth rest
behind_escaped depth text rest =
    behind_string depth (escape_all (c_str text)) rest (string_end-escape_all (c_str text) rest)

abbrev pub HasPlainName : ToolParam → Type 0
HasPlainName p = IsPlain p.name

param_body-Passes : (p : ToolParam) → HasPlainName p → Passes 4 (param_body p ++ (b'}' ∷ []))
unfolding container_end
param_body-Passes p plain rest =
    let after_type =
      codes ",\"description\":\"" ++ (escape_all (c_str p.description) ++ (quote ∷ b'}' ∷ rest)) in
    let after_name = codes ":{\"type\":\"" ++ (escape_all (c_str p.type) ++ (quote ∷ after_type)) in
    let name =
      behind_string 4 (c_str p.name) after_name (string_end-plain p.name after_name plain) in
    let type = behind_escaped 5 p.type after_type in
    let description = behind_escaped 5 p.description (b'}' ∷ rest) in
    simp append_assoc (name ∙ type ∙ description)

name_body-Passes : (name : Bytes) → Unit {0} → Passes 3 (name_body name ++ (quote ∷ []))
unfolding container_end
name_body-Passes name h rest = simp append_assoc (behind_escaped 3 name rest)

trivially : (names : List Bytes) → AllOf (λ name. Unit {0}) names
trivially [] = record {}
trivially (name ∷ names) = (record {}, trivially names)

abbrev pub HasPlainParams : ToolDefinition → Type 0
HasPlainParams t = AllOf HasPlainName t.params

tool_body-Passes : (t : ToolDefinition) → HasPlainParams t → Passes 1 (tool_body t ++ (b'}' ∷ []))
unfolding container_end
tool_body-Passes t plain rest =
    let names = joined name_body quote (required_names t.params) in
    let after_params = codes "},\"required\":[" ++ (names ++ (codes "]}}" ++ rest)) in
    let after_description =
      codes ",\"inputSchema\":{\"type\":\"object\",\"properties\":{"
      ++ (joined param_body b'}' t.params ++ after_params) in
    let after_name =
      codes ",\"description\":\""
      ++ (escape_all (c_str t.description) ++ (quote ∷ after_description)) in
    let name = behind_escaped 2 t.name after_name in
    let description = behind_escaped 2 t.description after_description in
    let params =
      joined-Passes param_body b'}' 4 HasPlainName param_body-Passes t.params plain after_params in
    let required =
      joined-Passes name_body quote 3 (λ name. Unit {0}) name_body-Passes (required_names t.params)
        (trivially (required_names t.params)) (codes "]}}" ++ rest) in
    simp append_assoc (name ∙ description ∙ params ∙ required)

tools_tail_closes :
    (tools : List ToolDefinition) → AllOf HasPlainParams tools → ClosesObject (tools_tail tools)
unfolding container_end
tools_tail_closes tools plain rest = simp append_assoc (
    joined-Passes tool_body b'}' 1 HasPlainParams tool_body-Passes tools plain (codes "]}" ++ rest))

-- The answer to `tools/list` parses, where it fits the limit, the id is an int other than the least and
-- no parameter's name holds a quote or a backslash, as a valid response with that id and no error, and
-- the span of its result is the object with the descriptors of all the tools.
pub parse_message-list_reply :
    (tools : List ToolDefinition) (id : ℤ) (max : ℕ)
    → AllOf HasPlainParams tools
    → IsInt id
    → length (list_reply (some id) tools) ≤ max
    → IsResultResponse
        (parse_message (some (list_reply (some id) tools)) max)
        id
        (b'{' ∷ tools_tail tools)
parse_message-list_reply tools id max plain h fits =
    parse_message-object (tools_tail tools) (tools_tail_closes tools plain) id
      (list_reply (some id) tools) max (list_reply-text id tools) h fits
