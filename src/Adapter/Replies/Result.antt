-- ===== src/Adapter/Replies/Result.antt =====
-- The parser of mcptoolkit/src/json reads back the replies of mcptoolkit/src/mcp_adapter.cpp to a tool's call.
use mcptoolkit.Prelude.{
  ℕ, ◌≡◌, refl, ◌∙◌, ap, Bool, true, false, some, [], ◌∷◌, ◌++◌, append_assoc, ◌≤◌, if◌then◌else◌,
  length, Bytes, codes, c_str, c_str-of_no_nul, contains_byte, ℤ,
}
use mcptoolkit.Json.Scan.{quote, container_end, outside, inside}
use mcptoolkit.Json.Scan.Suffix.{IsInt}
use mcptoolkit.Json.Scan.Shapes.{then_outside, container_end-string_end}
use mcptoolkit.Json.Builder.{
  to_string, escape_all, append_escaped, separate, add_key, start_object, end_object, add_field,
  add_field_bool, add_object_field, close_object_field, add_array_field, close_array_field,
  add_array_element_raw,
}
use mcptoolkit.Json.Builder.Nul.{contains_byte-join, escaped-no_nul}
use mcptoolkit.Json.Builder.Escape.{string_end-escape_all}
use mcptoolkit.Adapter.Replies.{ToolResult, begin_reply, text_item, call_reply}
use mcptoolkit.Json.Parser.{parse_message}
use mcptoolkit.Adapter.Replies.Object.{ClosesObject, IsResultResponse, parse_message-object}
use mcptoolkit.Adapter.Replies.Text.{
  separate_list, separate_behind, separate-to_string, separate_open, begin_reply-text,
}

module _ (text : Bytes) where
  abbrev body : Bytes
  body = escape_all (c_str text)

  abbrev item : Bytes
  item = codes "{\"type\":\"text\",\"text\":\"" ++ (body ++ codes "\"}")

  text_item-text : text_item text ≡ item
  unfolding text_item add_field separate add_key append_escaped start_object end_object escape_all
      c_str
  text_item-text = simp append_assoc

  item-no_nul : contains_byte 0 item ≡ false
  unfolding contains_byte
  item-no_nul = contains_byte-join 0 body (codes "\"}") (escaped-no_nul text) refl

-- The value of the member `result`.
abbrev pub result_text : ToolResult → Bytes
result_text result =
    codes "{\"content\":["
    ++ (item result.text
        ++ (codes "],\"isError\":"
            ++ ((if result.is_error then codes "true" else codes "false") ++ codes "}")))

-- What stands in front of the content's item.
abbrev opened : ℤ → Bytes
opened id =
    codes "{\"jsonrpc\":\"2.0\",\"id\":" ++ (to_string id ++ codes ",\"result\":{\"content\":")

content-text :
    (id : ℤ)
    → add_array_field (codes "content") (add_object_field (codes "result") (begin_reply (some id)))
      ≡ opened id ++ (b'[' ∷ [])
unfolding add_array_field add_object_field add_key c_str
content-text id =
    rw (begin_reply-text id, separate-to_string _ id, separate_open _) (simp append_assoc)

item-text :
    (buf text : Bytes)
    → close_array_field (add_array_element_raw (text_item text) (buf ++ (b'[' ∷ [])))
      ≡ (buf ++ (b'[' ∷ item text)) ++ (b']' ∷ [])
unfolding close_array_field add_array_element_raw
item-text buf text =
    let shown = c_str-of_no_nul (item text) (item-no_nul text) in
    rw (text_item-text text, separate_list buf, shown) (simp append_assoc)

flag-text :
    (buf : Bytes) (flag : Bool)
    → add_field_bool (codes "isError") flag (buf ++ (b']' ∷ []))
      ≡ buf ++ (codes "],\"isError\":" ++ (if flag then codes "true" else codes "false"))
unfolding add_field_bool add_key c_str
flag-text buf flag = rw (separate_behind buf b']' refl) (simp append_assoc)

call_reply-text :
    (id : ℤ) (result : ToolResult)
    → call_reply (some id) result
      ≡ codes "{\"jsonrpc\":\"2.0\",\"id\":"
        ++ (to_string id ++ (codes ",\"result\":" ++ (result_text result ++ codes "}")))
unfolding call_reply close_object_field end_object
call_reply-text id result =
    let flag = if result.is_error then codes "true" else codes "false" in
    let b1 =
      ap (λ b. close_array_field (add_array_element_raw (text_item result.text) b))
        (content-text id)
      ∙ item-text (opened id) result.text in
    let b2 =
      ap (add_field_bool (codes "isError") result.is_error) b1
      ∙ flag-text (opened id ++ (b'[' ∷ item result.text)) result.is_error in
    ap (λ b. (b ++ (b'}' ∷ [])) ++ (b'}' ∷ [])) b2 ∙ simp append_assoc

-- What the scan of the result reads behind the item's text.
abbrev behind : Bool → Bytes → Bytes
behind flag rest =
    codes "}],\"isError\":" ++ ((if flag then codes "true" else codes "false") ++ (b'}' ∷ rest))

behind_closes :
    (flag : Bool) (rest : Bytes) → container_end b'{' b'}' outside 2 (behind flag rest) ≡ some rest
unfolding container_end
behind_closes true rest = refl
behind_closes false rest = refl

text_closes :
    (text : Bytes) (flag : Bool) (rest : Bytes)
    → container_end b'{' b'}' inside 2 (body text ++ (quote ∷ behind flag rest)) ≡ some rest
text_closes text flag rest =
    let string =
      container_end-string_end b'{' b'}' 2 false (body text ++ (quote ∷ behind flag rest)) in
    let closed = string_end-escape_all (c_str text) (behind flag rest) in
    string ∙ ap (then_outside b'{' b'}' 2) closed ∙ behind_closes flag rest

-- The result without its opening brace.
abbrev result_tail : ToolResult → Bytes
result_tail result =
    codes "\"content\":["
    ++ (item result.text
        ++ (codes "],\"isError\":"
            ++ ((if result.is_error then codes "true" else codes "false") ++ codes "}")))

result_tail_closes : (result : ToolResult) → ClosesObject (result_tail result)
unfolding container_end
result_tail_closes result rest = simp append_assoc (text_closes result.text result.is_error rest)

-- The reply to a tool's call parses, where it fits the limit and the id is an int other than the least,
-- as a valid response with that id and no error, and the span of its result is the object with the
-- tool's text, escaped up to its first NUL, and its error flag.
pub parse_message-call_reply :
    (result : ToolResult) (id : ℤ) (max : ℕ)
    → IsInt id
    → length (call_reply (some id) result) ≤ max
    → IsResultResponse
        (parse_message (some (call_reply (some id) result)) max)
        id
        (result_text result)
parse_message-call_reply result id max h fits =
    parse_message-object (result_tail result) (result_tail_closes result) id
      (call_reply (some id) result) max (call_reply-text id result) h fits
