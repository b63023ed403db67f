-- ===== src/Adapter/Replies/Initialize.antt =====
-- The parser of mcptoolkit/src/json reads back the answer of mcptoolkit/src/mcp_adapter.cpp to `initialize`.
use mcptoolkit.Prelude.{
  ℕ, ◌≤◌, ◌≡◌, refl, ◌∙◌, ap, some, [], ◌∷◌, ◌++◌, append_assoc, length, Bytes, codes, c_str, ℤ,
}
use mcptoolkit.Json.Scan.{container_end}
use mcptoolkit.Json.Scan.Suffix.{IsInt}
use mcptoolkit.Json.Builder.{
  to_string, escape_all, add_key, add_field, add_object_field, close_object_field, end_object,
}
use mcptoolkit.Json.Parser.{parse_message}
use mcptoolkit.Adapter.Replies.{
  begin_reply, initialize_reply, protocol_version, server_name, server_version,
}
use mcptoolkit.Adapter.Replies.Text.{separate-to_string, begin_reply-text}
use mcptoolkit.Adapter.Replies.Fields.{
  field-open, field-behind, object-behind, object-open, object-behind_object,
}
use mcptoolkit.Adapter.Replies.Object.{ClosesObject, IsResultResponse, parse_message-object}

-- The result behind its opening brace.
abbrev pub initialize_tail : Bytes
initialize_tail =
    codes "\"protocolVersion\":\"2024-11-05\",\"capabilities\":{\"tools\":{}},"
    ++ codes "\"serverInfo\":{\"name\":\"mcptoolkit\",\"version\":\"0.1.0\"}}"

initialize_tail_closes : ClosesObject initialize_tail
unfolding container_end
initialize_tail_closes rest = refl

abbrev opened : ℤ → Bytes
opened id = codes "{\"jsonrpc\":\"2.0\",\"id\":" ++ (to_string id ++ codes ",\"result\":")

opened-text :
    (id : ℤ) → add_object_field (codes "result") (begin_reply (some id)) ≡ opened id ++ (b'{' ∷ [])
unfolding add_object_field add_key c_str
opened-text id = rw (begin_reply-text id, separate-to_string _ id) (simp append_assoc)

initialize_reply-text :
    (id : ℤ)
    → initialize_reply (some id)
      ≡ codes "{\"jsonrpc\":\"2.0\",\"id\":"
        ++ (to_string id ++ (codes ",\"result\":" ++ ((b'{' ∷ initialize_tail) ++ codes "}")))
unfolding initialize_reply close_object_field end_object c_str escape_all
initialize_reply-text id =
    let x0 = opened id in
    let x1 = x0 ++ codes "{\"protocolVersion\":\"2024-11-05" in
    let x2 = x1 ++ codes "\",\"capabilities\":" in
    let x3 = x2 ++ codes "{\"tools\":" in
    let x4 = (x3 ++ (b'{' ∷ [])) ++ (b'}' ∷ []) in
    let x5 = x4 ++ codes "},\"serverInfo\":" in
    let x6 = x5 ++ codes "{\"name\":\"mcptoolkit" in
    let b1 =
      ap (add_field (codes "protocolVersion") (some protocol_version)) (opened-text id)
      ∙ field-open x0 (codes "protocolVersion") protocol_version in
    let b2 =
      ap (add_object_field (codes "capabilities")) b1 ∙ object-behind x1 (codes "capabilities") in
    let b3 = ap (add_object_field (codes "tools")) b2 ∙ object-open x2 (codes "tools") in
    let b4 =
      ap (λ b. add_object_field (codes "serverInfo") ((b ++ (b'}' ∷ [])) ++ (b'}' ∷ []))) b3
      ∙ object-behind_object x4 (codes "serverInfo") in
    let b5 =
      ap (add_field (codes "name") (some server_name)) b4
      ∙ field-open x5 (codes "name") server_name in
    let b6 =
      ap (add_field (codes "version") (some server_version)) b5
      ∙ field-behind x6 (codes "version") server_version in
    ap (λ b. ((b ++ (b'}' ∷ [])) ++ (b'}' ∷ [])) ++ (b'}' ∷ [])) b6 ∙ simp append_assoc

-- The answer to `initialize` parses as a valid response, where it fits and the id is an int other than the
-- least; the span of its result is the object with the version, the capabilities and the server.
pub parse_message-initialize_reply :
    (id : ℤ) (max : ℕ)
    → IsInt id
    → length (initialize_reply (some id)) ≤ max
    → IsResultResponse
        (parse_message (some (initialize_reply (some id))) max)
        id
        (b'{' ∷ initialize_tail)
parse_message-initialize_reply id max h fits =
    parse_message-object initialize_tail initialize_tail_closes id (initialize_reply (some id)) max
      (initialize_reply-text id) h fits
