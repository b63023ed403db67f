-- ===== src/Adapter/Replies/Error.antt =====
-- The parser of mcptoolkit/src/json reads back the error replies of mcptoolkit/src/mcp_adapter.cpp.
use mcptoolkit.Prelude.{
  ℕ, ◌≡◌, refl, sym, ◌∙◌, ap, true, false, some, [], ◌∷◌, ◌++◌, append_assoc, ◌≤◌, length,
  take-append, Bytes, codes, beq, c_str, ℤ,
}
use mathlib.Core.Path.{subst}
use mcptoolkit.Json.Message.{Message, span}
use mcptoolkit.Json.Scan.{quote, skip_ws, string_end}
use mcptoolkit.Json.Scan.Suffix.{IsInt}
use mcptoolkit.Json.Builder.{
  to_string, escape_all, append_escaped, add_key, end_object, add_field, add_field_number,
  add_object_field, close_object_field,
}
use mcptoolkit.Json.Builder.Escape.{string_end-escape_all}
use mcptoolkit.Json.Builder.Decimal.{parse_int-to_string}
use mcptoolkit.Json.Parser.{
  close_error, mark_response, store_error_code, store_error_msg, read_field, read_error_field,
  parse_error_object, parse_message,
}
use mcptoolkit.Json.RoundTrip.{parse_string-body, members-comma, members-last, run_members-of}
use mcptoolkit.Adapter.Replies.{error_reply}
use mcptoolkit.Adapter.Replies.Header.{parse_message-reply}
use mcptoolkit.Adapter.Replies.Text.{
  separate-to_string, separate_open, begin_reply-text, comma-Ends,
}

-- The reply that `send_error` writes for a request with an id.
abbrev error_text : ℤ → ℤ → Bytes → Bytes
error_text id error_code message =
    codes "{\"jsonrpc\":\"2.0\",\"id\":"
    ++ (to_string id
        ++ (codes ",\"error\":{\"code\":"
            ++ (to_string error_code
                ++ (codes ",\"message\":\"" ++ (escape_all (c_str message) ++ codes "\"}}")))))

error_reply-text :
    (id error_code : ℤ) (message : Bytes)
    → error_reply (some id) error_code message ≡ error_text id error_code message
unfolding error_reply add_object_field add_field add_field_number close_object_field end_object
    add_key append_escaped
error_reply-text id error_code message =
    rw
      (
        begin_reply-text id,
        separate-to_string _ id,
        separate_open _,
        separate-to_string _ error_code,
      )
      (simp append_assoc)

module _ (message : Bytes) where
  abbrev body : Bytes
  body = escape_all (c_str message)

  -- What stands behind the message's text.
  abbrev closing : Bytes
  closing = quote ∷ b'}' ∷ b'}' ∷ []

  module _ (code : ℤ) where
    abbrev inner : Bytes
    inner =
        quote
        ∷ (codes "code"
            ++ (quote
                ∷ b':'
                ∷ (to_string code
                    ++ (b','
                        ∷ quote
                        ∷ (codes "message" ++ (quote ∷ b':' ∷ quote ∷ (body ++ closing)))))))

    abbrev with_error : Message → Message
    with_error msg = record msg {
      error_code = code;
      error_msg = some (body ++ closing);
      error_msg_len = length body;
      has_error = true;
    }

    read_code :
        (msg : Message) (s : Bytes)
        → IsInt code
        → read_error_field (codes "code") msg (to_string code ++ (b',' ∷ s))
          ≡ (record msg { error_code = code }, some (b',' ∷ s))
    unfolding read_error_field beq store_error_code
    read_code msg s h =
        ap (store_error_code msg) (parse_int-to_string code (b',' ∷ s) h (comma-Ends s))

    read_text :
        (msg : Message)
        → read_error_field (codes "message") msg (quote ∷ (body ++ closing)) ≡ (
          record msg { error_msg = some (body ++ closing); error_msg_len = length body },
          some (b'}' ∷ b'}' ∷ []),
        )
    unfolding read_error_field beq store_error_msg
    read_text msg =
        ap (λ t. store_error_msg msg t.start t.end)
          (parse_string-body body (string_end-escape_all (c_str message)) (b'}' ∷ b'}' ∷ []))

    parse_error_object-inner :
        (msg : Message)
        → IsInt code
        → parse_error_object msg (b'{' ∷ inner) ≡ (with_error msg, some (b'}' ∷ []))
    unfolding parse_error_object skip_ws string_end
    parse_error_object-inner msg h =
        let tail = quote ∷ (codes "message" ++ (quote ∷ b':' ∷ quote ∷ (body ++ closing))) in
        let coded = record msg { error_code = code } in
        let first =
          members-comma read_error_field (codes "code") (λ rest. refl) msg (length inner) _ coded
            tail (read_code msg tail h) in
        let second =
          members-last read_error_field (codes "message") (λ rest. refl) coded _ _ _ (b'}' ∷ [])
            (read_text coded) in
        ap close_error (run_members-of read_error_field msg inner _ (first ∙ second))

    read_error :
        (msg : Message)
        → IsInt code
        → read_field (codes "error") msg (b'{' ∷ inner)
          ≡ (record (with_error msg) { is_response = true }, some (b'}' ∷ []))
    unfolding read_field beq
    read_error msg h = ap mark_response (parse_error_object-inner msg h)

-- What a peer reads from an error response.
pub record IsErrorResponse (msg : Message) (id code : ℤ) (text : Bytes) : Type 0 where
  pub valid : msg.valid ≡ true
  pub is_response : msg.is_response ≡ true
  pub has_error : msg.has_error ≡ true
  pub not_request : msg.is_request ≡ false
  pub same_id : msg.id ≡ some id
  pub same_code : msg.error_code ≡ code
  pub same_text : span msg.error_msg msg.error_msg_len ≡ text

-- The error reply to a request with an id parses, where it fits the limit and both numbers are ints
-- other than the least, as a valid error response with that id and code, and its message's span is the
-- escaped text up to the first NUL.
pub parse_message-error_reply :
    (id code : ℤ) (message : Bytes) (max : ℕ)
    → IsInt id
    → IsInt code
    → length (error_reply (some id) code message) ≤ max
    → IsErrorResponse
        (parse_message (some (error_reply (some id) code message)) max)
        id
        code
        (escape_all (c_str message))
unfolding string_end
parse_message-error_reply id code message max h k fits =
    let e = error_reply-text id code message in
    let answered : Message → Message =
      λ msg. record (with_error message code msg) { is_response = true } in
    let parsed =
      parse_message-reply id (codes "error") (b'{' ∷ inner message code) (λ rest. refl) answered h
        (λ msg. read_error message code msg k) max (subst (λ t. length t ≤ max) e fits) in
    let spanned = take-append (escape_all (c_str message)) (quote ∷ b'}' ∷ b'}' ∷ []) in
    subst (λ t. IsErrorResponse (parse_message (some t) max) id code (escape_all (c_str message)))
      (sym e)
      (subst (λ m. IsErrorResponse m id code (escape_all (c_str message))) (sym parsed)
        (record {
          valid = refl;
          is_response = refl;
          has_error = refl;
          not_request = refl;
          same_id = refl;
          same_code = refl;
          same_text = spanned;
        }))
