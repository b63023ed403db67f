-- ===== src/Adapter/Replies/Header.antt =====
-- How the parser of mcptoolkit/src/json reads a reply of mcptoolkit/src/mcp_adapter.cpp around its last
-- member, which is the result or the error.
use mcptoolkit.Prelude.{
  ℕ, ◌≡◌, refl, ◌∙◌, ap, true, false, some, [], ◌∷◌, ◌++◌, ltb, ◌≤◌, length, Bytes, codes, beq, ℤ,
  arith,
}
use mcptoolkit.Json.Message.{Message, blank}
use mcptoolkit.Json.Scan.{quote, skip_ws, string_end, skip_value, open_string}
use mcptoolkit.Json.Scan.Suffix.{IsInt}
use mcptoolkit.Json.Builder.{to_string}
use mcptoolkit.Json.Builder.Decimal.{parse_int-to_string}
use mcptoolkit.Json.Parser.{
  set_valid, store_id, ignore_value, run_members, read_field, object_at, parse, parse_message,
}
use mcptoolkit.Json.RoundTrip.{IsBody, members-comma, members-last, run_members-of}
use mcptoolkit.Adapter.Replies.Text.{comma-Ends}

-- The reply with the given id, whose last member has the given key and value; the value's text goes up
-- to the end of the reply.
module _ (id : ℤ) (key value : Bytes) where
  abbrev last_member : Bytes
  last_member = quote ∷ (key ++ (quote ∷ b':' ∷ value))

  abbrev id_text : Bytes
  id_text = quote ∷ (codes "id" ++ (quote ∷ b':' ∷ (to_string id ++ (b',' ∷ last_member))))

  -- What stands behind the opening brace of the reply.
  abbrev members_text : Bytes
  members_text = quote ∷ (codes "jsonrpc" ++ (quote ∷ b':' ∷ (codes "\"2.0\"" ++ (b',' ∷ id_text))))

  abbrev pub reply_text : Bytes
  reply_text = b'{' ∷ members_text

  read_version :
      (msg : Message)
      → read_field (codes "jsonrpc") msg (codes "\"2.0\"" ++ (b',' ∷ id_text))
        ≡ (msg, some (b',' ∷ id_text))
  unfolding read_field beq ignore_value skip_value skip_ws string_end open_string
  read_version msg = refl

  read_id :
      (msg : Message)
      → IsInt id
      → read_field (codes "id") msg (to_string id ++ (b',' ∷ last_member))
        ≡ (record msg { id = some id }, some (b',' ∷ last_member))
  unfolding read_field beq store_id
  read_id msg h =
      ap (store_id msg) (parse_int-to_string id (b',' ∷ last_member) h (comma-Ends last_member))

  module _ (is_body : IsBody key) (seen : Message → Message) (is_id : IsInt id)
      (read_last : (msg : Message) → read_field key msg value ≡ (seen msg, some (b'}' ∷ []))) where
    run_members-reply :
        (msg : Message)
        → run_members read_field msg members_text ≡ (seen (record msg { id = some id }), some [])
    unfolding string_end
    run_members-reply msg =
        let identified = record msg { id = some id } in
        let first =
          members-comma read_field (codes "jsonrpc") (λ rest. refl) msg (length members_text) _ msg
            id_text (read_version msg) in
        let second =
          members-comma read_field (codes "id") (λ rest. refl) msg _ _ identified last_member
            (read_id msg is_id) in
        let third =
          members-last read_field key is_body identified _ _ _ [] (read_last identified) in
        run_members-of read_field msg members_text _ (first ∙ second ∙ third)

    module _ (max : ℕ) (fits : length reply_text ≤ max) where
      not_longer : ltb max (length reply_text) ≡ false
      not_longer = ground arith

      abbrev read_in : Message
      read_in = record blank { raw_input = some reply_text; raw_len = length reply_text }

      parse-reply : parse reply_text max blank ≡ (seen (record read_in { id = some id }), some [])
      unfolding parse object_at skip_ws
      parse-reply = rw not_longer (run_members-reply read_in)

      -- The message that is parsed: what the last member makes of one with the id.
      pub parse_message-reply :
          parse_message (some reply_text) max
          ≡ record (seen (record read_in { id = some id })) { valid = true }
      unfolding parse_message
      parse_message-reply = rw not_longer (ap set_valid parse-reply)
