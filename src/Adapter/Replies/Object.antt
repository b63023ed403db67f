-- ===== src/Adapter/Replies/Object.antt =====
-- How the parser of mcptoolkit/src/json reads a response of mcptoolkit/src/mcp_adapter.cpp whose result is
-- an object.
use mathlib.Core.Path.{subst}
use mcptoolkit.Prelude.{
  ℕ, ◌-◌, ◌≡◌, refl, sym, ap, true, false, some, [], ◌∷◌, ◌++◌, ◌≤◌, length, length-append,
  take-append, Bytes, codes, beq, ℤ, arith,
}
use mcptoolkit.Json.Message.{Message, span}
use mcptoolkit.Json.Scan.{
  skip_ws, skip_value, value_end, skip_container, container_end, outside, string_end,
}
use mcptoolkit.Json.Scan.Suffix.{IsInt}
use mcptoolkit.Json.Builder.{to_string}
use mcptoolkit.Json.Parser.{store_result, read_field, parse_message}
use mcptoolkit.Adapter.Replies.Header.{parse_message-reply}

-- The text behind an opening brace goes up to the brace that closes the object, for the parser's scan.
abbrev pub ClosesObject : Bytes → Type 0
ClosesObject tail = (rest : Bytes) → container_end b'{' b'}' outside 1 (tail ++ rest) ≡ some rest

-- What a peer reads from a response with a result.
pub record IsResultResponse (msg : Message) (id : ℤ) (text : Bytes) : Type 0 where
  pub valid : msg.valid ≡ true
  pub is_response : msg.is_response ≡ true
  pub has_result : msg.has_result ≡ true
  pub no_error : msg.has_error ≡ false
  pub not_request : msg.is_request ≡ false
  pub same_id : msg.id ≡ some id
  pub same_result : span msg.result_start msg.result_len ≡ text

module _ (tail : Bytes) (closes : ClosesObject tail) where
  abbrev value : Bytes
  value = b'{' ∷ tail

  abbrev seen : Message → Message
  seen msg = record msg {
    is_response = true;
    has_result = true;
    result_start = some (value ++ (b'}' ∷ []));
    result_len = length value;
  }

  value_end-object : (rest : Bytes) → value_end (value ++ rest) ≡ some rest
  unfolding value_end skip_container
  value_end-object rest = closes rest

  skip_value-object :
      (rest : Bytes) → skip_value (value ++ rest) ≡ some (value ++ rest, length value, rest)
  unfolding skip_value skip_ws
  skip_value-object rest =
      let size : length (value ++ rest) - length rest ≡ length value =
        omega (arith, length-append value rest) in
      rw (value_end-object rest) (rw size refl)

  read_result :
      (msg : Message)
      → read_field (codes "result") msg (value ++ (b'}' ∷ [])) ≡ (seen msg, some (b'}' ∷ []))
  unfolding read_field beq store_result
  read_result msg = ap (store_result msg) (skip_value-object (b'}' ∷ []))

  -- A reply that is written with this object as its result is read with it.
  pub parse_message-object :
      (id : ℤ) (reply : Bytes) (max : ℕ)
      → reply
        ≡ codes "{\"jsonrpc\":\"2.0\",\"id\":"
          ++ (to_string id ++ (codes ",\"result\":" ++ (value ++ codes "}")))
      → IsInt id
      → length reply ≤ max
      → IsResultResponse (parse_message (some reply) max) id value
  unfolding string_end
  parse_message-object id reply max e h fits =
      let parsed =
        parse_message-reply id (codes "result") (value ++ (b'}' ∷ [])) (λ rest. refl) seen h
          read_result max (subst (λ t. length t ≤ max) e fits) in
      subst (λ t. IsResultResponse (parse_message (some t) max) id value) (sym e)
        (subst (λ m. IsResultResponse m id value) (sym parsed)
          (record {
            valid = refl;
            is_response = refl;
            has_result = refl;
            no_error = refl;
            not_request = refl;
            same_id = refl;
            same_result = take-append value (b'}' ∷ []);
          }))
