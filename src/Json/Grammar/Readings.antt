-- ===== src/Json/Grammar/Readings.antt =====
-- How `JsonParser::parse` of mcptoolkit/src/json/json_parser.cpp reads the value of one member.
use mathlib.Core.Path.{subst}
use mcptoolkit.Prelude.{
  ◌-◌, ◌≤◌, ◌≡◌, refl, sym, ◌∙◌, ap, inl, inr, true, false, some, List, [], ◌∷◌, ◌++◌, length,
  length-append, take, take-append, Bytes, codes, beq, ℤ, arith,
}
use mcptoolkit.Json.Message.{Message}
use mcptoolkit.Json.Scan.{
  quote, skip_ws, skip_value, parse_string, open_string, parse_int, signed_int, is_digit,
}
use mcptoolkit.Json.Scan.Suffix.{IsInt}
use mcptoolkit.Json.Builder.{to_string}
use mcptoolkit.Json.Builder.Decimal.{Ends, parse_int-to_string}
use mcptoolkit.Json.Parser.{
  store_method, store_id, store_params, store_result, ignore_value, read_field,
}
use mcptoolkit.Json.RoundTrip.{parse_string-body}
use mcptoolkit.Json.Grammar.{Piece, Gap, Value, string, write_gap, write_string, write, depth}
use mcptoolkit.Json.Grammar.Objects.{write_pieces-append, write_value-append}
use mcptoolkit.Json.Grammar.Accepted.{stops_number}
use mcptoolkit.Json.Grammar.Rounds.{key_text, key_text-IsBody, skip_ws-write_gap, skip_value-gaps}
use mcptoolkit.Json.Grammar.Ignored.{is_kept, read_field-ignored}
use mcptoolkit.Json.Grammar.Contents.{Contents, Adds, IsSpanOf, Holds}

stops_number-Ends : (s : Bytes) → stops_number s ≡ true → Ends s
unfolding is_digit
stops_number-Ends [] h = tt
stops_number-Ends (c ∷ s) h = ground arith

module _ (gap : Gap) (rest : Bytes) where
  parse_string-gap :
      (pieces : List Piece)
      → parse_string (write_gap gap (write_string pieces rest)) ≡ record {
        start = some (key_text pieces ++ quote ∷ rest);
        end = some (length (key_text pieces), rest);
      }
  unfolding parse_string skip_ws
  parse_string-gap pieces =
      ap open_string (skip_ws-write_gap gap (write_string pieces rest))
      ∙ ap (λ t. open_string (quote ∷ t)) (write_pieces-append (quote ∷ rest) pieces [])
      ∙ parse_string-body (key_text pieces) (key_text-IsBody pieces) rest

  parse_int-gap :
      (v : Value) (n : ℤ)
      → IsInt n
      → write v [] ≡ to_string n
      → stops_number rest ≡ true
      → parse_int (write_gap gap (write v rest)) ≡ some (n, rest)
  unfolding parse_int
  parse_int-gap v n is_int text stops =
      let same : write v rest ≡ to_string n ++ rest =
        write_value-append rest v [] ∙ ap (λ t. t ++ rest) text in
      ap signed_int (skip_ws-write_gap gap (write v rest) ∙ ap skip_ws same)
      ∙ parse_int-to_string n rest is_int (stops_number-Ends rest stops)

-- A value of the text that it is written as is the span of that text.
value_span :
    (v : Value) (rest : Bytes)
    → IsSpanOf (some (write v rest)) (length (write v rest) - length rest) (some (write v []))
value_span v rest =
    let same : write v rest ≡ write v [] ++ rest = write_value-append rest v [] in
    let size : length (write v rest) - length rest ≡ length (write v []) =
      omega (arith, ap length same, length-append (write v []) rest) in
    (
      write v rest,
      refl,
      size,
      ap (λ n. take n (write v rest)) size
          ∙ ap (take (length (write v []))) same
          ∙ take-append (write v []) rest,
    )

-- What reading one value leaves: the message that says what its member adds.
abbrev Reads : Message → Bytes → Bytes → Bytes → Contents → Type 0
Reads msg key s rest d = (m : Message) × (read_field key msg s ≡ (m, some rest)) × Holds m d

module _ (msg : Message) (c d : Contents) (gap : Gap) (v : Value) (rest : Bytes)
    (held : Holds msg c) (fits : depth v ≤ 64) (stops : stops_number rest ≡ true) where
  abbrev valued : Bytes
  valued = write_gap gap (write v rest)

  found : skip_value valued ≡ some (write v rest, length (write v rest) - length rest, rest)
  found = skip_value-gaps gap v rest fits stops

  Reads-ignored : (key : Bytes) → is_kept key ≡ false → d ≡ c → Reads msg key valued rest d
  unfolding ignore_value
  Reads-ignored key ignored same = (
    msg,
    read_field-ignored key msg valued ignored ∙ ap (ignore_value msg) found,
    subst (Holds msg) (sym same) held,
  )

  Reads-method :
      (pieces : List Piece)
      → v ≡ string pieces
      → d ≡ record c { method = some (key_text pieces) }
      → Reads msg (codes "method") valued rest d
  unfolding read_field beq store_method write
  Reads-method pieces is_string same =
      let body = key_text pieces in
      let at_text : parse_string valued
          ≡ record { start = some (body ++ quote ∷ rest); end = some (length body, rest) } =
        ap (λ w. parse_string (write_gap gap (write w rest))) is_string
        ∙ parse_string-gap gap rest pieces in
      (
        record msg {
          method = some (body ++ quote ∷ rest);
          method_len = length body;
          is_request = true;
        },
        ap (λ token. store_method msg token.start token.end) at_text,
        subst (Holds _) (sym same) (record {
          same_id = held.same_id;
          method_span = (body ++ quote ∷ rest, refl, refl, take-append body (quote ∷ rest));
          params_span = held.params_span;
          result_span = held.result_span;
          asks = refl;
          answers = held.answers;
          has_answer = held.has_answer;
          no_error = held.no_error;
        }),
      )

  Reads-id :
      (n : ℤ)
      → IsInt n
      → write v [] ≡ to_string n
      → d ≡ record c { id = some n }
      → Reads msg (codes "id") valued rest d
  unfolding read_field beq store_id
  Reads-id n is_int written same = (
    record msg { id = some n },
    ap (store_id msg) (parse_int-gap gap rest v n is_int written stops),
    subst (Holds _) (sym same) (record {
      same_id = refl;
      method_span = held.method_span;
      params_span = held.params_span;
      result_span = held.result_span;
      asks = held.asks;
      answers = held.answers;
      has_answer = held.has_answer;
      no_error = held.no_error;
    }),
  )

  Reads-params :
      d ≡ record c { params = some (write v []) } → Reads msg (codes "params") valued rest d
  unfolding read_field beq store_params
  Reads-params same = (
    record msg {
      params_start = some (write v rest);
      params_len = length (write v rest) - length rest;
    },
    ap (store_params msg) found,
    subst (Holds _) (sym same) (record {
      same_id = held.same_id;
      method_span = held.method_span;
      params_span = value_span v rest;
      result_span = held.result_span;
      asks = held.asks;
      answers = held.answers;
      has_answer = held.has_answer;
      no_error = held.no_error;
    }),
  )

  Reads-result :
      d ≡ record c { result = some (write v []) } → Reads msg (codes "result") valued rest d
  unfolding read_field beq store_result
  Reads-result same = (
    record msg {
      is_response = true;
      has_result = true;
      result_start = some (write v rest);
      result_len = length (write v rest) - length rest;
    },
    ap (store_result msg) found,
    subst (Holds _) (sym same) (record {
      same_id = held.same_id;
      method_span = held.method_span;
      params_span = held.params_span;
      result_span = value_span v rest;
      asks = held.asks;
      answers = refl;
      has_answer = refl;
      no_error = held.no_error;
    }),
  )

  pub Reads-value : (key : Bytes) → Adds key v c d → Reads msg key valued rest d
  Reads-value key adds = elim adds [
    | inl (ignored, same) ↦ Reads-ignored key ignored same
    | inr known ↦ elim known [
      | inl (e, pieces, is_string, same) ↦
          subst (λ k. Reads msg k valued rest d) (sym e) (Reads-method pieces is_string same)
      | inr other ↦ elim other [
        | inl (e, n, is_int, written, same) ↦
            subst (λ k. Reads msg k valued rest d) (sym e) (Reads-id n is_int written same)
        | inr value ↦ elim value [
          | inl (e, same) ↦ subst (λ k. Reads msg k valued rest d) (sym e) (Reads-params same)
          | inr (e, same) ↦ subst (λ k. Reads msg k valued rest d) (sym e) (Reads-result same)
        ]
      ]
    ]
  ]
