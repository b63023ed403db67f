-- ===== src/Adapter/Replies/Text.antt =====
-- The text that the builder's calls in mcptoolkit/src/mcp_adapter.cpp give for the parts all replies share.
use mcptoolkit.Prelude.{
  ℕ, ◌+◌, ◌≡◌, refl, sym, ◌∙◌, ap, false, some, [], ◌∷◌, ◌++◌, append_assoc, ◌==◌, back-append,
  Bytes, codes, c_str, ℤ, arith,
}
use mcptoolkit.Json.Scan.{is_digit}
use mcptoolkit.Json.Builder.{
  to_string, escape_all, append_escaped, separate, add_key, start_object, add_field,
  add_field_number,
}
use mcptoolkit.Json.Builder.Decimal.{Ends, to_string-back}
use mcptoolkit.Adapter.Replies.{add_id, begin_reply}

-- A comma stands in front of a key behind any byte but the opening brace.
pub separate_behind :
    (buf : Bytes) (c : ℕ)
    → (c == b'{') ≡ false
    → separate b'{' (buf ++ (c ∷ [])) ≡ buf ++ (c ∷ b',' ∷ [])
unfolding separate
separate_behind buf c h =
    rw (back-append buf c [], separate) (rw h (append_assoc buf (c ∷ []) (b',' ∷ [])))

pub separate-to_string :
    (buf : Bytes) (n : ℤ) → separate b'{' (buf ++ to_string n) ≡ buf ++ (to_string n ++ (b',' ∷ []))
separate-to_string buf n =
    let (front, d, e, small) = to_string-back n in
    let not_open : (48 + d == b'{') ≡ false = ground arith in
    rw e (
      ap (separate b'{') (sym (append_assoc buf front ((48 + d) ∷ [])))
      ∙ separate_behind (buf ++ front) (48 + d) not_open
      ∙ append_assoc buf front ((48 + d) ∷ b',' ∷ [])
      ∙ ap (λ s. buf ++ s) (sym (append_assoc front ((48 + d) ∷ []) (b',' ∷ []))))

pub separate_open : (buf : Bytes) → separate b'{' (buf ++ (b'{' ∷ [])) ≡ buf ++ (b'{' ∷ [])
unfolding separate
separate_open buf = rw (back-append buf b'{' [], separate)

pub begin_reply-text :
    (id : ℤ) → begin_reply (some id) ≡ codes "{\"jsonrpc\":\"2.0\",\"id\":" ++ to_string id
unfolding begin_reply add_id start_object add_field add_field_number add_key separate append_escaped
    escape_all c_str
begin_reply-text id = refl

pub comma-Ends : (s : Bytes) → Ends (b',' ∷ s)
unfolding is_digit
comma-Ends s = refl

pub separate_list : (buf : Bytes) → separate b'[' (buf ++ (b'[' ∷ [])) ≡ buf ++ (b'[' ∷ [])
unfolding separate
separate_list buf = rw (back-append buf b'[' [], separate)

-- A comma stands in front of an element behind any byte but the opening bracket.
pub separate_behind_list :
    (buf : Bytes) (c : ℕ)
    → (c == b'[') ≡ false
    → separate b'[' (buf ++ (c ∷ [])) ≡ buf ++ (c ∷ b',' ∷ [])
unfolding separate
separate_behind_list buf c h =
    rw (back-append buf c [], separate) (rw h (append_assoc buf (c ∷ []) (b',' ∷ [])))
