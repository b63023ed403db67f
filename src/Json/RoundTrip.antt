-- ===== src/Json/RoundTrip.antt =====
-- The parser on text that the builder writes: a string token, and one member of an object.
use mcptoolkit.Prelude.{
  ℕ, suc, ◌-◌, ◌≡◌, ◌∙◌, ap, false, some, ◌∷◌, ◌++◌, length, length-append, take-append, Bytes,
  arith,
}
use mcptoolkit.Json.Message.{Message}
use mcptoolkit.Json.Scan.{quote, string_end, open_string, parse_string, skip_ws}
use mcptoolkit.Json.Parser.{
  Step, FieldReader, finish_member, read_member, round, members, run_members,
}

-- A string body: what the parser's string loop passes over up to the closing quote.
abbrev pub IsBody : Bytes → Type 0
IsBody body = (rest : Bytes) → string_end false (body ++ quote ∷ rest) ≡ some rest

module _ (body : Bytes) (is_body : IsBody body) (rest : Bytes) where
  pub open_string-body :
      open_string (quote ∷ (body ++ quote ∷ rest))
      ≡ record { start = some (body ++ quote ∷ rest); end = some (length body, rest) }
  unfolding open_string
  open_string-body =
      let count : length (body ++ quote ∷ rest) - length rest - 1 ≡ length body =
        omega (arith, length-append body (quote ∷ rest)) in
      rw (is_body rest) (rw count)

  pub parse_string-body :
      parse_string (quote ∷ (body ++ quote ∷ rest))
      ≡ record { start = some (body ++ quote ∷ rest); end = some (length body, rest) }
  unfolding parse_string
  parse_string-body = open_string-body

module _ (reader : FieldReader) (key : Bytes) (is_body : IsBody key) (msg : Message) where
  -- A round on a member with the key reads the value behind the colon.
  round-member :
      (s : Bytes)
      → round reader msg (quote ∷ (key ++ quote ∷ b':' ∷ s)) ≡ finish_member (reader key msg s)
  unfolding round read_member skip_ws
  round-member s =
      rw (parse_string-body key is_body (b':' ∷ s))
        (ap (λ k. finish_member (reader k msg s)) (take-append key (quote ∷ b':' ∷ s)))

  module _ (fuel : ℕ) (s : Bytes) (msg' : Message) (r : Bytes) where
    pub members-comma :
        reader key msg s ≡ (msg', some (b',' ∷ r))
        → members reader (suc fuel) msg (quote ∷ (key ++ quote ∷ b':' ∷ s))
          ≡ members reader fuel msg' r
    unfolding members finish_member skip_ws
    members-comma e = rw (round-member s ∙ ap finish_member e, members)

    pub members-last :
        reader key msg s ≡ (msg', some (b'}' ∷ r))
        → members reader (suc (suc fuel)) msg (quote ∷ (key ++ quote ∷ b':' ∷ s))
          ≡ some (msg', some r)
    unfolding members finish_member skip_ws
    members-last e = rw (round-member s ∙ ap finish_member e, members)

-- The loop has fuel for every byte, so a run of `members` with that much is its result.
pub run_members-of :
    (reader : FieldReader) (msg : Message) (s : Bytes) (r : Step)
    → members reader (suc (length s)) msg s ≡ some r
    → run_members reader msg s ≡ r
unfolding run_members
run_members-of reader msg s r e = rw (e, run_members)
