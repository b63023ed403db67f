-- ===== src/Json/Grammar/Rounds.antt =====
-- The object loop of `JsonParser::parse` in mcptoolkit/src/json/json_parser.cpp on the texts of JSON: one
-- member, with blanks around its key and its value, and the closing brace.
use mathlib.Core.Option
use mcptoolkit.Prelude.{
  ℕ, zero, suc, ◌-◌, ◌≤◌, ◌≡◌, refl, sym, ◌∙◌, ap, true, false, Option, some, List, [], ◌∷◌, length,
  take-append, Bytes, ◌⊎◌, inl, inr,
}
use mcptoolkit.Json.Message.{Message}
use mcptoolkit.Json.Scan.{quote, skip_ws, skip_value, value_end, is_digit, string_end}
use mcptoolkit.Json.Parser.{
  Step, FieldReader, Round, stop, again, read_member, finish_member, read_key, round_at, round,
  members,
}
use mcptoolkit.Json.RoundTrip.{IsBody, parse_string-body}
use mcptoolkit.Json.Grammar.{
  Piece, space, tab, line_feed, carriage_return, Gap, Value, write_gap, write_pieces, write_string,
  write, depth,
}
use mcptoolkit.Json.Grammar.Passes.{string_end-write_pieces}
use mcptoolkit.Json.Grammar.Objects.{write_pieces-append}
use mcptoolkit.Json.Grammar.Accepted.{stops_number, skip_value-write}

-- The text of a key between its quotes.
abbrev pub key_text : List Piece → Bytes
key_text key = write_pieces key []

pub skip_ws-write_gap : (gap : Gap) (s : Bytes) → skip_ws (write_gap gap s) ≡ skip_ws s
unfolding skip_ws
skip_ws-write_gap [] s = refl
skip_ws-write_gap (space ∷ gap) s = skip_ws-write_gap gap s
skip_ws-write_gap (tab ∷ gap) s = skip_ws-write_gap gap s
skip_ws-write_gap (line_feed ∷ gap) s = skip_ws-write_gap gap s
skip_ws-write_gap (carriage_return ∷ gap) s = skip_ws-write_gap gap s

pub key_text-IsBody : (key : List Piece) → IsBody (key_text key)
key_text-IsBody key rest =
    ap (string_end false) (sym (write_pieces-append (quote ∷ rest) key []))
    ∙ string_end-write_pieces key rest

Round-cases :
    (turn : Round)
    → ((msg : Message) × (r : Option Bytes) × (turn ≡ stop msg r))
      ⊎ ((msg : Message) × (s : Bytes) × (turn ≡ again msg s))
Round-cases (stop msg r) = inl (msg, r, refl)
Round-cases (again msg s) = inr (msg, s, refl)

-- Two runs of the loop that both come to an end come to the same.
pub members-agree :
    (reader : FieldReader) (f g : ℕ) (msg : Message) (s : Bytes) (r t : Step)
    → members reader f msg s ≡ some r
    → members reader g msg s ≡ some t
    → r ≡ t
unfolding members
members-agree reader zero g msg s r t h k = absurd cc
members-agree reader (suc f) zero msg s r t h k = absurd cc
members-agree reader (suc f) (suc g) msg s r t h k = elim (Round-cases (round reader msg s)) [
  | inl (m, rest, e) ↦
      let one : some (m, rest) ≡ some r = rw (e, members) at h in
      let other : some (m, rest) ≡ some t = rw (e, members) at k in cc
  | inr (m, rest, e) ↦
      members-agree reader f g m rest r t (rw (e, members) at h) (rw (e, members) at k)
]

module _ (reader : FieldReader) (msg : Message) where
  round_at-key :
      (key : List Piece) (behind : Gap) (s : Bytes)
      → round_at reader msg (write_string key (write_gap behind (b':' ∷ s)))
        ≡ finish_member (reader (key_text key) msg s)
  unfolding round_at read_key read_member skip_ws
  round_at-key key behind s =
      let text = key_text key in
      let rest = write_gap behind (b':' ∷ s) in
      ap (λ t. round_at reader msg (quote ∷ t)) (write_pieces-append (quote ∷ rest) key [])
      ∙ ap (λ token. read_key reader msg token.start token.end)
          (parse_string-body text (key_text-IsBody key) rest)
      ∙ ap (λ k. read_member reader k msg (skip_ws rest)) (take-append text (quote ∷ rest))
      ∙ ap (read_member reader text msg) (skip_ws-write_gap behind (b':' ∷ s))

  -- A round on a member, with blanks around its key.
  pub round-key :
      (before : Gap) (key : List Piece) (behind : Gap) (s : Bytes)
      → round reader msg (write_gap before (write_string key (write_gap behind (b':' ∷ s))))
        ≡ finish_member (reader (key_text key) msg s)
  unfolding round skip_ws
  round-key before key behind s =
      ap (round_at reader msg)
        (skip_ws-write_gap before (write_string key (write_gap behind (b':' ∷ s))))
      ∙ round_at-key key behind s

-- What may follow a value in an object does not go on with a number.
pub stops_number-write_gap :
    (gap : Gap) (s : Bytes) → stops_number s ≡ true → stops_number (write_gap gap s) ≡ true
unfolding is_digit
stops_number-write_gap [] s h = h
stops_number-write_gap (space ∷ gap) s h = refl
stops_number-write_gap (tab ∷ gap) s h = refl
stops_number-write_gap (line_feed ∷ gap) s h = refl
stops_number-write_gap (carriage_return ∷ gap) s h = refl

-- A value behind blanks is skipped, and its span is the value's own.
pub skip_value-gaps :
    (before : Gap) (v : Value) (rest : Bytes)
    → depth v ≤ 64
    → stops_number rest ≡ true
    → skip_value (write_gap before (write v rest))
      ≡ some (write v rest, length (write v rest) - length rest, rest)
unfolding skip_value
skip_value-gaps before v rest fits h =
    let found = skip_value-write v rest fits h in
    let shifted =
      ap (λ start. Option.map (λ r. (start, length start - length r, r)) (value_end start))
        (skip_ws-write_gap before (write v rest)) in
    shifted ∙ found

module _ (reader : FieldReader) (msg : Message) where
  pub round-write_gap :
      (gap : Gap) (s : Bytes) → round reader msg (write_gap gap s) ≡ round reader msg s
  unfolding round
  round-write_gap gap s = ap (round_at reader msg) (skip_ws-write_gap gap s)

  pub members-again :
      (fuel : ℕ) (s r : Bytes) (m : Message)
      → round reader msg s ≡ again m r
      → members reader (suc fuel) msg s ≡ members reader fuel m r
  unfolding members
  members-again fuel s r m e = rw (e, members) refl

  pub members-brace :
      (fuel : ℕ) (gap : Gap) (rest : Bytes)
      → members reader (suc fuel) msg (write_gap gap (b'}' ∷ rest)) ≡ some (msg, some rest)
  unfolding members round round_at skip_ws
  members-brace fuel gap rest =
      let e : round reader msg (write_gap gap (b'}' ∷ rest)) ≡ stop msg (some rest) =
        round-write_gap gap (b'}' ∷ rest) in
      rw (e, members) refl
