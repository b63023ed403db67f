-- ===== src/Json/Grammar/Ignored.antt =====
-- `JsonParser::parse` of mcptoolkit/src/json/json_parser.cpp on JSON objects whose keys mean nothing to it.
use mcptoolkit.Prelude.{
  ℕ, suc, ◌≤◌, ◌≡◌, refl, ◌∙◌, ap, Bool, true, false, ◌||◌, some, List, [], ◌∷◌, ltb, length, Bytes,
  codes, beq, arith,
}
use mcptoolkit.Json.Message.{Message, blank}
use mcptoolkit.Json.Scan.{skip_ws, skip_value, is_digit}
use mcptoolkit.Json.Parser.{
  again, ignore_value, read_field, after_value, finish_member, round, members, run_members,
  object_at, set_valid, parse, parse_message,
}
use mcptoolkit.Json.Parser.Readers.{read_field-IsShrinking}
use mcptoolkit.Json.Parser.Total.{run_members_total}
use mcptoolkit.Json.Grammar.{
  Piece, Gap, Value, object, Fields, no_fields, field, write_gap, write_string, comma_fields, write,
  write_fields, depth, depth_fields,
}
use mcptoolkit.Json.Grammar.Objects.{object_tail}
use mcptoolkit.Json.Grammar.Accepted.{stops_number}
use mcptoolkit.Json.Grammar.Rounds.{
  key_text, skip_ws-write_gap, members-agree, round-key, stops_number-write_gap, skip_value-gaps,
  round-write_gap, members-again, members-brace,
}

-- The keys whose values the parser keeps.
abbrev pub is_kept : Bytes → Bool
is_kept key =
    beq key (codes "method")
    || beq key (codes "id")
    || beq key (codes "params")
    || beq key (codes "result")
    || beq key (codes "error")

-- No key is one of them.
abbrev pub AllIgnored : Fields → Type 0
AllIgnored no_fields = Unit {0}
AllIgnored (field _ key _ _ _ _ fields) = (is_kept (key_text key) ≡ false) × AllIgnored fields

-- The value of an ignored key is skipped.
pub read_field-ignored :
    (key : Bytes) (msg : Message) (s : Bytes)
    → is_kept key ≡ false
    → read_field key msg s ≡ ignore_value msg (skip_value s)
unfolding read_field
read_field-ignored key msg s h = ground arith

module _ (msg : Message) (before : Gap) (key : List Piece) (behind_key before_value : Gap)
    (v : Value) (behind : Gap) (more : Bytes) where
  -- A round on an ignored member is left behind the value and the blanks that follow it.
  round-ignored :
      is_kept (key_text key) ≡ false
      → depth v ≤ 64
      → stops_number more ≡ true
      → round read_field msg (
          write_gap before (
            write_string key (
              write_gap behind_key
                (b':' ∷ write_gap before_value (write v (write_gap behind more))))))
        ≡ after_value msg (skip_ws more)
  unfolding finish_member ignore_value
  round-ignored ignored fits stops =
      let text = write_gap before_value (write v (write_gap behind more)) in
      let found =
        skip_value-gaps before_value v (write_gap behind more) fits
          (stops_number-write_gap behind more stops) in
      round-key read_field msg before key behind_key text
      ∙ ap finish_member
          (read_field-ignored (key_text key) msg text ignored ∙ ap (ignore_value msg) found)
      ∙ ap (after_value msg) (skip_ws-write_gap behind more)

abbrev pub count_fields : Fields → ℕ
count_fields no_fields = 0
count_fields (field _ _ _ _ _ _ fields) = suc (count_fields fields)

-- What follows the last value that was read.
abbrev pub left : Fields → Bytes → Bytes
left fields rest = comma_fields fields (write_fields fields (b'}' ∷ rest))

pub stops_number-left : (fields : Fields) (rest : Bytes) → stops_number (left fields rest) ≡ true
unfolding is_digit write_fields
stops_number-left no_fields rest = refl
stops_number-left (field _ _ _ _ _ _ _) rest = refl

pub after_value-left :
    (msg : Message) (fields : Fields) (rest : Bytes)
    → after_value msg (skip_ws (left fields rest)) ≡ again msg (object_tail [] fields rest)
unfolding after_value skip_ws write_fields
after_value-left msg no_fields rest = refl
after_value-left msg (field _ _ _ _ _ _ _) rest = refl

-- The loop leaves the message as it is, on any fuel that is enough for the members and the brace.
members-ignored :
    (msg : Message) (gap : Gap) (fields : Fields) (rest : Bytes)
    → AllIgnored fields
    → depth_fields fields ≤ 64
    → members read_field (suc (count_fields fields)) msg (object_tail gap fields rest)
      ≡ some (msg, some rest)
unfolding write_fields depth
members-ignored msg gap no_fields rest ignored fits = members-brace read_field msg 0 gap rest
members-ignored msg gap (field before key behind_key before_value v behind fields) rest
      (none_kept, ignored) fits =
    let more = left fields rest in
    let text = write_gap before (
      write_string key
        (write_gap behind_key (b':' ∷ write_gap before_value (write v (write_gap behind more))))) in
    members-again read_field msg (suc (count_fields fields)) (write_gap gap text)
      (object_tail [] fields rest) msg
      (round-write_gap read_field msg gap text
        ∙ round-ignored msg before key behind_key before_value v behind more none_kept
            (ground arith) (stops_number-left fields rest)
        ∙ after_value-left msg fields rest)
    ∙ members-ignored msg [] fields rest ignored (ground arith)

run_members-ignored :
    (msg : Message) (gap : Gap) (fields : Fields) (rest : Bytes)
    → AllIgnored fields
    → depth_fields fields ≤ 64
    → run_members read_field msg (object_tail gap fields rest) ≡ (msg, some rest)
run_members-ignored msg gap fields rest ignored fits =
    let text = object_tail gap fields rest in
    let (step, enough, is_run, shrinks) =
      run_members_total read_field read_field-IsShrinking msg text in
    is_run
    ∙ members-agree read_field (suc (length text)) (suc (count_fields fields)) msg text step
        (msg, some rest) enough (members-ignored msg gap fields rest ignored fits)

abbrev pub read_in : Bytes → Message
read_in text = record blank { raw_input = some text; raw_len = length text }

parse-object :
    (text body rest : Bytes) (max : ℕ) (msg : Message)
    → ltb max (length text) ≡ false
    → skip_ws text ≡ b'{' ∷ body
    → run_members read_field (read_in text) body ≡ (msg, some rest)
    → parse text max blank ≡ (msg, some rest)
unfolding parse object_at
parse-object text body rest max msg fits start run =
    rw fits (ap (object_at (read_in text)) start ∙ run)

pub parse_message-object :
    (text body rest : Bytes) (max : ℕ) (msg : Message)
    → length text ≤ max
    → skip_ws text ≡ b'{' ∷ body
    → run_members read_field (read_in text) body ≡ (msg, some rest)
    → parse_message (some text) max ≡ record msg { valid = true }
unfolding parse_message skip_ws
parse_message-object [] body rest max msg fits start run = absurd cc
parse_message-object (c ∷ s) body rest max msg fits start run =
    let not_longer : ltb max (length (c ∷ s)) ≡ false = ground arith in
    rw not_longer (ap set_valid (parse-object (c ∷ s) body rest max msg not_longer start run))

-- A text that starts, behind blanks, with a JSON object of a depth of at most 65 none of whose keys is
-- method, id, params, result or error parses, under any limit that it fits, as a valid message of which
-- nothing but the input is set: it is no request and no response and has no id.
pub parse_message-ignored :
    (before gap : Gap) (fields : Fields) (rest : Bytes) (max : ℕ)
    → AllIgnored fields
    → depth (object gap fields) ≤ 65
    → let text = write_gap before (write (object gap fields) rest) in
      length text ≤ max
      → parse_message (some text) max
        ≡ record blank { raw_input = some text; raw_len = length text; valid = true }
unfolding write depth skip_ws
parse_message-ignored before gap fields rest max ignored shallow fits =
    let text = write_gap before (write (object gap fields) rest) in
    parse_message-object text (object_tail gap fields rest) rest max (read_in text) fits
      (skip_ws-write_gap before (write (object gap fields) rest))
      (run_members-ignored (read_in text) gap fields rest ignored (omega arith))
