-- ===== src/Json/Grammar/Kept.antt =====
-- `JsonParser::parse` of mcptoolkit/src/json/json_parser.cpp on the objects of JSON, member by member: what
-- the message keeps of them, in whatever order and with whatever blanks they are written.
use mathlib.Core.Path.{subst}
use mcptoolkit.Prelude.{
  ℕ, suc, ◌≤◌, ◌≡◌, refl, sym, ◌∙◌, ap, true, some, [], ◌∷◌, length, Bytes, arith,
}
use mcptoolkit.Json.Message.{Message}
use mcptoolkit.Json.Scan.{skip_ws}
use mcptoolkit.Json.Parser.{
  read_field, after_value, finish_member, members, run_members, parse_message,
}
use mcptoolkit.Json.Parser.Readers.{read_field-IsShrinking}
use mcptoolkit.Json.Parser.Total.{run_members_total}
use mcptoolkit.Json.Grammar.{
  Gap, object, Fields, no_fields, field, write_gap, write_string, write, write_fields, depth,
  depth_fields,
}
use mcptoolkit.Json.Grammar.Objects.{object_tail}
use mcptoolkit.Json.Grammar.Rounds.{
  key_text, skip_ws-write_gap, members-agree, round-key, stops_number-write_gap, round-write_gap,
  members-again, members-brace,
}
use mcptoolkit.Json.Grammar.Ignored.{
  count_fields, left, stops_number-left, after_value-left, read_in, parse_message-object,
}
use mcptoolkit.Json.Grammar.Contents.{Contents, nothing, AreAdded, Holds}
use mcptoolkit.Json.Grammar.Readings.{Reads-value}

-- The loop, on any fuel that is enough for the members and the brace.
members-kept :
    (msg : Message) (c d : Contents) (gap : Gap) (fields : Fields) (rest : Bytes)
    → Holds msg c
    → AreAdded fields c d
    → depth_fields fields ≤ 64
    → (m : Message) × (members read_field
          (suc (count_fields fields))
          msg
          (object_tail gap fields rest)
        ≡ some (m, some rest))
      × Holds m d
unfolding write_fields depth finish_member
members-kept msg c d gap no_fields rest held added fits =
    (msg, members-brace read_field msg 0 gap rest, subst (Holds msg) (sym added) held)
members-kept msg c d gap (field before key behind_key before_value v behind fields) rest held
      (next, adds, added) fits =
    let more = left fields rest in
    let shallow : depth v ≤ 64 = ground arith in
    let stops = stops_number-write_gap behind more (stops_number-left fields rest) in
    let valued = write_gap before_value (write v (write_gap behind more)) in
    let member = write_string key (write_gap behind_key (b':' ∷ valued)) in
    let (m, is_read, held') =
      Reads-value msg c next before_value v (write_gap behind more) held shallow stops
        (key_text key) adds in
    let (last, run, holds) = members-kept m next d [] fields rest held' added (ground arith) in
    (
      last,
      members-again read_field msg (suc (count_fields fields))
            (write_gap gap (write_gap before member)) (object_tail [] fields rest) m
            (round-write_gap read_field msg gap (write_gap before member)
              ∙ round-key read_field msg before key behind_key valued
              ∙ ap finish_member is_read
              ∙ ap (after_value m) (skip_ws-write_gap behind more)
              ∙ after_value-left m fields rest)
          ∙ run,
      holds,
    )

read_in-Holds : (text : Bytes) → Holds (read_in text) nothing
read_in-Holds text = record {
  same_id = refl;
  method_span = refl;
  params_span = refl;
  result_span = refl;
  asks = refl;
  answers = refl;
  has_answer = refl;
  no_error = refl;
}

-- A text that starts, behind blanks, with a JSON object of a depth of at most 65, in whatever order and with
-- whatever blanks its members are written, parses under any limit that it fits as a valid message, which
-- says what its members say and no more: the id, and the spans of the method, the parameters and the
-- result; of two members by one name the later counts. The method has to be a string, the id a decimal
-- number that is an `int` other than the least; no member is named "error".
pub parse_message-kept :
    (before gap : Gap) (fields : Fields) (rest : Bytes) (max : ℕ) (c : Contents)
    → AreAdded fields nothing c
    → depth (object gap fields) ≤ 65
    → length (write_gap before (write (object gap fields) rest)) ≤ max
    → let msg = parse_message (some (write_gap before (write (object gap fields) rest))) max in
      (msg.valid ≡ true) × Holds msg c
unfolding write depth skip_ws
parse_message-kept before gap fields rest max c added shallow fits =
    let text = write_gap before (write (object gap fields) rest) in
    let body = object_tail gap fields rest in
    let (m, kept, holds) =
      members-kept (read_in text) nothing c gap fields rest (read_in-Holds text) added
        (omega arith) in
    let (step, enough, is_run, shrinks) =
      run_members_total read_field read_field-IsShrinking (read_in text) body in
    let run : run_members read_field (read_in text) body ≡ (m, some rest) =
      is_run
      ∙ members-agree read_field (suc (length body)) (suc (count_fields fields)) (read_in text) body
          step (m, some rest) enough kept in
    let parsed =
      parse_message-object text body rest max m fits
        (skip_ws-write_gap before (write (object gap fields) rest)) run in
    subst (λ k. (k.valid ≡ true) × Holds k c) (sym parsed)
      (
        refl,
        record {
          same_id = holds.same_id;
          method_span = holds.method_span;
          params_span = holds.params_span;
          result_span = holds.result_span;
          asks = holds.asks;
          answers = holds.answers;
          has_answer = holds.has_answer;
          no_error = holds.no_error;
        },
      )
