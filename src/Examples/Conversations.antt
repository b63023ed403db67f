-- ===== src/Examples/Conversations.antt =====
-- Lines that a client sends to a server, and the theorems applied to them.
use mcptoolkit.Prelude.{
  ℕ, ◌≡◌, ◌↔◌, ◌⊎◌, refl, inl, inr, true, false, none, some, List, [], ◌∷◌, ◌++◌, length, ◌-◌,
  IsElement, Bytes, codes, beq, is_prefix, contains_byte, pos, arith,
}
use mcptoolkit.Json.Scan.{outside, container_end}
use mcptoolkit.Json.Parser.{parse_message}
use mcptoolkit.Json.Builder.{to_string}
use mcptoolkit.Rbac.{Role, ResourceAccess, User, new_control, can_access_resource_by_id}
use mcptoolkit.Rbac.Decisions.{IsGranted, CanReach}
use mcptoolkit.Rbac.History.{
  Change, adds, registers, gives, change_all, added, last_word, change_all-decides,
}
use mcptoolkit.Adapter.Extract.{container_length, extract_value_span}
use mcptoolkit.Adapter.Replies.{call_reply}
use mcptoolkit.Adapter.Dispatch.{called, printed, print, Clock, run}
use mcptoolkit.Adapter.Gate.{Happens}
use mcptoolkit.Adapter.Runs.{message_of}
use mcptoolkit.Adapter.Conversation.{AnswersTo, IsComplaint, run-AnswersTo}
use mcptoolkit.Adapter.Requests.{asked}
use mcptoolkit.Adapter.Requests.Extracted.{Spacing, container_length-container_end}
use mcptoolkit.Adapter.Requests.Called.{call_params}
use mcptoolkit.Json.Grammar.Contents.{Contents, nothing, AreAdded, Holds}
use mcptoolkit.Json.Grammar.Kept.{parse_message-kept}
use mcptoolkit.Json.Grammar.{
  Piece, write_gap, plain, escape, space, plus, no_exponent, exponent, no_fraction, fraction, Value,
  null, number, string, array, object, no_items, item, Fields, no_fields, field, write, depth,
}
use mcptoolkit.Json.Grammar.Accepted.{skip_value-write}
use mcptoolkit.Json.Grammar.Ignored.{parse_message-ignored}
use mcptoolkit.Json.Message.{blank}
use mcptoolkit.Json.Scan.{is_digit, skip_value}
use mcptoolkit.Suite.Serving.{new_adapter, test_server, run_adapter}
use mcptoolkit.Examples.{toy_hmac, clock}

-- The member `"x":1`.
abbrev argument_fields : Fields
argument_fields =
    field [] (plain b'x' ∷ []) [] []
      (number (record {
        is_negative = false;
        first = 1;
        more = [];
        behind_point = no_fraction;
        scaled = no_exponent;
      }))
      [] no_fields

abbrev text_pieces : Bytes → List Piece
text_pieces [] = []
text_pieces (c ∷ s) = plain c ∷ text_pieces s

abbrev digit_number : ℕ → Value
digit_number n = number (record {
  is_negative = false;
  first = n;
  more = [];
  behind_point = no_fraction;
  scaled = no_exponent;
})

-- { "name": "echo", "arguments" :{"x":1},"auth_token":"t"}
abbrev echo_params : Value
echo_params = object (space ∷ []) (
    field [] (text_pieces (codes "name")) [] (space ∷ []) (string (text_pieces (codes "echo"))) [] (
      field (space ∷ []) (text_pieces (codes "arguments")) (space ∷ []) []
        (object [] argument_fields) []
        (field [] (text_pieces (codes "auth_token")) [] [] (string (plain b't' ∷ [])) []
          no_fields)))

abbrev echo_spacing : Spacing
echo_spacing = record {
  before_name = space ∷ [];
  behind_name = [];
  before_text = space ∷ [];
  behind_text = [];
  before_arguments = space ∷ [];
  behind_arguments = space ∷ [];
  before_object = [];
}

abbrev echo_contents : Contents
echo_contents =
    asked (pos 4) (codes "tools/call")
      (call_params echo_spacing (codes "echo") [] argument_fields (codes ",\"auth_token\":\"t\"}"))

-- The parameters come first, and the version last.
abbrev echo_fields : Fields
echo_fields = field [] (text_pieces (codes "params")) (space ∷ []) (space ∷ []) echo_params [] (
    field (space ∷ []) (text_pieces (codes "method")) [] []
      (string (text_pieces (codes "tools/call"))) []
      (field [] (text_pieces (codes "id")) [] [] (digit_number 4) (space ∷ []) (
        field [] (text_pieces (codes "jsonrpc")) [] [] (string (text_pieces (codes "2.0"))) []
          no_fields)))

abbrev echo_text : Bytes
echo_text =
    codes
      "{\"params\" : { \"name\": \"echo\", \"arguments\" :{\"x\":1},\"auth_token\":\"t\"}, \"method\":\"tools/call\",\"id\":4 ,\"jsonrpc\":\"2.0\"}"

abbrev echo_call : Bytes
echo_call = echo_text ++ (13 ∷ [])

echo_says : AreAdded echo_fields nothing echo_contents
unfolding write to_string beq
echo_says = (
  _,
  inr (inr (inr (inl (refl, refl)))),
  (
    _,
    inr (inl (refl, text_pieces (codes "tools/call"), refl, refl)),
    (_, inr (inr (inl (refl, pos 4, omega arith, refl, refl))), (_, inl (refl, refl), refl)),
  ),
)

abbrev echo_answer : Bytes
echo_answer =
    call_reply (some (pos 4)) (record { text = codes "hello from echo"; is_error = false })
    ++ (10 ∷ [])

abbrev one_line : List (Clock × Bytes)
one_line = (clock, echo_call) ∷ []

answer_is_printed : Happens (printed echo_answer) (run toy_hmac test_server new_adapter one_line)
unfolding run_adapter write
answer_is_printed = inr (inl refl)

run-AnswersTo_example :
    (c : Clock) × (input : Bytes) × IsElement (c, input) one_line
    × ((AnswersTo (message_of input) echo_answer) ⊎ (IsComplaint (message_of input) echo_answer))
unfolding contains_byte
run-AnswersTo_example =
    run-AnswersTo toy_hmac test_server new_adapter one_line echo_answer
      ((((refl, refl), record {})), record {}) answer_is_printed

parse_message-kept_example :
    ((parse_message (some (write_gap [] (write (object [] echo_fields) []))) 200).valid ≡ true)
    × Holds
        (parse_message (some (write_gap [] (write (object [] echo_fields) []))) 200)
        echo_contents
unfolding write depth
parse_message-kept_example =
    parse_message-kept [] [] echo_fields [] 200 echo_contents echo_says (omega arith) (omega arith)

-- -2.5E+3
abbrev scientific : Value
scientific = number (record {
  is_negative = true;
  first = 2;
  more = [];
  behind_point = fraction 5 [];
  scaled = exponent true plus 3 [];
})

-- [null, {"k" : "\u"}, -2.5E+3]
abbrev mixed : Value
mixed = array [] (
    item [] null [] (
      item (space ∷ [])
        (object [] (
          field [] (plain b'k' ∷ []) (space ∷ []) (space ∷ []) (string (escape b'u' ∷ [])) []
            no_fields))
        [] (item (space ∷ []) scientific [] no_items)))

mixed_text : write mixed [] ≡ codes "[null, {\"k\" : \"\\u\"}, -2.5E+3]"
unfolding write
mixed_text = refl

skip_value-write_example :
    skip_value (write mixed (codes ",1"))
    ≡ some (write mixed (codes ",1"), length (write mixed (codes ",1")) - 2, codes ",1")
unfolding depth is_digit
skip_value-write_example = skip_value-write mixed (codes ",1") (omega arith) refl

-- { "name": "Al"}
abbrev generic_fields : Fields
generic_fields =
    field (space ∷ []) (plain b'n' ∷ plain b'a' ∷ plain b'm' ∷ plain b'e' ∷ []) [] (space ∷ [])
      (string (plain b'A' ∷ plain b'l' ∷ [])) [] no_fields

parse_message-ignored_example :
    parse_message (some (write (object [] generic_fields) [])) 100 ≡ record blank {
      raw_input = some (write (object [] generic_fields) []);
      raw_len = length (write (object [] generic_fields) []);
      valid = true;
    }
unfolding beq write depth
parse_message-ignored_example =
    parse_message-ignored [] [] generic_fields [] 100 (refl, record {}) (omega arith) (omega arith)

container_length-container_end_example :
    container_length b'{' b'}' outside 1 (codes "1}" ++ codes ",2") ≡ length (codes "1}")
unfolding container_end
container_length-container_end_example =
    container_length-container_end b'{' b'}' (codes "1}") (codes ",2") outside 1 (λ rest. refl)

-- A tool by the name of "arguments" is called with none: the search for the key stops at its name.
arguments_are_lost :
    extract_value_span
      (codes "arguments")
      (codes "{\"name\":\"arguments\",\"arguments\":{\"x\":1}}")
    ≡ none
unfolding extract_value_span is_prefix
arguments_are_lost = refl

-- Of two names the one inside of the arguments is taken, where these come first.
inner_name_is_taken :
    run_adapter toy_hmac clock test_server (
      codes
        "{\"id\":1,\"method\":\"tools/call\",\"params\":{\"arguments\":{\"name\":\"evil\"},\"name\":\"echo\"}}")
    ≡ called (codes "evil") (codes "{\"name\":\"evil\"}") none
      ∷ print (call_reply (some (pos 1)) (record { text = codes "unknown tool"; is_error = true }))
unfolding run_adapter write
inner_name_is_taken = refl

abbrev bob : User
bob = record { user_id = codes "bob"; role = Role.user; group_ids = []; authenticated = true }

-- A note of Ann's, which is given to Bob.
abbrev note_changes : List Change
note_changes =
    adds (record { required_role = Role.user; action = codes "read" })
    ∷ registers (record {
      resource_id = codes "note";
      owner_id = codes "ann";
      group_ids = [];
      is_public = false;
    })
    ∷ gives (codes "note") (codes "bob")
    ∷ []

change_all-decides_example :
    ((can_access_resource_by_id
        (change_all note_changes new_control)
        bob
        (codes "note")
        (codes "read")).allowed
      ≡ true)
    ↔ ((bob.authenticated ≡ true)
        × IsGranted (added note_changes) bob (codes "read")
        × (resource : ResourceAccess) × (last_word (codes "note") note_changes none ≡ some resource)
        × CanReach bob resource (codes "read"))
change_all-decides_example = change_all-decides note_changes bob (codes "note") (codes "read")
