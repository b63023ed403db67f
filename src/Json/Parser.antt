-- ===== src/Json/Parser.antt =====
-- `JsonParser::parse_error_object`, `JsonParser::parse` and `MCPMessage::parse`: the object loops of
-- mcptoolkit/src/json/json_parser.cpp and mcptoolkit/src/json/json_msg.cpp.
pub mod Total
pub mod Readers
pub mod Invariant
pub mod Spans
use mcptoolkit.Prelude.{
  ℕ, zero, suc, Bool, true, false, Option, none, some, [], ◌∷◌, ltb, ◌==◌, if◌then◌else◌, length,
  take, Bytes, codes, beq, ℤ, negsuc, ◌*◌,
}
use mcptoolkit.Json.Message.{Message, blank}
use mcptoolkit.Json.Scan.{skip_ws, skip_value, StringToken, parse_string, parse_int}

-- What a function that fills a message leaves: the message, and on success the input that is left.
abbrev pub Step : Type 0
Step = Message × Option Bytes

-- What the chain of `if`s on the key does with one member: it reads the value behind the colon.
abbrev pub FieldReader : Type 0
FieldReader = Bytes → Message → Bytes → Step

-- One round of `while (true)`: the loop is left by `break` (with what follows the brace) or by
-- `return false`, or it goes on.
pub data Round : Type 0 where
  stop : Message → Option Bytes → Round
  again : Message → Bytes → Round

-- Behind the value: a comma, or a brace that the next round reads.
unfoldable pub after_value : Message → Bytes → Round
after_value msg [] = stop msg none
after_value msg (c ∷ s) =
    if c == b',' then again msg s else if c == b'}' then again msg (c ∷ s) else stop msg none

unfoldable pub finish_member : Step → Round
unfolding after_value
finish_member (msg, none) = stop msg none
finish_member (msg, some s) = after_value msg (skip_ws s)

-- Behind the key: a colon and the value.
unfoldable pub read_member : FieldReader → Bytes → Message → Bytes → Round
unfolding finish_member
read_member reader key msg [] = stop msg none
read_member reader key msg (c ∷ s) =
    if c == b':' then finish_member (reader key msg s) else stop msg none

unfoldable pub read_key : FieldReader → Message → Option Bytes → Option (ℕ × Bytes) → Round
unfolding read_member
read_key reader msg (some start) (some (len, s)) =
    read_member reader (take len start) msg (skip_ws s)
read_key reader msg _ _ = stop msg none

unfoldable pub round_at : FieldReader → Message → Bytes → Round
unfolding read_key
round_at reader msg [] = stop msg none
round_at reader msg (c ∷ s) =
    if c == b'}'
    then stop msg (some s)
    else let key = parse_string (c ∷ s) in read_key reader msg key.start key.end

unfoldable pub round : FieldReader → Message → Bytes → Round
unfolding round_at
round reader msg s = round_at reader msg (skip_ws s)

-- The loop on fuel; `none` says that the fuel ran out, which `Total` excludes.
unfoldable pub members : FieldReader → ℕ → Message → Bytes → Option Step
unfolding round
members reader zero msg s = none
members reader (suc fuel) msg s = elim (round reader msg s) [
  | stop msg' r ↦ some (msg', r)
  | again msg' s' ↦ members reader fuel msg' s'
]

-- The loop with fuel for every byte that is left; the first case stands for fuel that ran out.
unfoldable pub run_members : FieldReader → Message → Bytes → Step
unfolding members
run_members reader msg s = elim (members reader (suc (length s)) msg s) [
  | none ↦ (msg, none)
  | some r ↦ r
]

-- The reference parameters that a call writes.
unfoldable pub store_error_code : Message → Option (ℤ × Bytes) → Step
store_error_code msg none = (msg, none)
store_error_code msg (some (n, s)) = (record msg { error_code = n }, some s)

unfoldable pub store_error_msg : Message → Option Bytes → Option (ℕ × Bytes) → Step
store_error_msg msg none _ = (msg, none)
store_error_msg msg (some start) none = (record msg { error_msg = some start }, none)
store_error_msg msg (some start) (some (len, s)) =
    (record msg { error_msg = some start; error_msg_len = len }, some s)

unfoldable pub ignore_value : Message → Option (Bytes × ℕ × Bytes) → Step
ignore_value msg none = (msg, none)
ignore_value msg (some (start, len, s)) = (msg, some s)

unfoldable pub read_error_field : FieldReader
unfolding store_error_code store_error_msg ignore_value
read_error_field key msg s =
    if beq key (codes "code")
    then store_error_code msg (parse_int s)
    else if beq key (codes "message")
    then (let token = parse_string s in store_error_msg msg token.start token.end)
    else ignore_value msg (skip_value s)

abbrev pub close_error : Step → Step
close_error (msg, none) = (msg, none)
close_error (msg, some s) = (record msg { has_error = true }, some s)

unfoldable pub error_object_at : Message → Bytes → Step
error_object_at msg [] = (msg, none)
error_object_at msg (c ∷ s) =
    if c == b'{' then close_error (run_members read_error_field msg s) else (msg, none)

unfoldable pub parse_error_object : Message → Bytes → Step
unfolding error_object_at
parse_error_object msg s = error_object_at msg (skip_ws s)

unfoldable pub store_method : Message → Option Bytes → Option (ℕ × Bytes) → Step
store_method msg none _ = (msg, none)
store_method msg (some start) none = (record msg { method = some start }, none)
store_method msg (some start) (some (len, s)) =
    (record msg { method = some start; method_len = len; is_request = true }, some s)

unfoldable pub store_id : Message → Option (ℤ × Bytes) → Step
store_id msg none = (msg, none)
store_id msg (some (n, s)) = (record msg { id = some n }, some s)

unfoldable pub store_params : Message → Option (Bytes × ℕ × Bytes) → Step
store_params msg none = (msg, none)
store_params msg (some (start, len, s)) =
    (record msg { params_start = some start; params_len = len }, some s)

-- `is_response` and `has_result` are set before the value is read.
unfoldable pub store_result : Message → Option (Bytes × ℕ × Bytes) → Step
store_result msg none = (record msg { is_response = true; has_result = true }, none)
store_result msg (some (start, len, s)) = (
  record msg { is_response = true; has_result = true; result_start = some start; result_len = len },
  some s,
)

abbrev pub mark_response : Step → Step
mark_response (msg, none) = (msg, none)
mark_response (msg, some s) = (record msg { is_response = true }, some s)

unfoldable pub read_field : FieldReader
unfolding store_method store_id store_params store_result ignore_value
read_field key msg s =
    if beq key (codes "jsonrpc")
    then ignore_value msg (skip_value s)
    else if beq key (codes "method")
    then (let token = parse_string s in store_method msg token.start token.end)
    else if beq key (codes "id")
    then store_id msg (parse_int s)
    else if beq key (codes "params")
    then store_params msg (skip_value s)
    else if beq key (codes "result")
    then store_result msg (skip_value s)
    else if beq key (codes "error")
    then mark_response (parse_error_object msg s)
    else ignore_value msg (skip_value s)

unfoldable pub object_at : Message → Bytes → Step
object_at msg [] = (msg, none)
object_at msg (c ∷ s) = if c == b'{' then run_members read_field msg s else (msg, none)

-- -32700, the parse error of JSON-RPC 2.0.
abbrev pub parse_error : ℤ
parse_error = negsuc 32699

-- `JsonParser::parse`; what follows the closing brace is not read.
unfoldable pub parse : Bytes → ℕ → Message → Step
unfolding object_at
parse input max_bytes msg =
    let msg' = record msg { raw_input = some input; raw_len = length input } in
    if ltb max_bytes (length input)
    then (record msg' { error_code = parse_error }, none)
    else object_at msg' (skip_ws input)

abbrev pub set_valid : Step → Message
set_valid (msg, none) = record msg { valid = false }
set_valid (msg, some s) = record msg { valid = true }

-- `MCPMessage::parse`: a null pointer or an empty input gives the blank message.
unfoldable pub parse_message : Option Bytes → ℕ → Message
parse_message none max_bytes = blank
parse_message (some []) max_bytes = blank
parse_message (some (c ∷ s)) max_bytes =
    let input = c ∷ s in
    if ltb max_bytes (length input)
    then record blank {
      raw_input = some input;
      raw_len = length input;
      error_code = parse_error;
      valid = false;
    }
    else set_valid (parse input max_bytes blank)

-- The default limit, 1 MB.
abbrev pub default_max_bytes : ℕ
default_max_bytes = 1024 * 1024
