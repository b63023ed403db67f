-- ===== src/Adapter/Conversation.antt =====
-- What `MCPAdapter::run` of mcptoolkit/src/mcp_adapter.cpp prints, line by line.
use mcptoolkit.Prelude.{
  ℕ, ◌≤◌, ◌⊎◌, ◌≡◌, inl, inr, true, false, some, none, List, [], ◌∷◌, ◌++◌, length, Bool-cases,
  Option-cases, Bytes, codes, empty, ℤ, IsElement,
}
use mathlib.Core.Path.{subst}
use mcptoolkit.Json.Message.{Message}
use mcptoolkit.Json.Scan.Suffix.{IsInt}
use mcptoolkit.Json.Parser.{parse_message, default_max_bytes, parse_error}
use mcptoolkit.Json.Parser.Spans.{IntIfAny, parse_message-IsWellFormed}
use mcptoolkit.Auth.{Hmac}
use mcptoolkit.Adapter.Dispatch.{
  Adapter, Hooks, printed, Clock, send_error, dispatch, strip_return, handle_line, run,
}
use mcptoolkit.Adapter.Replies.{error_reply}
use mcptoolkit.Adapter.Tools.Scanned.{AllOf, HasPlainParams}
use mcptoolkit.Adapter.Gate.{Happens}
use mcptoolkit.Adapter.Answers.{IsAnswer, dispatch-IsAnswer}
use mcptoolkit.Adapter.Runs.{message_of, run-Happens}

-- The line reads as an answer to the request.
pub record AnswersTo (msg : Message) (line : Bytes) : Type 0 where
  pub valid : msg.valid ≡ true
  pub is_request : msg.is_request ≡ true
  pub id : ℤ
  pub has_id : msg.id ≡ some id
  pub text : Bytes
  pub is_line : line ≡ text ++ (10 ∷ [])
  pub reads : (max : ℕ) → length text ≤ max → IsAnswer (parse_message (some text) max) id

-- What is said to a line that is no message.
pub record IsComplaint (msg : Message) (line : Bytes) : Type 0 where
  pub invalid : msg.valid ≡ false
  pub is_line : line ≡ error_reply none parse_error (codes "Parse error") ++ (10 ∷ [])

module _ (hmac : Hmac) (hooks : Hooks) (a : Adapter) (plain : AllOf HasPlainParams hooks.list_tools)
    (clock : Clock) (line : Bytes) where
  -- The id of a message that is valid is an `int`.
  message_of-IsInt :
      (input : Bytes) (id : ℤ)
      → (message_of input).valid ≡ true
      → (message_of input).id ≡ some id
      → IsInt id
  message_of-IsInt input id valid has_id =
      let formed = parse_message-IsWellFormed (strip_return input) default_max_bytes valid in
      subst IntIfAny has_id formed.base.id

  dispatch-AnswersTo :
      (input : Bytes)
      → (message_of input).valid ≡ true
      → Happens (printed line) (dispatch hmac hooks a clock (message_of input))
      → AnswersTo (message_of input) line
  unfolding dispatch
  dispatch-AnswersTo input valid happens = elim (Bool-cases (message_of input).is_request) [
    | inr ignored ↦
        let nothing : Happens (printed line) [] = simp ignored at happens in absurd nothing
    | inl request ↦ elim (Option-cases (message_of input).id) [
      | inl no_id ↦
          let nothing : Happens (printed line) [] = simp (request, no_id) at happens in
          absurd nothing
      | inr (id, has_id) ↦
          let (text, is_line, reads) =
            dispatch-IsAnswer hmac hooks a clock (message_of input) id line
              (message_of-IsInt input id valid has_id) plain has_id happens in
          record {
            valid = valid;
            is_request = request;
            id = id;
            has_id = has_id;
            text = text;
            is_line = is_line;
            reads = reads;
          }
    ]
  ]

  handle_line-AnswersTo :
      (input : Bytes)
      → Happens (printed line) (handle_line hmac hooks a clock input)
      → (AnswersTo (message_of input) line) ⊎ (IsComplaint (message_of input) line)
  unfolding handle_line send_error
  handle_line-AnswersTo input h = elim (Bool-cases (empty input)) [
    | inl e ↦ let nothing : Happens (printed line) [] = simp e at h in absurd nothing
    | inr e ↦ elim (Bool-cases (message_of input).valid) [
      | inl v ↦ inl (dispatch-AnswersTo input v (simp (e, v) at h))
      | inr v ↦
          let told : Happens (printed line) (send_error none parse_error (codes "Parse error")) =
            simp (e, v) at h in
          elim told [ inl q ↦ inr (record { invalid = v; is_line = cc }) | inr q ↦ absurd q ]
    ]
  ]

-- Over any input, each line that the server prints belongs to a line that it has read: either that line
-- parses to a valid request with an id, and the printed line is a response that the library's own
-- parser, under any limit that it fits, reads as valid and with that id; or that line does not parse,
-- and the printed line is the parse error with a null id. No parameter's name of a tool may hold a quote
-- or a backslash.
pub run-AnswersTo :
    (hmac : Hmac) (hooks : Hooks) (a : Adapter) (lines : List (Clock × Bytes)) (line : Bytes)
    → AllOf HasPlainParams hooks.list_tools
    → Happens (printed line) (run hmac hooks a lines)
    → (clock : Clock) × (input : Bytes) × IsElement (clock, input) lines
      × ((AnswersTo (message_of input) line) ⊎ (IsComplaint (message_of input) line))
run-AnswersTo hmac hooks a lines line plain happens =
    let (clock, input, there, now) = run-Happens hmac hooks a lines (printed line) happens in
    (clock, input, there, handle_line-AnswersTo hmac hooks a plain clock line input now)
