-- ===== src/Adapter/Lines.antt =====
-- How many lines `MCPAdapter::run` of mcptoolkit/src/mcp_adapter.cpp prints for the lines it reads.
use mcptoolkit.Prelude.{
  ℕ, ◌+◌, ◌≡◌, refl, inl, inr, not, some, List, [], ◌∷◌, ◌++◌, if◌then◌else◌, Bool-cases, Bytes,
  empty, arith,
}
use mcptoolkit.Json.Parser.{parse_message, default_max_bytes}
use mcptoolkit.Auth.{Hmac}
use mcptoolkit.Adapter.Dispatch.{
  Adapter, Hooks, Event, called, printed, Clock, send_error, strip_return, handle_line, run,
}
use mcptoolkit.Adapter.Gate.{count_printed, expects_reply, dispatch-printed}

-- One for a line that does not parse and for a request with an id, none for an empty line and for any
-- other message.
abbrev pub replies_due : Bytes → ℕ
replies_due line =
    if empty line
    then 0
    else (let msg = parse_message (some (strip_return line)) default_max_bytes in
        if not msg.valid then 1 else if expects_reply msg then 1 else 0)

abbrev pub all_due : List (Clock × Bytes) → ℕ
all_due [] = 0
all_due ((clock, line) ∷ lines) = replies_due line + all_due lines

count_printed-append :
    (a b : List Event) → count_printed (a ++ b) ≡ count_printed a + count_printed b
count_printed-append [] b = omega arith
count_printed-append (called name args who ∷ a) b = count_printed-append a b
count_printed-append (printed line ∷ a) b = omega (arith, count_printed-append a b)

handle_line-printed :
    (hmac : Hmac) (hooks : Hooks) (a : Adapter) (clock : Clock) (line : Bytes)
    → count_printed (handle_line hmac hooks a clock line) ≡ replies_due line
unfolding handle_line send_error
handle_line-printed hmac hooks a clock line =
    let msg = parse_message (some (strip_return line)) default_max_bytes in
    let answered = dispatch-printed hmac hooks a clock msg in
    elim (Bool-cases (empty line)) [
      | inl e ↦ rw e refl
      | inr e ↦ elim (Bool-cases msg.valid) [ inl v ↦ simp (e, v) answered | inr v ↦ simp (e, v) ]
    ]

-- Over any input, the server prints one line for each line that is not empty and does not parse and one
-- for each request with an id, and no other line: an empty line is passed over in silence.
pub run-printed :
    (hmac : Hmac) (hooks : Hooks) (a : Adapter) (lines : List (Clock × Bytes))
    → count_printed (run hmac hooks a lines) ≡ all_due lines
unfolding run
run-printed hmac hooks a [] = refl
run-printed hmac hooks a ((clock, line) ∷ lines) = omega (
  arith,
  count_printed-append (handle_line hmac hooks a clock line) (run hmac hooks a lines),
  handle_line-printed hmac hooks a clock line,
  run-printed hmac hooks a lines,
)
