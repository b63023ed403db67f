-- ===== src/Adapter/Runs.antt =====
-- What happens in `MCPAdapter::run` of mcptoolkit/src/mcp_adapter.cpp happens at one of its lines.
use mcptoolkit.Prelude.{
  ◌⊎◌, inl, inr, some, List, [], ◌∷◌, ◌++◌, Bytes, IsElement, IsElement-here, IsElement-there,
}
use mcptoolkit.Json.Message.{Message}
use mcptoolkit.Json.Parser.{parse_message, default_max_bytes}
use mcptoolkit.Auth.{Hmac}
use mcptoolkit.Adapter.Dispatch.{Adapter, Hooks, Event, Clock, strip_return, handle_line, run}
use mcptoolkit.Adapter.Gate.{Happens}

-- The parsed message of a line.
abbrev pub message_of : Bytes → Message
message_of line = parse_message (some (strip_return line)) default_max_bytes

Happens-append :
    (xs ys : List Event) (e : Event) → Happens e (xs ++ ys) → (Happens e xs) ⊎ (Happens e ys)
Happens-append [] ys e h = inr h
Happens-append (x ∷ xs) ys e h = elim h [
  | inl here ↦ inl (inl here)
  | inr there ↦ elim (Happens-append xs ys e there) [
    | inl before ↦ inl (inr before)
    | inr behind ↦ inr behind
  ]
]

-- An event of a run stems from one of the lines.
pub run-Happens :
    (hmac : Hmac) (hooks : Hooks) (a : Adapter) (lines : List (Clock × Bytes)) (e : Event)
    → Happens e (run hmac hooks a lines)
    → (clock : Clock) × (line : Bytes) × IsElement (clock, line) lines
      × Happens e (handle_line hmac hooks a clock line)
unfolding run
run-Happens hmac hooks a [] e h = absurd h
run-Happens hmac hooks a ((clock, line) ∷ lines) e h =
    elim (Happens-append (handle_line hmac hooks a clock line) (run hmac hooks a lines) e h) [
      | inl now ↦ (clock, line, IsElement-here (clock, line) lines, now)
      | inr later ↦
          let (clock', line', there, happens) = run-Happens hmac hooks a lines e later in
          (clock', line', IsElement-there (clock, line) there, happens)
    ]
