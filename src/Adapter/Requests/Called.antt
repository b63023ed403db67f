-- ===== src/Adapter/Requests/Called.antt =====
-- Calls with any JSON object as their arguments, from the line of a client to the tool of a server of
-- mcptoolkit/src/mcp_adapter.cpp and back.
use mcptoolkit.Prelude.{[], ◌∷◌, Bytes}
use mcptoolkit.Json.Grammar.{Gap, Fields}
use mcptoolkit.Json.Grammar.Objects.{object_tail}
use mcptoolkit.Adapter.Dispatch.{Adapter}
use mcptoolkit.Adapter.Requests.Extracted.{Spacing, call_tail}

-- The parameters of a call, {"name":"...","arguments":{...}...}, with blanks between the tokens up to the
-- arguments: the name comes first, the arguments second, and any text behind them.
abbrev pub call_params : Spacing → Bytes → Gap → Fields → Bytes → Bytes
call_params spacing name gap args behind =
    b'{' ∷ call_tail spacing name (object_tail gap args []) behind
