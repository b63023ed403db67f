-- ===== src/Examples/Replies.antt =====
-- Replies to a tool's call and to `tools/list` on concrete inputs, and the theorems applied to them.
use mcptoolkit.Prelude.{
  contains_byte, ◌≤◌, refl, true, false, some, List, [], ◌∷◌, length, codes, pos, arith,
}
use mcptoolkit.Json.Parser.{parse_message}
use mcptoolkit.Adapter.Replies.{ToolResult, call_reply}
use mcptoolkit.Adapter.Tools.{ToolDefinition, list_reply}
use mcptoolkit.Adapter.Tools.Listed.{tools_tail}
use mcptoolkit.Adapter.Tools.Scanned.{AllOf, HasPlainParams, parse_message-list_reply}
use mcptoolkit.Adapter.Replies.Object.{IsResultResponse}
use mcptoolkit.Adapter.Replies.Result.{result_text, parse_message-call_reply}

abbrev echoed : ToolResult
echoed = record { text = codes "say \"hi\""; is_error = false }

echoed_fits : length (call_reply (some (pos 7)) echoed) ≤ 200
unfolding call_reply
echoed_fits = omega arith

parse_message-call_reply_example :
    IsResultResponse
      (parse_message (some (call_reply (some (pos 7)) echoed)) 200)
      (pos 7)
      (result_text echoed)
parse_message-call_reply_example =
    parse_message-call_reply echoed (pos 7) 200 (omega arith) echoed_fits

abbrev two_tools : List ToolDefinition
two_tools =
    record {
      name = codes "echo";
      description = codes "Says \"it\" again";
      params =
          record {
            name = codes "x";
            type = codes "string";
            description = codes "what to say";
            required = true;
          }
          ∷ record { name = codes "n"; type = codes "integer"; description = []; required = false }
          ∷ [];
    }
    ∷ record { name = codes "list"; description = []; params = [] }
    ∷ []

two_tools_are_plain : AllOf HasPlainParams two_tools
unfolding contains_byte
two_tools_are_plain = (((refl, refl), ((refl, refl), record {})), (record {}, record {}))

two_tools_fit : length (list_reply (some (pos 7)) two_tools) ≤ 1000
unfolding list_reply
two_tools_fit = omega arith

parse_message-list_reply_example :
    IsResultResponse
      (parse_message (some (list_reply (some (pos 7)) two_tools)) 1000)
      (pos 7)
      (b'{' ∷ tools_tail two_tools)
parse_message-list_reply_example =
    parse_message-list_reply two_tools (pos 7) 1000 two_tools_are_plain (omega arith) two_tools_fit
