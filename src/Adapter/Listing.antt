-- ===== src/Adapter/Listing.antt =====
-- What `handle_tools_list` of mcptoolkit/src/mcp_adapter.cpp answers.
use mcptoolkit.Prelude.{◌≡◌, ◌≢◌, ◌⊎◌, inl, inr, [], ◌++◌, Bool-cases, Bytes, codes, empty}
use mcptoolkit.Json.Message.{Message}
use mcptoolkit.Adapter.Tools.{first_error, list_reply}
use mcptoolkit.Adapter.Tools.Valid.{AreTools, empty_iff, empty_nil, first_error_iff}
use mcptoolkit.Adapter.Dispatch.{Hooks, print, internal_error, send_error, handle_tools_list}

-- The tools are listed if each of them, with its parameters, is well formed: names of 1 to 256 bytes
-- without a line feed, a carriage return or a NUL, one of the four types, descriptions within their
-- limits and at most 256 parameters. Otherwise the answer is an error that gives a reason, and no tool
-- is listed.
pub handle_tools_list_cases :
    (hooks : Hooks) (msg : Message)
    → (AreTools hooks.list_tools
        × (handle_tools_list hooks msg ≡ print (list_reply msg.id hooks.list_tools)))
      ⊎ ((¬ AreTools hooks.list_tools)
          × (error : Bytes) × (error ≢ [])
          × (handle_tools_list hooks msg
              ≡ send_error msg.id internal_error (codes "Invalid tool definition: " ++ error)))
unfolding handle_tools_list
handle_tools_list_cases hooks msg =
    let error = first_error hooks.list_tools in
    let (to, from) = first_error_iff hooks.list_tools in
    elim (Bool-cases (empty error)) [
      | inl clear ↦ inl (to (empty_nil error clear), simp clear)
      | inr wrong ↦
          let some_error = (empty_iff error).0 wrong in
          inr (λ good. some_error (from good), error, some_error, simp wrong)
    ]
