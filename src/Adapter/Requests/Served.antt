-- ===== src/Adapter/Requests/Served.antt =====
-- From the line of a client's call to the tool and back: `run`, `dispatch` and `handle_tools_call` of
-- mcptoolkit/src/mcp_adapter.cpp behind the parser of mcptoolkit/src/json.
use mcptoolkit.Prelude.{
  ℕ, ◌≡◌, ◌≤◌, ◌⊎◌, inl, inr, refl, ◌∙◌, ap, true, false, ◌&&◌, ◌==◌, ltb, Option, none, some, [],
  ◌∷◌, ◌++◌, if◌then◌else◌, length, take, take-append, Bytes, codes, beq, empty, ℤ, arith,
  Bool-cases,
}
use mcptoolkit.Json.Message.{Message}
use mcptoolkit.Auth.{Hmac}
use mcptoolkit.Rbac.{User, check_permission}
use mcptoolkit.Validation.{contains_shell_metacharacters, contains_encoded_metacharacters}
use mcptoolkit.Adapter.Extract.{extract_string, extract_value_span}
use mcptoolkit.Adapter.Replies.{call_reply}
use mcptoolkit.Adapter.Replies.Object.{ClosesObject}
use mcptoolkit.Adapter.Tools.Scanned.{IsPlain}
use mcptoolkit.Adapter.Dispatch.{
  Adapter, Hooks, called, print, Clock, known, call_named, call_from, handle_tools_call,
  arguments_json, authenticate, route, authorize, dispatch, handle_line,
}
use mcptoolkit.Adapter.Runs.{message_of}
use mcptoolkit.Adapter.Requests.{IsRequest}
use mcptoolkit.Adapter.Requests.Extracted.{
  Spacing, call_tail, extract_string-call, extract_value_span-call,
}

module _ (hooks : Hooks) (msg : Message) (who : Option User) where
  call_named-clean :
      (name args : Bytes)
      → contains_shell_metacharacters args ≡ false
      → contains_encoded_metacharacters args ≡ false
      → call_named hooks msg who name args
        ≡ called name args who ∷ print (call_reply msg.id (hooks.call_tool name args who))
  unfolding call_named
  call_named-clean name args shell encoded = simp (shell, encoded)

  call_from-named :
      (params start : Bytes) (len : ℕ)
      → extract_string (codes "name") params ≡ some (start, len)
      → (len == 0) ≡ false
      → call_from hooks msg who params
        ≡ call_named hooks msg who (take len start) (arguments_json params)
  unfolding call_from
  call_from-named params start len e h = rw (e, call_from) (simp h)

  handle_tools_call-sized :
      (params start : Bytes)
      → msg.params_start ≡ some start
      → (msg.params_len == 0) ≡ false
      → ltb 1048576 msg.params_len ≡ false
      → take msg.params_len start ≡ params
      → handle_tools_call hooks msg who ≡ call_from hooks msg who params
  unfolding handle_tools_call
  handle_tools_call-sized params start found some_there short e =
      rw (found, handle_tools_call) (simp (some_there, short) (ap (call_from hooks msg who) e))

arguments_json-found :
    (params start : Bytes) (len : ℕ)
    → extract_value_span (codes "arguments") params ≡ some (start, len)
    → arguments_json params ≡ take len start
unfolding arguments_json
arguments_json-found params start len e = rw (e, arguments_json) refl

length-named : (name : Bytes) → empty name ≡ false → (length name == 0) ≡ false
length-named [] h = absurd cc
length-named (c ∷ name) h = ground arith

module _ (spacing : Spacing) (name tail behind : Bytes) (plain : IsPlain name) where
  module _ (other : beq name (codes "arguments") ≡ false) (named : empty name ≡ false)
      (closes : ClosesObject tail) (shell : contains_shell_metacharacters (b'{' ∷ tail) ≡ false)
      (encoded : contains_encoded_metacharacters (b'{' ∷ tail) ≡ false) where
    arguments_json-call : arguments_json (b'{' ∷ call_tail spacing name tail behind) ≡ b'{' ∷ tail
    arguments_json-call =
        arguments_json-found (b'{' ∷ call_tail spacing name tail behind) _ _
          (extract_value_span-call spacing name tail behind plain closes other)
        ∙ take-append (b'{' ∷ tail) behind

    pub handle_tools_call-call :
        (hooks : Hooks) (msg : Message) (who : Option User) (id : ℤ)
        → IsRequest msg id (codes "tools/call") (b'{' ∷ call_tail spacing name tail behind)
        → length (b'{' ∷ call_tail spacing name tail behind) ≤ 1048576
        → handle_tools_call hooks msg who
          ≡ called name (b'{' ∷ tail) who
            ∷ print (call_reply (some id) (hooks.call_tool name (b'{' ∷ tail) who))
    handle_tools_call-call hooks msg who id r fits =
        let params = b'{' ∷ call_tail spacing name tail behind in
        let some_there : (msg.params_len == 0) ≡ false = ground (arith, r.params_size) in
        let short : ltb 1048576 msg.params_len ≡ false = ground (arith, r.params_size) in
        let has_name : (length name == 0) ≡ false = length-named name named in
        handle_tools_call-sized hooks msg who params r.start r.has_params some_there short
          r.same_params
        ∙ call_from-named hooks msg who params _ _
            (extract_string-call spacing name tail behind plain) has_name
        ∙ ap (call_named hooks msg who (take (length name) (name ++ _))) arguments_json-call
        ∙ ap (λ n. call_named hooks msg who n (b'{' ∷ tail)) (take-append name _)
        ∙ call_named-clean hooks msg who name (b'{' ∷ tail) shell encoded
        ∙ ap
            (λ i.
              called name (b'{' ∷ tail) who
              ∷ print (call_reply i (hooks.call_tool name (b'{' ∷ tail) who)))
            r.same_id

-- A user whom the access control lets call tools, where it is on.
abbrev pub IsPermitted : Adapter → User → Type 0
IsPermitted a user =
    ((a.rbac_enabled && a.auth_enabled) ≡ false)
    ⊎ (check_permission a.rbac user (codes "tools/call") ≡ true)

module _ (hmac : Hmac) (hooks : Hooks) (a : Adapter) (clock : Clock) (msg : Message) (user : User)
    (id : ℤ) (params : Bytes) (r : IsRequest msg id (codes "tools/call") params) where
  route-call :
      route hooks a msg user
      ≡ handle_tools_call hooks msg (if a.auth_enabled then some user else none)
  unfolding route beq
  route-call = rw (r.same_method, route) refl

  authorize-call : IsPermitted a user → authorize hooks a msg user ≡ route hooks a msg user
  unfolding authorize
  authorize-call (inl open_door) = simp open_door
  authorize-call (inr granted) = elim (Bool-cases (a.rbac_enabled && a.auth_enabled)) [
    | inl guarded ↦ let e = r.same_method in simp (guarded, e, granted)
    | inr open_door ↦ simp open_door
  ]

  pub dispatch-call :
      authenticate hmac hooks a clock msg ≡ known user
      → IsPermitted a user
      → dispatch hmac hooks a clock msg
        ≡ handle_tools_call hooks msg (if a.auth_enabled then some user else none)
  unfolding dispatch
  dispatch-call authentic permitted =
      let asked = r.is_request in
      let same = r.same_id in simp (asked, same, authentic) (authorize-call permitted ∙ route-call)

pub handle_line-valid :
    (hmac : Hmac) (hooks : Hooks) (a : Adapter) (clock : Clock) (line : Bytes)
    → empty line ≡ false
    → (message_of line).valid ≡ true
    → handle_line hmac hooks a clock line ≡ dispatch hmac hooks a clock (message_of line)
unfolding handle_line
handle_line-valid hmac hooks a clock line some_there valid = simp (some_there, valid)
