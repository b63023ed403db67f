-- ===== src/Adapter/Gate.antt =====
-- What stands between a message and a tool: a tool is called only behind authentication,
-- authorization and the check of its arguments; and each request is answered once.
use mcptoolkit.Prelude.{
  ℕ, suc, ◌≡◌, refl, ◌⊎◌, inl, inr, Bool, true, false, ◌&&◌, Option, none, some, List, [], ◌∷◌,
  if◌then◌else◌, Bytes, codes, beq_iff, empty, ℤ, arith,
}
use mcptoolkit.Json.Message.{Message, span}
use mcptoolkit.Auth.{Hmac, validate_request, decode_token}
use mcptoolkit.Rbac.{User, check_permission}
use mcptoolkit.Validation.{contains_shell_metacharacters, contains_encoded_metacharacters}
use mcptoolkit.Adapter.Dispatch.{
  Adapter, Hooks, Event, called, printed, send_error, handle_initialize, handle_tools_list,
  call_named, call_from, handle_tools_call, authenticated_user, Clock, Identity, refused, known,
  authenticate, route, authorize, dispatch,
}

abbrev pub Happens : Event → List Event → Type 0
Happens e [] = ⊥
Happens e (x ∷ events) = (e ≡ x) ⊎ Happens e events

-- The event is a tool call.
module _ (name args : Bytes) (who : Option User) where
  abbrev NoCall : List Event → Type 0
  NoCall events = ¬ Happens (called name args who) events

  send_error-NoCall :
      (id : Option ℤ) (error_code : ℤ) (message : Bytes) → NoCall (send_error id error_code message)
  unfolding send_error
  send_error-NoCall id error_code message (inl e) = cc
  send_error-NoCall id error_code message (inr h) = h

  -- A call that `call_named` makes is the one that it was asked for, with clean arguments.
  record IsNamed (tool_name args_json : Bytes) (user : Option User) : Type 0 where
    same_name : name ≡ tool_name
    same_args : args ≡ args_json
    same_user : who ≡ user
    no_shell : contains_shell_metacharacters args_json ≡ false
    no_encoded : contains_encoded_metacharacters args_json ≡ false

  call_named-IsNamed :
      (hooks : Hooks) (msg : Message) (user : Option User) (tool_name args_json : Bytes)
      → Happens (called name args who) (call_named hooks msg user tool_name args_json)
      → IsNamed tool_name args_json user
  unfolding call_named send_error
  call_named-IsNamed hooks msg user tool_name args_json h = ground arith

  -- Wherever `handle_tools_call` gets to, a call has clean arguments and the user that it was given.
  abbrev IsClean : Option User → Type 0
  IsClean user =
      (who ≡ user)
      × (contains_shell_metacharacters args ≡ false)
      × (contains_encoded_metacharacters args ≡ false)

  call_from-IsClean :
      (hooks : Hooks) (msg : Message) (user : Option User) (params : Bytes)
      → Happens (called name args who) (call_from hooks msg user params)
      → IsClean user
  unfolding call_from send_error
  call_from-IsClean hooks msg user params h = ground arith

  handle_tools_call-IsClean :
      (hooks : Hooks) (msg : Message) (user : Option User)
      → Happens (called name args who) (handle_tools_call hooks msg user)
      → IsClean user
  unfolding handle_tools_call send_error
  handle_tools_call-IsClean hooks msg user h = ground arith

  route-IsClean :
      (hooks : Hooks) (a : Adapter) (msg : Message) (user : User)
      → Happens (called name args who) (route hooks a msg user)
      → (span msg.method msg.method_len ≡ codes "tools/call")
        × IsClean (if a.auth_enabled then some user else none)
  unfolding route send_error handle_initialize handle_tools_list
  route-IsClean hooks a msg user h = ground (
    arith,
    beq_iff (span msg.method msg.method_len) (codes "tools/call"),
    handle_tools_call-IsClean hooks msg (if a.auth_enabled then some user else none),
  )

  authorize-IsClean :
      (hooks : Hooks) (a : Adapter) (msg : Message) (user : User)
      → Happens (called name args who) (authorize hooks a msg user)
      → (span msg.method msg.method_len ≡ codes "tools/call")
        × (who ≡ (if a.auth_enabled then some user else none))
        × (contains_shell_metacharacters args ≡ false)
        × (contains_encoded_metacharacters args ≡ false)
        × ((a.rbac_enabled && a.auth_enabled) ≡ true
            → check_permission a.rbac user (codes "tools/call") ≡ true)
  unfolding authorize send_error
  authorize-IsClean hooks a msg user h = ground (arith, route-IsClean hooks a msg user)

-- The caller that `authenticate` lets through when authentication is on.
pub record IsAuthenticated (hmac : Hmac) (hooks : Hooks) (a : Adapter) (clock : Clock)
    (msg : Message) (user : User) : Type 0 where
  pub has_token : empty (hooks.extract_auth_token msg) ≡ false
  pub accepted :
      (validate_request a.auth_handler (hooks.extract_auth_token msg) clock.at_validate).allowed
      ≡ true
  pub decoded :
      user
      ≡ authenticated_user
          (decode_token hmac a.auth_handler (hooks.extract_auth_token msg) clock.at_decode)
  pub has_user :
      empty (decode_token hmac a.auth_handler (hooks.extract_auth_token msg) clock.at_decode)
      ≡ false

authenticate-IsAuthenticated :
    (hmac : Hmac) (hooks : Hooks) (a : Adapter) (clock : Clock) (msg : Message) (user : User)
    → a.auth_enabled ≡ true
    → authenticate hmac hooks a clock msg ≡ known user
    → IsAuthenticated hmac hooks a clock msg user
unfolding authenticate
authenticate-IsAuthenticated hmac hooks a clock msg user on h = ground arith

pub Identity-cases :
    (i : Identity) → ((error : Bytes) × (i ≡ refused error)) ⊎ ((user : User) × (i ≡ known user))
Identity-cases (refused error) = inl (error, refl)
Identity-cases (known user) = inr (user, refl)

-- What a call of a tool has behind it when authentication is on.
pub record IsCleared (hmac : Hmac) (hooks : Hooks) (a : Adapter) (clock : Clock) (msg : Message)
    (args : Bytes) (who : Option User) (user : User) : Type 0 where
  pub the_user : who ≡ some user
  pub authentic : IsAuthenticated hmac hooks a clock msg user
  pub is_call : span msg.method msg.method_len ≡ codes "tools/call"
  pub permitted : a.rbac_enabled ≡ true → check_permission a.rbac user (codes "tools/call") ≡ true
  pub no_shell : contains_shell_metacharacters args ≡ false
  pub no_encoded : contains_encoded_metacharacters args ≡ false

-- With authentication on, a tool is called only for a `tools/call` request whose token
-- `validate_request` accepts and `decode_token` maps to a user; the tool is given that user; if access
-- control is on, the policy permits `tools/call` to that user; and the arguments hold no shell
-- metacharacter and no encoded one.
pub dispatch-IsCleared :
    (hmac : Hmac) (hooks : Hooks) (a : Adapter) (clock : Clock) (msg : Message) (name args : Bytes)
    (who : Option User)
    → a.auth_enabled ≡ true
    → Happens (called name args who) (dispatch hmac hooks a clock msg)
    → (user : User) × IsCleared hmac hooks a clock msg args who user
unfolding dispatch send_error
dispatch-IsCleared hmac hooks a clock msg name args who on h =
    elim (Identity-cases (authenticate hmac hooks a clock msg)) [
      | inl (error, e) ↦ absurd (ground arith)
      | inr (user, e) ↦
          let passed : Happens (called name args who) (authorize hooks a msg user) = ground arith in
          let clean = authorize-IsClean name args who hooks a msg user passed in
          (
            user,
            record {
              the_user = ground arith;
              authentic = authenticate-IsAuthenticated hmac hooks a clock msg user on e;
              is_call = clean.0;
              permitted = λ r. clean.4 (ground arith);
              no_shell = clean.2;
              no_encoded = clean.3;
            },
          )
    ]

-- How many lines are printed.
abbrev pub count_printed : List Event → ℕ
count_printed [] = 0
count_printed (called name args who ∷ events) = count_printed events
count_printed (printed line ∷ events) = suc (count_printed events)

call_from-printed :
    (hooks : Hooks) (msg : Message) (user : Option User) (params : Bytes)
    → count_printed (call_from hooks msg user params) ≡ 1
unfolding call_from send_error
call_from-printed hooks msg user params = ground arith

handle_tools_call-printed :
    (hooks : Hooks) (msg : Message) (user : Option User)
    → count_printed (handle_tools_call hooks msg user) ≡ 1
unfolding handle_tools_call send_error
handle_tools_call-printed hooks msg user = ground (arith)

authorize-printed :
    (hooks : Hooks) (a : Adapter) (msg : Message) (user : User)
    → count_printed (authorize hooks a msg user) ≡ 1
unfolding authorize route send_error handle_initialize handle_tools_list
authorize-printed hooks a msg user =
    ground (arith, handle_tools_call-printed hooks msg (if a.auth_enabled then some user else none))

abbrev pub expects_reply : Message → Bool
expects_reply msg = msg.is_request && elim msg.id [ none ↦ false | some id ↦ true ]

-- A request with an id is answered by exactly one line, whatever becomes of it; a response and a
-- notification are answered by none.
pub dispatch-printed :
    (hmac : Hmac) (hooks : Hooks) (a : Adapter) (clock : Clock) (msg : Message)
    → count_printed (dispatch hmac hooks a clock msg) ≡ (if expects_reply msg then 1 else 0)
unfolding dispatch send_error
dispatch-printed hmac hooks a clock msg =
    elim (Identity-cases (authenticate hmac hooks a clock msg)) [
      | inl (error, e) ↦ ground arith
      | inr (user, e) ↦ ground (arith, authorize-printed hooks a msg user)
    ]
