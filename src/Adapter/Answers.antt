-- ===== src/Adapter/Answers.antt =====
-- Every line that mcptoolkit/src/mcp_adapter.cpp prints for a request is a response that the library's own
-- parser reads.
use mathlib.Core.Path.{subst}
use mcptoolkit.Prelude.{
  ℕ, ◌≤◌, ◌≡◌, sym, ◌∙◌, ap, inl, inr, true, false, ◌||◌, ◌&&◌, ◌==◌, ltb, if◌then◌else◌, Option,
  some, none, [], ◌∷◌, ◌++◌, length, Bool-cases, Option-cases, Bytes, codes, beq, ℤ, arith, List,
  take,
}
use mcptoolkit.Json.Message.{Message, span}
use mcptoolkit.Json.Scan.Suffix.{IsInt}
use mcptoolkit.Json.Parser.{parse_message}
use mcptoolkit.Auth.{Hmac}
use mcptoolkit.Rbac.{User, check_permission}
use mcptoolkit.Validation.{contains_shell_metacharacters, contains_encoded_metacharacters}
use mcptoolkit.Adapter.Extract.{extract_string}
use mcptoolkit.Adapter.Replies.{error_reply, initialize_reply, call_reply}
use mcptoolkit.Adapter.Replies.Error.{parse_message-error_reply}
use mcptoolkit.Adapter.Replies.Initialize.{parse_message-initialize_reply}
use mcptoolkit.Adapter.Replies.Result.{parse_message-call_reply}
use mcptoolkit.Adapter.Replies.Object.{IsResultResponse}
use mcptoolkit.Adapter.Tools.{list_reply}
use mcptoolkit.Adapter.Tools.Scanned.{AllOf, HasPlainParams, parse_message-list_reply}
use mcptoolkit.Adapter.Dispatch.{
  Adapter, Hooks, Event, printed, print, Clock, internal_error, invalid_params, method_not_found,
  send_error, handle_initialize, handle_tools_list, call_named, call_from, handle_tools_call,
  arguments_json, authenticate, route, authorize, dispatch,
}
use mcptoolkit.Adapter.Gate.{Happens, Identity-cases}
use mcptoolkit.Adapter.Listing.{handle_tools_list_cases}

-- What a client reads: a valid response to the request with the id.
pub record IsAnswer (msg : Message) (id : ℤ) : Type 0 where
  pub valid : msg.valid ≡ true
  pub is_response : msg.is_response ≡ true
  pub not_request : msg.is_request ≡ false
  pub same_id : msg.id ≡ some id

module _ (hooks : Hooks) (id : ℤ) (is_id : IsInt id)
    (plain : AllOf HasPlainParams hooks.list_tools) where
  -- A line that reads as an answer under any limit that it fits.
  abbrev ReadsAsAnswer : Bytes → Type 0
  ReadsAsAnswer line =
      (text : Bytes) × (line ≡ text ++ (10 ∷ []))
      × ((max : ℕ) → length text ≤ max → IsAnswer (parse_message (some text) max) id)

  abbrev AllAnswers : List Event → Type 0
  AllAnswers events = (line : Bytes) → Happens (printed line) events → ReadsAsAnswer line

  print-AllAnswers :
      (text : Bytes)
      → ((max : ℕ) → length text ≤ max → IsAnswer (parse_message (some text) max) id)
      → AllAnswers (print text)
  print-AllAnswers text reads line h = elim h [ inl e ↦ (text, cc, reads) | inr e ↦ absurd e ]

  result-IsAnswer :
      (text value : Bytes) (max : ℕ)
      → IsResultResponse (parse_message (some text) max) id value
      → IsAnswer (parse_message (some text) max) id
  result-IsAnswer text value max r = record {
    valid = r.valid;
    is_response = r.is_response;
    not_request = r.not_request;
    same_id = r.same_id;
  }

  send_error-AllAnswers :
      (code : ℤ) (message : Bytes) → IsInt code → AllAnswers (send_error (some id) code message)
  unfolding send_error
  send_error-AllAnswers code message small =
      print-AllAnswers (error_reply (some id) code message) (λ max fits.
        let r = parse_message-error_reply id code message max is_id small fits in
        record {
          valid = r.valid;
          is_response = r.is_response;
          not_request = r.not_request;
          same_id = r.same_id;
        })

  module _ (msg : Message) (has_id : msg.id ≡ some id) where
    error-AllAnswers :
        (code : ℤ) (message : Bytes) → IsInt code → AllAnswers (send_error msg.id code message)
    error-AllAnswers code message small =
        subst (λ i. AllAnswers (send_error i code message)) (sym has_id)
          (send_error-AllAnswers code message small)

    handle_initialize-AllAnswers : AllAnswers (handle_initialize msg)
    unfolding handle_initialize
    handle_initialize-AllAnswers = rw has_id (
        print-AllAnswers (initialize_reply (some id))
          (λ max fits. result-IsAnswer _ _ max (parse_message-initialize_reply id max is_id fits)))

    handle_tools_list-AllAnswers : AllAnswers (handle_tools_list hooks msg)
    handle_tools_list-AllAnswers = elim (handle_tools_list_cases hooks msg) [
      | inl (good, e) ↦
          subst AllAnswers (sym (e ∙ ap (λ i. print (list_reply i hooks.list_tools)) has_id)) (
            print-AllAnswers (list_reply (some id) hooks.list_tools) (λ max fits.
              result-IsAnswer _ _ max
                (parse_message-list_reply hooks.list_tools id max plain is_id fits)))
      | inr (bad, error, some_error, e) ↦ subst AllAnswers (sym e) (
          error-AllAnswers internal_error (codes "Invalid tool definition: " ++ error)
            (omega arith))
    ]

    call_named-AllAnswers :
        (who : Option User) (name args : Bytes) → AllAnswers (call_named hooks msg who name args)
    unfolding call_named
    call_named-AllAnswers who name args =
        elim (Bool-cases
          (contains_shell_metacharacters args || contains_encoded_metacharacters args)) [
            | inl bad ↦ simp bad (error-AllAnswers invalid_params _ (omega arith))
            | inr fine ↦
                let result = hooks.call_tool name args who in
                let told = print-AllAnswers (call_reply (some id) result) (λ max fits.
                  result-IsAnswer _ _ max (parse_message-call_reply result id max is_id fits)) in
                simp (fine, has_id)
                  (λ line h. elim h [ inl e ↦ absurd cc | inr later ↦ told line later ])
          ]

    call_from-AllAnswers :
        (who : Option User) (params : Bytes) → AllAnswers (call_from hooks msg who params)
    unfolding call_from
    call_from-AllAnswers who params = elim (Option-cases (extract_string (codes "name") params)) [
      | inl missing ↦ rw (missing, call_from) (error-AllAnswers invalid_params _ (omega arith))
      | inr ((start, len), found) ↦ elim (Bool-cases (len == 0)) [
        | inl no_name ↦
            rw (found, call_from) (simp no_name (error-AllAnswers invalid_params _ (omega arith)))
        | inr named ↦
            rw (found, call_from)
              (simp named (call_named-AllAnswers who (take len start) (arguments_json params)))
      ]
    ]

    handle_tools_call-AllAnswers :
        (who : Option User) → AllAnswers (handle_tools_call hooks msg who)
    unfolding handle_tools_call
    handle_tools_call-AllAnswers who = elim (Option-cases msg.params_start) [
      | inl missing ↦
          rw (missing, handle_tools_call) (error-AllAnswers invalid_params _ (omega arith))
      | inr (start, found) ↦ elim (Bool-cases (msg.params_len == 0)) [
        | inl nothing ↦
            rw (found, handle_tools_call)
              (simp nothing (error-AllAnswers invalid_params _ (omega arith)))
        | inr something ↦ elim (Bool-cases (ltb 1048576 msg.params_len)) [
          | inl long ↦
              rw (found, handle_tools_call)
                (simp (something, long) (error-AllAnswers invalid_params _ (omega arith)))
          | inr short ↦
              rw (found, handle_tools_call)
                (simp (something, short) (call_from-AllAnswers who (take msg.params_len start)))
        ]
      ]
    ]

    route-AllAnswers : (a : Adapter) (who : User) → AllAnswers (route hooks a msg who)
    unfolding route
    route-AllAnswers a who =
        elim (Bool-cases (beq (span msg.method msg.method_len) (codes "initialize"))) [
          | inl start ↦ simp start handle_initialize-AllAnswers
          | inr not_start ↦
              elim (Bool-cases (beq (span msg.method msg.method_len) (codes "tools/list"))) [
                | inl list ↦ simp (not_start, list) handle_tools_list-AllAnswers
                | inr not_list ↦
                    elim (Bool-cases (beq (span msg.method msg.method_len) (codes "tools/call"))) [
                      | inl call ↦
                          simp (not_start, not_list, call)
                            (handle_tools_call-AllAnswers
                              (if a.auth_enabled then some who else none))
                      | inr unknown ↦
                          simp (not_start, not_list, unknown)
                            (error-AllAnswers method_not_found _ (omega arith))
                    ]
              ]
        ]

    authorize-AllAnswers : (a : Adapter) (who : User) → AllAnswers (authorize hooks a msg who)
    unfolding authorize
    authorize-AllAnswers a who = elim (Bool-cases (a.rbac_enabled && a.auth_enabled)) [
      | inr open_door ↦ simp open_door (route-AllAnswers a who)
      | inl guarded ↦
          elim (Bool-cases (check_permission a.rbac who (span msg.method msg.method_len))) [
            | inl granted ↦ simp (guarded, granted) (route-AllAnswers a who)
            | inr denied ↦ simp (guarded, denied) (error-AllAnswers internal_error _ (omega arith))
          ]
    ]

-- Whatever becomes of a request, each line that is printed for it is a response that the library's own
-- parser, under any limit that the line fits, reads as valid and with the request's id, where that id is
-- an int other than the least and no parameter's name of a tool holds a quote or a backslash.
pub dispatch-IsAnswer :
    (hmac : Hmac) (hooks : Hooks) (a : Adapter) (clock : Clock) (msg : Message) (id : ℤ)
    (line : Bytes)
    → IsInt id
    → AllOf HasPlainParams hooks.list_tools
    → msg.id ≡ some id
    → Happens (printed line) (dispatch hmac hooks a clock msg)
    → (text : Bytes) × (line ≡ text ++ (10 ∷ []))
      × ((max : ℕ) → length text ≤ max → IsAnswer (parse_message (some text) max) id)
unfolding dispatch
dispatch-IsAnswer hmac hooks a clock msg id line is_id plain has_id happens =
    elim (Bool-cases msg.is_request) [
      | inr ignored ↦
          let none_happen : Happens (printed line) [] = simp ignored at happens in
          absurd none_happen
      | inl request ↦ elim (Identity-cases (authenticate hmac hooks a clock msg)) [
        | inl (error, e) ↦
            let told : Happens (printed line) (send_error (some id) internal_error error) =
              simp (request, has_id, e) at happens in
            send_error-AllAnswers hooks id is_id plain internal_error error (omega arith) line told
        | inr (user, e) ↦
            let passed : Happens (printed line) (authorize hooks a msg user) =
              simp (request, has_id, e) at happens in
            authorize-AllAnswers hooks id is_id plain msg has_id a user line passed
      ]
    ]
