-- ===== src/Adapter/Revoked.antt =====
-- What a revocation in mcptoolkit/src/authentication_handler.cpp means for the tools that
-- mcptoolkit/src/mcp_adapter.cpp calls.
use mathlib.Core.Path.{subst}
use mcptoolkit.Prelude.{
  none, codes, ◌≡◌, sym, ◌∙◌, ap, inl, inr, true, true_not_false, Option, List, [], Bool-cases,
  Bytes, empty, ◌∷◌, ◌++◌, refl,
}
use mcptoolkit.Json.Parser.{parse_error}
use mcptoolkit.Auth.{AuthHandler, Hmac, revoke_token, validate_request}
use mcptoolkit.Auth.Requests.{Carries}
use mcptoolkit.Auth.Tokens.{Operation, apply_all, revoke_token-refuses}
use mcptoolkit.Rbac.{User}
use mcptoolkit.Adapter.Dispatch.{
  Adapter, Hooks, Event, called, printed, Clock, send_error, dispatch, handle_line, run,
}
use mcptoolkit.Adapter.Gate.{Happens, dispatch-IsCleared}
use mcptoolkit.Adapter.Runs.{message_of}

module _ (hmac : Hmac) (hooks : Hooks) (a : Adapter) (name args : Bytes) (who : Option User) where
  handle_line-called :
      (clock : Clock) (line : Bytes)
      → Happens (called name args who) (handle_line hmac hooks a clock line)
      → ((message_of line).valid ≡ true)
        × Happens (called name args who) (dispatch hmac hooks a clock (message_of line))
  unfolding handle_line send_error
  handle_line-called clock line h = elim (Bool-cases (empty line)) [
    | inl e ↦
        let none_happen : Happens (called name args who) [] = simp e at h in absurd none_happen
    | inr e ↦ elim (Bool-cases (message_of line).valid) [
      | inl v ↦ (v, simp (e, v) at h)
      | inr v ↦
          let told : Happens (called name args who)
              (send_error none parse_error (codes "Parse error")) =
            simp (e, v) at h in
          elim told [ inl q ↦ absurd cc | inr q ↦ absurd q ]
    ]
  ]

-- The calls of tools among the events, in order.
abbrev pub calls : List Event → List Event
calls [] = []
calls (called name args who ∷ events) = called name args who ∷ calls events
calls (printed line ∷ events) = calls events

calls-append : (a b : List Event) → calls (a ++ b) ≡ calls a ++ calls b
calls-append [] b = refl
calls-append (called name args who ∷ a) b = ap (◌∷◌ (called name args who)) (calls-append a b)
calls-append (printed line ∷ a) b = calls-append a b

calls-none :
    (events : List Event)
    → ((name args : Bytes) (who : Option User) → ¬ Happens (called name args who) events)
    → calls events ≡ []
calls-none [] h = refl
calls-none (called name args who ∷ events) h = absurd (h name args who (inl refl))
calls-none (printed line ∷ events) h =
    calls-none events (λ name args who there. h name args who (inr there))

module _ (hmac : Hmac) (hooks : Hooks) (a : Adapter) (h : AuthHandler) (token : Bytes)
    (ops : List Operation) (clock : Clock) (line : Bytes) (on : a.auth_enabled ≡ true)
    (handled : a.auth_handler ≡ apply_all ops (revoke_token token h))
    (carries : Carries a.auth_handler.config.require_bearer_prefix
      (hooks.extract_auth_token (message_of line))
      token) where
  -- The line of a message with a revoked token calls nothing.
  handle_line-revoked : calls (handle_line hmac hooks a clock line) ≡ []
  handle_line-revoked = calls-none (handle_line hmac hooks a clock line) (λ name args who now.
      let (valid, call) = handle_line-called hmac hooks a name args who clock line now in
      let (user, cleared) =
        dispatch-IsCleared hmac hooks a clock (message_of line) name args who on call in
      let header = hooks.extract_auth_token (message_of line) in
      let carried =
        subst (λ k. Carries k.config.require_bearer_prefix header token) handled carries in
      let refused = revoke_token-refuses h token header ops clock.at_validate carried in
      let same = ap (λ k. (validate_request k header clock.at_validate).allowed) handled in
      true_not_false (sym cleared.authentic.accepted ∙ same ∙ refused))

  calls_without :
      (before after : List (Clock × Bytes))
      → calls (run hmac hooks a (before ++ ((clock, line) ∷ after)))
        ≡ calls (run hmac hooks a (before ++ after))
  unfolding run
  calls_without [] after =
      calls-append (handle_line hmac hooks a clock line) (run hmac hooks a after)
      ∙ ap (λ c. c ++ calls (run hmac hooks a after)) handle_line-revoked
  calls_without ((c, l) ∷ before) after =
      let first = handle_line hmac hooks a c l in
      calls-append first (run hmac hooks a (before ++ ((clock, line) ∷ after)))
      ∙ ap (λ t. calls first ++ t) (calls_without before after)
      ∙ sym (calls-append first (run hmac hooks a (before ++ after)))

-- With authentication on, a line whose message carries a revoked token calls no tool, wherever it stands
-- in the input and whatever was done to the tokens since the token was revoked: the tools are called just
-- as they are for the input without that line.
pub run-revoked :
    (hmac : Hmac) (hooks : Hooks) (a : Adapter) (before after : List (Clock × Bytes))
    (clock : Clock) (line : Bytes) (h : AuthHandler) (token : Bytes) (ops : List Operation)
    → a.auth_enabled ≡ true
    → a.auth_handler ≡ apply_all ops (revoke_token token h)
    → Carries a.auth_handler.config.require_bearer_prefix
        (hooks.extract_auth_token (message_of line))
        token
    → calls (run hmac hooks a (before ++ ((clock, line) ∷ after)))
      ≡ calls (run hmac hooks a (before ++ after))
run-revoked hmac hooks a before after clock line h token ops on handled carries =
    calls_without hmac hooks a h token ops clock line on handled carries before after
