-- ===== src/Adapter/Bearer.antt =====
-- What user a tool sees when the header has to start with `Bearer `: `MCPAdapter::dispatch` of
-- mcptoolkit/src/mcp_adapter.cpp decodes the header, not the token behind the prefix.
use mathlib.Core.Path.{subst}
use mcptoolkit.Prelude.{
  true_not_false, ℕ, suc, ◌≡◌, ◌≢◌, refl, sym, ◌∙◌, ap, inl, inr, true, false, Option, some, [],
  ◌++◌, Option-cases, take, drop, Bytes, empty, find_byte, arith,
}
use mcptoolkit.Json.Message.{Message}
use mcptoolkit.Auth.{AuthHandler, Hmac, bearer_prefix, decode_parts, decode_token}
use mcptoolkit.Auth.Requests.{validate_request_iff}
use mcptoolkit.Auth.Signatures.{decode_parts-user}
use mcptoolkit.Rbac.{User}
use mcptoolkit.Adapter.Dispatch.{Adapter, Hooks, called, Clock, dispatch}
use mcptoolkit.Adapter.Gate.{Happens, dispatch-IsCleared}

take-bearer :
    (token : Bytes) (dot : ℕ)
    → find_byte b'.' (bearer_prefix ++ token) ≡ some dot
    → (rest : Bytes) × (take dot (bearer_prefix ++ token) ≡ bearer_prefix ++ rest)
unfolding find_byte
take-bearer token dot h = elim (Option-cases (find_byte b'.' token)) [
  | inl e ↦ absurd (ground arith)
  | inr (d, e) ↦
      let place : dot ≡ suc (suc (suc (suc (suc (suc (suc d)))))) = ground arith in
      (take d token, rw place refl)
]

-- A user id decoded from a header with the prefix starts with the prefix.
decode_token-bearer :
    (hmac : Hmac) (h : AuthHandler) (token : Bytes) (now : ℕ)
    → empty (decode_token hmac h (bearer_prefix ++ token) now) ≡ false
    → (rest : Bytes) × (decode_token hmac h (bearer_prefix ++ token) now ≡ bearer_prefix ++ rest)
unfolding decode_token
decode_token-bearer hmac h token now ne =
    elim (Option-cases (find_byte b'.' (bearer_prefix ++ token))) [
      | inl e ↦ absurd (ground arith)
      | inr (dot, e) ↦
          let header = bearer_prefix ++ token in
          let secret : empty h.token_secret ≡ false = ground arith in
          let opened : decode_token hmac h header now
              ≡ decode_parts hmac h header (take dot header) (drop (suc dot) header) now =
            rw (secret, e, decode_token) refl in
          let there : decode_parts hmac h header (take dot header) (drop (suc dot) header) now
              ≢ [] =
            λ z. absurd (true_not_false (sym (ap empty (opened ∙ z)) ∙ ne)) in
          let (rest, same) = take-bearer token dot e in
          (
            rest,
            opened
                ∙ decode_parts-user hmac h header (take dot header) (drop (suc dot) header) now
                    there
                ∙ same,
          )
    ]

-- With authentication on and the prefix required, the id of every user that a tool is called for starts
-- with `Bearer `.
pub called-bearer :
    (hmac : Hmac) (hooks : Hooks) (a : Adapter) (clock : Clock) (msg : Message) (name args : Bytes)
    (who : Option User)
    → a.auth_enabled ≡ true
    → a.auth_handler.config.require_bearer_prefix ≡ true
    → Happens (called name args who) (dispatch hmac hooks a clock msg)
    → (user : User) × (rest : Bytes) × (who ≡ some user) × (user.user_id ≡ bearer_prefix ++ rest)
called-bearer hmac hooks a clock msg name args who on prefixed h =
    let (user, cleared) = dispatch-IsCleared hmac hooks a clock msg name args who on h in
    let header = hooks.extract_auth_token msg in
    let (token, acc) =
      (validate_request_iff a.auth_handler header clock.at_validate).0 cleared.authentic.accepted in
    let e : header ≡ bearer_prefix ++ token = rw prefixed at acc.carries in
    let (rest, same) = decode_token-bearer hmac a.auth_handler token clock.at_decode (
      subst (λ s. empty (decode_token hmac a.auth_handler s clock.at_decode) ≡ false) e
        cleared.authentic.has_user) in
    (
      user,
      rest,
      cleared.the_user,
      ap (λ u. u.user_id) cleared.authentic.decoded
          ∙ ap (λ s. decode_token hmac a.auth_handler s clock.at_decode) e
          ∙ same,
    )
