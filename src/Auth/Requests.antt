-- ===== src/Auth/Requests.antt =====
-- Which requests `validate_request` allows.
use mcptoolkit.Prelude.{
  ℕ, ◌+◌, ◌*◌, ◌≤◌, ◌<◌, ◌≡◌, ◌≢◌, refl, ◌↔◌, inl, inr, Bool, true, false, ◌&&◌, some, [], ◌∷◌,
  ◌++◌, if◌then◌else◌, Bool-cases, Option-cases, length, take, take-append-drop, Bytes, beq,
  beq_iff, empty-false, contains_byte, ℤ, pos, negsuc, pos_part, ltb_ℤ, exceeds, arith,
}
use mcptoolkit.Prelude.Dict.{lookup}
use mcptoolkit.Auth.{
  AuthHandler, in_ticks, is_expired, extract_bearer, bearer_prefix, validate_format, validate_token,
  validate_request, member, ticks_per_second,
}

-- The header carries the token: behind `Bearer ` where the configuration asks for it.
abbrev pub Carries : Bool → Bytes → Bytes → Type 0
Carries bearer header token = header ≡ (if bearer then bearer_prefix ++ token else token)

-- Not older than the lifetime, if there is one and the token is registered.
abbrev pub IsFresh : AuthHandler → Bytes → ℕ → Type 0
IsFresh h token now =
    (issued : ℕ)
    → lookup token h.token_issue_times ≡ some issued
    → 0 < pos_part h.config.token_ttl
    → now ≤ issued + pos_part h.config.token_ttl * ticks_per_second

pub record IsGoodToken (h : AuthHandler) (token : Bytes) (now : ℕ) : Type 0 where
  pub is_long : h.config.min_token_length ≤ length token
  pub no_nul : contains_byte 0 token ≡ false
  pub not_revoked : member token h.revoked_tokens ≡ false
  pub fresh : IsFresh h token now

pub record Accepts (h : AuthHandler) (header : Bytes) (now : ℕ) (token : Bytes) : Type 0 where
  pub is_configured : h.configured ≡ true
  pub carries : Carries h.config.require_bearer_prefix header token
  pub not_empty : token ≢ []
  pub good : IsGoodToken h token now

extract_bearer-prefix :
    (token : Bytes) → token ≢ [] → extract_bearer (bearer_prefix ++ token) ≡ token
unfolding extract_bearer beq
extract_bearer-prefix [] h = absurd (h refl)
extract_bearer-prefix (c ∷ token) h = ground arith

extract_bearer-split :
    (header : Bytes) → extract_bearer header ≢ [] → header ≡ bearer_prefix ++ extract_bearer header
unfolding extract_bearer
extract_bearer-split header h =
    ground (arith, take-append-drop 7 header, beq_iff (take 7 header) bearer_prefix)

-- Expiry in numbers.
exceeds_iff :
    (now issued : ℕ) (ttl : ℤ)
    → ((ltb_ℤ (pos 0) ttl && exceeds now issued (in_ticks ttl)) ≡ false)
      ↔ (0 < pos_part ttl → now ≤ issued + pos_part ttl * ticks_per_second)
unfolding in_ticks
exceeds_iff now issued (pos n) = (λ h k. ground arith, λ h. ground arith)
exceeds_iff now issued (negsuc n) = (λ h k. ground arith, λ h. ground arith)

pub expiry_iff :
    (h : AuthHandler) (token : Bytes) (now : ℕ)
    → ((ltb_ℤ (pos 0) h.config.token_ttl && is_expired h token now) ≡ false) ↔ IsFresh h token now
unfolding is_expired
expiry_iff h token now = elim (Option-cases (lookup token h.token_issue_times)) [
  | inl e ↦ (λ k issued q. cc, λ fresh. ground arith)
  | inr (t, e) ↦ (
    λ k issued q.
        let same : t ≡ issued = cc in
        rw (← same) ((exceeds_iff now t h.config.token_ttl).0 (ground arith)),
    λ fresh. ground (arith, (exceeds_iff now t h.config.token_ttl).1 (fresh t e)),
  )
]

validate_token_iff :
    (h : AuthHandler) (token : Bytes) (now : ℕ)
    → ((validate_token h token now).allowed ≡ true) ↔ IsGoodToken h token now
unfolding validate_token validate_format
validate_token_iff h token now = (
  λ k. record {
    is_long = ground arith;
    no_nul = ground arith;
    not_revoked = ground arith;
    fresh = (expiry_iff h token now).0 (ground arith);
  },
  λ g. ground (arith, (expiry_iff h token now).1 g.fresh),
)

-- A request is allowed exactly if the handler is configured and the header carries, in the configured
-- form, a token that is not empty, is long enough, holds no NUL, was not revoked, and, if it is
-- registered and there is a lifetime, is not older than that. Nothing asks that it is registered.
pub validate_request_iff :
    (h : AuthHandler) (header : Bytes) (now : ℕ)
    → ((validate_request h header now).allowed ≡ true)
      ↔ ((token : Bytes) × Accepts h header now token)
unfolding validate_request
validate_request_iff h header now = elim (Bool-cases h.config.require_bearer_prefix) [
  | inl bearer ↦ (
    λ k.
        let some_token : extract_bearer header ≢ [] = λ e. ground arith in
        (
          extract_bearer header,
          record {
            is_configured = ground arith;
            carries = rw bearer (extract_bearer-split header some_token);
            not_empty = some_token;
            good = (validate_token_iff h (extract_bearer header) now).0 (ground arith);
          },
        ),
    λ (token, acc).
        let e : header ≡ bearer_prefix ++ token = rw bearer at acc.carries in
        let good : (validate_token h token now).allowed ≡ true =
          (validate_token_iff h token now).1 acc.good in
        let ready = acc.is_configured in
        rw e (
          ground
            (arith, extract_bearer-prefix token acc.not_empty, empty-false token acc.not_empty)),
  )
  | inr plain ↦ (
    λ k. (
      header,
      record {
        is_configured = ground arith;
        carries = rw plain refl;
        not_empty = λ e. ground arith;
        good = (validate_token_iff h header now).0 (ground arith);
      },
    ),
    λ (token, acc).
        let e : header ≡ token = rw plain at acc.carries in
        let good : (validate_token h token now).allowed ≡ true =
          (validate_token_iff h token now).1 acc.good in
        let ready = acc.is_configured in rw e (ground (arith, empty-false token acc.not_empty)),
  )
]
