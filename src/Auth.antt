-- ===== src/Auth.antt =====
-- `AuthenticationHandler`: mcptoolkit/include/authentication_handler.h and
-- mcptoolkit/src/authentication_handler.cpp. The clock is an argument of each call that reads it, in
-- nanosecond ticks; the HMAC of the crypto library is a parameter of the functions that sign. The
-- mutex is not modelled: each method is one step.
pub mod Base64
pub mod Tokens
pub mod Requests
pub mod Signatures
pub mod Lockout
use Prim.Native.Nat.{bit_or, bit_xor}
use mcptoolkit.Prelude.{
  ℕ, zero, suc, ◌+◌, ◌-◌, ◌*◌, ◌%◌, ◌^◌, Bool, true, false, ◌&&◌, ◌||◌, not, Option, none, some,
  List, [], ◌∷◌, ◌++◌, ltb, leb, ◌==◌, if◌then◌else◌, length, take, drop, Bytes, codes, beq, empty,
  is_prefix, contains_byte, find_byte, ℤ, pos, negsuc, negate, ltb_ℤ, exceeds,
}
use mcptoolkit.Prelude.Dict.{Dict, lookup, insert, erase}
use mcptoolkit.Json.Builder.{digits}
use Base64.{base64_encode}

pub record AuthConfig : Type 0 where
  pub min_token_length : ℕ
  pub require_bearer_prefix : Bool
  pub max_failed_attempts : ℤ
  -- in seconds
  pub token_ttl : ℤ

abbrev pub default_config : AuthConfig
default_config = record {
  min_token_length = 16;
  require_bearer_prefix = true;
  max_failed_attempts = pos 10;
  token_ttl = pos 3600;
}

pub record AuthResult : Type 0 where
  pub allowed : Bool
  pub error : Bytes

pub record AuthHandler : Type 0 where
  pub config : AuthConfig
  pub configured : Bool
  pub token_secret : Bytes
  pub revoked_tokens : List Bytes
  pub token_issue_times : Dict ℕ
  pub failed_attempts : Dict ℕ

-- `AuthenticationHandler()`
abbrev pub new_handler : AuthHandler
new_handler = record {
  config = default_config;
  configured = false;
  token_secret = [];
  revoked_tokens = [];
  token_issue_times = [];
  failed_attempts = [];
}

unfoldable pub configure : AuthConfig → AuthHandler → AuthHandler
configure config h = record h { config = config; configured = true }

-- `std::chrono::seconds` in ticks of the clock.
abbrev pub ticks_per_second : ℕ
ticks_per_second = 1000000000

unfoldable pub in_ticks : ℤ → ℤ
in_ticks (pos n) = pos (n * ticks_per_second)
in_ticks (negsuc n) = negate (suc n * ticks_per_second)

-- `set.count(s) > 0`
unfoldable pub member : Bytes → List Bytes → Bool
member t [] = false
member t (s ∷ set) = beq s t || member t set

unfoldable pub register_token : Bytes → ℕ → AuthHandler → AuthHandler
register_token token issued_at h = record h {
  token_issue_times = insert token issued_at h.token_issue_times;
}

unfoldable pub revoke_token : Bytes → AuthHandler → AuthHandler
revoke_token token h = record h {
  revoked_tokens =
      if member token h.revoked_tokens then h.revoked_tokens else token ∷ h.revoked_tokens;
  token_issue_times = erase token h.token_issue_times;
}

unfoldable pub is_revoked : AuthHandler → Bytes → Bool
is_revoked h token = member token h.revoked_tokens

-- A token that was never registered does not expire.
unfoldable pub is_expired : AuthHandler → Bytes → ℕ → Bool
is_expired h token now = elim (lookup token h.token_issue_times) [
  | none ↦ false
  | some issued ↦ exceeds now issued (in_ticks h.config.token_ttl)
]

-- The value of an `int` that is kept as its 32 bits.
unfoldable pub int_of : ℕ → ℤ
int_of n = if ltb n (2 ^ 31) then pos n else negate (2 ^ 32 - n)

-- The counter is an `int`, kept as its 32 bits, which wrap around.
unfoldable pub record_failure : Bytes → AuthHandler → AuthHandler
record_failure client h =
    let count : ℕ = elim (lookup client h.failed_attempts) [ none ↦ 0 | some n ↦ n ] in
    record h { failed_attempts = insert client ((count + 1) % 2 ^ 32) h.failed_attempts }

unfoldable pub reset_failures : Bytes → AuthHandler → AuthHandler
reset_failures client h = record h { failed_attempts = erase client h.failed_attempts }

unfoldable pub is_locked_out : AuthHandler → Bytes → Bool
is_locked_out h client = elim (lookup client h.failed_attempts) [
  | none ↦ false
  | some n ↦ not (ltb_ℤ (int_of n) h.config.max_failed_attempts)
]

unfoldable pub set_token_secret : Bytes → AuthHandler → AuthHandler
set_token_secret secret h = record h { token_secret = secret }

abbrev pub bearer_prefix : Bytes
bearer_prefix = codes "Bearer "

-- An empty result says that the header is no bearer token.
unfoldable pub extract_bearer : Bytes → Bytes
extract_bearer header =
    if leb (length header) 7
    then []
    else if not (beq (take 7 header) bearer_prefix)
    then []
    else drop 7 header

-- `none` for a token of the right format, and else the error.
unfoldable pub validate_format : AuthHandler → Bytes → Option Bytes
validate_format h token =
    if ltb (length token) h.config.min_token_length
    then some (
        codes "Token too short (minimum "
        ++ (digits (suc h.config.min_token_length) h.config.min_token_length
            ++ codes " characters)"))
    else if contains_byte 0 token
    then some (codes "Token contains null byte")
    else none

abbrev pub refuse : Bytes → AuthResult
refuse error = record { allowed = false; error = error }

-- The part of `validate_request` behind the format of the header.
unfoldable pub validate_token : AuthHandler → Bytes → ℕ → AuthResult
validate_token h token now = elim (validate_format h token) [
  | some error ↦ refuse error
  | none ↦
      if member token h.revoked_tokens
      then refuse (codes "Token has been revoked")
      else if ltb_ℤ (pos 0) h.config.token_ttl && is_expired h token now
      then refuse (codes "Token has expired")
      else record { allowed = true; error = [] }
]

unfoldable pub validate_request : AuthHandler → Bytes → ℕ → AuthResult
validate_request h auth_token now =
    if not h.configured
    then refuse (codes "AuthenticationHandler not configured")
    else if empty auth_token
    then refuse (codes "Authentication required")
    else if h.config.require_bearer_prefix
    then (let token = extract_bearer auth_token in
        if empty token
        then refuse (codes "Invalid authorization format: expected 'Bearer <token>'")
        else validate_token h token now)
    else validate_token h auth_token now

-- The loop that compares two signatures of one length: `result |= a[i] ^ b[i]`.
unfoldable pub xor_all : ℕ → Bytes → Bytes → ℕ
xor_all result [] _ = result
xor_all result (a ∷ s) [] = result
xor_all result (a ∷ s) (b ∷ t) = xor_all (bit_or result (bit_xor a b)) s t

-- The HMAC-SHA256 of the crypto library: a key and a text give a digest.
abbrev pub Hmac : Type 0
Hmac = Bytes → Bytes → Bytes

unfoldable pub compute_token_signature : Hmac → AuthHandler → Bytes → Bytes
compute_token_signature hmac h user_id =
    if empty h.token_secret then [] else base64_encode (hmac h.token_secret user_id)

unfoldable pub verify_token_signature : Hmac → AuthHandler → Bytes → Bytes → Bool
verify_token_signature hmac h user_id signature =
    let computed = compute_token_signature hmac h user_id in
    if empty computed
    then false
    else if not (length signature == length computed)
    then false
    else xor_all 0 signature computed == 0

-- The checks of `decode_token` once the token is split at its first dot.
unfoldable pub decode_parts : Hmac → AuthHandler → Bytes → Bytes → Bytes → ℕ → Bytes
decode_parts hmac h auth_token user_id signature now =
    if empty user_id || empty signature
    then []
    else if not (verify_token_signature hmac h user_id signature)
    then []
    else if is_revoked h auth_token
    then []
    else if ltb_ℤ (pos 0) h.config.token_ttl && is_expired h auth_token now
    then []
    else user_id

-- The user of a token `user_id.signature`; empty for a token that is refused.
unfoldable pub decode_token : Hmac → AuthHandler → Bytes → ℕ → Bytes
decode_token hmac h auth_token now =
    if empty auth_token || empty h.token_secret then [] else elim (find_byte b'.' auth_token) [
      | none ↦ []
      | some dot ↦
          decode_parts hmac h auth_token (take dot auth_token) (drop (suc dot) auth_token) now
    ]
