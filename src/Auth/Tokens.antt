-- ===== src/Auth/Tokens.antt =====
-- Revocation: a token that was revoked stays refused, whatever happens to the handler afterwards.
use mcptoolkit.Prelude.{
  ℕ, ◌≡◌, inl, inr, Bool, true, false, List, [], ◌∷◌, Bool-cases, Bytes, beq_refl, arith,
}
use mcptoolkit.Auth.{
  AuthHandler, AuthConfig, register_token, revoke_token, record_failure, reset_failures,
  set_token_secret, configure, is_revoked, member, validate_request,
}
use mcptoolkit.Auth.Requests.{Carries, validate_request_iff}

Carries-injective :
    (bearer : Bool) {header t u : Bytes} → Carries bearer header t → Carries bearer header u → t ≡ u
Carries-injective true c d = cc
Carries-injective false c d = cc

-- The operations of the handler that change its state after `configure`.
pub data Operation : Type 0 where
  registers : Bytes → ℕ → Operation
  revokes : Bytes → Operation
  fails resets secrets : Bytes → Operation
  configures : AuthConfig → Operation

abbrev pub apply : Operation → AuthHandler → AuthHandler
apply (registers token issued_at) h = register_token token issued_at h
apply (revokes token) h = revoke_token token h
apply (fails client) h = record_failure client h
apply (resets client) h = reset_failures client h
apply (secrets key) h = set_token_secret key h
apply (configures config) h = configure config h

abbrev pub apply_all : List Operation → AuthHandler → AuthHandler
apply_all [] h = h
apply_all (op ∷ ops) h = apply_all ops (apply op h)

apply-revoked :
    (op : Operation) (h : AuthHandler) (token : Bytes)
    → is_revoked h token ≡ true
    → is_revoked (apply op h) token ≡ true
unfolding is_revoked register_token revoke_token record_failure reset_failures set_token_secret
    configure member
apply-revoked (revokes t) h token r = ground arith
apply-revoked _ h token r = r

apply_all-revoked :
    (ops : List Operation) (h : AuthHandler) (token : Bytes)
    → is_revoked h token ≡ true
    → is_revoked (apply_all ops h) token ≡ true
apply_all-revoked [] h token r = r
apply_all-revoked (op ∷ ops) h token r =
    apply_all-revoked ops (apply op h) token (apply-revoked op h token r)

revoke_token-is_revoked :
    (token : Bytes) (h : AuthHandler) → is_revoked (revoke_token token h) token ≡ true
unfolding is_revoked revoke_token member
revoke_token-is_revoked token h = ground (arith, beq_refl token)

revoked-refuses :
    (h : AuthHandler) (token header : Bytes) (now : ℕ)
    → is_revoked h token ≡ true
    → Carries h.config.require_bearer_prefix header token
    → (validate_request h header now).allowed ≡ false
unfolding is_revoked
revoked-refuses h token header now r c = elim (Bool-cases (validate_request h header now).allowed) [
  | inr refused ↦ refused
  | inl allowed ↦
      let (other, acc) = (validate_request_iff h header now).0 allowed in
      let same = Carries-injective h.config.require_bearer_prefix c acc.carries in
      let no = acc.good.not_revoked in absurd (ground (arith, same))
]

-- A revoked token is refused for good: whatever is done to the handler afterwards (the token
-- registered again, other tokens revoked, a new configuration), no request that carries it in the
-- form that is configured then is allowed, at any time.
pub revoke_token-refuses :
    (h : AuthHandler) (token header : Bytes) (ops : List Operation) (now : ℕ)
    → Carries (apply_all ops (revoke_token token h)).config.require_bearer_prefix header token
    → (validate_request (apply_all ops (revoke_token token h)) header now).allowed ≡ false
revoke_token-refuses h token header ops now c =
    revoked-refuses (apply_all ops (revoke_token token h)) token header now
      (apply_all-revoked ops (revoke_token token h) token (revoke_token-is_revoked token h)) c
