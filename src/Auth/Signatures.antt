-- ===== src/Auth/Signatures.antt =====
-- The signature check, and the tokens that `decode_token` takes.
use Prim.Native.Nat.{bit_or, bit_xor}
use mcptoolkit.Prelude.{
  ℕ, zero, suc, ◌<◌, ◌≡◌, ◌≢◌, refl, sym, ◌∙◌, ap, ◌↔◌, inl, inr, Bool, true, false, ◌&&◌, some, [],
  ◌∷◌, ◌++◌, ltb, ◌==◌, ==_iff, Bool-cases, Option-cases, length, take, drop, take-append, Bytes,
  empty, empty-false, find_byte-split, find_byte-append, find_byte, contains_byte, arith,
}
use mcptoolkit.Auth.{
  AuthHandler, Hmac, xor_all, compute_token_signature, verify_token_signature, is_revoked,
  decode_parts, decode_token,
}
use mcptoolkit.Auth.Requests.{IsFresh, expiry_iff}
use mcptoolkit.Auth.Base64.RoundTrip.{
  IsByteString, all_below, all_below-at, base64_encode-IsByteString,
}

abbrev implies : Bool → Bool → Bool
implies true b = b
implies false b = true

-- The bit operations on bytes, checked on all of them.
or_table :
    all_below 256 (λ r.
      all_below 256 (λ x. ltb (bit_or r x) 256 && implies (bit_or r x == 0) (r == 0 && x == 0)))
    ≡ true
unfolding all_below
or_table = refl

xor_table :
    all_below 256
      (λ a. all_below 256 (λ b. ltb (bit_xor a b) 256 && implies (bit_xor a b == 0) (a == b)))
    ≡ true
unfolding all_below
xor_table = refl

xor_self_table : all_below 256 (λ a. bit_xor a a == 0) ≡ true
unfolding all_below
xor_self_table = refl

or_bytes : (r x : ℕ) → r < 256 → x < 256 → (bit_or r x < 256) × (bit_or r x ≡ 0 → (r ≡ 0) × (x ≡ 0))
or_bytes r x hr hx =
    let row = all_below-at 256 _ x (all_below-at 256 _ r or_table hr) hx in
    (ground arith, λ e. (ground arith, ground arith))

xor_bytes : (a b : ℕ) → a < 256 → b < 256 → (bit_xor a b < 256) × (bit_xor a b ≡ 0 → a ≡ b)
xor_bytes a b ha hb =
    let row = all_below-at 256 _ b (all_below-at 256 _ a xor_table ha) hb in
    (ground arith, λ e. ground arith)

-- The loop gives zero only if it started with zero and met equal bytes.
xor_all_sound :
    (s t : Bytes) (result : ℕ)
    → IsByteString s
    → IsByteString t
    → result < 256
    → length s ≡ length t
    → xor_all result s t ≡ 0
    → (result ≡ 0) × (s ≡ t)
unfolding xor_all
xor_all_sound [] [] result hs ht hr e z = (z, refl)
xor_all_sound [] (b ∷ t) result hs ht hr e z = absurd (omega arith)
xor_all_sound (a ∷ s) [] result hs ht hr e z = absurd (omega arith)
xor_all_sound (a ∷ s) (b ∷ t) result hs ht hr e z =
    let (small, equal) = xor_bytes a b hs.0 ht.0 in
    let (fits, both) = or_bytes result (bit_xor a b) hr small in
    let (none_yet, same) =
      xor_all_sound s t (bit_or result (bit_xor a b)) hs.1 ht.1 fits (omega arith) z in
    let (zero_before, zero_here) = both none_yet in (zero_before, cc (equal zero_here, same))

xor_all_complete : (s : Bytes) → IsByteString s → xor_all 0 s s ≡ 0
unfolding xor_all
xor_all_complete [] h = refl
xor_all_complete (a ∷ s) h =
    let here : bit_xor a a ≡ 0 = (==_iff _ 0).0 (all_below-at 256 _ a xor_self_table h.0) in
    rw here (xor_all_complete s h.1)

pub compute_token_signature-IsByteString :
    (hmac : Hmac) (h : AuthHandler) (user_id : Bytes)
    → IsByteString (compute_token_signature hmac h user_id)
unfolding compute_token_signature
compute_token_signature-IsByteString hmac h user_id = elim (Bool-cases (empty h.token_secret)) [
  | inl e ↦ rw e tt
  | inr e ↦ rw e (base64_encode-IsByteString (hmac h.token_secret user_id))
]

-- A signature, a string of bytes, is accepted exactly if a secret is set, so that there is a signature to
-- compare with, and it is the signature of the user id, byte for byte.
pub verify_token_signature_iff :
    (hmac : Hmac) (h : AuthHandler) (user_id signature : Bytes)
    → IsByteString signature
    → (verify_token_signature hmac h user_id signature ≡ true) ↔ (
        (compute_token_signature hmac h user_id ≢ [])
        × (signature ≡ compute_token_signature hmac h user_id))
unfolding verify_token_signature
verify_token_signature_iff hmac h user_id signature hs =
    let hc = compute_token_signature-IsByteString hmac h user_id in
    (
      λ v.
          let same_length : length signature ≡ length (compute_token_signature hmac h user_id) =
            ground arith in
          let zero_at_end : xor_all 0 signature (compute_token_signature hmac h user_id) ≡ 0 =
            ground arith in
          (
            λ e. ground arith,
            (xor_all_sound signature _ 0 hs hc (omega arith) same_length zero_at_end).1,
          ),
      λ (there, e). rw e (
          ground (
            arith,
            xor_all_complete (compute_token_signature hmac h user_id) hc,
            empty-false (compute_token_signature hmac h user_id) there,
          )),
    )

-- What makes a token one that names a user: it is the user id, a dot and the id's signature, and it was
-- neither revoked nor has it expired.
pub record IsTokenOf (hmac : Hmac) (h : AuthHandler) (now : ℕ) (token user_id : Bytes)
    : Type 0 where
  pub has_secret : h.token_secret ≢ []
  pub has_user : user_id ≢ []
  pub no_dot : contains_byte b'.' user_id ≡ false
  pub signed : token ≡ user_id ++ (b'.' ∷ compute_token_signature hmac h user_id)
  pub has_signature : compute_token_signature hmac h user_id ≢ []
  pub not_revoked : is_revoked h token ≡ false
  pub fresh : IsFresh h token now

decode_parts_iff :
    (hmac : Hmac) (h : AuthHandler) (token user_id signature : Bytes) (now : ℕ)
    → user_id ≢ []
    → IsByteString signature
    → (decode_parts hmac h token user_id signature now ≡ user_id) ↔ (
        (signature ≡ compute_token_signature hmac h user_id)
        × (compute_token_signature hmac h user_id ≢ [])
        × (is_revoked h token ≡ false)
        × IsFresh h token now)
unfolding decode_parts
decode_parts_iff hmac h token user_id signature now there hs =
    let sig = verify_token_signature_iff hmac h user_id signature hs in
    let life = expiry_iff h token now in
    let named = empty-false user_id there in
    (
      λ e.
          let ok : verify_token_signature hmac h user_id signature ≡ true = ground arith in
          let (present, same) = sig.0 ok in (same, present, ground arith, life.0 (ground arith)),
      λ (same, present, alive, fresh).
          let ok = sig.1 (present, same) in
          let living = life.1 fresh in
          let signed : empty signature ≡ false = rw same (empty-false _ present) in ground arith,
    )

-- The checks of `decode_token` give nothing but the user id in front of the dot.
pub decode_parts-user :
    (hmac : Hmac) (h : AuthHandler) (token user_id signature : Bytes) (now : ℕ)
    → decode_parts hmac h token user_id signature now ≢ []
    → decode_parts hmac h token user_id signature now ≡ user_id
unfolding decode_parts
decode_parts-user hmac h token user_id signature now ne = ground arith

IsByteString-drop : (n : ℕ) (s : Bytes) → IsByteString s → IsByteString (drop n s)
IsByteString-drop zero s h = h
IsByteString-drop (suc n) [] h = tt
IsByteString-drop (suc n) (c ∷ s) h = IsByteString-drop n s h.1

drop-suc-append : (c : ℕ) (s t : Bytes) → drop (suc (length s)) (s ++ (c ∷ t)) ≡ t
drop-suc-append c [] t = refl
drop-suc-append c (d ∷ s) t = drop-suc-append c s t

decode_token_sound :
    (hmac : Hmac) (h : AuthHandler) (token user_id : Bytes) (now : ℕ)
    → IsByteString token
    → user_id ≢ []
    → decode_token hmac h token now ≡ user_id
    → IsTokenOf hmac h now token user_id
unfolding decode_token
decode_token_sound hmac h token user_id now bytes there e =
    elim (Option-cases (find_byte b'.' token)) [
      | inl q ↦ absurd (there (ground arith))
      | inr (dot, q) ↦
          let (split, no_dot) = find_byte-split b'.' token dot q in
          let user = take dot token in
          let signature = drop (suc dot) token in
          let parts : decode_parts hmac h token user signature now ≡ user_id = ground arith in
          let its_user : user ≡ user_id =
            sym (decode_parts-user hmac h token user signature now (λ z. there (sym parts ∙ z)))
            ∙ parts in
          let (same, present, alive, fresh) =
            (decode_parts_iff hmac h token user signature now (λ z. there (sym its_user ∙ z))
                (IsByteString-drop (suc dot) token bytes)).0
              (parts ∙ sym its_user) in
          rw (← its_user) (record {
            has_secret = λ z. there (ground arith);
            has_user = λ z. there (sym its_user ∙ z);
            no_dot = no_dot;
            signed = split ∙ ap (λ s. user ++ (b'.' ∷ s)) same;
            has_signature = present;
            not_revoked = alive;
            fresh = fresh;
          })
    ]

-- Text with a dot in it is not empty.
empty-append : (user rest : Bytes) → empty (user ++ (b'.' ∷ rest)) ≡ false
empty-append [] rest = refl
empty-append (_ ∷ _) rest = refl

decode_token_complete :
    (hmac : Hmac) (h : AuthHandler) (token user_id : Bytes) (now : ℕ)
    → IsTokenOf hmac h now token user_id
    → decode_token hmac h token now ≡ user_id
unfolding decode_token
decode_token_complete hmac h token user_id now t =
    let signature = compute_token_signature hmac h user_id in
    let found : find_byte b'.' token ≡ some (length user_id) =
      rw t.signed (find_byte-append b'.' user_id signature t.no_dot) in
    let user_part : take (length user_id) token ≡ user_id =
      rw t.signed (take-append user_id (b'.' ∷ signature)) in
    let signature_part : drop (suc (length user_id)) token ≡ signature =
      rw t.signed (drop-suc-append b'.' user_id signature) in
    let taken =
      (decode_parts_iff hmac h token user_id signature now t.has_user
          (compute_token_signature-IsByteString hmac h user_id)).1
        (refl, t.has_signature, t.not_revoked, t.fresh) in
    let there : empty token ≡ false = rw t.signed (empty-append user_id signature) in
    let known : empty h.token_secret ≡ false = empty-false h.token_secret t.has_secret in
    rw (there, known, found, decode_token) (rw (user_part, signature_part) taken)

-- A token, a string of bytes, decodes to a user with a non-empty id exactly if it is that id, without a
-- dot, followed by a dot and the id's signature under the secret that is set, and it was not revoked and,
-- if it is registered and there is a lifetime, is not older than that.
pub decode_token_iff :
    (hmac : Hmac) (h : AuthHandler) (token user_id : Bytes) (now : ℕ)
    → IsByteString token
    → user_id ≢ []
    → (decode_token hmac h token now ≡ user_id) ↔ IsTokenOf hmac h now token user_id
decode_token_iff hmac h token user_id now bytes there = (
  decode_token_sound hmac h token user_id now bytes there,
  decode_token_complete hmac h token user_id now,
)
