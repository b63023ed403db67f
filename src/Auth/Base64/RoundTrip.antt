-- ===== src/Auth/Base64/RoundTrip.antt =====
-- `base64_decode` inverts `base64_encode` on bytes.
use mathlib.Core.Path.{ap₂}
use mcptoolkit.Prelude.{
  ℕ, zero, suc, ◌<◌, ◌≡◌, refl, ◌∙◌, ap, Bool, true, false, ◌&&◌, not, Option, none, some, [], ◌∷◌,
  ◌++◌, append_assoc, append-nil, ◌==◌, ==_iff, Bytes, length, take, take-append, ◌^◌, sym,
  find_byte, arith,
}
use mcptoolkit.Auth.Base64.{
  base64_char, base64_chars, base64_encode, rounds_of, base64_decode, decode_from, Group,
  empty_group, one, two, three, add_index, last_bytes, byte_at, octet0, octet1, octet2, sextet0,
  sextet1, sextet2, sextet3,
}

-- Every element of a byte string is a byte.
abbrev pub IsByteString : Bytes → Type 0
IsByteString [] = Unit {0}
IsByteString (c ∷ s) = (c < 256) × IsByteString s

-- A check of all numbers below a bound.
unfoldable pub all_below : ℕ → (ℕ → Bool) → Bool
all_below zero p = true
all_below (suc n) p = p n && all_below n p

pub all_below-at : (n : ℕ) (p : ℕ → Bool) (x : ℕ) → all_below n p ≡ true → x < n → p x ≡ true
unfolding all_below
all_below-at zero p x h lt = absurd (omega arith)
all_below-at (suc n) p x h lt = ground (arith, all_below-at n p x)

abbrev is_index : Option ℕ → ℕ → Bool
is_index none n = false
is_index (some m) n = m == n

is_index-some : (o : Option ℕ) (n : ℕ) → is_index o n ≡ true → o ≡ some n
is_index-some none n h = cc
is_index-some (some m) n h = ap some ((==_iff m n).0 h)

-- The alphabet's characters are found where they stand, and none of them is the padding.
alphabet :
    all_below 64
      (λ n. is_index (find_byte (base64_char n) base64_chars) n && not (base64_char n == b'='))
    ≡ true
unfolding all_below find_byte base64_char
alphabet = refl

base64_char-found : (n : ℕ) → n < 64 → find_byte (base64_char n) base64_chars ≡ some n
base64_char-found n h =
    is_index-some (find_byte (base64_char n) base64_chars) n
      (ground (arith, all_below-at 64 _ n alphabet h))

base64_char-ne_pad : (n : ℕ) → n < 64 → (base64_char n == b'=') ≡ false
base64_char-ne_pad n h = ground (arith, all_below-at 64 _ n alphabet h)

decode_from-char :
    (group : Group) (decoded : Bytes) (n : ℕ) (s : Bytes)
    → n < 64
    → decode_from group decoded (base64_char n ∷ s)
      ≡ decode_from (add_index group n).0 (decoded ++ (add_index group n).1) s
unfolding decode_from
decode_from-char group decoded n s h =
    rw (base64_char-ne_pad n h, decode_from) (rw (base64_char-found n h))

decode_from-pad :
    (group : Group) (decoded : Bytes) (s : Bytes)
    → decode_from group decoded (b'=' ∷ s) ≡ (true, decoded ++ last_bytes group)
unfolding decode_from
decode_from-pad group decoded s = refl

octets :
    (a b c : ℕ)
    → a < 256
    → b < 256
    → c < 256
    → (octet0 (sextet0 a) (sextet1 a b) ≡ a)
      × (octet1 (sextet1 a b) (sextet2 b c) ≡ b)
      × (octet2 (sextet2 b c) (sextet3 c) ≡ c)
octets a b c ha hb hc = omega arith

module _ (p q : ℕ) (hp : p < 64) (hq : q < 64) (decoded s : Bytes) where
  decode_from-two :
      decode_from empty_group decoded (base64_char p ∷ base64_char q ∷ s)
      ≡ decode_from (two p q) decoded s
  unfolding add_index
  decode_from-two =
      decode_from-char empty_group decoded p (base64_char q ∷ s) hp
      ∙ ap (λ d. decode_from (one p) d (base64_char q ∷ s)) (append-nil decoded)
      ∙ decode_from-char (one p) decoded q s hq
      ∙ ap (λ d. decode_from (two p q) d s) (append-nil decoded)

module _ (p q r : ℕ) (hp : p < 64) (hq : q < 64) (hr : r < 64) (decoded s : Bytes) where
  decode_from-three :
      decode_from empty_group decoded (base64_char p ∷ base64_char q ∷ base64_char r ∷ s)
      ≡ decode_from (three p q r) decoded s
  unfolding add_index
  decode_from-three =
      decode_from-two p q hp hq decoded (base64_char r ∷ s)
      ∙ decode_from-char (two p q) decoded r s hr
      ∙ ap (λ d. decode_from (three p q r) d s) (append-nil decoded)

decode_from-base64_encode :
    (s decoded : Bytes)
    → IsByteString s
    → decode_from empty_group decoded (base64_encode s) ≡ (true, decoded ++ s)
unfolding base64_encode add_index last_bytes
decode_from-base64_encode [] decoded h = unfold decode_from in refl
decode_from-base64_encode (a ∷ []) decoded h =
    decode_from-two (sextet0 a) (sextet1 a 0) (omega arith) (omega arith) decoded _
    ∙ decode_from-pad (two (sextet0 a) (sextet1 a 0)) decoded _
    ∙ ap (λ x. (true, decoded ++ x ∷ [])) (octets a 0 0 h.0 (omega arith) (omega arith)).0
decode_from-base64_encode (a ∷ b ∷ []) decoded h =
    decode_from-three (sextet0 a) (sextet1 a b) (sextet2 b 0) (omega arith) (omega arith)
      (omega arith) decoded _
    ∙ decode_from-pad (three (sextet0 a) (sextet1 a b) (sextet2 b 0)) decoded _
    ∙ ap₂ (λ x y. (true, decoded ++ x ∷ y ∷ [])) (octets a b 0 h.0 h.1.0 (omega arith)).0
        (octets a b 0 h.0 h.1.0 (omega arith)).1
decode_from-base64_encode (a ∷ b ∷ c ∷ s) decoded h =
    let (ea, eb, ec) = octets a b c h.0 h.1.0 h.1.1.0 in
    decode_from-three (sextet0 a) (sextet1 a b) (sextet2 b c) (omega arith) (omega arith)
      (omega arith) decoded _
    ∙ decode_from-char (three (sextet0 a) (sextet1 a b) (sextet2 b c)) decoded (sextet3 c)
        (base64_encode s) (omega arith)
    ∙ decode_from-base64_encode s _ h.1.1.1
    ∙ ap (λ d. (true, d)) (append_assoc decoded _ s ∙ rw (ea, eb, ec) refl)

rounds_of-small : (n : ℕ) → n < 2 ^ 31 → rounds_of n ≡ n
unfolding rounds_of
rounds_of-small n h = ground arith

-- Decoding what was encoded succeeds and gives the bytes back, for any string of bytes whose encoded form
-- has fewer than 2 ^ 31 characters, so that its size is an `int`.
pub base64_decode-base64_encode :
    (s : Bytes)
    → IsByteString s
    → length (base64_encode s) < 2 ^ 31
    → base64_decode (base64_encode s) ≡ (true, s)
unfolding base64_decode
base64_decode-base64_encode s h small =
    let text = base64_encode s in
    ap (λ n. decode_from empty_group [] (take n text)) (rounds_of-small (length text) small)
    ∙ ap (decode_from empty_group [])
        (ap (take (length text)) (sym (append-nil text)) ∙ take-append text [])
    ∙ decode_from-base64_encode s [] h

byte_at-lt : (s : Bytes) (n : ℕ) → IsByteString s → byte_at s n < 256
byte_at-lt [] n h = omega arith
byte_at-lt (c ∷ s) zero h = h.0
byte_at-lt (c ∷ s) (suc n) h = byte_at-lt s n h.1

base64_char-lt : (n : ℕ) → base64_char n < 256
unfolding base64_char
base64_char-lt n = byte_at-lt base64_chars n (omega arith)

-- What `base64_encode` writes are bytes, whatever it is given.
pub base64_encode-IsByteString : (s : Bytes) → IsByteString (base64_encode s)
unfolding base64_encode
base64_encode-IsByteString [] = tt
base64_encode-IsByteString (a ∷ []) =
    omega (arith, base64_char-lt (sextet0 a), base64_char-lt (sextet1 a 0))
base64_encode-IsByteString (a ∷ b ∷ []) =
    omega (
      arith,
      base64_char-lt (sextet0 a),
      base64_char-lt (sextet1 a b),
      base64_char-lt (sextet2 b 0),
    )
base64_encode-IsByteString (a ∷ b ∷ c ∷ s) = (
  base64_char-lt (sextet0 a),
  (
    base64_char-lt (sextet1 a b),
    (base64_char-lt (sextet2 b c), (base64_char-lt (sextet3 c), base64_encode-IsByteString s)),
  ),
)
