-- ===== src/Auth/Base64.antt =====
-- `base64_encode` and `base64_decode` of mcptoolkit/src/authentication_handler.cpp. A byte is a number
-- below 256; a shift is a division or a product and a mask is a remainder.
pub mod RoundTrip
use mcptoolkit.Prelude.{
  ℕ, ◌+◌, ◌*◌, ◌/◌, ◌%◌, Bool, true, false, Option, none, some, List, [], ◌∷◌, ◌++◌, ◌==◌,
  if◌then◌else◌, Bytes, codes, zero, suc, find_byte, ◌^◌, ltb, length, take,
}

abbrev pub base64_chars : Bytes
base64_chars = codes "ABCDEFGHIJKLMNOPQRSTUVWXYZabcdefghijklmnopqrstuvwxyz0123456789+/"

abbrev pub byte_at : Bytes → ℕ → ℕ
byte_at [] n = 0
byte_at (c ∷ s) zero = c
byte_at (c ∷ s) (suc n) = byte_at s n

-- `base64_chars[n]`
unfoldable pub base64_char : ℕ → ℕ
base64_char n = byte_at base64_chars n

-- The four indices of a group of three bytes, one for each line that fills `char_array_4`.
abbrev pub sextet0 : ℕ → ℕ
sextet0 a = a / 4

abbrev pub sextet1 : ℕ → ℕ → ℕ
sextet1 a b = a % 4 * 16 + b / 16

abbrev pub sextet2 : ℕ → ℕ → ℕ
sextet2 b c = b % 16 * 4 + c / 64

abbrev pub sextet3 : ℕ → ℕ
sextet3 c = c % 64

-- The last group is filled up with zeros, of which `=` takes the place in the text.
unfoldable pub base64_encode : Bytes → Bytes
unfolding base64_char
base64_encode [] = []
base64_encode (a ∷ []) = base64_char (sextet0 a) ∷ base64_char (sextet1 a 0) ∷ b'=' ∷ b'=' ∷ []
base64_encode (a ∷ b ∷ []) =
    base64_char (sextet0 a) ∷ base64_char (sextet1 a b) ∷ base64_char (sextet2 b 0) ∷ b'=' ∷ []
base64_encode (a ∷ b ∷ c ∷ s) =
    base64_char (sextet0 a)
    ∷ base64_char (sextet1 a b)
    ∷ base64_char (sextet2 b c)
    ∷ base64_char (sextet3 c)
    ∷ base64_encode s

-- The three bytes of a group of four indices, one for each line that fills `char_array_3`; an
-- `unsigned char` keeps the low eight bits.
abbrev pub octet0 : ℕ → ℕ → ℕ
octet0 p q = (p * 4 + q % 64 / 16) % 256

abbrev pub octet1 : ℕ → ℕ → ℕ
octet1 q r = (q % 16 * 16 + r % 64 / 4) % 256

abbrev pub octet2 : ℕ → ℕ → ℕ
octet2 r t = (r % 4 * 64 + t) % 256

-- The group that the loop fills: the indices of fewer than four characters.
pub data Group : Type 0 where
  empty_group : Group
  one : ℕ → Group
  two : ℕ → ℕ → Group
  three : ℕ → ℕ → ℕ → Group

-- One more index: the next group, and the bytes that a full group gives.
unfoldable pub add_index : Group → ℕ → Group × Bytes
add_index empty_group p = (one p, [])
add_index (one p) q = (two p q, [])
add_index (two p q) r = (three p q r, [])
add_index (three p q r) t = (empty_group, octet0 p q ∷ octet1 q r ∷ octet2 r t ∷ [])

-- The bytes of a group that was cut short.
unfoldable pub last_bytes : Group → Bytes
last_bytes empty_group = []
last_bytes (one p) = []
last_bytes (two p q) = octet0 p q ∷ []
last_bytes (three p q r) = octet0 p q ∷ octet1 q r ∷ []

-- The loop over the text; the flag is the source's result, and the bytes are what it has written.
unfoldable pub decode_from : Group → Bytes → Bytes → Bool × Bytes
unfolding add_index last_bytes
decode_from group decoded [] = (true, decoded ++ last_bytes group)
decode_from group decoded (c ∷ s) = elim (c == b'=') [
  | true ↦ (true, decoded ++ last_bytes group)
  | false ↦ elim (find_byte c base64_chars) [
    | none ↦ (false, decoded)
    | some index ↦ let next = add_index group index in decode_from next.0 (decoded ++ next.1) s
  ]
]

-- `int in_len`: the low 32 bits of the size, and no round of the loop where they are a negative number.
unfoldable pub rounds_of : ℕ → ℕ
rounds_of size = let low = size % 2 ^ 32 in if ltb low (2 ^ 31) then low else 0

unfoldable pub base64_decode : Bytes → Bool × Bytes
unfolding decode_from
base64_decode encoded = decode_from empty_group [] (take (rounds_of (length encoded)) encoded)
