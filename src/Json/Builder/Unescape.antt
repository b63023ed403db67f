-- ===== src/Json/Builder/Unescape.antt =====
-- The escapes that `append_escaped` of mcptoolkit/include/json/json_builder.h writes, read the way
-- RFC 8259 defines them.
use mcptoolkit.Prelude.{
  ℕ, ◌+◌, ◌*◌, ◌-◌, ◌/◌, ◌%◌, ◌<◌, ◌≡◌, refl, ap, ◌∙◌, true, ◌&&◌, Option, none, some, [], ◌∷◌,
  ◌++◌, ltb, leb, ◌==◌, if◌then◌else◌, Bytes, arith, Bool-cases, inl, inr,
}
use mathlib.Core.Path.{subst}
use mcptoolkit.Json.Builder.{hex_digit, escape_byte, escape_all}

-- The value of a hexadecimal digit.
unfoldable pub hex_value : ℕ → Option ℕ
hex_value c =
    if leb 48 c && leb c 57
    then some (c - 48)
    else if leb 97 c && leb c 102
    then some (c - 87)
    else if leb 65 c && leb c 70
    then some (c - 55)
    else none

-- What the byte behind a backslash stands for, but for `u`.
unfoldable pub short_escape : ℕ → Option ℕ
short_escape c =
    if c == 34
    then some 34
    else if c == 92
    then some 92
    else if c == 47
    then some 47
    else if c == b'b'
    then some 8
    else if c == b'f'
    then some 12
    else if c == b'n'
    then some 10
    else if c == b'r'
    then some 13
    else if c == b't'
    then some 9
    else none

abbrev put : ℕ → Option Bytes → Option Bytes
put c none = none
put c (some s) = some (c ∷ s)

abbrev put_some : Option ℕ → Option Bytes → Option Bytes
put_some none rest = none
put_some (some c) rest = put c rest

abbrev join_hex : Option ℕ → Option ℕ → Option ℕ
join_hex (some a) (some b) = some (a * 16 + b)
join_hex _ _ = none

-- Where the reading of a string body stands: behind a backslash, and behind `\u`, `\u0`, `\u00` and
-- one more digit.
pub data Reading : Type 0 where
  plain escaped first_zero second_zero high_digit : Reading
  low_digit : ℕ → Reading

-- The bytes that a string body stands for; of `\u` the code points below 256 are read. A quote or a
-- control character does not stand unescaped.
unfoldable pub unescape : Reading → Bytes → Option Bytes
unfolding short_escape hex_value
unescape plain [] = some []
unescape escaped [] = none
unescape first_zero [] = none
unescape second_zero [] = none
unescape high_digit [] = none
unescape (low_digit a) [] = none
unescape plain (c ∷ s) =
    let more = unescape plain s in
    let special = unescape escaped s in
    if c == 92 then special else if c == 34 then none else if ltb c 32 then none else put c more
unescape escaped (c ∷ s) =
    let more = unescape plain s in
    let unicode = unescape first_zero s in
    if c == b'u' then unicode else put_some (short_escape c) more
unescape first_zero (c ∷ s) = let more = unescape second_zero s in if c == 48 then more else none
unescape second_zero (c ∷ s) = let more = unescape high_digit s in if c == 48 then more else none
unescape high_digit (c ∷ s) = unescape (low_digit c) s
unescape (low_digit a) (c ∷ s) = put_some (join_hex (hex_value a) (hex_value c)) (unescape plain s)

abbrev IsReadBack : ℕ → Type 0
IsReadBack c = (rest : Bytes) → unescape plain (escape_byte c ++ rest) ≡ put c (unescape plain rest)

at : (k c : ℕ) → (c == k) ≡ true → IsReadBack k → IsReadBack c
at k c e p = let same : k ≡ c = ground arith in subst IsReadBack same p

hex_value-hex_digit : (d : ℕ) → d < 16 → hex_value (hex_digit d) ≡ some d
unfolding hex_value hex_digit
hex_value-hex_digit d h = ground arith

escape_byte-IsReadBack : (c : ℕ) → IsReadBack c
unfolding unescape escape_byte
escape_byte-IsReadBack c = elim (Bool-cases (c == 34)) [
  | inl e ↦ at 34 c e (λ rest. refl)
  | inr q34 ↦ elim (Bool-cases (c == 92)) [
    | inl e ↦ at 92 c e (λ rest. refl)
    | inr q92 ↦ elim (Bool-cases (c == 8)) [
      | inl e ↦ at 8 c e (λ rest. refl)
      | inr q8 ↦ elim (Bool-cases (c == 12)) [
        | inl e ↦ at 12 c e (λ rest. refl)
        | inr q12 ↦ elim (Bool-cases (c == 10)) [
          | inl e ↦ at 10 c e (λ rest. refl)
          | inr q10 ↦ elim (Bool-cases (c == 13)) [
            | inl e ↦ at 13 c e (λ rest. refl)
            | inr q13 ↦ elim (Bool-cases (c == 9)) [
              | inl e ↦ at 9 c e (λ rest. refl)
              | inr q9 ↦ elim (Bool-cases (ltb c 32)) [
                | inl control ↦ λ rest.
                    let high = hex_value-hex_digit (c / 16) (ground arith) in
                    let low = hex_value-hex_digit (c % 16) (omega arith) in
                    let whole : c / 16 * 16 + c % 16 ≡ c = omega arith in
                    rw (q34, q92, q8, q12, q10, q13, q9, control, escape_byte)
                      (rw (high, low) (ap (λ n. put n (unescape plain rest)) whole))
                | inr printed ↦ λ rest.
                    rw (q34, q92, q8, q12, q10, q13, q9, printed, escape_byte)
                      (rw (q92, q34, printed) refl)
              ]
            ]
          ]
        ]
      ]
    ]
  ]
]

-- Escaped text stands, by the rules of RFC 8259, for the bytes that were escaped.
pub unescape-escape_all : (s : Bytes) → unescape plain (escape_all s) ≡ some s
unfolding unescape escape_all
unescape-escape_all [] = refl
unescape-escape_all (c ∷ s) =
    escape_byte-IsReadBack c (escape_all s) ∙ ap (put c) (unescape-escape_all s)
