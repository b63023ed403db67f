-- ===== src/Json/Scan.antt =====
-- The lexical layer of mcptoolkit/src/json/json_parser.cpp: whitespace, strings, containers, values
-- and integers. Each function takes what is left of the input and gives what is left behind the
-- token; `none` is the source's `return false`.
pub mod Suffix
pub mod Shapes
use mathlib.Core.Option
use mcptoolkit.Prelude.{
  ℕ, suc, ◌+◌, ◌-◌, ◌*◌, Bool, true, false, ◌&&◌, ◌||◌, not, Option, none, some, List, [], ◌∷◌, ltb,
  leb, ◌==◌, if◌then◌else◌, length, take, drop, Bytes, codes, is_prefix, ℤ, pos, negate,
}

-- `std::isspace` in the C locale.
unfoldable pub is_space : ℕ → Bool
is_space c = c == 32 || (leb 9 c && leb c 13)

-- `std::isdigit`
unfoldable pub is_digit : ℕ → Bool
is_digit c = leb b'0' c && leb c b'9'

abbrev pub quote : ℕ
quote = 34

abbrev pub backslash : ℕ
backslash = 92

-- The nesting limit of objects and arrays.
abbrev pub max_depth : ℕ
max_depth = 64

unfoldable pub skip_ws : Bytes → Bytes
unfolding is_space
skip_ws [] = []
skip_ws (c ∷ s) = if is_space c then skip_ws s else c ∷ s

-- The loop of `skip_string` and `parse_string`, behind the opening quote, and the closing quote.
-- The flag says that the last byte was an escape's backslash, whose partner is skipped unread.
unfoldable pub string_end : Bool → Bytes → Option Bytes
string_end escaped [] = none
string_end true (c ∷ s) = string_end false s
string_end false (c ∷ s) = elim (c == quote) [
  | true ↦ some s
  | false ↦ string_end (c == backslash) s
]

unfoldable pub skip_string : Bytes → Option Bytes
unfolding string_end
skip_string [] = none
skip_string (c ∷ s) = if c == quote then string_end false s else none

-- One byte of the loop of `skip_container`: outside of a string, in one, or behind a backslash in one.
pub data Place : Type 0 where
  outside inside escaped : Place

-- `gone` is `return false`; `closed` leaves the loop with depth 0.
pub data Turn : Type 0 where
  gone closed : Turn
  going : Place → ℕ → Turn

unfoldable pub container_turn : ℕ → ℕ → Place → ℕ → ℕ → Turn
container_turn open_byte close_byte outside depth c =
    if c == quote
    then going inside depth
    else if c == open_byte
    then if ltb max_depth (depth + 1) then gone else going outside (depth + 1)
    else if c == close_byte
    then if depth == 1 then closed else going outside (depth - 1)
    else going outside depth
container_turn open_byte close_byte inside depth c =
    if c == quote
    then going outside depth
    else if c == backslash
    then going escaped depth
    else going inside depth
container_turn open_byte close_byte escaped depth c = going inside depth

-- The loop of `skip_container` at the given depth. The strings that it meets are read in the same
-- pass; `Shapes.container_end-string_end` shows that this is the source's call of `skip_string`.
unfoldable pub container_end : ℕ → ℕ → Place → ℕ → Bytes → Option Bytes
unfolding container_turn
container_end open_byte close_byte place depth [] = none
container_end open_byte close_byte place depth (c ∷ s) =
    elim (container_turn open_byte close_byte place depth c) [
      | gone ↦ none
      | closed ↦ some s
      | going place' depth' ↦ container_end open_byte close_byte place' depth' s
    ]

unfoldable pub skip_container : ℕ → ℕ → Bytes → Option Bytes
unfolding container_end
skip_container open_byte close_byte [] = none
skip_container open_byte close_byte (c ∷ s) =
    if c == open_byte then container_end open_byte close_byte outside 1 s else none

-- `len - pos < n || memcmp(input + pos, word, n) != 0`
unfoldable pub skip_word : Bytes → Bytes → Option Bytes
unfolding is_prefix
skip_word word s = if is_prefix word s then some (drop (length word) s) else none

unfoldable pub skip_digits : Bytes → Bytes
unfolding is_digit
skip_digits [] = []
skip_digits (c ∷ s) = if is_digit c then skip_digits s else c ∷ s

unfoldable pub skip_fraction : Bytes → Bytes
unfolding skip_digits
skip_fraction [] = []
skip_fraction (c ∷ s) = if c == b'.' then skip_digits s else c ∷ s

unfoldable pub skip_sign : Bytes → Bytes
skip_sign [] = []
skip_sign (c ∷ s) = if c == b'+' || c == b'-' then s else c ∷ s

unfoldable pub skip_exponent : Bytes → Bytes
unfolding skip_digits skip_sign
skip_exponent [] = []
skip_exponent (c ∷ s) = if c == b'e' || c == b'E' then skip_digits (skip_sign s) else c ∷ s

unfoldable pub number_tail : Bytes → Bytes
unfolding skip_digits skip_fraction skip_exponent
number_tail s = skip_exponent (skip_fraction (skip_digits s))

-- Behind a '-', which wants a digit.
unfoldable pub skip_negative : Bytes → Option Bytes
unfolding number_tail is_digit
skip_negative [] = none
skip_negative (c ∷ s) = if is_digit c then some (number_tail (c ∷ s)) else none

-- The body of `skip_value` behind the whitespace.
unfoldable pub value_end : Bytes → Option Bytes
unfolding skip_string skip_container skip_word number_tail skip_negative is_digit
value_end [] = none
value_end (c ∷ s) =
    if c == quote
    then skip_string (c ∷ s)
    else if c == b'{'
    then skip_container b'{' b'}' (c ∷ s)
    else if c == b'['
    then skip_container b'[' b']' (c ∷ s)
    else if c == b't'
    then skip_word (codes "true") (c ∷ s)
    else if c == b'f'
    then skip_word (codes "false") (c ∷ s)
    else if c == b'n'
    then skip_word (codes "null") (c ∷ s)
    else if c == b'-'
    then skip_negative s
    else if is_digit c
    then some (number_tail (c ∷ s))
    else none

-- `skip_value(&start, &len)`: on success the value's start, its length and what is left behind it.
unfoldable pub skip_value : Bytes → Option (Bytes × ℕ × Bytes)
unfolding skip_ws value_end
skip_value s =
    let start = skip_ws s in
    Option.map (λ rest. (start, length start - length rest, rest)) (value_end start)

-- `parse_string(str_start, str_len)`: what it writes to `str_start`, if anything, which happens also
-- where it fails later; and on success the length and what is left behind the closing quote.
pub record StringToken : Type 0 where
  pub start : Option Bytes
  pub end : Option (ℕ × Bytes)

unfoldable pub open_string : Bytes → StringToken
unfolding string_end
open_string [] = record { start = none; end = none }
open_string (c ∷ s) =
    if c == quote
    then record {
      start = some s;
      end = Option.map (λ rest. (length s - length rest - 1, rest)) (string_end false s);
    }
    else record { start = none; end = none }

unfoldable pub parse_string : Bytes → StringToken
unfolding skip_ws open_string
parse_string s = open_string (skip_ws s)

-- The digit loop of `parse_int`; a value beyond `INT_MAX` fails at the digit that passes it.
unfoldable pub int_digits : ℕ → Bytes → Option (ℕ × Bytes)
unfolding is_digit
int_digits value [] = some (value, [])
int_digits value (c ∷ s) = elim (is_digit c) [
  | true ↦
      let next = value * 10 + (c - b'0') in
      elim (ltb 2147483647 next) [ true ↦ none | false ↦ int_digits next s ]
  | false ↦ some (value, c ∷ s)
]

-- Behind the sign, where a digit has to stand.
unfoldable pub unsigned_int : Bytes → Option (ℕ × Bytes)
unfolding int_digits
unsigned_int [] = none
unsigned_int (c ∷ s) = if is_digit c then int_digits 0 (c ∷ s) else none

unfoldable pub signed_int : Bytes → Option (ℤ × Bytes)
unfolding unsigned_int
signed_int [] = none
signed_int (c ∷ s) =
    if c == b'-'
    then Option.map (λ (n, rest). (negate n, rest)) (unsigned_int s)
    else Option.map (λ (n, rest). (pos n, rest)) (unsigned_int (c ∷ s))

unfoldable pub parse_int : Bytes → Option (ℤ × Bytes)
unfolding skip_ws signed_int
parse_int s = signed_int (skip_ws s)
