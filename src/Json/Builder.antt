-- ===== src/Json/Builder.antt =====
-- `JsonBuilder` of mcptoolkit/include/json/json_builder.h and mcptoolkit/src/json/json_builder.cpp. The
-- builder is its buffer. A `const char*` argument is a byte string, of which the code sees what stands
-- in front of its first NUL (`c_str`).
pub mod Escape
pub mod Decimal
pub mod Unescape
pub mod Nul
use mcptoolkit.Prelude.{
  ℕ, zero, suc, ◌+◌, ◌/◌, ◌%◌, Bool, true, false, Option, none, some, [], ◌∷◌, ◌++◌, ltb, leb, ◌==◌,
  if◌then◌else◌, back, Bytes, codes, c_str, ℤ, pos, negsuc,
}
use mcptoolkit.Double.{Double}

-- One lower-case hexadecimal digit.
unfoldable pub hex_digit : ℕ → ℕ
hex_digit n = if ltb n 10 then 48 + n else 87 + n

-- What `append_escaped` appends for one byte; `%04x` of a byte has two leading zeros.
unfoldable pub escape_byte : ℕ → Bytes
unfolding hex_digit
escape_byte c =
    if c == 34
    then 92 ∷ 34 ∷ []
    else if c == 92
    then 92 ∷ 92 ∷ []
    else if c == 8
    then 92 ∷ b'b' ∷ []
    else if c == 12
    then 92 ∷ b'f' ∷ []
    else if c == 10
    then 92 ∷ b'n' ∷ []
    else if c == 13
    then 92 ∷ b'r' ∷ []
    else if c == 9
    then 92 ∷ b't' ∷ []
    else if ltb c 32
    then 92 ∷ b'u' ∷ 48 ∷ 48 ∷ hex_digit (c / 16) ∷ hex_digit (c % 16) ∷ []
    else c ∷ []

unfoldable pub escape_all : Bytes → Bytes
unfolding escape_byte
escape_all [] = []
escape_all (c ∷ s) = escape_byte c ++ escape_all s

-- `append_escaped(buf, s)`; a null pointer appends nothing.
unfoldable pub append_escaped : Bytes → Option Bytes → Bytes
unfolding escape_all c_str
append_escaped buf none = buf
append_escaped buf (some s) = buf ++ escape_all (c_str s)

-- The decimal digits of `std::to_string`, on fuel; `Decimal` shows that `suc n` is enough.
unfoldable pub digits : ℕ → ℕ → Bytes
digits zero n = []
digits (suc fuel) n =
    let front = digits fuel (n / 10) in
    if ltb n 10 then (48 + n) ∷ [] else front ++ ((48 + n % 10) ∷ [])

unfoldable pub to_string : ℤ → Bytes
unfolding digits
to_string (pos n) = digits (suc n) n
to_string (negsuc n) = b'-' ∷ digits (suc (suc n)) (suc n)

-- `if (!buffer.empty() && buffer.back() != opening) buffer += ','`
unfoldable pub separate : ℕ → Bytes → Bytes
separate opening buf = elim (back buf) [
  | none ↦ buf
  | some c ↦ if c == opening then buf else buf ++ (b',' ∷ [])
]

-- `buffer += '"'; buffer += key; buffer += "\":"`
unfoldable pub add_key : Bytes → Bytes → Bytes
unfolding c_str
add_key buf key = buf ++ (34 ∷ (c_str key ++ (34 ∷ b':' ∷ [])))

unfoldable pub start_object : Bytes → Bytes
start_object buf = buf ++ (b'{' ∷ [])

unfoldable pub end_object : Bytes → Bytes
end_object buf = buf ++ (b'}' ∷ [])

unfoldable pub add_field : Bytes → Option Bytes → Bytes → Bytes
unfolding separate add_key append_escaped
add_field key value buf =
    append_escaped (add_key (separate b'{' buf) key ++ (34 ∷ [])) value ++ (34 ∷ [])

unfoldable pub add_field_number : Bytes → ℤ → Bytes → Bytes
unfolding separate add_key to_string
add_field_number key value buf = add_key (separate b'{' buf) key ++ to_string value

-- `%.15g` of the value is the operation `format` of the numbers.
unfoldable pub add_field_double : {W : Type 0} ⦃d : Double W⦄ → Bytes → W → Bytes → Bytes
unfolding separate add_key
add_field_double ⦃d⦄ key value buf = add_key (separate b'{' buf) key ++ d.format value

unfoldable pub add_field_bool : Bytes → Bool → Bytes → Bytes
unfolding separate add_key
add_field_bool key value buf =
    add_key (separate b'{' buf) key ++ (if value then codes "true" else codes "false")

-- The raw field has no comma behind `[` either.
unfoldable pub separate_raw : Bytes → Bytes
separate_raw buf = elim (back buf) [
  | none ↦ buf
  | some c ↦ if c == b'{' then buf else if c == b'[' then buf else buf ++ (b',' ∷ [])
]

unfoldable pub add_field_raw : Bytes → Bytes → Bytes → Bytes
unfolding separate_raw add_key c_str
add_field_raw key value buf = add_key (separate_raw buf) key ++ c_str value

unfoldable pub add_object_field : Bytes → Bytes → Bytes
unfolding separate add_key
add_object_field key buf = add_key (separate b'{' buf) key ++ (b'{' ∷ [])

unfoldable pub close_object_field : Bytes → Bytes
close_object_field buf = buf ++ (b'}' ∷ [])

unfoldable pub add_array_field : Bytes → Bytes → Bytes
unfolding separate add_key
add_array_field key buf = add_key (separate b'{' buf) key ++ (b'[' ∷ [])

unfoldable pub close_array_field : Bytes → Bytes
close_array_field buf = buf ++ (b']' ∷ [])

unfoldable pub add_array_element : Option Bytes → Bytes → Bytes
unfolding separate append_escaped
add_array_element value buf = append_escaped (separate b'[' buf ++ (34 ∷ [])) value ++ (34 ∷ [])

unfoldable pub add_array_element_raw : Bytes → Bytes → Bytes
unfolding separate c_str
add_array_element_raw value buf = separate b'[' buf ++ c_str value

-- `reset()`: the buffer is emptied.
unfoldable pub reset : Bytes → Bytes
reset buf = []
