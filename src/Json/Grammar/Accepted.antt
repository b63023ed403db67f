-- ===== src/Json/Grammar/Accepted.antt =====
-- `JsonParser::skip_value` of mcptoolkit/src/json/json_parser.cpp accepts every JSON value within the nesting
-- limit.
use mcptoolkit.Prelude.{
  ℕ, ◌-◌, ◌≤◌, ◌≡◌, refl, ◌∙◌, ap, Bool, true, false, ◌&&◌, not, some, List, [], ◌∷◌, ◌==◌, inl,
  inr, Bool-cases, length, Bytes, arith,
}
use mcptoolkit.Json.Scan.{
  is_digit, skip_ws, skip_digits, skip_fraction, skip_sign, skip_exponent, number_tail,
  skip_negative, skip_string, skip_container, skip_word, value_end, skip_value,
}
use mcptoolkit.Json.Grammar.{
  Sign, unsigned, plus, minus, Exponent, no_exponent, exponent, Fraction, no_fraction, fraction,
  Number, Value, null, bool, number, string, array, object, digit, write_digits, write_sign,
  write_exponent, write_fraction, write_behind_first, write_unsigned, write_number, write,
  write_items, write_fields, depth,
}
use mcptoolkit.Json.Grammar.Passes.{brackets, braces, string_end-write_pieces, scan-write_gap}
use mcptoolkit.Json.Grammar.Nested.{scan-write_items, scan-write_fields}

-- A text that does not go on with a number in front of it.
abbrev pub stops_number : Bytes → Bool
stops_number [] = true
stops_number (c ∷ rest) = not (is_digit c) && not (c == b'.') && not (c == b'e') && not (c == b'E')

digit-is_digit : (n : ℕ) → is_digit (digit n) ≡ true
unfolding is_digit
digit-is_digit n = ground arith

-- No digit at the start.
abbrev no_digit : Bytes → Bool
no_digit [] = true
no_digit (c ∷ rest) = not (is_digit c)

skip_digits-write_digits :
    (ns : List ℕ) (rest : Bytes) → no_digit rest ≡ true → skip_digits (write_digits ns rest) ≡ rest
unfolding skip_digits
skip_digits-write_digits [] [] h = refl
skip_digits-write_digits [] (c ∷ rest) h = ground arith
skip_digits-write_digits (n ∷ ns) rest h =
    let is = digit-is_digit n in let later = skip_digits-write_digits ns rest h in ground arith

stops_number-no_digit : (rest : Bytes) → stops_number rest ≡ true → no_digit rest ≡ true
stops_number-no_digit [] h = refl
stops_number-no_digit (c ∷ rest) h = ground arith

skip_sign-digit : (n : ℕ) (rest : Bytes) → skip_sign (digit n ∷ rest) ≡ digit n ∷ rest
unfolding skip_sign
skip_sign-digit n rest = ground arith

skip_sign-write_sign :
    (sign : Sign) (n : ℕ) (rest : Bytes)
    → skip_sign (write_sign sign (digit n ∷ rest)) ≡ digit n ∷ rest
unfolding skip_sign
skip_sign-write_sign unsigned n rest = skip_sign-digit n rest
skip_sign-write_sign plus n rest = refl
skip_sign-write_sign minus n rest = refl

skip_exponent-write_exponent :
    (e : Exponent) (rest : Bytes)
    → stops_number rest ≡ true
    → skip_exponent (write_exponent e rest) ≡ rest
unfolding skip_exponent
skip_exponent-write_exponent no_exponent [] h = refl
skip_exponent-write_exponent no_exponent (c ∷ rest) h = ground arith
skip_exponent-write_exponent (exponent upper sign first more) rest h =
    let signed = skip_sign-write_sign sign first (write_digits more rest) in
    let digits =
      ap skip_digits signed
      ∙ skip_digits-write_digits (first ∷ more) rest (stops_number-no_digit rest h) in
    elim (Bool-cases upper) [ inl big ↦ rw big digits | inr small ↦ rw small digits ]

-- No digit and no point at the start.
abbrev no_point : Bytes → Bool
no_point [] = true
no_point (c ∷ rest) = not (is_digit c) && not (c == b'.')

write_exponent-no_point :
    (e : Exponent) (rest : Bytes)
    → stops_number rest ≡ true
    → no_point (write_exponent e rest) ≡ true
unfolding is_digit
write_exponent-no_point no_exponent [] h = refl
write_exponent-no_point no_exponent (c ∷ rest) h = ground arith
write_exponent-no_point (exponent true sign first more) rest h = refl
write_exponent-no_point (exponent false sign first more) rest h = refl

no_point-no_digit : (rest : Bytes) → no_point rest ≡ true → no_digit rest ≡ true
no_point-no_digit [] h = refl
no_point-no_digit (c ∷ rest) h = ground arith

skip_fraction-write_fraction :
    (f : Fraction) (rest : Bytes)
    → no_point rest ≡ true
    → skip_fraction (write_fraction f rest) ≡ rest
unfolding skip_fraction
skip_fraction-write_fraction no_fraction [] h = refl
skip_fraction-write_fraction no_fraction (c ∷ rest) h = ground arith
skip_fraction-write_fraction (fraction first more) rest h =
    skip_digits-write_digits (first ∷ more) rest (no_point-no_digit rest h)

write_fraction-no_digit :
    (f : Fraction) (rest : Bytes) → no_point rest ≡ true → no_digit (write_fraction f rest) ≡ true
unfolding is_digit
write_fraction-no_digit no_fraction rest h = no_point-no_digit rest h
write_fraction-no_digit (fraction first more) rest h = refl

number_tail-write_unsigned :
    (n : Number) (rest : Bytes)
    → stops_number rest ≡ true
    → number_tail (write_unsigned n rest) ≡ rest
unfolding number_tail
number_tail-write_unsigned n rest h =
    let scaled = write_exponent n.scaled rest in
    let pointed = write_fraction n.behind_point scaled in
    let no_point_there = write_exponent-no_point n.scaled rest h in
    ap (λ s. skip_exponent (skip_fraction s))
      (skip_digits-write_digits (n.first ∷ n.more) pointed
        (write_fraction-no_digit n.behind_point scaled no_point_there))
    ∙ ap skip_exponent (skip_fraction-write_fraction n.behind_point scaled no_point_there)
    ∙ skip_exponent-write_exponent n.scaled rest h

value_end-digit : (n : ℕ) (s : Bytes) → value_end (digit n ∷ s) ≡ some (number_tail (digit n ∷ s))
unfolding value_end
value_end-digit n s = ground (arith, digit-is_digit n)

skip_negative-digit :
    (n : ℕ) (s : Bytes) → skip_negative (digit n ∷ s) ≡ some (number_tail (digit n ∷ s))
unfolding skip_negative
skip_negative-digit n s = ground (arith, digit-is_digit n)

value_end-write_number :
    (n : Number) (rest : Bytes)
    → stops_number rest ≡ true
    → value_end (write_number n rest) ≡ some rest
unfolding value_end
value_end-write_number n rest h =
    let tail = number_tail-write_unsigned n rest h in
    elim (Bool-cases n.is_negative) [
      | inl below ↦
          rw below (skip_negative-digit n.first (write_behind_first n rest) ∙ ap some tail)
      | inr above ↦ rw above (value_end-digit n.first (write_behind_first n rest) ∙ ap some tail)
    ]

value_end-write :
    (v : Value) (rest : Bytes)
    → depth v ≤ 64
    → stops_number rest ≡ true
    → value_end (write v rest) ≡ some rest
unfolding write value_end depth skip_word skip_string skip_container
value_end-write null rest fits h = refl
value_end-write (bool true) rest fits h = refl
value_end-write (bool false) rest fits h = refl
value_end-write (number n) rest fits h = value_end-write_number n rest h
value_end-write (string pieces) rest fits h = string_end-write_pieces pieces rest
value_end-write (array gap items) rest fits h =
    scan-write_gap brackets 1 gap (write_items items (b']' ∷ rest))
    ∙ scan-write_items brackets 1 items (b']' ∷ rest) (omega arith) (omega arith)
value_end-write (object gap fields) rest fits h =
    scan-write_gap braces 1 gap (write_fields fields (b'}' ∷ rest))
    ∙ scan-write_fields braces 1 fields (b'}' ∷ rest) (omega arith) (omega arith)

skip_ws-digit : (n : ℕ) (s : Bytes) → skip_ws (digit n ∷ s) ≡ digit n ∷ s
unfolding skip_ws
skip_ws-digit n s = ground arith

skip_ws-write : (v : Value) (rest : Bytes) → skip_ws (write v rest) ≡ write v rest
unfolding skip_ws write
skip_ws-write null rest = refl
skip_ws-write (bool true) rest = refl
skip_ws-write (bool false) rest = refl
skip_ws-write (number n) rest = elim (Bool-cases n.is_negative) [
  | inl below ↦ rw below refl
  | inr above ↦ rw above (skip_ws-digit n.first (write_behind_first n rest))
]
skip_ws-write (string _) rest = refl
skip_ws-write (array _ _) rest = refl
skip_ws-write (object _ _) rest = refl

skip_value-of :
    (s rest : Bytes)
    → skip_ws s ≡ s
    → value_end s ≡ some rest
    → skip_value s ≡ some (s, length s - length rest, rest)
unfolding skip_value
skip_value-of s rest start end = rw start (rw end refl)

-- Every JSON value whose arrays and objects are nested no deeper than 64, in front of a text that does not
-- go on with a number, is skipped as one value: its span is the value's text, and what is left is the
-- text behind it.
pub skip_value-write :
    (v : Value) (rest : Bytes)
    → depth v ≤ 64
    → stops_number rest ≡ true
    → skip_value (write v rest) ≡ some (write v rest, length (write v rest) - length rest, rest)
skip_value-write v rest fits h =
    skip_value-of (write v rest) rest (skip_ws-write v rest) (value_end-write v rest fits h)
