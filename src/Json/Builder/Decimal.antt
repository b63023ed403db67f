-- ===== src/Json/Builder/Decimal.antt =====
-- The parser reads back the numbers that the builder writes.
use mathlib.Core.Option
use mcptoolkit.Prelude.{
  ap, sym, ℕ, zero, suc, ◌+◌, ◌*◌, ◌-◌, ◌/◌, ◌%◌, ◌<◌, ◌≤◌, ◌≡◌, refl, ◌∙◌, true, false, some, [],
  ◌∷◌, ◌++◌, append_assoc, ltb, ◌==◌, Bool-cases, Bytes, arith, inl, inr, ℤ, pos, negsuc,
}
use mcptoolkit.Json.Builder.{digits, to_string}
use mcptoolkit.Json.Scan.{is_digit, skip_ws, parse_int, int_digits, unsigned_int, signed_int}
use mcptoolkit.Json.Scan.Suffix.{IsInt}

is_digit_lem : (d : ℕ) → d < 10 → is_digit (48 + d) ≡ true
unfolding is_digit
is_digit_lem d h = ground arith

int_digits-digit :
    (value d next : ℕ) (rest : Bytes)
    → d < 10
    → value * 10 + d ≡ next
    → next ≤ 2147483647
    → int_digits value ((48 + d) ∷ rest) ≡ int_digits next rest
unfolding int_digits
int_digits-digit value d next rest h e k =
    let fits : ltb 2147483647 (value * 10 + (48 + d - 48)) ≡ false = ground arith in
    let same : value * 10 + (48 + d - 48) ≡ next = omega arith in
    rw (is_digit_lem d h, int_digits) (rw fits (rw same refl))

int_digits-digits :
    (fuel n : ℕ) (rest : Bytes)
    → n < fuel
    → n ≤ 2147483647
    → int_digits 0 (digits fuel n ++ rest) ≡ int_digits n rest
unfolding digits
int_digits-digits zero n rest h k = absurd (omega arith)
int_digits-digits (suc fuel) n rest h k = elim (Bool-cases (ltb n 10)) [
  | inl small ↦ rw small (int_digits-digit 0 n n rest (ground arith) (omega arith) k)
  | inr large ↦
      rw (large, append_assoc)
        (int_digits-digits fuel (n / 10) ((48 + n % 10) ∷ rest) (ground arith) (omega arith)
          ∙ int_digits-digit (n / 10) (n % 10) n rest (omega arith) (omega arith) k)
]

-- The byte behind a number ends it.
abbrev pub Ends : Bytes → Type 0
Ends [] = Unit {0}
Ends (c ∷ s) = is_digit c ≡ false

int_digits-Ends :
    (value : ℕ) (rest : Bytes) → Ends rest → int_digits value rest ≡ some (value, rest)
unfolding int_digits
int_digits-Ends value [] h = refl
int_digits-Ends value (c ∷ s) h = rw (h, int_digits)

-- `digits` starts with a digit.
digits-front :
    (fuel n : ℕ)
    → n < fuel
    → (d : ℕ) × (front : Bytes) × (digits fuel n ≡ (48 + d) ∷ front) × (d < 10)
unfolding digits
digits-front zero n h = absurd (omega arith)
digits-front (suc fuel) n h = elim (Bool-cases (ltb n 10)) [
  | inl small ↦ (n, [], rw small, ground arith)
  | inr large ↦
      let (d, front, e, k) = digits-front fuel (n / 10) (ground arith) in
      (d, front ++ (48 + n % 10) ∷ [], rw (large, e), k)
]

unsigned_int-digit :
    (d : ℕ) (s : Bytes) → d < 10 → unsigned_int ((48 + d) ∷ s) ≡ int_digits 0 ((48 + d) ∷ s)
unfolding unsigned_int
unsigned_int-digit d s h = rw (is_digit_lem d h)

unsigned_int-digits :
    (fuel n : ℕ) (rest : Bytes)
    → n < fuel
    → n ≤ 2147483647
    → Ends rest
    → unsigned_int (digits fuel n ++ rest) ≡ some (n, rest)
unsigned_int-digits fuel n rest h k e =
    let (d, front, q, small) = digits-front fuel n h in
    ap (λ s. unsigned_int (s ++ rest)) q
    ∙ unsigned_int-digit d (front ++ rest) small
    ∙ ap (λ s. int_digits 0 (s ++ rest)) (sym q)
    ∙ int_digits-digits fuel n rest h k
    ∙ int_digits-Ends n rest e

signed_int-digit :
    (d : ℕ) (s : Bytes)
    → d < 10
    → signed_int ((48 + d) ∷ s) ≡ Option.map (λ (m, r). (pos m, r)) (unsigned_int ((48 + d) ∷ s))
unfolding signed_int
signed_int-digit d s h = let no_sign : (48 + d == b'-') ≡ false = ground arith in rw no_sign

digits-back :
    (fuel n : ℕ)
    → n < fuel
    → (front : Bytes) × (d : ℕ) × (digits fuel n ≡ front ++ (48 + d) ∷ []) × (d < 10)
unfolding digits
digits-back zero n h = absurd (omega arith)
digits-back (suc fuel) n h = elim (Bool-cases (ltb n 10)) [
  | inl small ↦ ([], n, rw small, ground arith)
  | inr large ↦ (digits fuel (n / 10), n % 10, rw large, omega arith)
]

skip_ws-digit : (d : ℕ) (s : Bytes) → d < 10 → skip_ws ((48 + d) ∷ s) ≡ (48 + d) ∷ s
unfolding skip_ws
skip_ws-digit d s h = ground arith

skip_ws-to_string : (n : ℤ) (rest : Bytes) → skip_ws (to_string n ++ rest) ≡ to_string n ++ rest
unfolding to_string
skip_ws-to_string (pos n) rest =
    let (d, front, q, small) = digits-front (suc n) n (omega arith) in
    rw q (skip_ws-digit d (front ++ rest) small)
skip_ws-to_string (negsuc n) rest = unfold skip_ws in refl

-- The same behind the leading whitespace.
signed_int-to_string :
    (n : ℤ) (rest : Bytes) → IsInt n → Ends rest → signed_int (to_string n ++ rest) ≡ some (n, rest)
unfolding signed_int to_string
signed_int-to_string (negsuc n) rest h e =
    rw (unsigned_int-digits (suc (suc n)) (suc n) rest (omega arith) (omega arith) e)
signed_int-to_string (pos n) rest h e =
    let (d, front, q, small) = digits-front (suc n) n (omega arith) in
    ap (λ s. signed_int (s ++ rest)) q
    ∙ signed_int-digit d (front ++ rest) small
    ∙ ap (λ s. Option.map (λ (m, r). (pos m, r)) (unsigned_int (s ++ rest))) (sym q)
    ∙ ap (Option.map (λ (m, r). (pos m, r)))
        (unsigned_int-digits (suc n) n rest (omega arith) (omega arith) e)

-- What `std::to_string` writes of an `int` other than `INT_MIN`, `parse_int` reads back, where the text
-- goes on with a byte that is no digit or ends.
pub parse_int-to_string :
    (n : ℤ) (rest : Bytes) → IsInt n → Ends rest → parse_int (to_string n ++ rest) ≡ some (n, rest)
unfolding parse_int
parse_int-to_string n rest h e =
    ap signed_int (skip_ws-to_string n rest) ∙ signed_int-to_string n rest h e

-- The last byte of a number is a digit.
pub to_string-back :
    (n : ℤ) → (front : Bytes) × (d : ℕ) × (to_string n ≡ front ++ (48 + d) ∷ []) × (d < 10)
unfolding to_string
to_string-back (pos n) = digits-back (suc n) n (omega arith)
to_string-back (negsuc n) =
    let (front, d, e, h) = digits-back (suc (suc n)) (suc n) (omega arith) in
    (b'-' ∷ front, d, ap (◌∷◌ b'-') e, h)
