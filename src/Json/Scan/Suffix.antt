-- ===== src/Json/Scan/Suffix.antt =====
-- What is left behind a token is a suffix of the input, and each token that is read takes a byte.
use mathlib.Core.Path.{ap, subst}
use mcptoolkit.Prelude.{
  ℕ, suc, ◌+◌, ◌-◌, ◌≤◌, ◌<◌, ◌≡◌, refl, Bool, true, false, Option, some, inl, inr, [], ◌∷◌, ◌==◌,
  Bool-cases, length, Bytes, is_prefix, ℤ, negate, arith, IsSuffix, IsSuffix-refl, IsSuffix-cons,
  IsSuffix-trans, IsSuffix-drop, IsSuffix-length, if◌then◌else◌, pos_part, neg_part, ltb, ◌*◌,
  map-eq-some, codes, ◌||◌, ◌⊎◌, if-eq-some, some-eq-some, IsSuffix-some,
}
use mcptoolkit.Json.Scan.{
  is_space, is_digit, quote, backslash, skip_ws, string_end, skip_string, Place, Turn, gone, closed,
  going, container_turn, container_end, skip_container, skip_word, skip_digits, skip_fraction,
  skip_sign, skip_exponent, number_tail, skip_negative, value_end, skip_value, open_string,
  parse_string, int_digits, unsigned_int, signed_int, parse_int,
}

pub skip_ws-IsSuffix : (s : Bytes) → IsSuffix (skip_ws s) s
unfolding skip_ws
skip_ws-IsSuffix [] = IsSuffix-refl []
skip_ws-IsSuffix (c ∷ s) = elim (Bool-cases (is_space c)) [
  | inl space ↦ rw space (IsSuffix-cons c (skip_ws-IsSuffix s))
  | inr other ↦ rw other (IsSuffix-refl (c ∷ s))
]

pub string_end-IsSuffix :
    (escaped : Bool) (s : Bytes) {r : Bytes} → string_end escaped s ≡ some r → IsSuffix r s
unfolding string_end
string_end-IsSuffix escaped [] h = cc
string_end-IsSuffix true (c ∷ s) h = IsSuffix-cons c (string_end-IsSuffix false s h)
string_end-IsSuffix false (c ∷ s) h = elim (Bool-cases (c == quote)) [
  | inl close ↦ (c ∷ [], ground arith)
  | inr other ↦
      IsSuffix-cons c (string_end-IsSuffix (c == backslash) s (rw (other, string_end) at h))
]

pub string_end-lt :
    (escaped : Bool) (s : Bytes) {r : Bytes} → string_end escaped s ≡ some r → length r < length s
unfolding string_end
string_end-lt escaped [] h = cc
string_end-lt true (c ∷ s) h = omega (arith, string_end-lt false s h)
string_end-lt false (c ∷ s) h = elim (Bool-cases (c == quote)) [
  | inl close ↦ ground arith
  | inr other ↦ omega (arith, string_end-lt (c == backslash) s (rw (other, string_end) at h))
]

pub skip_string-IsSuffix : (s : Bytes) {r : Bytes} → skip_string s ≡ some r → IsSuffix r s
unfolding skip_string
skip_string-IsSuffix [] h = cc
skip_string-IsSuffix (c ∷ s) h =
    IsSuffix-cons c (string_end-IsSuffix false s (if-eq-some (c == quote) h).1)

pub Turn-cases :
    (t : Turn)
    → (t ≡ gone) ⊎ ((t ≡ closed) ⊎ ((place : Place) × (depth : ℕ) × (t ≡ going place depth)))
Turn-cases gone = inl refl
Turn-cases closed = inr (inl refl)
Turn-cases (going place depth) = inr (inr (place, depth, refl))

container_end-IsSuffix :
    (open_byte close_byte : ℕ) (place : Place) (depth : ℕ) (s : Bytes) {r : Bytes}
    → container_end open_byte close_byte place depth s ≡ some r
    → IsSuffix r s
unfolding container_end
container_end-IsSuffix o e place depth [] h = cc
container_end-IsSuffix o e place depth (c ∷ s) h =
    elim (Turn-cases (container_turn o e place depth c)) [
      | inl q ↦ cc (rw (q, container_end) at h)
      | inr (inl q) ↦ (c ∷ [], ap (◌∷◌ c) (some-eq-some (rw (q, container_end) at h)))
      | inr (inr (place', depth', q)) ↦
          IsSuffix-cons c (container_end-IsSuffix o e place' depth' s (rw (q, container_end) at h))
    ]

skip_container-IsSuffix :
    (open_byte close_byte : ℕ) (s : Bytes) {r : Bytes}
    → skip_container open_byte close_byte s ≡ some r
    → IsSuffix r s
unfolding skip_container
skip_container-IsSuffix o e [] h = cc
skip_container-IsSuffix o e (c ∷ s) h =
    IsSuffix-cons c (container_end-IsSuffix o e Place.outside 1 s (if-eq-some (c == o) h).1)

skip_word-IsSuffix : (word s : Bytes) {r : Bytes} → skip_word word s ≡ some r → IsSuffix r s
unfolding skip_word
skip_word-IsSuffix word s h =
    IsSuffix-some (IsSuffix-drop (length word) s) (if-eq-some (is_prefix word s) h).1

skip_digits-IsSuffix : (s : Bytes) → IsSuffix (skip_digits s) s
unfolding skip_digits
skip_digits-IsSuffix [] = IsSuffix-refl []
skip_digits-IsSuffix (c ∷ s) = elim (Bool-cases (is_digit c)) [
  | inl digit ↦ rw digit (IsSuffix-cons c (skip_digits-IsSuffix s))
  | inr other ↦ rw other (IsSuffix-refl (c ∷ s))
]

skip_fraction-IsSuffix : (s : Bytes) → IsSuffix (skip_fraction s) s
unfolding skip_fraction
skip_fraction-IsSuffix [] = IsSuffix-refl []
skip_fraction-IsSuffix (c ∷ s) = elim (Bool-cases (c == b'.')) [
  | inl dot ↦ rw dot (IsSuffix-cons c (skip_digits-IsSuffix s))
  | inr other ↦ rw other (IsSuffix-refl (c ∷ s))
]

skip_sign-IsSuffix : (s : Bytes) → IsSuffix (skip_sign s) s
unfolding skip_sign
skip_sign-IsSuffix [] = IsSuffix-refl []
skip_sign-IsSuffix (c ∷ s) = elim (Bool-cases (c == b'+' || c == b'-')) [
  | inl sign ↦ rw sign (IsSuffix-cons c (IsSuffix-refl s))
  | inr other ↦ rw other (IsSuffix-refl (c ∷ s))
]

skip_exponent-IsSuffix : (s : Bytes) → IsSuffix (skip_exponent s) s
unfolding skip_exponent
skip_exponent-IsSuffix [] = IsSuffix-refl []
skip_exponent-IsSuffix (c ∷ s) = elim (Bool-cases (c == b'e' || c == b'E')) [
  | inl mark ↦
      rw mark (
        IsSuffix-cons c
          (IsSuffix-trans (skip_digits-IsSuffix (skip_sign s)) (skip_sign-IsSuffix s)))
  | inr other ↦ rw other (IsSuffix-refl (c ∷ s))
]

number_tail-IsSuffix : (s : Bytes) → IsSuffix (number_tail s) s
unfolding number_tail
number_tail-IsSuffix s =
    IsSuffix-trans (skip_exponent-IsSuffix (skip_fraction (skip_digits s)))
      (IsSuffix-trans (skip_fraction-IsSuffix (skip_digits s)) (skip_digits-IsSuffix s))

skip_negative-IsSuffix : (s : Bytes) {r : Bytes} → skip_negative s ≡ some r → IsSuffix r s
unfolding skip_negative
skip_negative-IsSuffix [] h = cc
skip_negative-IsSuffix (c ∷ s) h =
    IsSuffix-some (number_tail-IsSuffix (c ∷ s)) (if-eq-some (is_digit c) h).1

-- The results of a reader of `s`, on every branch of a test.
abbrev Leads : Bytes → Option Bytes → Type 0
Leads s o = (r : Bytes) → o ≡ some r → IsSuffix r s

if-Leads :
    (b : Bool) (s : Bytes) {x y : Option Bytes}
    → Leads s x
    → Leads s y
    → Leads s (if b then x else y)
if-Leads true s f g = f
if-Leads false s f g = g

value_end-Leads : (c : ℕ) (s : Bytes) → Leads (c ∷ s) (value_end (c ∷ s))
unfolding value_end
value_end-Leads c s =
    if-Leads (c == quote) _ (λ r. skip_string-IsSuffix (c ∷ s))
      (if-Leads (c == b'{') _ (λ r. skip_container-IsSuffix b'{' b'}' (c ∷ s))
        (if-Leads (c == b'[') _ (λ r. skip_container-IsSuffix b'[' b']' (c ∷ s))
          (if-Leads (c == b't') _ (λ r. skip_word-IsSuffix (codes "true") (c ∷ s))
            (if-Leads (c == b'f') _ (λ r. skip_word-IsSuffix (codes "false") (c ∷ s))
              (if-Leads (c == b'n') _ (λ r. skip_word-IsSuffix (codes "null") (c ∷ s))
                (if-Leads (c == b'-') _ (λ r h. IsSuffix-cons c (skip_negative-IsSuffix s h))
                  (if-Leads (is_digit c) _ (λ r. IsSuffix-some (number_tail-IsSuffix (c ∷ s)))
                    (λ r h. cc))))))))

pub value_end-IsSuffix : (s : Bytes) {r : Bytes} → value_end s ≡ some r → IsSuffix r s
unfolding value_end
value_end-IsSuffix [] h = cc
value_end-IsSuffix (c ∷ s) {r} h = value_end-Leads c s r h

-- What a reader of a span gives: where the span starts, its length, and what follows it.
pub record IsSpan (s start : Bytes) (len : ℕ) (rest : Bytes) : Type 0 where
  pub starts : IsSuffix start s
  pub rests : IsSuffix rest start
  pub fits : len + length rest ≤ length start

pub skip_value-IsSpan :
    (s : Bytes) {start rest : Bytes} {len : ℕ}
    → skip_value s ≡ some (start, len, rest)
    → IsSpan s start len rest
unfolding skip_value
skip_value-IsSpan s h =
    let (r, e, q) = map-eq-some _ (value_end (skip_ws s)) h in
    let tail = value_end-IsSuffix (skip_ws s) e in
    subst (λ t. IsSpan s t.0 t.1 t.2) q
      (record {
        starts = skip_ws-IsSuffix s;
        rests = tail;
        fits = omega (arith, IsSuffix-length tail);
      })

open_string-start :
    (s : Bytes) {start : Bytes} → (open_string s).start ≡ some start → IsSuffix start s
unfolding open_string
open_string-start [] h = cc
open_string-start (c ∷ s) h = elim (Bool-cases (c == quote)) [
  | inl opening ↦ IsSuffix-cons c (IsSuffix-some (IsSuffix-refl s) (rw opening at h))
  | inr other ↦ cc (rw other at h)
]

-- The start of a string token lies in the input, also where the string is not closed.
pub parse_string-start :
    (s : Bytes) {start : Bytes} → (parse_string s).start ≡ some start → IsSuffix start s
unfolding parse_string
parse_string-start s h = IsSuffix-trans (open_string-start (skip_ws s) h) (skip_ws-IsSuffix s)

open_string-rest :
    (s : Bytes) {start rest : Bytes} {len : ℕ}
    → (open_string s).start ≡ some start
    → (open_string s).end ≡ some (len, rest)
    → IsSuffix rest start × (len + length rest < length start)
unfolding open_string
open_string-rest [] h k = cc
open_string-rest (c ∷ s) h k = elim (Bool-cases (c == quote)) [
  | inl opening ↦
      let (r, e, q) = map-eq-some _ (string_end false s) (rw opening at k) in
      let same = some-eq-some (rw opening at h) in
      let short = string_end-lt false s e in
      rw (← same) (
        subst (λ t. IsSuffix t.1 s × (t.0 + length t.1 < length s)) q
          (string_end-IsSuffix false s e, omega arith))
  | inr other ↦ cc (rw other at h)
]

pub parse_string-IsSpan :
    (s : Bytes) {start rest : Bytes} {len : ℕ}
    → (parse_string s).start ≡ some start
    → (parse_string s).end ≡ some (len, rest)
    → IsSpan s start len rest
unfolding parse_string
parse_string-IsSpan s h k =
    let tail = open_string-rest (skip_ws s) h k in
    record { starts = parse_string-start s h; rests = tail.0; fits = omega (arith, tail.1) }

-- The digits read make an `int`.
int_digits-IsSuffix :
    (value : ℕ) (s : Bytes) {n : ℕ} {r : Bytes}
    → int_digits value s ≡ some (n, r)
    → value ≤ 2147483647
    → IsSuffix r s × (n ≤ 2147483647)
unfolding int_digits
int_digits-IsSuffix value [] h v = (([], ground arith), ground arith)
int_digits-IsSuffix value (c ∷ s) h v = elim (Bool-cases (is_digit c)) [
  | inl digit ↦ elim (Bool-cases (ltb 2147483647 (value * 10 + (c - b'0')))) [
    | inl over ↦ cc (rw (digit, over, int_digits) at h)
    | inr fine ↦
        let later =
          int_digits-IsSuffix (value * 10 + (c - b'0')) s (rw (digit, fine, int_digits) at h)
            (ground arith) in
        (IsSuffix-cons c later.0, later.1)
  ]
  | inr other ↦
      subst (λ t. IsSuffix t.1 (c ∷ s) × (t.0 ≤ 2147483647))
        (some-eq-some (rw (other, int_digits) at h)) (IsSuffix-refl (c ∷ s), v)
]

unsigned_int-IsSuffix :
    (s : Bytes) {n : ℕ} {r : Bytes} → unsigned_int s ≡ some (n, r) → IsSuffix r s × (n ≤ 2147483647)
unfolding unsigned_int
unsigned_int-IsSuffix [] h = cc
unsigned_int-IsSuffix (c ∷ s) h =
    int_digits-IsSuffix 0 (c ∷ s) (if-eq-some (is_digit c) h).1 (omega arith)

-- The values of an `int` whose negative fits too: `parse_int` gives no other.
abbrev pub IsInt : ℤ → Type 0
IsInt n = (pos_part n ≤ 2147483647) × (neg_part n ≤ 2147483647)

negate-IsInt : (n : ℕ) → n ≤ 2147483647 → IsInt (negate n)
negate-IsInt ℕ.zero h = omega arith
negate-IsInt (suc n) h = omega arith

signed_int-IsSuffix :
    (s : Bytes) {n : ℤ} {r : Bytes} → signed_int s ≡ some (n, r) → IsSuffix r s × IsInt n
unfolding signed_int
signed_int-IsSuffix [] h = cc
signed_int-IsSuffix (c ∷ s) {n} {r} h = elim (Bool-cases (c == b'-')) [
  | inl minus ↦
      let ((m, t), e, q) = map-eq-some _ (unsigned_int s) (rw minus at h) in
      let (tail, small) = unsigned_int-IsSuffix s e in
      subst (λ u. IsSuffix u.1 (c ∷ s) × IsInt u.0) q (IsSuffix-cons c tail, negate-IsInt m small)
  | inr other ↦
      let ((m, t), e, q) = map-eq-some _ (unsigned_int (c ∷ s)) (rw other at h) in
      let (tail, small) = unsigned_int-IsSuffix (c ∷ s) e in
      subst (λ u. IsSuffix u.1 (c ∷ s) × IsInt u.0) q (tail, (small, omega arith))
]

pub parse_int-IsSuffix :
    (s : Bytes) {n : ℤ} {r : Bytes} → parse_int s ≡ some (n, r) → IsSuffix r s × IsInt n
unfolding parse_int
parse_int-IsSuffix s h =
    let (tail, int) = signed_int-IsSuffix (skip_ws s) h in
    (IsSuffix-trans tail (skip_ws-IsSuffix s), int)
