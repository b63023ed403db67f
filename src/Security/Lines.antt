-- ===== src/Security/Lines.antt =====
-- What mcptoolkit/src/security_logging.cpp makes of its arguments: one line, unless they hold line feeds.
use mcptoolkit.Prelude.{
  ℕ, zero, suc, ◌+◌, ◌%◌, ◌/◌, ◌≡◌, refl, ap, ◌∙◌, ◌↔◌, inl, inr, Bool-cases, some, [], ◌∷◌, ◌++◌,
  ◌==◌, if◌then◌else◌, back, back-append, Bytes, codes, empty, ltb, ℤ, pos, negsuc, arith,
}
use mcptoolkit.Json.Builder.{digits, to_string}
use mcptoolkit.Security.{
  SecurityEventCategory, parse_error, validation_error, dispatch_error, timed_out, session_closed,
  log_security_event, category_to_string,
}

-- The number of line feeds.
abbrev pub feeds : Bytes → ℕ
feeds [] = 0
feeds (c ∷ s) = (if c == 10 then 1 else 0) + feeds s

-- A line feed at the end, and no other.
abbrev pub IsOneLine : Bytes → Type 0
IsOneLine line = (back line ≡ some 10) × (feeds line ≡ 1)

pub feeds-append : (s t : Bytes) → feeds (s ++ t) ≡ feeds s + feeds t
feeds-append [] t = omega arith
feeds-append (c ∷ s) t = let rest = feeds-append s t in omega arith

ends-append : (s t : Bytes) → back t ≡ some 10 → back (s ++ t) ≡ some 10
ends-append s [] h = cc
ends-append s (c ∷ t) h = back-append s c t ∙ h

feeds-category : (category : SecurityEventCategory) → feeds (category_to_string category) ≡ 0
unfolding category_to_string
feeds-category parse_error = refl
feeds-category validation_error = refl
feeds-category dispatch_error = refl
feeds-category timed_out = refl
feeds-category session_closed = refl

feeds-context :
    (context : Bytes) → feeds (if empty context then [] else codes " | " ++ context) ≡ feeds context
feeds-context [] = refl
feeds-context (c ∷ context) = omega arith

pub feeds-log_security_event :
    (timestamp : Bytes) (category : SecurityEventCategory) (detail context : Bytes)
    → feeds (log_security_event timestamp category detail context)
      ≡ suc (feeds timestamp + feeds detail + feeds context)
unfolding log_security_event
feeds-log_security_event timestamp category detail context =
    let tail = if empty context then [] else codes " | " ++ context in
    let e = feeds-append tail (10 ∷ []) in
    let f = feeds-append detail (tail ++ (10 ∷ [])) in
    let g =
      feeds-append (category_to_string category) (codes " | " ++ (detail ++ (tail ++ (10 ∷ [])))) in
    let h = feeds-append timestamp (
      codes "] SECURITY | "
      ++ (category_to_string category ++ (codes " | " ++ (detail ++ (tail ++ (10 ∷ [])))))) in
    let a = feeds-category category in let b = feeds-context context in omega arith

pub log_security_event_ends :
    (timestamp : Bytes) (category : SecurityEventCategory) (detail context : Bytes)
    → back (log_security_event timestamp category detail context) ≡ some 10
unfolding log_security_event
log_security_event_ends timestamp category detail context =
    let tail = if empty context then [] else codes " | " ++ context in
    let after_detail = tail ++ (10 ∷ []) in
    let from_detail = codes " | " ++ (detail ++ after_detail) in
    let from_name = category_to_string category ++ from_detail in
    let here = ends-append detail after_detail (ends-append tail (10 ∷ []) refl) in
    let name =
      ends-append (category_to_string category) from_detail
        (ends-append (codes " | ") (detail ++ after_detail) here) in
    ends-append (codes "[") (timestamp ++ (codes "] SECURITY | " ++ from_name)) (
      ends-append timestamp (codes "] SECURITY | " ++ from_name)
        (ends-append (codes "] SECURITY | ") from_name name))

feeds-digits : (fuel n : ℕ) → feeds (digits fuel n) ≡ 0
unfolding digits
feeds-digits zero n = refl
feeds-digits (suc fuel) n =
    let rest = feeds-digits fuel (n / 10) in
    let e = feeds-append (digits fuel (n / 10)) ((48 + n % 10) ∷ []) in
    elim (Bool-cases (ltb n 10)) [
      | inl one ↦ simp one (ground arith)
      | inr more ↦ simp more (ground arith)
    ]

pub feeds-to_string : (n : ℤ) → feeds (to_string n) ≡ 0
unfolding to_string
feeds-to_string (pos n) = feeds-digits (suc n) n
feeds-to_string (negsuc n) =
    let rest = feeds-digits (suc (suc n)) (suc n) in
    feeds-append (b'-' ∷ []) (digits (suc (suc n)) (suc n)) ∙ ap (λ k. feeds (b'-' ∷ []) + k) rest

-- An event takes one line of the log exactly if neither the timestamp nor the detail nor the context
-- holds a line feed.
pub log_security_event_iff :
    (timestamp : Bytes) (category : SecurityEventCategory) (detail context : Bytes)
    → IsOneLine (log_security_event timestamp category detail context)
      ↔ ((feeds timestamp ≡ 0) × (feeds detail ≡ 0) × (feeds context ≡ 0))
log_security_event_iff timestamp category detail context =
    let count = feeds-log_security_event timestamp category detail context in
    (
      λ (_, e). (omega arith, omega arith, omega arith),
      λ (a, b, c). (log_security_event_ends timestamp category detail context, omega arith),
    )
