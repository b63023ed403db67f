-- ===== src/Sanitizer/Outcome.antt =====
-- When `sanitize` of mcptoolkit/src/response_sanitizer.cpp refuses a response, and what it lets pass.
use mcptoolkit.Prelude.{
  ◌<◌, ◌≡◌, refl, sym, ◌∙◌, ap, ◌⊎◌, inl, inr, true, false, none, some, ◌∷◌, ◌++◌, ltb,
  if◌then◌else◌, Bool-cases, length, take, Bytes, codes, not, ◌&&◌, true_not_false, arith,
}
use mcptoolkit.Json.Scan.{string_end, quote}
use mcptoolkit.Json.Builder.{escape_all}
use mcptoolkit.Json.Builder.Escape.{string_end-escape_all}
use mcptoolkit.Json.Builder.Unescape.{unescape, plain, unescape-escape_all}
use mcptoolkit.Validation.Patterns.{HasPattern, contains_one_of_iff}
use mcptoolkit.Validation.{contains_one_of}
use mcptoolkit.Sanitizer.{
  SanitizeConfig, injection_patterns, lower_all, contains_injection_patterns, redact_paths,
  Sanitized, unsafe, clean_up, screen, truncation_mark, sanitize,
}
use mcptoolkit.Sanitizer.Escaping.{escape_control_characters-eq-escape_all}
use mcptoolkit.Sanitizer.Redaction.{HasPath, redact_paths-no_path}

-- The response as far as it is kept: cut at the limit, and marked, if it is longer.
abbrev pub kept : SanitizeConfig → Bytes → Bytes
kept config response =
    if ltb config.max_response_size (length response)
    then take config.max_response_size response ++ truncation_mark
    else response

-- Too long where that is not cut, or with a suspicious pattern, in whatever case it is written.
abbrev pub IsRefused : SanitizeConfig → Bytes → Type 0
IsRefused config response =
    ((config.truncate_on_size_exceeded ≡ false) × (config.max_response_size < length response))
    ⊎ HasPattern injection_patterns (lower_all (kept config response))

abbrev pub passed : Bytes → Sanitized
passed response = record { response = response; error_msg = none }

clean_up-escape_all :
    (config : SanitizeConfig) (text : Bytes)
    → config.redacts_paths ≡ true
    → config.escapes_control_chars ≡ true
    → clean_up config text ≡ escape_all (redact_paths text)
unfolding clean_up
clean_up-escape_all config text redact escape =
    simp (redact, escape) (escape_control_characters-eq-escape_all (redact_paths text))

screen_cases :
    (config : SanitizeConfig) (text : Bytes)
    → (HasPattern injection_patterns (lower_all text)
        × (error : Bytes) × (screen config text ≡ unsafe error))
      ⊎ ((¬ HasPattern injection_patterns (lower_all text))
          × (screen config text ≡ passed (clean_up config text)))
unfolding screen contains_injection_patterns
screen_cases config text =
    let (to, from) = contains_one_of_iff injection_patterns (lower_all text) in
    elim (Bool-cases (contains_one_of injection_patterns (lower_all text))) [
      | inl hit ↦
          inl (to hit, codes "Tool response contains suspicious patterns", rw (hit, screen) refl)
      | inr miss ↦ inr (λ found. true_not_false (sym (from found) ∙ miss), rw (miss, screen) refl)
    ]

sanitize-kept :
    (config : SanitizeConfig) (response : Bytes)
    → ¬ ((config.truncate_on_size_exceeded ≡ false) × (config.max_response_size < length response))
    → sanitize config response ≡ screen config (kept config response)
unfolding sanitize
sanitize-kept config response h =
    elim (Bool-cases (ltb config.max_response_size (length response))) [
      | inr fits ↦ rw (fits, sanitize) refl
      | inl long ↦ elim (Bool-cases config.truncate_on_size_exceeded) [
        | inl cut ↦ simp (long, cut)
        | inr whole ↦ absurd (h (whole, ground arith))
      ]
    ]

sanitize-too_long :
    (config : SanitizeConfig) (response : Bytes)
    → config.truncate_on_size_exceeded ≡ false
    → config.max_response_size < length response
    → (error : Bytes) × (sanitize config response ≡ unsafe error)
unfolding sanitize
sanitize-too_long config response whole long =
    let over : ltb config.max_response_size (length response) ≡ true = ground arith in
    (codes "Tool response exceeds maximum size", simp (over, whole))

-- `sanitize` refuses exactly a response that is too long where it is not to be cut, or that has, as far
-- as it is kept, one of the patterns in whatever case: the result is then empty and an error is set. Of
-- any other response the kept part comes back, redacted and escaped as configured, without an error.
pub sanitize_cases :
    (config : SanitizeConfig) (response : Bytes)
    → (IsRefused config response × (error : Bytes) × (sanitize config response ≡ unsafe error))
      ⊎ ((¬ IsRefused config response)
          × (sanitize config response ≡ passed (clean_up config (kept config response))))
sanitize_cases config response =
    elim (Bool-cases
      (not config.truncate_on_size_exceeded && ltb config.max_response_size (length response))) [
        | inl over ↦
            let whole : config.truncate_on_size_exceeded ≡ false = ground arith in
            let long : config.max_response_size < length response = ground arith in
            let (error, e) = sanitize-too_long config response whole long in
            inl (inl (whole, long), error, e)
        | inr fine ↦
            let not_over : ¬ (
                (config.truncate_on_size_exceeded ≡ false)
                × (config.max_response_size < length response)) =
              λ h. let (whole, long) = h in ground arith in
            let same = sanitize-kept config response not_over in
            elim (screen_cases config (kept config response)) [
              | inl (found, error, e) ↦ inl (inr found, error, same ∙ e)
              | inr (clear, e) ↦
                  inr (λ r. elim r [ inl over ↦ not_over over | inr found ↦ clear found ], same ∙ e)
            ]
      ]

-- With both clean-ups on, a response that passes can stand between quotes in JSON, where it is read as
-- `redact_paths` of the kept part, and in that text no slash that stands at the start or behind white
-- space is followed by another slash before the next space. No more is said of paths: one behind another
-- byte, one with a single slash and one with backslashes stay as they are.
pub sanitize-unescape :
    (config : SanitizeConfig) (response rest : Bytes)
    → config.redacts_paths ≡ true
    → config.escapes_control_chars ≡ true
    → (sanitize config response).error_msg ≡ none
    → (string_end false ((sanitize config response).response ++ quote ∷ rest) ≡ some rest)
      × (unescape plain (sanitize config response).response
          ≡ some (redact_paths (kept config response)))
      × (¬ HasPath (redact_paths (kept config response)))
sanitize-unescape config response rest redact escape ok = elim (sanitize_cases config response) [
  | inl (_, error, e) ↦ absurd cc
  | inr (_, e) ↦
      let shown = redact_paths (kept config response) in
      let text : (sanitize config response).response ≡ escape_all shown =
        ap (λ r. r.response) e ∙ clean_up-escape_all config (kept config response) redact escape in
      (
        rw text (string_end-escape_all shown rest),
        rw text (unescape-escape_all shown),
        redact_paths-no_path (kept config response),
      )
]
