-- ===== src/Sanitizer.antt =====
-- `ResponseSanitizer`: mcptoolkit/include/response_sanitizer.h and
-- mcptoolkit/src/response_sanitizer.cpp. `isspace` and `tolower` are those of the C locale.
pub mod Escaping
pub mod Redaction
pub mod Outcome
use mcptoolkit.Prelude.{
  ℕ, suc, ◌+◌, ◌*◌, ◌/◌, ◌%◌, Bool, true, false, ◌&&◌, Option, none, some, List, [], ◌∷◌, ◌++◌, ltb,
  leb, ◌==◌, if◌then◌else◌, length, take, Bytes, codes,
}
use mcptoolkit.Json.Scan.{is_space}
use mcptoolkit.Json.Builder.{hex_digit}
use mcptoolkit.Validation.{contains_one_of}

pub record SanitizeConfig : Type 0 where
  pub max_response_size : ℕ
  pub truncate_on_size_exceeded : Bool
  pub redacts_paths : Bool
  pub escapes_control_chars : Bool

-- The defaults of the struct.
abbrev pub default_sanitizing : SanitizeConfig
default_sanitizing = record {
  max_response_size = 1024 * 1024;
  truncate_on_size_exceeded = true;
  redacts_paths = true;
  escapes_control_chars = true;
}

abbrev pub injection_patterns : List Bytes
injection_patterns =
    codes "ignore previous"
    ∷ codes "forget about"
    ∷ codes "disregard"
    ∷ codes "override"
    ∷ codes "bypass"
    ∷ codes "instead do this"
    ∷ codes "now you are"
    ∷ codes "you are now"
    ∷ []

-- `std::tolower`
unfoldable pub to_lower : ℕ → ℕ
to_lower c = if leb 65 c && leb c 90 then c + 32 else c

-- The `std::transform` of `contains_injection_patterns`.
unfoldable pub lower_all : Bytes → Bytes
unfolding to_lower
lower_all [] = []
lower_all (c ∷ s) = to_lower c ∷ lower_all s

unfoldable pub contains_injection_patterns : Bytes → Bool
contains_injection_patterns response = contains_one_of injection_patterns (lower_all response)

-- The slashes up to the next space or the end: `std::count` over the path that starts here.
unfoldable pub slash_count : Bytes → ℕ
slash_count [] = 0
slash_count (c ∷ s) = elim (c == 32) [
  | true ↦ 0
  | false ↦ let rest = slash_count s in if c == b'/' then suc rest else rest
]

-- `pos == 0 || std::isspace(result[pos - 1])`, for the byte in front of `pos`, if any.
unfoldable pub starts_path : Option ℕ → Bool
unfolding is_space
starts_path none = true
starts_path (some c) = is_space c

-- The slash at `pos` begins a path that is replaced.
unfoldable pub is_path : Option ℕ → ℕ → Bytes → Bool
unfolding starts_path slash_count
is_path before c s = c == b'/' && (starts_path before && leb 2 (slash_count (c ∷ s)))

abbrev pub redacted : Bytes
redacted = codes "/[PATH]"

-- The loop of `redact_paths` at the suffix that starts at `pos`, with the byte in front of it. Behind a
-- path that is replaced (`skipping`), the path's own bytes are dropped up to the next space.
unfoldable pub redact_from : Bool → Option ℕ → Bytes → Bytes
redact_from skipping before [] = []
redact_from true before (c ∷ s) = elim (c == 32) [
  | true ↦ c ∷ redact_from false (some c) s
  | false ↦ redact_from true before s
]
redact_from false before (c ∷ s) = elim (is_path before c s) [
  | true ↦ redacted ++ redact_from true (some b']') s
  | false ↦ c ∷ redact_from false (some c) s
]

unfoldable pub redact_paths : Bytes → Bytes
unfolding redact_from
redact_paths text = redact_from false none text

-- One round of the loop of `escape_control_characters`.
unfoldable pub escape_control : ℕ → Bytes
unfolding hex_digit
escape_control c =
    if c == 10
    then 92 ∷ b'n' ∷ []
    else if c == 13
    then 92 ∷ b'r' ∷ []
    else if c == 9
    then 92 ∷ b't' ∷ []
    else if c == 8
    then 92 ∷ b'b' ∷ []
    else if c == 12
    then 92 ∷ b'f' ∷ []
    else if c == 34
    then 92 ∷ 34 ∷ []
    else if c == 92
    then 92 ∷ 92 ∷ []
    else if ltb c 32
    then 92 ∷ b'u' ∷ 48 ∷ 48 ∷ hex_digit (c / 16) ∷ hex_digit (c % 16) ∷ []
    else c ∷ []

unfoldable pub escape_control_characters : Bytes → Bytes
unfolding escape_control
escape_control_characters [] = []
escape_control_characters (c ∷ text) = escape_control c ++ escape_control_characters text

-- The response, and the text in `error_msg` where that is set.
pub record Sanitized : Type 0 where
  pub response : Bytes
  pub error_msg : Option Bytes

abbrev pub unsafe : Bytes → Sanitized
unsafe error = record { response = []; error_msg = some error }

-- The steps 3 and 4.
unfoldable pub clean_up : SanitizeConfig → Bytes → Bytes
clean_up config text =
    let shown = if config.redacts_paths then redact_paths text else text in
    if config.escapes_control_chars then escape_control_characters shown else shown

-- The steps 2 to 4.
unfoldable pub screen : SanitizeConfig → Bytes → Sanitized
screen config text =
    if contains_injection_patterns text
    then unsafe (codes "Tool response contains suspicious patterns")
    else record { response = clean_up config text; error_msg = none }

abbrev pub truncation_mark : Bytes
truncation_mark = 10 ∷ codes "[OUTPUT TRUNCATED]"

unfoldable pub sanitize : SanitizeConfig → Bytes → Sanitized
sanitize config response =
    if ltb config.max_response_size (length response)
    then (if config.truncate_on_size_exceeded
        then screen config (take config.max_response_size response ++ truncation_mark)
        else unsafe (codes "Tool response exceeds maximum size"))
    else screen config response
