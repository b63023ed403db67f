-- ===== src/Validation.antt =====
-- `InputValidationHandler`: mcptoolkit/include/input_validation.h and mcptoolkit/src/input_validation.cpp.
-- The regular expressions of the standard library are a parameter of the functions that use them.
pub mod Shell
pub mod Rules
pub mod Patterns
use mcptoolkit.Prelude.{
  ℕ, Bool, true, false, ◌&&◌, ◌||◌, not, Option, none, some, List, [], ◌∷◌, ◌++◌, ◌==◌,
  if◌then◌else◌, Bytes, codes, beq, empty, contains, contains_any,
}
use mcptoolkit.Prelude.Dict.{Dict, lookup, insert}
use mcptoolkit.Auth.{member}

-- ";|&$()` \n\r"
abbrev pub metacharacters : Bytes
metacharacters = codes ";|&$()` \n\r"

unfoldable pub contains_shell_metacharacters : Bytes → Bool
contains_shell_metacharacters value = contains_any metacharacters value

unfoldable pub contains_path_traversal : Bytes → Bool
contains_path_traversal value =
    if contains (codes "..") value then true else contains (codes "~/") value

-- The loop over a table of patterns.
unfoldable pub contains_one_of : List Bytes → Bytes → Bool
contains_one_of [] value = false
contains_one_of (pattern ∷ patterns) value =
    if contains pattern value then true else contains_one_of patterns value

abbrev pub encoded_patterns : List Bytes
encoded_patterns =
    codes "%3b"
    ∷ codes "%3B"
    ∷ codes "%7c"
    ∷ codes "%7C"
    ∷ codes "%26"
    ∷ codes "%24"
    ∷ codes "%28"
    ∷ codes "%29"
    ∷ codes "%60"
    ∷ codes "%3c"
    ∷ codes "%3C"
    ∷ codes "%3e"
    ∷ codes "%3E"
    ∷ codes "%0a"
    ∷ codes "%0A"
    ∷ codes "%0d"
    ∷ codes "%0D"
    ∷ []

unfoldable pub contains_encoded_metacharacters : Bytes → Bool
contains_encoded_metacharacters value = contains_one_of encoded_patterns value

-- The loop of `escape_shell_argument`: a single quote becomes '\''.
unfoldable pub escape_quotes : Bytes → Bytes
escape_quotes [] = []
escape_quotes (c ∷ arg) = (if c == 39 then 39 ∷ 92 ∷ 39 ∷ 39 ∷ [] else c ∷ []) ++ escape_quotes arg

unfoldable pub escape_shell_argument : Bytes → Bytes
unfolding escape_quotes
escape_shell_argument arg = 39 ∷ (escape_quotes arg ++ (39 ∷ []))

pub record ArgumentValidationRule : Type 0 where
  pub arg_name : Bytes
  pub pattern : Bytes
  pub allow_shell_metacharacters : Bool
  pub allow_path_traversal : Bool

pub record ToolValidationRules : Type 0 where
  pub tool_name : Bytes
  pub required_args : List ArgumentValidationRule
  pub optional_args : List ArgumentValidationRule
  pub strict_mode : Bool

-- The registered rules of `InputValidationHandler`.
abbrev pub Validator : Type 0
Validator = Dict ToolValidationRules

unfoldable pub register_tool_rules : ToolValidationRules → Validator → Validator
register_tool_rules rules v = insert rules.tool_name rules v

-- What `std::regex` and `std::regex_match` say of a pattern and a value, or the exception's text.
pub data RegexOutcome : Type 0 where
  matched unmatched : RegexOutcome
  regex_error : Bytes → RegexOutcome

abbrev pub Regex : Type 0
Regex = Bytes → Bytes → RegexOutcome

abbrev argument_error : Bytes → Bytes → Option Bytes
argument_error name what = some (codes "Argument '" ++ (name ++ what))

-- `validate_argument`: `none` for a valid value, and else the error.
unfoldable pub validate_argument : Regex → ArgumentValidationRule → Bytes → Option Bytes
validate_argument regex rule value =
    if not rule.allow_shell_metacharacters && contains_shell_metacharacters value
    then argument_error rule.arg_name (codes "' contains invalid shell metacharacters")
    else if not rule.allow_path_traversal && contains_path_traversal value
    then argument_error rule.arg_name (codes "' contains invalid path traversal sequences")
    else if contains_encoded_metacharacters value
    then argument_error rule.arg_name (codes "' contains URL-encoded dangerous characters")
    else if empty rule.pattern
    then none
    else elim (regex rule.pattern value) [
      | matched ↦ none
      | unmatched ↦ argument_error rule.arg_name (codes "' does not match required pattern")
      | regex_error what ↦ some (codes "Regex pattern error: " ++ what)
    ]

-- The loop over the required arguments: the first error, if any.
unfoldable pub validate_required : Regex → List ArgumentValidationRule → Dict Bytes → Option Bytes
validate_required regex [] arguments = none
validate_required regex (req ∷ reqs) arguments = elim (lookup req.arg_name arguments) [
  | none ↦ some (codes "Missing required argument: " ++ req.arg_name)
  | some value ↦ elim (validate_argument regex req value) [
    | some error ↦ some error
    | none ↦ validate_required regex reqs arguments
  ]
]

-- The loop over the optional arguments, of which only those that are there are looked at.
unfoldable pub validate_optional : Regex → List ArgumentValidationRule → Dict Bytes → Option Bytes
validate_optional regex [] arguments = none
validate_optional regex (opt ∷ opts) arguments = elim (lookup opt.arg_name arguments) [
  | none ↦ validate_optional regex opts arguments
  | some value ↦ elim (validate_argument regex opt value) [
    | some error ↦ some error
    | none ↦ validate_optional regex opts arguments
  ]
]

unfoldable pub arg_names : List ArgumentValidationRule → List Bytes
arg_names [] = []
arg_names (rule ∷ rules) = rule.arg_name ∷ arg_names rules

-- The loop of the strict mode: the first argument, in the map's order, that no rule names.
unfoldable pub reject_unknown : List Bytes → Dict Bytes → Option Bytes
reject_unknown known [] = none
reject_unknown known ((key, value) ∷ arguments) =
    if member key known
    then reject_unknown known arguments
    else some (codes "Unknown argument: " ++ key)

-- The three loops for a tool that has rules.
unfoldable pub validate_by_rules : Regex → ToolValidationRules → Dict Bytes → Option Bytes
validate_by_rules regex rules arguments =
    elim (validate_required regex rules.required_args arguments) [
      | some error ↦ some error
      | none ↦ elim (validate_optional regex rules.optional_args arguments) [
        | some error ↦ some error
        | none ↦
            if rules.strict_mode
            then reject_unknown (arg_names rules.required_args ++ arg_names rules.optional_args)
                arguments
            else none
      ]
    ]

-- `validate_arguments`: `none` for arguments that pass, and else the error. `arguments` lists the map.
unfoldable pub validate_arguments : Regex → Validator → Bytes → Dict Bytes → Option Bytes
validate_arguments regex v tool_name arguments = elim (lookup tool_name v) [
  | none ↦ none
  | some rules ↦ validate_by_rules regex rules arguments
]
