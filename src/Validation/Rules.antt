-- ===== src/Validation/Rules.antt =====
-- What the arguments are that `validate_arguments` of mcptoolkit/src/input_validation.cpp lets pass.
use mcptoolkit.Prelude.{
  ◌≡◌, refl, ◌↔◌, inl, inr, true, false, none, some, List, [], ◌∷◌, ◌++◌, Bool-cases, Option-cases,
  Bytes, empty, arith,
}
use mcptoolkit.Prelude.Dict.{Dict, lookup}
use mcptoolkit.Auth.{member}
use mcptoolkit.Validation.{
  contains_shell_metacharacters, contains_path_traversal, contains_encoded_metacharacters,
  ArgumentValidationRule, ToolValidationRules, matched, Regex, validate_argument, validate_required,
  validate_optional, arg_names, reject_unknown, validate_by_rules,
}

-- Every element of the list satisfies the predicate.
abbrev pub All : {A : Type 0} → (A → Type 0) → List A → Type 0
All P [] = Unit {0}
All P (x ∷ xs) = P x × All P xs

-- A value that satisfies a rule.
pub record Satisfies (regex : Regex) (rule : ArgumentValidationRule) (value : Bytes) : Type 0 where
  pub no_metacharacters :
      rule.allow_shell_metacharacters ≡ false → contains_shell_metacharacters value ≡ false
  pub no_traversal : rule.allow_path_traversal ≡ false → contains_path_traversal value ≡ false
  pub not_encoded : contains_encoded_metacharacters value ≡ false
  pub in_pattern : empty rule.pattern ≡ false → regex rule.pattern value ≡ matched

abbrev pub Present : Regex → Dict Bytes → ArgumentValidationRule → Type 0
Present regex arguments rule =
    (value : Bytes) × (lookup rule.arg_name arguments ≡ some value) × Satisfies regex rule value

abbrev pub FineIfPresent : Regex → Dict Bytes → ArgumentValidationRule → Type 0
FineIfPresent regex arguments rule =
    (value : Bytes) → lookup rule.arg_name arguments ≡ some value → Satisfies regex rule value

abbrev pub IsNamed : ToolValidationRules → Bytes × Bytes → Type 0
IsNamed rules (key, value) =
    member key (arg_names rules.required_args ++ arg_names rules.optional_args) ≡ true

-- Arguments that a tool's rules admit.
pub record IsAdmitted (regex : Regex) (rules : ToolValidationRules) (arguments : Dict Bytes)
    : Type 0 where
  pub required : All (Present regex arguments) rules.required_args
  pub optional : All (FineIfPresent regex arguments) rules.optional_args
  pub known : rules.strict_mode ≡ true → All (IsNamed rules) arguments

argument_sound :
    (regex : Regex) (rule : ArgumentValidationRule) (value : Bytes)
    → validate_argument regex rule value ≡ none
    → Satisfies regex rule value
unfolding validate_argument
argument_sound regex rule value h = record {
  no_metacharacters = λ e. ground arith;
  no_traversal = λ e. ground arith;
  not_encoded = ground arith;
  in_pattern = λ e. ground arith;
}

argument_complete :
    (regex : Regex) (rule : ArgumentValidationRule) (value : Bytes)
    → Satisfies regex rule value
    → validate_argument regex rule value ≡ none
unfolding validate_argument
argument_complete regex rule value s =
    let a = s.no_metacharacters in
    let b = s.no_traversal in let c = s.not_encoded in let d = s.in_pattern in ground arith

required_sound :
    (regex : Regex) (rules : List ArgumentValidationRule) (arguments : Dict Bytes)
    → validate_required regex rules arguments ≡ none
    → All (Present regex arguments) rules
unfolding validate_required
required_sound regex [] arguments h = record {}
required_sound regex (r ∷ rules) arguments h = elim (Option-cases (lookup r.arg_name arguments)) [
  | inl missing ↦ ground arith
  | inr (value, there) ↦ elim (Option-cases (validate_argument regex r value)) [
    | inr (error, e) ↦ ground arith
    | inl fine ↦ (
      (value, there, argument_sound regex r value fine),
      required_sound regex rules arguments (ground arith),
    )
  ]
]

required_complete :
    (regex : Regex) (rules : List ArgumentValidationRule) (arguments : Dict Bytes)
    → All (Present regex arguments) rules
    → validate_required regex rules arguments ≡ none
unfolding validate_required
required_complete regex [] arguments h = refl
required_complete regex (r ∷ rules) arguments ((value, there, s), h) =
    rw (there, validate_required)
      (rw (argument_complete regex r value s, validate_required)
        (required_complete regex rules arguments h))

optional_sound :
    (regex : Regex) (rules : List ArgumentValidationRule) (arguments : Dict Bytes)
    → validate_optional regex rules arguments ≡ none
    → All (FineIfPresent regex arguments) rules
unfolding validate_optional
optional_sound regex [] arguments h = record {}
optional_sound regex (r ∷ rules) arguments h = elim (Option-cases (lookup r.arg_name arguments)) [
  | inl missing ↦
      ((λ value there. absurd (ground arith)), optional_sound regex rules arguments (ground arith))
  | inr (value, there) ↦ elim (Option-cases (validate_argument regex r value)) [
    | inr (error, e) ↦ absurd (ground arith)
    | inl fine ↦ (
      (λ other q. argument_sound regex r other (ground arith)),
      optional_sound regex rules arguments (ground arith),
    )
  ]
]

optional_complete :
    (regex : Regex) (rules : List ArgumentValidationRule) (arguments : Dict Bytes)
    → All (FineIfPresent regex arguments) rules
    → validate_optional regex rules arguments ≡ none
unfolding validate_optional
optional_complete regex [] arguments h = refl
optional_complete regex (r ∷ rules) arguments (fine, h) =
    elim (Option-cases (lookup r.arg_name arguments)) [
      | inl missing ↦ rw (missing, validate_optional) (optional_complete regex rules arguments h)
      | inr (value, there) ↦
          rw (there, validate_optional)
            (rw (argument_complete regex r value (fine value there))
              (optional_complete regex rules arguments h))
    ]

module _ (rules : ToolValidationRules) where
  reject_unknown_sound :
      (arguments : Dict Bytes)
      → reject_unknown (arg_names rules.required_args ++ arg_names rules.optional_args) arguments
        ≡ none
      → All (IsNamed rules) arguments
  unfolding reject_unknown
  reject_unknown_sound [] h = record {}
  reject_unknown_sound ((key, value) ∷ arguments) h =
      (ground arith, reject_unknown_sound arguments (ground arith))

  reject_unknown_complete :
      (arguments : Dict Bytes)
      → All (IsNamed rules) arguments
      → reject_unknown (arg_names rules.required_args ++ arg_names rules.optional_args) arguments
        ≡ none
  unfolding reject_unknown
  reject_unknown_complete [] h = refl
  reject_unknown_complete ((key, value) ∷ arguments) (named, h) =
      rw named (reject_unknown_complete arguments h)

-- Arguments pass a tool's rules exactly if each required argument is there and satisfies its rule, each
-- optional argument that is there satisfies its rule, and in strict mode no other argument is there.
pub validate_by_rules_iff :
    (regex : Regex) (rules : ToolValidationRules) (arguments : Dict Bytes)
    → (validate_by_rules regex rules arguments ≡ none) ↔ IsAdmitted regex rules arguments
unfolding validate_by_rules
validate_by_rules_iff regex rules arguments = (
  λ h. elim (Option-cases (validate_required regex rules.required_args arguments)) [
    | inr (error, e) ↦ absurd (ground arith)
    | inl fine ↦ elim (Option-cases (validate_optional regex rules.optional_args arguments)) [
      | inr (error, e) ↦ absurd (ground arith)
      | inl fine_too ↦ record {
        required = required_sound regex rules.required_args arguments fine;
        optional = optional_sound regex rules.optional_args arguments fine_too;
        known = λ strict. reject_unknown_sound rules arguments (ground arith);
      }
    ]
  ],
  λ a.
      let required = required_complete regex rules.required_args arguments a.required in
      let optional = optional_complete regex rules.optional_args arguments a.optional in
      elim (Bool-cases rules.strict_mode) [
        | inl strict ↦
            let known = reject_unknown_complete rules arguments (a.known strict) in ground arith
        | inr lax ↦ ground arith
      ],
)
