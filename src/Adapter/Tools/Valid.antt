-- ===== src/Adapter/Tools/Valid.antt =====
-- Which tools `tools/list` of mcptoolkit/src/mcp_adapter.cpp shows.
use mcptoolkit.Prelude.{
  ◌≤◌, ◌≡◌, ◌≢◌, refl, ap, ◌↔◌, ◌⊎◌, inl, inr, Bool, true, false, true_not_false, not, ◌||◌, List,
  [], ◌∷◌, ltb, if◌then◌else◌, length, Bool-cases, Bytes, codes, beq, beq_iff, empty, contains_byte,
  arith,
}
use mcptoolkit.Adapter.Tools.{
  ToolParam, ToolDefinition, is_param_type, validate_param, validate_params,
  validate_tool_definition, first_error,
}

-- A name of at most 256 bytes, and at least one, none of which ends a line or a C string.
pub record IsName (name : Bytes) : Type 0 where
  pub some_name : name ≢ []
  pub no_feed : contains_byte 10 name ≡ false
  pub no_return : contains_byte 13 name ≡ false
  pub no_nul : contains_byte 0 name ≡ false
  pub short_name : length name ≤ 256

abbrev pub IsParamType : Bytes → Type 0
IsParamType t =
    (t ≡ codes "string") ⊎ (t ≡ codes "integer") ⊎ (t ≡ codes "boolean") ⊎ (t ≡ codes "number")

pub record IsParam (param : ToolParam) : Type 0 where
  pub named : IsName param.name
  pub typed : IsParamType param.type
  pub described : length param.description ≤ 1024

abbrev pub AreParams : List ToolParam → Type 0
AreParams [] = Unit {0}
AreParams (param ∷ params) = IsParam param × AreParams params

pub record IsTool (tool : ToolDefinition) : Type 0 where
  pub named : IsName tool.name
  pub described : length tool.description ≤ 4096
  pub few : length tool.params ≤ 256
  pub with_params : AreParams tool.params

abbrev pub AreTools : List ToolDefinition → Type 0
AreTools [] = Unit {0}
AreTools (tool ∷ tools) = IsTool tool × AreTools tools

is_param_type_iff : (t : Bytes) → (is_param_type t ≡ true) ↔ IsParamType t
unfolding is_param_type
is_param_type_iff t =
    let s = beq_iff t (codes "string") in
    let i = beq_iff t (codes "integer") in
    let b = beq_iff t (codes "boolean") in
    let n = beq_iff t (codes "number") in
    (
      λ h. elim (Bool-cases (beq t (codes "string"))) [
        | inl e ↦ inl (s.0 e)
        | inr not_s ↦ elim (Bool-cases (beq t (codes "integer"))) [
          | inl e ↦ inr (inl (i.0 e))
          | inr not_i ↦ elim (Bool-cases (beq t (codes "boolean"))) [
            | inl e ↦ inr (inr (inl (b.0 e)))
            | inr not_b ↦ inr (inr (inr (n.0 (ground arith))))
          ]
        ]
      ],
      λ h. elim h [
        | inl e ↦ let k = s.1 e in ground arith
        | inr (inl e) ↦ let k = i.1 e in ground arith
        | inr (inr (inl e)) ↦ let k = b.1 e in ground arith
        | inr (inr (inr e)) ↦ let k = n.1 e in ground arith
      ],
    )

pub empty_iff : (s : Bytes) → (empty s ≡ false) ↔ (s ≢ [])
empty_iff [] = (λ h e. true_not_false h, λ h. absurd (h refl))
empty_iff (c ∷ s) = (λ h e. cc, λ h. refl)

pub empty_nil : (s : Bytes) → empty s ≡ true → s ≡ []
empty_nil [] h = refl
empty_nil (c ∷ s) h = absurd cc

typed_nonempty : (t : Bytes) → IsParamType t → empty t ≡ false
typed_nonempty t h = elim h [
  | inl e ↦ ap empty e
  | inr (inl e) ↦ ap empty e
  | inr (inr (inl e)) ↦ ap empty e
  | inr (inr (inr e)) ↦ ap empty e
]

-- The three tests that names of tools and of parameters go through.
abbrev is_good_name : Bytes → Bool
is_good_name name = not (
    empty name
    || contains_byte 10 name
    || contains_byte 13 name
    || contains_byte 0 name
    || ltb 256 (length name))

is_good_name_iff : (name : Bytes) → (is_good_name name ≡ true) ↔ IsName name
is_good_name_iff name =
    let some_name = empty_iff name in
    (
      λ h. record {
        some_name = some_name.0 (ground arith);
        no_feed = ground arith;
        no_return = ground arith;
        no_nul = ground arith;
        short_name = ground arith;
      },
      λ h.
          let a = some_name.1 h.some_name in
          let b = h.no_feed in
          let c = h.no_return in let d = h.no_nul in let e = h.short_name in ground arith,
    )

validate_param_iff : (param : ToolParam) → (validate_param param ≡ []) ↔ IsParam param
unfolding validate_param
validate_param_iff param =
    let typed = is_param_type_iff param.type in
    let named = is_good_name_iff param.name in
    (
      λ h. record {
        named = named.0 (ground arith);
        typed = typed.0 (ground arith);
        described = ground arith;
      },
      λ h.
          let good = named.1 h.named in
          let known = typed.1 h.typed in
          let some_type = typed_nonempty param.type h.typed in
          let short = h.described in ground arith,
    )

-- Of two checks, the second is made if the first finds nothing.
then_iff :
    (first rest : Bytes)
    → ((if empty first then rest else first) ≡ []) ↔ ((first ≡ []) × (rest ≡ []))
then_iff [] rest = (λ h. (refl, h), λ (_, h). h)
then_iff (c ∷ first) rest = (λ h. absurd cc, λ (h, _). absurd cc)

validate_params_iff : (params : List ToolParam) → (validate_params params ≡ []) ↔ AreParams params
unfolding validate_params
validate_params_iff [] = (λ h. record {}, λ h. refl)
validate_params_iff (param ∷ params) =
    let (to, from) = validate_param_iff param in
    let (to_rest, from_rest) = validate_params_iff params in
    let (split, join) = then_iff (validate_param param) (validate_params params) in
    (λ h. let (a, b) = split h in (to a, to_rest b), λ (a, b). join (from a, from_rest b))

validate_tool_definition_iff :
    (tool : ToolDefinition) → (validate_tool_definition tool ≡ []) ↔ IsTool tool
unfolding validate_tool_definition
validate_tool_definition_iff tool =
    let named = is_good_name_iff tool.name in
    let params = validate_params_iff tool.params in
    (
      λ h. record {
        named = named.0 (ground arith);
        described = ground arith;
        few = ground arith;
        with_params = params.0 (ground arith);
      },
      λ h.
          let good = named.1 h.named in
          let short = h.described in
          let few = h.few in let e = params.1 h.with_params in ground arith,
    )

pub first_error_iff : (tools : List ToolDefinition) → (first_error tools ≡ []) ↔ AreTools tools
unfolding first_error
first_error_iff [] = (λ h. record {}, λ h. refl)
first_error_iff (tool ∷ tools) =
    let (to, from) = validate_tool_definition_iff tool in
    let (to_rest, from_rest) = first_error_iff tools in
    let (split, join) = then_iff (validate_tool_definition tool) (first_error tools) in
    (λ h. let (a, b) = split h in (to a, to_rest b), λ (a, b). join (from a, from_rest b))
