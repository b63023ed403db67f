-- ===== src/Adapter/Tools/Text.antt =====
-- The text of the tool descriptors that mcptoolkit/src/mcp_adapter.cpp builds for `tools/list`.
use mcptoolkit.Prelude.{
  ℕ, ◌≡◌, refl, ◌∙◌, ap, some, List, [], ◌∷◌, ◌++◌, append_assoc, if◌then◌else◌, Bytes, codes,
  c_str, inl, inr, Bool-cases,
}
use mcptoolkit.Json.Scan.{quote}
use mcptoolkit.Json.Builder.{
  escape_all, append_escaped, separate, add_key, add_field, add_object_field, close_object_field,
  add_array_element,
}
use mcptoolkit.Adapter.Replies.Text.{
  separate_behind, separate_open, separate_list, separate_behind_list,
}
use mcptoolkit.Adapter.Tools.{ToolParam, add_properties, add_required}

-- A list written with commas: behind an opening byte the first element has none.
module _ {A : Type 0} (body : A → Bytes) (close_byte : ℕ) where
  abbrev pub more : List A → Bytes
  more [] = []
  more (x ∷ xs) = b',' ∷ (body x ++ (close_byte ∷ more xs))

  abbrev pub joined : List A → Bytes
  joined [] = []
  joined (x ∷ xs) = body x ++ (close_byte ∷ more xs)

  module _ (step : A → Bytes → Bytes) where
    abbrev pub steps : List A → Bytes → Bytes
    steps [] buf = buf
    steps (x ∷ xs) buf = steps xs (step x buf)

    module _
        (behind : (x : A) (buf : Bytes)
          → step x (buf ++ (close_byte ∷ []))
            ≡ (buf ++ (close_byte ∷ b',' ∷ body x)) ++ (close_byte ∷ [])) where
      steps-more :
          (xs : List A) (buf : Bytes)
          → steps xs (buf ++ (close_byte ∷ [])) ≡ buf ++ (close_byte ∷ more xs)
      steps-more [] buf = refl
      steps-more (x ∷ xs) buf =
          ap (steps xs) (behind x buf)
          ∙ steps-more xs (buf ++ (close_byte ∷ b',' ∷ body x))
          ∙ simp append_assoc

      pub steps-joined :
          (open_byte : ℕ)
          → ((x : A) (buf : Bytes)
              → step x (buf ++ (open_byte ∷ []))
                ≡ (buf ++ (open_byte ∷ body x)) ++ (close_byte ∷ []))
          → (xs : List A) (buf : Bytes)
          → steps xs (buf ++ (open_byte ∷ [])) ≡ buf ++ (open_byte ∷ joined xs)
      steps-joined open_byte first [] buf = refl
      steps-joined open_byte first (x ∷ xs) buf =
          ap (steps xs) (first x buf)
          ∙ steps-more xs (buf ++ (open_byte ∷ body x))
          ∙ simp append_assoc

-- A parameter's member of `properties`, without the brace at its end.
abbrev pub param_body : ToolParam → Bytes
param_body p =
    quote
    ∷ (c_str p.name
        ++ (codes "\":{\"type\":\""
            ++ (escape_all (c_str p.type)
                ++ (codes "\",\"description\":\""
                    ++ (escape_all (c_str p.description) ++ codes "\"")))))

abbrev param_step : ToolParam → Bytes → Bytes
param_step p buf = close_object_field (
    add_field (codes "description") (some p.description)
      (add_field (codes "type") (some p.type) (add_object_field p.name buf)))

param_step-text :
    (p : ToolParam) (buf front : Bytes)
    → separate b'{' buf ≡ front
    → param_step p buf ≡ (front ++ param_body p) ++ (b'}' ∷ [])
unfolding add_object_field add_field add_key append_escaped c_str close_object_field
param_step-text p buf front e =
    rw (e, separate_open _, separate_behind _ quote refl) (simp append_assoc)

add_properties-steps :
    (ps : List ToolParam) (buf : Bytes)
    → add_properties ps buf ≡ steps param_body b'}' param_step ps buf
unfolding add_properties
add_properties-steps [] buf = refl
add_properties-steps (p ∷ ps) buf = add_properties-steps ps (param_step p buf)

pub add_properties-text :
    (ps : List ToolParam) (buf : Bytes)
    → add_properties ps (buf ++ (b'{' ∷ [])) ≡ buf ++ (b'{' ∷ joined param_body b'}' ps)
add_properties-text ps buf =
    add_properties-steps ps (buf ++ (b'{' ∷ []))
    ∙ steps-joined param_body b'}' param_step
        (λ p b.
          param_step-text p (b ++ (b'}' ∷ [])) _ (separate_behind b b'}' refl) ∙ simp append_assoc)
        b'{' (λ p b. param_step-text p (b ++ (b'{' ∷ [])) _ (separate_open b) ∙ simp append_assoc)
        ps buf

-- The names of the parameters that are required, and an element of that list without its last quote.
abbrev pub required_names : List ToolParam → List Bytes
required_names [] = []
required_names (p ∷ ps) = let rest = required_names ps in if p.required then p.name ∷ rest else rest

abbrev pub name_body : Bytes → Bytes
name_body name = quote ∷ escape_all (c_str name)

abbrev name_step : Bytes → Bytes → Bytes
name_step name buf = add_array_element (some name) buf

name_step-text :
    (name buf front : Bytes)
    → separate b'[' buf ≡ front
    → name_step name buf ≡ (front ++ name_body name) ++ (quote ∷ [])
unfolding add_array_element append_escaped
name_step-text name buf front e = rw e (simp append_assoc)

add_required-steps :
    (ps : List ToolParam) (buf : Bytes)
    → add_required ps buf ≡ steps name_body quote name_step (required_names ps) buf
unfolding add_required
add_required-steps [] buf = refl
add_required-steps (p ∷ ps) buf = elim (Bool-cases p.required) [
  | inl needed ↦ simp needed (add_required-steps ps (name_step p.name buf))
  | inr optional ↦ simp optional (add_required-steps ps buf)
]

pub add_required-text :
    (ps : List ToolParam) (buf : Bytes)
    → add_required ps (buf ++ (b'[' ∷ []))
      ≡ buf ++ (b'[' ∷ joined name_body quote (required_names ps))
add_required-text ps buf =
    add_required-steps ps (buf ++ (b'[' ∷ []))
    ∙ steps-joined name_body quote name_step
        (λ name b.
          name_step-text name (b ++ (quote ∷ [])) _ (separate_behind_list b quote refl)
          ∙ simp append_assoc)
        b'['
        (λ name b. name_step-text name (b ++ (b'[' ∷ [])) _ (separate_list b) ∙ simp append_assoc)
        (required_names ps) buf
