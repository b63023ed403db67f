-- ===== src/Validation/Patterns.antt =====
-- The loop over a table of patterns finds exactly the texts that have one of them.
use mcptoolkit.Prelude.{
  ◌≡◌, ◌↔◌, inl, inr, true, List, [], ◌∷◌, ◌++◌, Bool-cases, Bytes, contains, contains_sound,
  contains_complete, IsElement, IsElement-here, IsElement-there, arith,
}
use mcptoolkit.Validation.{contains_one_of}

-- One of the patterns stands somewhere in the text.
abbrev pub HasPattern : List Bytes → Bytes → Type 0
HasPattern patterns text =
    (pattern : Bytes) × IsElement pattern patterns
    × (before : Bytes) × (after : Bytes) × (text ≡ before ++ (pattern ++ after))

one_of_sound :
    (patterns : List Bytes) (text : Bytes)
    → contains_one_of patterns text ≡ true
    → HasPattern patterns text
unfolding contains_one_of
one_of_sound [] text h = cc
one_of_sound (p ∷ patterns) text h = elim (Bool-cases (contains p text)) [
  | inl here ↦
      let (before, after, e) = contains_sound p text here in
      (p, IsElement-here p patterns, before, after, e)
  | inr later ↦
      let (q, there, before, after, found) = one_of_sound patterns text (ground arith) in
      (q, IsElement-there p there, before, after, found)
]

one_of_complete :
    (front back : List Bytes) (pattern before after : Bytes)
    → contains_one_of (front ++ (pattern ∷ back)) (before ++ (pattern ++ after)) ≡ true
unfolding contains_one_of
one_of_complete [] back pattern before after =
    ground (arith, contains_complete pattern before after)
one_of_complete (p ∷ front) back pattern before after =
    ground (arith, one_of_complete front back pattern before after)

pub contains_one_of_iff :
    (patterns : List Bytes) (text : Bytes)
    → (contains_one_of patterns text ≡ true) ↔ HasPattern patterns text
contains_one_of_iff patterns text = (
  one_of_sound patterns text,
  λ (pattern, (front, back, e), before, after, q).
      rw (e, q) (one_of_complete front back pattern before after),
)
