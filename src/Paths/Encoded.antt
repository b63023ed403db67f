-- ===== src/Paths/Encoded.antt =====
-- The count of encoded dots in `contains_encoded_traversal` of mcptoolkit/src/path_validator.cpp.
use mcptoolkit.Prelude.{
  ℕ, ◌≡◌, refl, sym, ◌∙◌, ap, ◌↔◌, inl, inr, true, false, [], ◌∷◌, ◌++◌, drop, Bool-cases, Bytes,
  codes, is_prefix, is_prefix-split, contains, contains_sound, contains_complete,
}
use mcptoolkit.Paths.{counts_two_dots}

abbrev pub dot : Bytes
dot = codes "%2e"

-- Two encoded dots, in lower case, anywhere.
abbrev pub HasTwoDots : Bytes → Type 0
HasTwoDots path =
    (before : Bytes) × (between : Bytes) × (after : Bytes) × (path
      ≡ before ++ (dot ++ (between ++ (dot ++ after))))

second_dot : (s : Bytes) → counts_two_dots 1 s ≡ contains dot s
unfolding counts_two_dots contains
second_dot [] = unfold is_prefix in refl
second_dot (c ∷ s) = elim (Bool-cases (is_prefix dot (c ∷ s))) [
  | inl here ↦ rw (here, counts_two_dots, contains) refl
  | inr other ↦ rw (other, counts_two_dots, contains) (second_dot s)
]

two_dots-here :
    (c : ℕ) (s : Bytes) → is_prefix dot (c ∷ s) ≡ true → counts_two_dots 0 (c ∷ s) ≡ contains dot s
unfolding counts_two_dots
two_dots-here c s h = rw (h, counts_two_dots) (second_dot s)

two_dots-later :
    (c : ℕ) (s : Bytes)
    → is_prefix dot (c ∷ s) ≡ false
    → counts_two_dots 0 (c ∷ s) ≡ counts_two_dots 0 s
unfolding counts_two_dots
two_dots-later c s h = rw (h, counts_two_dots) refl

behind_dot : (s : Bytes) → contains dot (b'2' ∷ b'e' ∷ s) ≡ contains dot s
unfolding contains is_prefix
behind_dot s = refl

two_dots_sound : (s : Bytes) → counts_two_dots 0 s ≡ true → HasTwoDots s
two_dots_sound [] h = unfold counts_two_dots in cc
two_dots_sound (c ∷ s) h = elim (Bool-cases (is_prefix dot (c ∷ s))) [
  | inl here ↦
      let rest = drop 2 s in
      let e : c ∷ s ≡ dot ++ rest = is_prefix-split dot (c ∷ s) here in
      let tail : s ≡ b'2' ∷ b'e' ∷ rest = cc in
      let again : contains dot rest ≡ true =
        sym (behind_dot rest) ∙ ap (contains dot) (sym tail) ∙ sym (two_dots-here c s here) ∙ h in
      let (between, after, q) = contains_sound dot rest again in
      ([], between, after, e ∙ ap (λ r. dot ++ r) q)
  | inr other ↦
      let (before, between, after, e) = two_dots_sound s (sym (two_dots-later c s other) ∙ h) in
      (c ∷ before, between, after, ap (◌∷◌ c) e)
]

two_dots_complete :
    (before between after : Bytes)
    → counts_two_dots 0 (before ++ (dot ++ (between ++ (dot ++ after)))) ≡ true
two_dots_complete [] between after =
    let rest = between ++ (dot ++ after) in
    two_dots-here b'%' (b'2' ∷ b'e' ∷ rest) (unfold is_prefix in refl)
    ∙ behind_dot rest
    ∙ contains_complete dot between after
two_dots_complete (c ∷ before) between after =
    let rest = before ++ (dot ++ (between ++ (dot ++ after))) in
    elim (Bool-cases (is_prefix dot (c ∷ rest))) [
      | inl here ↦
          two_dots-here c rest here ∙ contains_complete dot before (between ++ (dot ++ after))
      | inr other ↦ two_dots-later c rest other ∙ two_dots_complete before between after
    ]

-- The count finds exactly the paths with two encoded dots in lower case; one in upper case never counts.
pub counts_two_dots_iff : (s : Bytes) → (counts_two_dots 0 s ≡ true) ↔ HasTwoDots s
counts_two_dots_iff s =
    (two_dots_sound s, λ (before, between, after, e). rw e (two_dots_complete before between after))
