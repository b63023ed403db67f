-- ===== src/Paths/Within.antt =====
-- Which paths `is_safe_path` of mcptoolkit/src/path_validator.cpp lets pass.
use mcptoolkit.Prelude.{
  ap, Option-cases, back, ◌==◌, append_assoc, some, ◌≡◌, refl, sym, ◌∙◌, ◌↔◌, ◌⊎◌, inl, inr, true,
  false, ◌||◌, none, [], ◌∷◌, ◌++◌, drop, length, Bool-cases, Bytes, codes, beq_iff, is_prefix,
  is_prefix-append, is_prefix-split, contains, contains_sound, contains_complete, contains_byte,
  true_not_false, false_iff, List, append-nil, arith,
}
use mcptoolkit.Validation.{contains_one_of}
use mcptoolkit.Validation.Patterns.{HasPattern, contains_one_of_iff}
use mcptoolkit.Paths.{
  PathValidator, Resolution, resolved, failed, FileSystem, contains_traversal_sequences,
  encoded_traversals, counts_two_dots, contains_encoded_traversal, has_root, has_drive,
  with_separator, starts_within, validate_within_base, resolve_path, is_safe_path,
}
use mcptoolkit.Paths.Encoded.{HasTwoDots, counts_two_dots_iff}

-- A path under a directory: the directory's own path, a separator unless it ends in one, and more. An
-- empty directory has every path under it.
abbrev pub IsBelow : FileSystem → Bytes → Bytes → Type 0
IsBelow fs base path =
    (below : Bytes) × ((path ≡ base ++ (fs.preferred_separator ∷ below))
      ⊎ (((base ≡ []) ⊎ (back base ≡ some fs.preferred_separator)) × (path ≡ base ++ below)))

-- The path and the base directory resolve, the one to a path under the other.
abbrev pub ResolvesWithin : FileSystem → PathValidator → Bytes → Type 0
ResolvesWithin fs v user_path =
    (canonical : Bytes) × (base : Bytes) × (fs.weakly_canonical
        (fs.join v.path_config.base_directory user_path)
      ≡ resolved canonical)
    × (fs.weakly_canonical v.path_config.base_directory ≡ resolved base)
    × IsBelow fs base canonical

-- Two dots in a row, or a home directory.
abbrev pub traversals : List Bytes
traversals = codes ".." ∷ codes "~/" ∷ []

pub record IsSafePath (fs : FileSystem) (v : PathValidator) (path : Bytes) : Type 0 where
  pub configured : v.is_ready ≡ true
  pub no_nul : contains_byte 0 path ≡ false
  pub no_traversal : ¬ HasPattern traversals path
  pub not_encoded : ¬ HasPattern encoded_traversals path
  pub not_two_dots : ¬ HasTwoDots path
  pub relative :
      (v.path_config.allow_absolute_paths ≡ true) ⊎ ((has_root path || has_drive path) ≡ false)
  pub within : ResolvesWithin fs v path

starts_within_iff :
    (base canonical : Bytes)
    → (starts_within base canonical ≡ true) ↔ ((below : Bytes) × (canonical ≡ base ++ below))
unfolding starts_within
starts_within_iff base canonical = (
  λ h. elim (Bool-cases (is_prefix base canonical)) [
    | inl p ↦ (drop (length base) canonical, is_prefix-split base canonical p)
    | inr n ↦
        let same : canonical ≡ base = (beq_iff canonical base).0 (ground arith) in
        ([], same ∙ sym (append-nil base))
  ],
  λ (below, e).
      let p : is_prefix base canonical ≡ true = rw e (is_prefix-append base below) in ground arith,
)

back-none : (s : Bytes) → back s ≡ none → s ≡ []
back-none [] h = refl
back-none (c ∷ []) h = absurd cc
back-none (c ∷ d ∷ s) h = let e = back-none (d ∷ s) h in absurd cc

module _ (fs : FileSystem) (base path : Bytes) where
  -- The base as it is, or with the separator behind it.
  kept_iff :
      with_separator fs base ≡ base
      → (base ≡ []) ⊎ (back base ≡ some fs.preferred_separator)
      → ((below : Bytes) × (path ≡ with_separator fs base ++ below)) ↔ IsBelow fs base path
  kept_iff same closed = (
    λ (below, e). (below, inr (closed, e ∙ ap (λ b. b ++ below) same)),
    λ (below, h). elim h [
      | inl e ↦ (
        fs.preferred_separator ∷ below,
        e ∙ ap (λ b. b ++ (fs.preferred_separator ∷ below)) (sym same),
      )
      | inr (_, e) ↦ (below, e ∙ ap (λ b. b ++ below) (sym same))
    ],
  )

  extended_iff :
      with_separator fs base ≡ base ++ (fs.preferred_separator ∷ [])
      → ¬ ((base ≡ []) ⊎ (back base ≡ some fs.preferred_separator))
      → ((below : Bytes) × (path ≡ with_separator fs base ++ below)) ↔ IsBelow fs base path
  extended_iff longer open_end =
      let assoc : (below : Bytes)
          → with_separator fs base ++ below ≡ base ++ (fs.preferred_separator ∷ below) =
        λ below.
          ap (λ b. b ++ below) longer ∙ append_assoc base (fs.preferred_separator ∷ []) below in
      (
        λ (below, e). (below, inl (e ∙ assoc below)),
        λ (below, h). elim h [
          | inl e ↦ (below, e ∙ sym (assoc below))
          | inr (closed, _) ↦ absurd (open_end closed)
        ],
      )

  with_separator_iff :
      ((below : Bytes) × (path ≡ with_separator fs base ++ below)) ↔ IsBelow fs base path
  unfolding with_separator
  with_separator_iff = elim (Option-cases (back base)) [
    | inl none_last ↦
        kept_iff (rw (none_last, with_separator) refl) (inl (back-none base none_last))
    | inr (c, last) ↦ elim (Bool-cases (c == fs.preferred_separator)) [
      | inl same ↦
          let equal : c ≡ fs.preferred_separator = ground arith in
          kept_iff (rw (last, with_separator) (rw same refl)) (inr (last ∙ ap some equal))
      | inr other ↦ extended_iff (rw (last, with_separator) (rw other refl)) (λ h. elim h [
        | inl empty_base ↦ let e : none ≡ some c = ap back (sym empty_base) ∙ last in absurd cc
        | inr closed ↦
            let e : some c ≡ some fs.preferred_separator = sym last ∙ closed in
            absurd (ground arith)
      ])
    ]
  ]

Resolution-cases :
    (r : Resolution) → ((path : Bytes) × (r ≡ resolved path)) ⊎ ((what : Bytes) × (r ≡ failed what))
Resolution-cases (resolved path) = inl (path, refl)
Resolution-cases (failed what) = inr (what, refl)

resolve_path_iff :
    (fs : FileSystem) (v : PathValidator) (path : Bytes)
    → (resolve_path fs v path ≡ none) ↔ ResolvesWithin fs v path
unfolding resolve_path validate_within_base
resolve_path_iff fs v path =
    elim (Resolution-cases (fs.weakly_canonical (fs.join v.path_config.base_directory path))) [
      | inr (what, e) ↦ (λ h. absurd (ground arith), λ (canonical, base, q, _, _). absurd cc)
      | inl (canonical, e) ↦
          elim (Resolution-cases (fs.weakly_canonical v.path_config.base_directory)) [
            | inr (what, f) ↦ (λ h. absurd (ground arith), λ (_, base, _, q, _). absurd cc)
            | inl (base, f) ↦
                let (to, from) = starts_within_iff (with_separator fs base) canonical in
                let (down, up) = with_separator_iff fs base canonical in
                (
                  λ h. let q = to (ground arith) in (canonical, base, e, f, down q),
                  λ (canonical', base', e', f', q).
                      let same : canonical ≡ canonical' = cc in
                      let same_base : base ≡ base' = cc in
                      let yes_within = from (up (rw (same, same_base) q)) in ground arith,
                )
          ]
    ]

traversal_eq : (path : Bytes) → contains_traversal_sequences path ≡ contains_one_of traversals path
unfolding contains_traversal_sequences contains_one_of
traversal_eq path = elim (Bool-cases (contains (codes "..") path)) [
  | inl dots ↦ simp dots
  | inr no_dots ↦ elim (Bool-cases (contains (codes "..\\") path)) [
    | inl windows ↦
        let (before, after, e) = contains_sound (codes "..\\") path windows in
        let dots : contains (codes "..") path ≡ true =
          rw e (contains_complete (codes "..") before (b'\\' ∷ after)) in
        absurd (true_not_false (sym dots ∙ no_dots))
    | inr no_windows ↦ simp (no_dots, no_windows)
  ]
]

-- A path is found safe exactly if the validator is configured; the path holds no NUL, no `..`, no `~/`,
-- none of the encoded forms in the table and not `%2e` twice; it has no root and no drive letter unless
-- absolute paths are allowed; and, joined to the base directory, it resolves, as the base does, to a
-- path under the base.
pub is_safe_path_iff :
    (fs : FileSystem) (v : PathValidator) (path : Bytes)
    → (is_safe_path fs v path ≡ none) ↔ IsSafePath fs v path
unfolding is_safe_path contains_encoded_traversal
is_safe_path_iff fs v path =
    let traversal =
      false_iff (contains_one_of traversals path) (contains_one_of_iff traversals path) in
    let encoded =
      false_iff (contains_one_of encoded_traversals path)
        (contains_one_of_iff encoded_traversals path) in
    let dots = false_iff (counts_two_dots 0 path) (counts_two_dots_iff path) in
    let resolution = resolve_path_iff fs v path in
    let same = traversal_eq path in
    (
      λ h. record {
        configured = ground arith;
        no_nul = ground arith;
        no_traversal = traversal.0 (ground arith);
        not_encoded = encoded.0 (ground arith);
        not_two_dots = dots.0 (ground arith);
        relative = elim (Bool-cases v.path_config.allow_absolute_paths) [
          | inl allowed ↦ inl allowed
          | inr refused ↦ inr (ground arith)
        ];
        within = resolution.0 (ground arith);
      },
      λ s.
          let ready = s.configured in
          let nul = s.no_nul in
          let a = traversal.1 s.no_traversal in
          let b = encoded.1 s.not_encoded in
          let c = dots.1 s.not_two_dots in
          let d = s.relative in let e = resolution.1 s.within in ground arith,
    )
