-- ===== src/Sanitizer/Redaction.antt =====
-- What `redact_paths` of mcptoolkit/src/response_sanitizer.cpp leaves: no path, and all else.
use mcptoolkit.Prelude.{
  ℕ, ◌≤◌, ◌≡◌, refl, sym, ◌∙◌, ap, ◌↔◌, Bool, true, false, ◌||◌, Option, none, some, [], ◌∷◌, ◌++◌,
  ◌==◌, Bool-cases, inl, inr, back, Bytes, codes, true_not_false, contains_byte, arith,
}
use mcptoolkit.Sanitizer.{slash_count, starts_path, is_path, redacted, redact_from, redact_paths}

-- A path: it stands at the start of the text or behind white space, begins with a slash, and has
-- another one before the next space.
abbrev pub HasPath : Bytes → Type 0
HasPath text =
    (before : Bytes) × (word : Bytes) × (rest : Bytes) × (text
      ≡ before ++ (b'/' ∷ (word ++ (b'/' ∷ rest))))
    × (contains_byte 32 word ≡ false)
    × (starts_path (back before) ≡ true)

-- The same as a test on the suffix behind `before`.
unfoldable has_path : Option ℕ → Bytes → Bool
has_path before [] = false
has_path before (c ∷ s) = is_path before c s || has_path (some c) s

is_path_iff :
    (before : Option ℕ) (c : ℕ) (s : Bytes)
    → (is_path before c s ≡ true) ↔ ((c ≡ b'/') × (starts_path before ≡ true) × (1 ≤ slash_count s))
unfolding is_path
is_path_iff before c s = (
  λ h. let slash : c ≡ b'/' = ground arith in (slash, ground arith, ground arith),
  λ (slash, start, more). rw slash (ground arith),
)

-- The byte in front of what follows `s`, where `before` stands in front of `s`.
abbrev last_of : Option ℕ → Bytes → Option ℕ
last_of before [] = before
last_of before (c ∷ s) = last_of (some c) s

last_of-back : (c : ℕ) (s : Bytes) → last_of (some c) s ≡ back (c ∷ s)
last_of-back c [] = refl
last_of-back c (d ∷ s) = last_of-back d s

last_of-none : (s : Bytes) → last_of none s ≡ back s
last_of-none [] = refl
last_of-none (c ∷ s) = last_of-back c s

slash_count-word :
    (word rest : Bytes) → contains_byte 32 word ≡ false → 1 ≤ slash_count (word ++ (b'/' ∷ rest))
unfolding slash_count contains_byte
slash_count-word [] rest h = omega arith
slash_count-word (c ∷ word) rest h = ground (arith, slash_count-word word rest)

has_path_complete :
    (before : Option ℕ) (front word rest : Bytes)
    → contains_byte 32 word ≡ false
    → starts_path (last_of before front) ≡ true
    → has_path before (front ++ (b'/' ∷ (word ++ (b'/' ∷ rest)))) ≡ true
unfolding has_path
has_path_complete before [] word rest h k =
    let here =
      (is_path_iff before b'/' (word ++ (b'/' ∷ rest))).1 (refl, k, slash_count-word word rest h) in
    rw here refl
has_path_complete before (c ∷ front) word rest h k =
    ground (arith, has_path_complete (some c) front word rest)

slash_count-split :
    (s : Bytes)
    → 1 ≤ slash_count s
    → (word : Bytes) × (rest : Bytes) × (s ≡ word ++ (b'/' ∷ rest))
      × (contains_byte 32 word ≡ false)
unfolding slash_count contains_byte
slash_count-split [] h = absurd (omega arith)
slash_count-split (c ∷ s) h = elim (Bool-cases (c == b'/')) [
  | inl slash ↦ ([], s, ground arith, refl)
  | inr other ↦ elim (Bool-cases (c == 32)) [
    | inl space ↦ absurd (ground arith)
    | inr inside ↦
        let (word, rest, e, clean) = slash_count-split s (ground arith) in
        (c ∷ word, rest, ap (◌∷◌ c) e, ground arith)
  ]
]

has_path_sound :
    (before : Option ℕ) (s : Bytes)
    → has_path before s ≡ true
    → (front : Bytes) × (word : Bytes) × (rest : Bytes) × (s
        ≡ front ++ (b'/' ∷ (word ++ (b'/' ∷ rest))))
      × (contains_byte 32 word ≡ false)
      × (starts_path (last_of before front) ≡ true)
unfolding has_path
has_path_sound before [] h = cc
has_path_sound before (c ∷ s) h = elim (Bool-cases (is_path before c s)) [
  | inl here ↦
      let (slash, start, more) = (is_path_iff before c s).0 here in
      let (word, rest, e, clean) = slash_count-split s more in
      ([], word, rest, rw (slash, e) refl, clean, start)
  | inr later ↦
      let (front, word, rest, e, clean, start) = has_path_sound (some c) s (ground arith) in
      (c ∷ front, word, rest, ap (◌∷◌ c) e, clean, start)
]

-- The two kinds of round.
redact_from-path :
    (before : Option ℕ) (c : ℕ) (s : Bytes)
    → is_path before c s ≡ true
    → redact_from false before (c ∷ s) ≡ redacted ++ redact_from true (some b']') s
unfolding redact_from
redact_from-path before c s h = rw (h, redact_from) refl

redact_from-plain :
    (before : Option ℕ) (c : ℕ) (s : Bytes)
    → is_path before c s ≡ false
    → redact_from false before (c ∷ s) ≡ c ∷ redact_from false (some c) s
unfolding redact_from
redact_from-plain before c s h = rw (h, redact_from) refl

slash_count-skipped : (before : Option ℕ) (s : Bytes) → slash_count (redact_from true before s) ≡ 0
unfolding slash_count redact_from
slash_count-skipped before [] = refl
slash_count-skipped before (c ∷ s) = elim (Bool-cases (c == 32)) [
  | inl space ↦ let same : c ≡ 32 = ground arith in rw same refl
  | inr other ↦ rw (other, redact_from) (slash_count-skipped before s)
]

-- Redaction does not add to the slashes of a word.
slash_count-redacted :
    (before : Option ℕ) (s : Bytes) → slash_count (redact_from false before s) ≤ slash_count s
unfolding slash_count
slash_count-redacted before [] = unfold redact_from in omega arith
slash_count-redacted before (c ∷ s) = elim (Bool-cases (is_path before c s)) [
  | inl path ↦
      let (slash, _, _) = (is_path_iff before c s).0 path in
      rw (redact_from-path before c s path, slash)
        (rw (slash_count-skipped (some b']') s) (omega arith))
  | inr plain ↦
      rw (redact_from-plain before c s plain) (ground (arith, slash_count-redacted (some c) s))
]

-- A slash alone in its word is no path.
is_path-lone : (before : Option ℕ) (s : Bytes) → slash_count s ≡ 0 → is_path before b'/' s ≡ false
unfolding is_path slash_count
is_path-lone before s h = ground arith

has_path-marked :
    (before : Option ℕ) (s : Bytes)
    → slash_count s ≡ 0
    → has_path (some b']') s ≡ false
    → has_path before (redacted ++ s) ≡ false
unfolding has_path
has_path-marked before s h k =
    let lone = is_path-lone before (codes "[PATH]" ++ s) (unfold slash_count in h) in
    rw (lone, has_path) (unfold is_path in k)

is_path-space : (before : Option ℕ) (s : Bytes) → is_path before 32 s ≡ false
unfolding is_path
is_path-space before s = refl

is_path-fewer :
    (before : Option ℕ) (c : ℕ) (s r : Bytes)
    → is_path before c s ≡ false
    → slash_count r ≤ slash_count s
    → is_path before c r ≡ false
unfolding is_path slash_count
is_path-fewer before c s r h le = ground arith

has_path-cons :
    (before : Option ℕ) (c : ℕ) (s : Bytes)
    → is_path before c s ≡ false
    → has_path before (c ∷ s) ≡ has_path (some c) s
unfolding has_path
has_path-cons before c s h = rw (h, has_path) refl

redact_from-space :
    (before : Option ℕ) (s : Bytes)
    → redact_from true before (32 ∷ s) ≡ 32 ∷ redact_from false (some 32) s
unfolding redact_from
redact_from-space before s = refl

redact_from-inside :
    (before : Option ℕ) (c : ℕ) (s : Bytes)
    → (c == 32) ≡ false
    → redact_from true before (c ∷ s) ≡ redact_from true before s
unfolding redact_from
redact_from-inside before c s h = rw (h, redact_from) refl

-- Behind a redacted path (`skipping`) and elsewhere, redacted text has no path.
has_path-redacted :
    (skipping : Bool) (before after : Option ℕ) (s : Bytes)
    → (skipping ≡ false → before ≡ after)
    → has_path before (redact_from skipping after s) ≡ false
has_path-redacted true before after [] h = unfold redact_from has_path in refl
has_path-redacted false before after [] h = unfold redact_from has_path in refl
has_path-redacted true before after (c ∷ s) h = elim (Bool-cases (c == 32)) [
  | inl space ↦
      let same : c ≡ 32 = ground arith in
      let later = has_path-redacted false (some 32) (some 32) s (λ e. refl) in
      rw (same, redact_from-space after s)
        (has_path-cons before 32 (redact_from false (some 32) s)
            (is_path-space before (redact_from false (some 32) s))
          ∙ later)
  | inr other ↦
      let later = has_path-redacted true before after s (λ e. cc) in
      rw (redact_from-inside after c s other) later
]
has_path-redacted false before after (c ∷ s) h = elim (Bool-cases (is_path after c s)) [
  | inl path ↦ rw (redact_from-path after c s path) (
      has_path-marked before (redact_from true (some b']') s) (slash_count-skipped (some b']') s)
        (has_path-redacted true (some b']') (some b']') s (λ e. cc)))
  | inr plain ↦
      let later = has_path-redacted false (some c) (some c) s (λ e. refl) in
      let lone =
        is_path-fewer before c s (redact_from false (some c) s) (rw (h refl) plain)
          (slash_count-redacted (some c) s) in
      rw (redact_from-plain after c s plain)
        (has_path-cons before c (redact_from false (some c) s) lone ∙ later)
]

-- No path is left in the redacted text.
pub redact_paths-no_path : (text : Bytes) → ¬ HasPath (redact_paths text)
unfolding redact_paths
redact_paths-no_path text (before, word, rest, e, clean, start) =
    let found = has_path_complete none before word rest clean (rw (last_of-none before) start) in
    let none_found = has_path-redacted false none none text (λ q. refl) in
    absurd (true_not_false (sym found ∙ ap (has_path none) (sym e) ∙ none_found))

redact_from-same :
    (before : Option ℕ) (s : Bytes) → has_path before s ≡ false → redact_from false before s ≡ s
unfolding has_path
redact_from-same before [] h = unfold redact_from in refl
redact_from-same before (c ∷ s) h =
    redact_from-plain before c s (ground arith)
    ∙ ap (◌∷◌ c) (redact_from-same (some c) s (ground arith))

-- A text without a path is left as it is.
pub redact_paths-same : (text : Bytes) → ¬ HasPath text → redact_paths text ≡ text
unfolding redact_paths
redact_paths-same text clear = redact_from-same none text (elim (Bool-cases (has_path none text)) [
  | inl found ↦
      let (front, word, rest, e, clean, start) = has_path_sound none text found in
      absurd (clear (front, word, rest, e, clean, rw (← last_of-none front) start))
  | inr miss ↦ miss
])
