-- ===== src/Validation/Shell.antt =====
-- `escape_shell_argument` of mcptoolkit/src/input_validation.cpp against the way a POSIX shell reads a
-- word: between single quotes every byte stands for itself, and outside of them a backslash quotes the
-- byte behind it.
use mcptoolkit.Prelude.{
  ℕ, ◌≡◌, refl, true, false, Option, none, some, [], ◌∷◌, ◌++◌, ◌==◌, if◌then◌else◌, Bool-cases,
  inl, inr, Bytes, codes, contains_byte, arith,
}
use mcptoolkit.Validation.{metacharacters, escape_quotes, escape_shell_argument}

-- Where the reading of a word stands.
pub data Quoting : Type 0 where
  unquoted single_quoted backslashed : Quoting

-- A byte that means something to the shell outside of quotes: it would end the word or start an
-- expansion. The list goes beyond the one of the source.
abbrev pub special : Bytes
special = 34 ∷ 9 ∷ codes "<>*?[#~=%!{}" ++ metacharacters

-- The value of one shell word, or `none` if the word ends early, expands, or is not closed. The command is
-- a C string: it ends at a NUL.
unfoldable pub shell_word : Quoting → Bytes → Option Bytes
shell_word unquoted [] = some []
shell_word single_quoted [] = none
shell_word backslashed [] = none
shell_word single_quoted (c ∷ s) =
    let inside = shell_word single_quoted s in
    let outside = shell_word unquoted s in
    if c == 0
    then none
    else if c == 39
    then outside
    else elim inside [ none ↦ none | some v ↦ some (c ∷ v) ]
shell_word backslashed (c ∷ s) =
    let behind = shell_word unquoted s in
    if c == 0 then none else elim behind [ none ↦ none | some v ↦ some (c ∷ v) ]
shell_word unquoted (c ∷ s) =
    let quoted = shell_word single_quoted s in
    let escaped = shell_word backslashed s in
    let plain = shell_word unquoted s in
    if c == 0
    then some []
    else if c == 39
    then quoted
    else if c == 92
    then escaped
    else if contains_byte c special
    then none
    else elim plain [ none ↦ none | some v ↦ some (c ∷ v) ]

contains_byte-behind :
    (b c : ℕ) (s : Bytes)
    → contains_byte b (c ∷ s) ≡ false
    → ((c == b) ≡ false) × (contains_byte b s ≡ false)
unfolding contains_byte
contains_byte-behind b c s h = (ground arith, ground arith)

quote_byte : (c : ℕ) → (c == 39) ≡ true → c ≡ 39
quote_byte c h = ground arith

shell_word-escape_quotes :
    (arg : Bytes)
    → contains_byte 0 arg ≡ false
    → shell_word single_quoted (escape_quotes arg ++ (39 ∷ [])) ≡ some arg
unfolding shell_word escape_quotes
shell_word-escape_quotes [] h = refl
shell_word-escape_quotes (c ∷ arg) h =
    let (no_nul, none_behind) = contains_byte-behind 0 c arg h in
    let later = shell_word-escape_quotes arg none_behind in
    elim (Bool-cases (c == 39)) [
      | inl quote ↦ rw quote (rw (quote_byte c quote, later))
      | inr other ↦ rw other (rw (no_nul, other, later))
    ]

-- Whatever bytes but a NUL an argument has, a shell reads its escaped form as one word with these bytes as
-- its value.
pub shell_word-escape_shell_argument :
    (arg : Bytes)
    → contains_byte 0 arg ≡ false
    → shell_word unquoted (escape_shell_argument arg) ≡ some arg
unfolding shell_word escape_shell_argument
shell_word-escape_shell_argument arg h = shell_word-escape_quotes arg h
