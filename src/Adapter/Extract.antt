-- ===== src/Adapter/Extract.antt =====
-- `extract_string` and `extract_value_span` of mcptoolkit/src/mcp_adapter.cpp: they scan for a key
-- between quotes in a span, without parsing it. `p` is the suffix of the span that starts there.
use mathlib.Core.Option
use mcptoolkit.Prelude.{
  ℕ, suc, ◌+◌, ◌-◌, Bool, true, false, ◌||◌, Option, none, some, [], ◌∷◌, ltb, ◌==◌, if◌then◌else◌,
  length, drop, Bytes, is_prefix,
}
use mcptoolkit.Json.Scan.{quote, backslash, string_end, Place, outside, inside, escaped}

-- The blanks that the scan skips, without vertical tab and form feed.
unfoldable pub skip_blank : Bytes → Bytes
skip_blank [] = []
skip_blank (c ∷ s) = if c == 32 || c == 9 || c == 10 || c == 13 then skip_blank s else c ∷ s

-- What one quote of the scan leads to: the search goes on behind it, or ends with a result.
pub data Attempt {ℓ} (A : Type ℓ) : Type ℓ where
  next : Attempt A
  halt : A → Attempt A

-- Behind a quote: the key and its closing quote, and what follows; too short a rest ends the search.
unfoldable pub match_key : Bytes → Bytes → Attempt (Option Bytes)
match_key key p =
    if ltb (length p) (length key + 1)
    then halt none
    else if is_prefix key p
    then elim (drop (length key) p) [
      | [] ↦ next
      | c ∷ s ↦ if c == quote then halt (some s) else next
    ]
    else next

-- At the value's opening quote: the content and its length.
unfoldable pub string_value : Bytes → Attempt (Option (Bytes × ℕ))
unfolding string_end
string_value [] = next
string_value (c ∷ s) =
    if c == quote
    then halt (Option.map (λ rest. (s, length s - length rest - 1)) (string_end false s))
    else next

unfoldable pub after_colon : Bytes → Attempt (Option (Bytes × ℕ))
unfolding string_value skip_blank
after_colon [] = next
after_colon (c ∷ s) = if c == b':' then string_value (skip_blank s) else next

abbrev pub with_key :
    Attempt (Option Bytes) → (Bytes → Attempt (Option (Bytes × ℕ))) → Attempt (Option (Bytes × ℕ))
with_key next f = next
with_key (halt none) f = halt none
with_key (halt (some s)) f = f s

-- The body of the loop of `extract_string` behind a quote.
unfoldable pub try_string : Bytes → Bytes → Attempt (Option (Bytes × ℕ))
unfolding match_key after_colon
try_string key p = with_key (match_key key p) (λ s. after_colon (skip_blank s))

abbrev at_quote {ℓ} : {A : Type ℓ} → ℕ → Attempt A → Attempt A
at_quote c found = if c == quote then found else next

-- The string behind the first `"key":` whose value is a string: its start and length, no quotes.
unfoldable pub extract_string : Bytes → Bytes → Option (Bytes × ℕ)
unfolding try_string
extract_string key [] = none
extract_string key (c ∷ p) = elim (at_quote c (try_string key p)) [
  | next ↦ extract_string key p
  | halt found ↦ found
]

-- The first loop of `extract_value_span`: what follows the key and its closing quote.
unfoldable pub find_key : Bytes → Bytes → Option Bytes
unfolding match_key
find_key key [] = none
find_key key (c ∷ p) = elim (at_quote c (match_key key p)) [
  | next ↦ find_key key p
  | halt found ↦ found
]

-- One byte of the loop over a container; `none` leaves the loop behind the byte.
unfoldable pub span_turn : ℕ → ℕ → Place → ℕ → ℕ → Option (Place × ℕ)
span_turn open_byte close_byte inside depth c =
    if c == backslash
    then some (escaped, depth)
    else if c == quote
    then some (outside, depth)
    else some (inside, depth)
span_turn open_byte close_byte escaped depth c = some (inside, depth)
span_turn open_byte close_byte outside depth c =
    if c == quote
    then some (inside, depth)
    else if c == open_byte
    then some (outside, depth + 1)
    else if c == close_byte
    then if depth == 1 then none else some (outside, depth - 1)
    else some (outside, depth)

-- How far the loop moves `p`. A backslash that ends the span moves it one byte past the end.
unfoldable pub container_length : ℕ → ℕ → Place → ℕ → Bytes → ℕ
unfolding span_turn
container_length open_byte close_byte escaped depth [] = 1
container_length open_byte close_byte place depth [] = 0
container_length open_byte close_byte place depth (c ∷ s) =
    elim (span_turn open_byte close_byte place depth c) [
      | none ↦ 1
      | some (place', depth') ↦ suc (container_length open_byte close_byte place' depth' s)
    ]

-- The same for a string, behind its opening quote; the closing quote is counted where it is there.
unfoldable pub string_length : Bool → Bytes → ℕ
string_length true [] = 1
string_length false [] = 0
string_length true (c ∷ s) = suc (string_length false s)
string_length false (c ∷ s) = elim (c == quote) [
  | true ↦ 1
  | false ↦ suc (string_length (c == backslash) s)
]

-- Up to a comma or a closing bracket, for a number or a word.
unfoldable pub word_length : Bytes → ℕ
word_length [] = 0
word_length (c ∷ s) = if c == b',' || c == b'}' || c == b']' then 0 else suc (word_length s)

unfoldable pub value_length : Bytes → ℕ
unfolding container_length string_length word_length
value_length [] = 0
value_length (c ∷ s) =
    if c == b'{'
    then container_length b'{' b'}' outside 0 (c ∷ s)
    else if c == b'['
    then container_length b'[' b']' outside 0 (c ∷ s)
    else if c == quote
    then suc (string_length false s)
    else word_length (c ∷ s)

unfoldable pub value_at : Bytes → Option (Bytes × ℕ)
unfolding value_length
value_at [] = none
value_at (c ∷ s) = some (c ∷ s, value_length (c ∷ s))

unfoldable pub value_after_colon : Bytes → Option (Bytes × ℕ)
unfolding value_at skip_blank
value_after_colon [] = none
value_after_colon (c ∷ s) = if c == b':' then value_at (skip_blank s) else none

-- The raw value behind the first `"key"`: its start and length. A first occurrence that no colon
-- follows ends the search.
unfoldable pub extract_value_span : Bytes → Bytes → Option (Bytes × ℕ)
unfolding find_key value_after_colon
extract_value_span key json = elim (find_key key json) [
  | none ↦ none
  | some s ↦ value_after_colon (skip_blank s)
]
