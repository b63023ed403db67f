-- ===== src/Adapter/Requests/Searched.antt =====
-- How the search of `extract_string` and `extract_value_span` in mcptoolkit/src/mcp_adapter.cpp goes over
-- blanks and over texts between quotes.
use mcptoolkit.Prelude.{
  ℕ, ◌+◌, ◌≡◌, refl, ◌∙◌, true, false, some, [], ◌∷◌, ◌++◌, ltb, ◌==◌, ◌≤◌, length, length-append,
  drop, Bytes, codes, beq, is_prefix, is_prefix-append, drop-append, contains_byte, Bool-cases, inl,
  inr, arith,
}
use mcptoolkit.Json.Scan.{quote}
use mcptoolkit.Json.Grammar.{
  Blank, space, tab, line_feed, carriage_return, Gap, blank_byte, write_gap,
}
use mcptoolkit.Adapter.Extract.{skip_blank, next, halt, match_key, extract_string, find_key}

-- Behind the bytes of a key that the text of a name starts with stands no quote, unless the name is the key.
behind_key :
    (key name rest : Bytes)
    → contains_byte quote key ≡ false
    → contains_byte quote name ≡ false
    → beq name key ≡ false
    → is_prefix key (name ++ quote ∷ rest) ≡ true
    → (c : ℕ) × (s : Bytes) × (drop (length key) (name ++ quote ∷ rest) ≡ c ∷ s)
      × ((c == quote) ≡ false)
unfolding contains_byte beq is_prefix
behind_key [] [] rest k n other prefix = absurd cc
behind_key [] (c ∷ name) rest k n other prefix = (c, name ++ quote ∷ rest, refl, ground arith)
behind_key (k ∷ key) [] rest no_quote n other prefix = absurd (ground arith)
behind_key (k ∷ key) (c ∷ name) rest no_quote n other prefix =
    behind_key key name rest (ground arith) (ground arith) (ground arith) (ground arith)

-- The text of a name is not the key, however the name starts.
match_key-other :
    (key name rest : Bytes)
    → contains_byte quote key ≡ false
    → contains_byte quote name ≡ false
    → beq name key ≡ false
    → length key + 1 ≤ length (name ++ quote ∷ rest)
    → match_key key (name ++ quote ∷ rest) ≡ next
unfolding match_key
match_key-other key name rest k n other fits =
    let long : ltb (length (name ++ quote ∷ rest)) (length key + 1) ≡ false = ground arith in
    elim (Bool-cases (is_prefix key (name ++ quote ∷ rest))) [
      | inl prefix ↦
          let (c, s, e, not_quote) = behind_key key name rest k n other prefix in
          simp (long, prefix, e, not_quote)
      | inr no_prefix ↦ simp (long, no_prefix)
    ]

module _ (key : Bytes) where
  pub match_key-here : (rest : Bytes) → match_key key (key ++ quote ∷ rest) ≡ halt (some rest)
  unfolding match_key
  match_key-here rest =
      let long : ltb (length (key ++ quote ∷ rest)) (length key + 1) ≡ false =
        ground (arith, length-append key (quote ∷ rest)) in
      rw (long, is_prefix-append key (quote ∷ rest), drop-append key (quote ∷ rest)) refl

  pub find_key-here : (rest : Bytes) → find_key key (quote ∷ (key ++ quote ∷ rest)) ≡ some rest
  unfolding find_key
  find_key-here rest = rw (match_key-here rest, find_key) refl

  -- The search passes over bytes that are no quotes.
  pub find_key-passes :
      (name rest : Bytes)
      → contains_byte quote name ≡ false
      → find_key key (name ++ rest) ≡ find_key key rest
  unfolding find_key contains_byte
  find_key-passes [] rest h = refl
  find_key-passes (c ∷ name) rest h =
      let later = find_key-passes name rest (ground arith) in
      let no_quote : (c == quote) ≡ false = ground arith in ground arith

  -- The search passes over a text between quotes that is not the key, up to the closing quote.
  pub find_key-string :
      (name rest : Bytes)
      → contains_byte quote key ≡ false
      → contains_byte quote name ≡ false
      → beq name key ≡ false
      → length key + 1 ≤ length (name ++ quote ∷ rest)
      → find_key key (quote ∷ (name ++ quote ∷ rest)) ≡ find_key key (quote ∷ rest)
  unfolding find_key
  find_key-string name rest k n other fits =
      rw (match_key-other key name rest k n other fits, find_key)
        (find_key-passes name (quote ∷ rest) n)

  pub find_key-gap : (gap : Gap) (s : Bytes) → find_key key (write_gap gap s) ≡ find_key key s
  unfolding find_key
  find_key-gap [] s = refl
  find_key-gap (space ∷ gap) s = find_key-gap gap s
  find_key-gap (tab ∷ gap) s = find_key-gap gap s
  find_key-gap (line_feed ∷ gap) s = find_key-gap gap s
  find_key-gap (carriage_return ∷ gap) s = find_key-gap gap s

  pub extract_string-gap :
      (gap : Gap) (s : Bytes) → extract_string key (write_gap gap s) ≡ extract_string key s
  unfolding extract_string
  extract_string-gap [] s = refl
  extract_string-gap (space ∷ gap) s = extract_string-gap gap s
  extract_string-gap (tab ∷ gap) s = extract_string-gap gap s
  extract_string-gap (line_feed ∷ gap) s = extract_string-gap gap s
  extract_string-gap (carriage_return ∷ gap) s = extract_string-gap gap s

pub skip_blank-gap : (gap : Gap) (s : Bytes) → skip_blank (write_gap gap s) ≡ skip_blank s
unfolding skip_blank
skip_blank-gap [] s = refl
skip_blank-gap (space ∷ gap) s = skip_blank-gap gap s
skip_blank-gap (tab ∷ gap) s = skip_blank-gap gap s
skip_blank-gap (line_feed ∷ gap) s = skip_blank-gap gap s
skip_blank-gap (carriage_return ∷ gap) s = skip_blank-gap gap s

pub length-write_gap : (gap : Gap) (s : Bytes) → length s ≤ length (write_gap gap s)
length-write_gap [] s = omega arith
length-write_gap (b ∷ gap) s = omega (arith, length-write_gap gap s)

-- A quote that closes a text is not taken for the one in front of the key.
match_key-arguments :
    (c : ℕ) (s : Bytes)
    → (c == b'a') ≡ false
    → 9 ≤ length s
    → match_key (codes "arguments") (c ∷ s) ≡ next
unfolding match_key is_prefix
match_key-arguments c s other fits =
    let long : ltb (length (c ∷ s)) 10 ≡ false = ground arith in
    let differs : (b'a' == c) ≡ false = ground arith in simp (long, differs)

-- From a closing quote the search goes on at the next quote, over a colon or a comma among blanks.
module _ (c : ℕ) (no_a : (c == b'a') ≡ false) (no_quote : (c == quote) ≡ false) (after : Gap)
    (s : Bytes) (fits : 9 ≤ length s) where
  abbrev onwards : Bytes
  onwards = c ∷ write_gap after (quote ∷ s)

  match_key-between : (gap : Gap) → match_key (codes "arguments") (write_gap gap onwards) ≡ next
  match_key-between [] =
      match_key-arguments c (write_gap after (quote ∷ s)) no_a
        (omega (arith, fits, length-write_gap after (quote ∷ s)))
  match_key-between (b ∷ gap) =
      match_key-arguments (blank_byte b) (write_gap gap onwards) (blank-other b)
        (omega (arith, fits, length-write_gap gap onwards, length-write_gap after (quote ∷ s)))
    where
      blank-other : (b : Blank) → (blank_byte b == b'a') ≡ false
      blank-other space = refl
      blank-other tab = refl
      blank-other line_feed = refl
      blank-other carriage_return = refl

  pub find_key-between :
      (gap : Gap)
      → find_key (codes "arguments") (quote ∷ write_gap gap onwards)
        ≡ find_key (codes "arguments") (quote ∷ s)
  unfolding find_key contains_byte
  find_key-between gap =
      let key = codes "arguments" in
      let one : contains_byte quote (c ∷ []) ≡ false = ground arith in
      rw (match_key-between gap, find_key)
        (find_key-gap key gap onwards
          ∙ find_key-passes key (c ∷ []) (write_gap after (quote ∷ s)) one
          ∙ find_key-gap key after (quote ∷ s))
