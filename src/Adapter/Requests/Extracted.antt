-- ===== src/Adapter/Requests/Extracted.antt =====
-- What `extract_string` and `extract_value_span` of mcptoolkit/src/mcp_adapter.cpp find in the parameters of
-- a call. The scan of a container there agrees with the parser's in mcptoolkit/src/json/json_parser.cpp.
use mcptoolkit.Prelude.{
  ℕ, suc, ◌-◌, ◌≡◌, refl, ◌∙◌, ap, ◌⊎◌, append-nil, false, Option, none, some, [], ◌∷◌, ◌++◌, ◌≤◌,
  length, length-append, Bytes, codes, beq, contains_byte, inl, inr, arith,
}
use mcptoolkit.Json.Scan.{
  quote, Place, outside, inside, escaped, Turn, gone, closed, going, container_end, container_turn,
}
use mcptoolkit.Json.Grammar.{Gap, write_gap}
use mcptoolkit.Adapter.Replies.Object.{ClosesObject}
use mcptoolkit.Adapter.Requests.{string_end-IsPlain}
use mcptoolkit.Adapter.Tools.Scanned.{IsPlain}
use mcptoolkit.Adapter.Extract.{
  skip_blank, halt, string_value, after_colon, try_string, extract_string, with_key, find_key,
  span_turn, container_length, value_length, value_at, value_after_colon, extract_value_span,
}
use mcptoolkit.Adapter.Requests.Searched.{
  match_key-here, find_key-here, find_key-passes, find_key-string, find_key-gap, extract_string-gap,
  skip_blank-gap, length-write_gap, find_key-between,
}

Turn-cases :
    (t : Turn)
    → (t ≡ gone) ⊎ (t ≡ closed) ⊎ ((place : Place) × (depth : ℕ) × (t ≡ going place depth))
Turn-cases gone = inl refl
Turn-cases closed = inr (inl refl)
Turn-cases (going place depth) = inr (inr (place, depth, refl))

-- One byte: the two scans differ only where the parser's gives up at its nesting limit.
span_turn-going :
    (o e : ℕ) (place : Place) (depth c : ℕ) (place' : Place) (depth' : ℕ)
    → container_turn o e place depth c ≡ going place' depth'
    → span_turn o e place depth c ≡ some (place', depth')
unfolding container_turn span_turn
span_turn-going o e outside depth c place' depth' h = ground arith
span_turn-going o e inside depth c place' depth' h = ground arith
span_turn-going o e escaped depth c place' depth' h = ground arith

span_turn-closed :
    (o e : ℕ) (place : Place) (depth c : ℕ)
    → container_turn o e place depth c ≡ closed
    → span_turn o e place depth c ≡ none
unfolding container_turn span_turn
span_turn-closed o e outside depth c h = ground arith
span_turn-closed o e inside depth c h = ground arith
span_turn-closed o e escaped depth c h = ground arith

abbrev gives_up : Option Bytes
gives_up = none

-- Where the parser's scan of a container that is open at some depth ends behind a text, whatever follows,
-- the adapter's scan moves over exactly that text.
pub container_length-container_end :
    (o e : ℕ) (text rest : Bytes) (place : Place) (depth : ℕ)
    → ((more : Bytes) → container_end o e place depth (text ++ more) ≡ some more)
    → container_length o e place depth (text ++ rest) ≡ length text
unfolding container_end container_length
container_length-container_end o e [] rest place depth h = absurd (let q = h [] in cc)
container_length-container_end o e (c ∷ text) rest place depth h =
    elim (Turn-cases (container_turn o e place depth c)) [
      | inl t ↦
          let h0 = h [] in let q : gives_up ≡ some [] = rw (t, container_end) at h0 in absurd cc
      | inr (inl t) ↦
          let h0 = h [] in
          let q : some (text ++ []) ≡ some [] = rw (t, container_end) at h0 in
          let ended : text ≡ [] = let nil = append-nil text in cc in
          rw (span_turn-closed o e place depth c t, container_length) (rw ended refl)
      | inr (inr (place', depth', t)) ↦
          rw (span_turn-going o e place depth c place' depth' t, container_length)
            (ap suc (
              container_length-container_end o e text rest place' depth'
                (λ more. let hm = h more in rw (t, container_end) at hm)))
    ]

-- The blanks in the parameters of a call: in front of the name's key, behind it, in front of the name,
-- behind it, and so on for the arguments.
pub record Spacing : Type 0 where
  pub before_name : Gap
  pub behind_name : Gap
  pub before_text : Gap
  pub behind_text : Gap
  pub before_arguments : Gap
  pub behind_arguments : Gap
  pub before_object : Gap

module _ (spacing : Spacing) (name tail behind : Bytes) where
  -- What follows the key of the arguments, and what follows the name.
  abbrev arguments_at : Bytes
  arguments_at = b'{' ∷ (tail ++ behind)

  abbrev key_rest : Bytes
  key_rest =
      write_gap spacing.behind_arguments (b':' ∷ write_gap spacing.before_object arguments_at)

  abbrev arguments_member : Bytes
  arguments_member = codes "arguments" ++ quote ∷ key_rest

  abbrev pub name_rest : Bytes
  name_rest =
      write_gap spacing.behind_text
        (b',' ∷ write_gap spacing.before_arguments (quote ∷ arguments_member))

  abbrev named : Bytes
  named = name ++ quote ∷ name_rest

  abbrev name_member : Bytes
  name_member =
      codes "name"
      ++ quote
        ∷ write_gap spacing.behind_name (b':' ∷ write_gap spacing.before_text (quote ∷ named))

  -- The parameters of a call, behind their brace: the name, the object of the arguments, and what
  -- stands behind it.
  abbrev pub call_tail : Bytes
  call_tail = write_gap spacing.before_name (quote ∷ name_member)

  extract_string-here :
      (key p : Bytes) (found : Option (Bytes × ℕ))
      → try_string key p ≡ halt found
      → extract_string key (quote ∷ p) ≡ found
  unfolding extract_string
  extract_string-here key p found h = rw (h, extract_string) refl

  string_value-name : IsPlain name → string_value (quote ∷ named) ≡ halt (some (named, length name))
  unfolding string_value
  string_value-name plain =
      let found = string_end-IsPlain name plain name_rest in
      let size : length named - length name_rest - 1 ≡ length name =
        omega (arith, length-append name (quote ∷ name_rest)) in
      rw found (rw size refl)

  try_string-name :
      IsPlain name → try_string (codes "name") name_member ≡ halt (some (named, length name))
  unfolding try_string after_colon skip_blank
  try_string-name plain =
      let colon = b':' ∷ write_gap spacing.before_text (quote ∷ named) in
      ap (λ m. with_key m (λ s. after_colon (skip_blank s)))
        (match_key-here (codes "name") (write_gap spacing.behind_name colon))
      ∙ ap after_colon (skip_blank-gap spacing.behind_name colon)
      ∙ ap string_value (skip_blank-gap spacing.before_text (quote ∷ named))
      ∙ string_value-name plain

  -- The tool's name is found.
  pub extract_string-call :
      IsPlain name → extract_string (codes "name") (b'{' ∷ call_tail) ≡ some (named, length name)
  unfolding extract_string
  extract_string-call plain =
      extract_string-gap (codes "name") spacing.before_name (quote ∷ name_member)
      ∙ extract_string-here (codes "name") name_member _ (try_string-name plain)

  long_enough : 9 ≤ length arguments_member
  long_enough = omega arith

  long_behind : 10 ≤ length name_rest
  long_behind = omega (
    arith,
    long_enough,
    length-write_gap spacing.before_arguments (quote ∷ arguments_member),
    length-write_gap spacing.behind_text
        (b',' ∷ write_gap spacing.before_arguments (quote ∷ arguments_member)),
  )

  find_key-call :
      contains_byte quote name ≡ false
      → beq name (codes "arguments") ≡ false
      → find_key (codes "arguments") (b'{' ∷ call_tail) ≡ some key_rest
  unfolding contains_byte beq
  find_key-call plain other =
      let key = codes "arguments" in
      let colon = b':' ∷ write_gap spacing.before_text (quote ∷ named) in
      let sized = length-append name (quote ∷ name_rest) in
      let far = long_behind in
      let first = length-write_gap spacing.before_text (quote ∷ named) in
      let second = length-write_gap spacing.behind_name colon in
      find_key-passes key (b'{' ∷ []) call_tail refl
      ∙ find_key-gap key spacing.before_name (quote ∷ name_member)
      ∙ find_key-string key (codes "name") (write_gap spacing.behind_name colon) refl refl refl
          (omega (arith, sized, far, first, second))
      ∙ find_key-between b':' refl refl spacing.before_text named (omega (arith, sized, far))
          spacing.behind_name
      ∙ find_key-string key name name_rest refl plain other (omega (arith, sized, far))
      ∙ find_key-between b',' refl refl spacing.before_arguments arguments_member long_enough
          spacing.behind_text
      ∙ find_key-here key key_rest

  -- The object of the arguments is found, where the tool has another name than their key.
  pub extract_value_span-call :
      IsPlain name
      → ClosesObject tail
      → beq name (codes "arguments") ≡ false
      → extract_value_span (codes "arguments") (b'{' ∷ call_tail)
        ≡ some (arguments_at, suc (length tail))
  unfolding extract_value_span value_after_colon value_at value_length skip_blank container_length
      span_turn
  extract_value_span-call (plain, straight) closes other =
      ap (λ found. elim found [ none ↦ none | some s ↦ value_after_colon (skip_blank s) ])
        (find_key-call plain other)
      ∙ ap value_after_colon (
          skip_blank-gap spacing.behind_arguments
            (b':' ∷ write_gap spacing.before_object arguments_at))
      ∙ ap value_at (skip_blank-gap spacing.before_object arguments_at)
      ∙ ap (λ n. some (arguments_at, suc n))
          (container_length-container_end b'{' b'}' tail behind outside 1 closes)
