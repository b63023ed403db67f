-- ===== src/Json/Grammar/Nested.antt =====
-- `JsonParser::skip_container` of mcptoolkit/src/json/json_parser.cpp goes over any JSON value inside of a
-- container, up to the nesting limit.
use mcptoolkit.Prelude.{ℕ, ◌+◌, ◌≤◌, ◌≡◌, refl, ◌∙◌, ◌∷◌, Bytes, arith}
use mcptoolkit.Json.Scan.{outside, container_end, container_turn, going}
use mcptoolkit.Json.Grammar.{
  Value, null, bool, number, string, array, object, Items, no_items, item, Fields, no_fields, field,
  write_gap, write_string, write, write_items, comma_items, write_fields, comma_fields, depth,
  depth_items, depth_fields,
}
use mcptoolkit.Json.Grammar.Passes.{
  Kind, brackets, braces, open_byte, close_byte, scan, scan-neutral, scan-write_string,
  scan-write_gap, scan-write_number, scan-write_bool, scan-write_null,
}

scan-comma_items :
    (k : Kind) (d : ℕ) (items : Items) (s : Bytes) → scan k d (comma_items items s) ≡ scan k d s
scan-comma_items k d no_items s = refl
scan-comma_items k d (item _ _ _ _) s = scan-neutral k d b',' s refl

scan-comma_fields :
    (k : Kind) (d : ℕ) (fields : Fields) (s : Bytes) → scan k d (comma_fields fields s) ≡ scan k d s
scan-comma_fields k d no_fields s = refl
scan-comma_fields k d (field _ _ _ _ _ _ _) s = scan-neutral k d b',' s refl

-- The depth of the scan inside of a container of the first kind.
abbrev inner : Kind → Kind → ℕ → ℕ
inner brackets brackets d = d + 1
inner braces braces d = d + 1
inner _ _ d = d

inner_bounds : (o k : Kind) (d : ℕ) → (d ≤ inner o k d) × (inner o k d ≤ d + 1)
inner_bounds brackets brackets d = (omega arith, omega arith)
inner_bounds brackets braces d = (omega arith, omega arith)
inner_bounds braces brackets d = (omega arith, omega arith)
inner_bounds braces braces d = (omega arith, omega arith)

enter_turn :
    (o k : Kind) (d : ℕ)
    → d + 1 ≤ 64
    → container_turn (open_byte k) (close_byte k) outside d (open_byte o)
      ≡ going outside (inner o k d)
unfolding container_turn
enter_turn brackets brackets d h = ground arith
enter_turn brackets braces d h = ground arith
enter_turn braces brackets d h = ground arith
enter_turn braces braces d h = ground arith

leave_turn :
    (o k : Kind) (d : ℕ)
    → 1 ≤ d
    → container_turn (open_byte k) (close_byte k) outside (inner o k d) (close_byte o)
      ≡ going outside d
unfolding container_turn
leave_turn brackets brackets d h = ground arith
leave_turn brackets braces d h = ground arith
leave_turn braces brackets d h = ground arith
leave_turn braces braces d h = ground arith

-- A container in the scanned one: the byte that opens it and the one that closes it.
module _ (o k : Kind) (d : ℕ) (s : Bytes) where
  scan-open : d + 1 ≤ 64 → scan k d (open_byte o ∷ s) ≡ scan k (inner o k d) s
  unfolding container_end
  scan-open h = rw (enter_turn o k d h, container_end) refl

  scan-close : 1 ≤ d → scan k (inner o k d) (close_byte o ∷ s) ≡ scan k d s
  unfolding container_end
  scan-close h = rw (leave_turn o k d h, container_end) refl

mutual
  unfolding write depth

  pub scan-write_value :
      (k : Kind) (d : ℕ) (v : Value) (rest : Bytes)
      → 1 ≤ d
      → d + depth v ≤ 64
      → scan k d (write v rest) ≡ scan k d rest
  scan-write_value k d null rest one fits = scan-write_null k d rest
  scan-write_value k d (bool b) rest one fits = scan-write_bool k d b rest
  scan-write_value k d (number n) rest one fits = scan-write_number k d n rest
  scan-write_value k d (string pieces) rest one fits = scan-write_string k d pieces rest
  scan-write_value k d (array gap items) rest one fits =
      let bounds = inner_bounds brackets k d in
      scan-open brackets k d (write_gap gap (write_items items (b']' ∷ rest))) (omega arith)
      ∙ scan-write_gap k (inner brackets k d) gap (write_items items (b']' ∷ rest))
      ∙ scan-write_items k (inner brackets k d) items (b']' ∷ rest) (omega (arith, bounds))
          (omega (arith, bounds))
      ∙ scan-close brackets k d rest one
  scan-write_value k d (object gap fields) rest one fits =
      let bounds = inner_bounds braces k d in
      scan-open braces k d (write_gap gap (write_fields fields (b'}' ∷ rest))) (omega arith)
      ∙ scan-write_gap k (inner braces k d) gap (write_fields fields (b'}' ∷ rest))
      ∙ scan-write_fields k (inner braces k d) fields (b'}' ∷ rest) (omega (arith, bounds))
          (omega (arith, bounds))
      ∙ scan-close braces k d rest one

  pub scan-write_items :
      (k : Kind) (d : ℕ) (items : Items) (rest : Bytes)
      → 1 ≤ d
      → d + depth_items items ≤ 64
      → scan k d (write_items items rest) ≡ scan k d rest
  scan-write_items k d no_items rest one fits = refl
  scan-write_items k d (item before v behind items) rest one fits =
      let more = comma_items items (write_items items rest) in
      scan-write_gap k d before (write v (write_gap behind more))
      ∙ scan-write_value k d v (write_gap behind more) one (ground arith)
      ∙ scan-write_gap k d behind more
      ∙ scan-comma_items k d items (write_items items rest)
      ∙ scan-write_items k d items rest one (ground arith)

  pub scan-write_fields :
      (k : Kind) (d : ℕ) (fields : Fields) (rest : Bytes)
      → 1 ≤ d
      → d + depth_fields fields ≤ 64
      → scan k d (write_fields fields rest) ≡ scan k d rest
  scan-write_fields k d no_fields rest one fits = refl
  scan-write_fields k d (field before key behind_key before_value v behind fields) rest one fits =
      let more = comma_fields fields (write_fields fields rest) in
      let valued = write_gap before_value (write v (write_gap behind more)) in
      scan-write_gap k d before (write_string key (write_gap behind_key (b':' ∷ valued)))
      ∙ scan-write_string k d key (write_gap behind_key (b':' ∷ valued))
      ∙ scan-write_gap k d behind_key (b':' ∷ valued)
      ∙ scan-neutral k d b':' valued refl
      ∙ scan-write_gap k d before_value (write v (write_gap behind more))
      ∙ scan-write_value k d v (write_gap behind more) one (ground arith)
      ∙ scan-write_gap k d behind more
      ∙ scan-comma_fields k d fields (write_fields fields rest)
      ∙ scan-write_fields k d fields rest one (ground arith)
