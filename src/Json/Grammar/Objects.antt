-- ===== src/Json/Grammar/Objects.antt =====
-- The text of a JSON value in front of another text, and that of an object behind its opening brace.
use mcptoolkit.Prelude.{
  ◌+◌, ◌≤◌, ◌≡◌, refl, sym, ◌∙◌, ap, true, false, ◌||◌, [], ◌∷◌, ◌++◌, ◌==◌, Bytes, List, ℕ,
  if◌then◌else◌, Bool-cases, inl, inr,
}
use mcptoolkit.Json.Scan.{quote, backslash, container_end, outside}
use mcptoolkit.Json.Grammar.{
  Piece, plain, escape, Gap, unsigned, plus, minus, Exponent, no_exponent, exponent, Fraction,
  no_fraction, fraction, Number, Value, null, bool, number, string, array, object, Items, no_items,
  item, Fields, no_fields, field, write_gap, write_pieces, write_string, digit, write_digits,
  write_exponent, write_fraction, write_behind_first, write_number, comma_items, comma_fields,
  write, write_items, write_fields, depth_fields, blank_byte,
}
use mcptoolkit.Json.Grammar.Passes.{braces, scan-write_gap}
use mcptoolkit.Json.Grammar.Nested.{scan-write_fields}

module _ (b : Bytes) where
  write_gap-append : (gap : Gap) (a : Bytes) → write_gap gap (a ++ b) ≡ write_gap gap a ++ b
  write_gap-append [] a = refl
  write_gap-append (x ∷ gap) a = ap (◌∷◌ (blank_byte x)) (write_gap-append gap a)

  pub write_pieces-append :
      (pieces : List Piece) (a : Bytes) → write_pieces pieces (a ++ b) ≡ write_pieces pieces a ++ b
  write_pieces-append [] a = refl
  write_pieces-append (plain c ∷ pieces) a =
      let later = write_pieces-append pieces a in
      elim (Bool-cases (c == quote || c == backslash)) [
        | inl needed ↦ simp needed (ap (λ t. backslash ∷ c ∷ t) later)
        | inr free ↦ simp free (ap (◌∷◌ c) later)
      ]
  write_pieces-append (escape c ∷ pieces) a =
      ap (λ t. backslash ∷ c ∷ t) (write_pieces-append pieces a)

  write_string-append :
      (pieces : List Piece) (a : Bytes) → write_string pieces (a ++ b) ≡ write_string pieces a ++ b
  write_string-append pieces a = ap (◌∷◌ quote) (write_pieces-append pieces (quote ∷ a))

  write_digits-append :
      (ns : List ℕ) (a : Bytes) → write_digits ns (a ++ b) ≡ write_digits ns a ++ b
  write_digits-append [] a = refl
  write_digits-append (n ∷ ns) a = ap (◌∷◌ (digit n)) (write_digits-append ns a)

  write_exponent-append :
      (e : Exponent) (a : Bytes) → write_exponent e (a ++ b) ≡ write_exponent e a ++ b
  write_exponent-append no_exponent a = refl
  write_exponent-append (exponent upper unsigned first more) a =
      ap (λ t. (if upper then b'E' else b'e') ∷ digit first ∷ t) (write_digits-append more a)
  write_exponent-append (exponent upper plus first more) a =
      ap (λ t. (if upper then b'E' else b'e') ∷ b'+' ∷ digit first ∷ t) (write_digits-append more a)
  write_exponent-append (exponent upper minus first more) a =
      ap (λ t. (if upper then b'E' else b'e') ∷ b'-' ∷ digit first ∷ t) (write_digits-append more a)

  write_fraction-append :
      (f : Fraction) (a : Bytes) → write_fraction f (a ++ b) ≡ write_fraction f a ++ b
  write_fraction-append no_fraction a = refl
  write_fraction-append (fraction first more) a =
      ap (λ t. b'.' ∷ digit first ∷ t) (write_digits-append more a)

  write_number-append : (n : Number) (a : Bytes) → write_number n (a ++ b) ≡ write_number n a ++ b
  write_number-append n a =
      let behind : write_behind_first n (a ++ b) ≡ write_behind_first n a ++ b =
        ap (λ t. write_digits n.more (write_fraction n.behind_point t))
          (write_exponent-append n.scaled a)
        ∙ ap (write_digits n.more)
            (write_fraction-append n.behind_point (write_exponent n.scaled a))
        ∙ write_digits-append n.more (write_fraction n.behind_point (write_exponent n.scaled a)) in
      elim (Bool-cases n.is_negative) [
        | inl below ↦ simp below (ap (λ t. b'-' ∷ digit n.first ∷ t) behind)
        | inr above ↦ simp above (ap (◌∷◌ (digit n.first)) behind)
      ]

  comma_items-append :
      (items : Items) (a : Bytes) → comma_items items (a ++ b) ≡ comma_items items a ++ b
  comma_items-append no_items a = refl
  comma_items-append (item _ _ _ _) a = refl

  comma_fields-append :
      (fields : Fields) (a : Bytes) → comma_fields fields (a ++ b) ≡ comma_fields fields a ++ b
  comma_fields-append no_fields a = refl
  comma_fields-append (field _ _ _ _ _ _ _) a = refl

  mutual
    unfolding write

    pub write_value-append : (v : Value) (a : Bytes) → write v (a ++ b) ≡ write v a ++ b
    write_value-append null a = refl
    write_value-append (bool true) a = refl
    write_value-append (bool false) a = refl
    write_value-append (number n) a = write_number-append n a
    write_value-append (string pieces) a = write_string-append pieces a
    write_value-append (array gap items) a = ap (◌∷◌ b'[') (
        ap (write_gap gap) (write_items-append items (b']' ∷ a))
        ∙ write_gap-append gap (write_items items (b']' ∷ a)))
    write_value-append (object gap fields) a = ap (◌∷◌ b'{') (
        ap (write_gap gap) (write_fields-append fields (b'}' ∷ a))
        ∙ write_gap-append gap (write_fields fields (b'}' ∷ a)))

    write_items-append :
        (items : Items) (a : Bytes) → write_items items (a ++ b) ≡ write_items items a ++ b
    write_items-append no_items a = refl
    write_items-append (item before v behind items) a =
        let more = comma_items items (write_items items a) in
        ap (λ t. write_gap before (write v (write_gap behind (comma_items items t))))
          (write_items-append items a)
        ∙ ap (λ t. write_gap before (write v (write_gap behind t)))
            (comma_items-append items (write_items items a))
        ∙ ap (λ t. write_gap before (write v t)) (write_gap-append behind more)
        ∙ ap (write_gap before) (write_value-append v (write_gap behind more))
        ∙ write_gap-append before (write v (write_gap behind more))

    write_fields-append :
        (fields : Fields) (a : Bytes) → write_fields fields (a ++ b) ≡ write_fields fields a ++ b
    write_fields-append no_fields a = refl
    write_fields-append (field before key behind_key before_value v behind fields) a =
        let more = comma_fields fields (write_fields fields a) in
        let valued = write v (write_gap behind more) in
        let keyed = write_gap behind_key (b':' ∷ write_gap before_value valued) in
        let open_text : Bytes → Bytes = λ t.
          write_gap before
            (write_string key (write_gap behind_key (b':' ∷ write_gap before_value t))) in
        ap (λ t. open_text (write v (write_gap behind (comma_fields fields t))))
          (write_fields-append fields a)
        ∙ ap (λ t. open_text (write v (write_gap behind t)))
            (comma_fields-append fields (write_fields fields a))
        ∙ ap (λ t. open_text (write v t)) (write_gap-append behind more)
        ∙ ap open_text (write_value-append v (write_gap behind more))
        ∙ ap (λ t. write_gap before (write_string key (write_gap behind_key (b':' ∷ t))))
            (write_gap-append before_value valued)
        ∙ ap (λ t. write_gap before (write_string key t))
            (write_gap-append behind_key (b':' ∷ write_gap before_value valued))
        ∙ ap (write_gap before) (write_string-append key keyed)
        ∙ write_gap-append before (write_string key keyed)

-- The text of an object behind its opening brace.
abbrev pub object_tail : Gap → Fields → Bytes → Bytes
object_tail gap fields rest = write_gap gap (write_fields fields (b'}' ∷ rest))

pub object_tail-append :
    (gap : Gap) (fields : Fields) (rest : Bytes)
    → object_tail gap fields [] ++ rest ≡ object_tail gap fields rest
object_tail-append gap fields rest = sym (
    ap (write_gap gap) (write_fields-append rest fields (b'}' ∷ []))
    ∙ write_gap-append rest gap (write_fields fields (b'}' ∷ [])))

-- Inside of any number of objects, the scan goes over it to the brace that closes it.
pub container_end-object_tail :
    (gap : Gap) (fields : Fields) (d : ℕ) (rest : Bytes)
    → 1 ≤ d
    → d + depth_fields fields ≤ 64
    → container_end b'{' b'}' outside d (object_tail gap fields [] ++ rest)
      ≡ container_end b'{' b'}' outside d (b'}' ∷ rest)
container_end-object_tail gap fields d rest one fits =
    ap (container_end b'{' b'}' outside d) (object_tail-append gap fields rest)
    ∙ scan-write_gap braces d gap (write_fields fields (b'}' ∷ rest))
    ∙ scan-write_fields braces d fields (b'}' ∷ rest) one fits
