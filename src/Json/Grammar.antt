-- ===== src/Json/Grammar.antt =====
-- The texts of JSON (RFC 8259), written down without regard to the parser of mcptoolkit/src/json: a value
-- with the blanks between its tokens, and the text that it stands for. Each writer puts its text in front
-- of what follows.
pub mod Passes
pub mod Nested
pub mod Rounds
pub mod Accepted
pub mod Objects
pub mod Ignored
pub mod Contents
pub mod Readings
pub mod Kept
use mcptoolkit.Prelude.{
  ℕ, suc, ◌+◌, ◌%◌, Bool, true, false, ◌||◌, List, [], ◌∷◌, ◌==◌, leb, if◌then◌else◌, Bytes,
}
use mcptoolkit.Json.Scan.{quote, backslash}

-- A byte of a string, with a backslash where one is needed; or any escape.
pub data Piece : Type 0 where
  plain escape : ℕ → Piece

pub data Blank : Type 0 where
  space tab line_feed carriage_return : Blank

abbrev pub Gap : Type 0
Gap = List Blank

pub data Sign : Type 0 where
  unsigned plus minus : Sign

-- The part of a number behind its digits and its fraction; digits are numbers modulo 10.
pub data Exponent : Type 0 where
  no_exponent : Exponent
  exponent : (upper : Bool) (sign : Sign) (first : ℕ) (more : List ℕ) → Exponent

pub data Fraction : Type 0 where
  no_fraction : Fraction
  fraction : (first : ℕ) (more : List ℕ) → Fraction

pub record Number : Type 0 where
  pub is_negative : Bool
  pub first : ℕ
  pub more : List ℕ
  pub behind_point : Fraction
  pub scaled : Exponent

mutual
  pub data Value : Type 0 where
    null : Value
    bool : Bool → Value
    number : Number → Value
    string : List Piece → Value
    array : Gap → Items → Value
    object : Gap → Fields → Value

  -- An element with the blanks in front of it and behind it.
  pub data Items : Type 0 where
    no_items : Items
    item : Gap → Value → Gap → Items → Items

  -- A member with the blanks around its key and around its value.
  pub data Fields : Type 0 where
    no_fields : Fields
    field : Gap → List Piece → Gap → Gap → Value → Gap → Fields → Fields

abbrev pub blank_byte : Blank → ℕ
blank_byte space = 32
blank_byte tab = 9
blank_byte line_feed = 10
blank_byte carriage_return = 13

abbrev pub write_gap : Gap → Bytes → Bytes
write_gap [] rest = rest
write_gap (b ∷ gap) rest = blank_byte b ∷ write_gap gap rest

abbrev pub write_pieces : List Piece → Bytes → Bytes
write_pieces [] rest = rest
write_pieces (plain c ∷ pieces) rest =
    let behind = write_pieces pieces rest in
    if c == quote || c == backslash then backslash ∷ c ∷ behind else c ∷ behind
write_pieces (escape c ∷ pieces) rest = backslash ∷ c ∷ write_pieces pieces rest

abbrev pub write_string : List Piece → Bytes → Bytes
write_string pieces rest = quote ∷ write_pieces pieces (quote ∷ rest)

abbrev pub digit : ℕ → ℕ
digit n = b'0' + n % 10

abbrev pub write_digits : List ℕ → Bytes → Bytes
write_digits [] rest = rest
write_digits (n ∷ more) rest = digit n ∷ write_digits more rest

abbrev pub write_sign : Sign → Bytes → Bytes
write_sign unsigned rest = rest
write_sign plus rest = b'+' ∷ rest
write_sign minus rest = b'-' ∷ rest

abbrev pub write_exponent : Exponent → Bytes → Bytes
write_exponent no_exponent rest = rest
write_exponent (exponent upper sign first more) rest =
    (if upper then b'E' else b'e') ∷ write_sign sign (digit first ∷ write_digits more rest)

abbrev pub write_fraction : Fraction → Bytes → Bytes
write_fraction no_fraction rest = rest
write_fraction (fraction first more) rest = b'.' ∷ digit first ∷ write_digits more rest

-- The number behind its first digit.
abbrev pub write_behind_first : Number → Bytes → Bytes
write_behind_first n rest =
    write_digits n.more (write_fraction n.behind_point (write_exponent n.scaled rest))

abbrev pub write_unsigned : Number → Bytes → Bytes
write_unsigned n rest = digit n.first ∷ write_behind_first n rest

abbrev pub write_number : Number → Bytes → Bytes
write_number n rest = if n.is_negative then b'-' ∷ write_unsigned n rest else write_unsigned n rest

abbrev pub write_bool : Bool → Bytes → Bytes
write_bool true rest = b't' ∷ b'r' ∷ b'u' ∷ b'e' ∷ rest
write_bool false rest = b'f' ∷ b'a' ∷ b'l' ∷ b's' ∷ b'e' ∷ rest

-- A comma in front of the elements that are left, if any.
abbrev pub comma_items : Items → Bytes → Bytes
comma_items no_items text = text
comma_items (item _ _ _ _) text = b',' ∷ text

abbrev pub comma_fields : Fields → Bytes → Bytes
comma_fields no_fields text = text
comma_fields (field _ _ _ _ _ _ _) text = b',' ∷ text

unfoldable mutual
  pub write : Value → Bytes → Bytes
  write null rest = b'n' ∷ b'u' ∷ b'l' ∷ b'l' ∷ rest
  write (bool b) rest = write_bool b rest
  write (number n) rest = write_number n rest
  write (string pieces) rest = write_string pieces rest
  write (array gap items) rest = b'[' ∷ write_gap gap (write_items items (b']' ∷ rest))
  write (object gap fields) rest = b'{' ∷ write_gap gap (write_fields fields (b'}' ∷ rest))

  pub write_items : Items → Bytes → Bytes
  write_items no_items rest = rest
  write_items (item before v behind items) rest =
      write_gap before (write v (write_gap behind (comma_items items (write_items items rest))))

  pub write_fields : Fields → Bytes → Bytes
  write_fields no_fields rest = rest
  write_fields (field before key behind_key before_value v behind fields) rest =
      let more = comma_fields fields (write_fields fields rest) in
      write_gap before (
        write_string key
          (write_gap behind_key (b':' ∷ write_gap before_value (write v (write_gap behind more)))))

abbrev larger : ℕ → ℕ → ℕ
larger a b = if leb a b then b else a

-- How deep arrays and objects are nested in each other.
unfoldable mutual
  pub depth : Value → ℕ
  depth null = 0
  depth (bool b) = 0
  depth (number n) = 0
  depth (string pieces) = 0
  depth (array gap items) = depth_items items + 1
  depth (object gap fields) = depth_fields fields + 1

  pub depth_items : Items → ℕ
  depth_items no_items = 0
  depth_items (item before v behind items) = larger (depth v) (depth_items items)

  pub depth_fields : Fields → ℕ
  depth_fields no_fields = 0
  depth_fields (field before key behind_key before_value v behind fields) =
      larger (depth v) (depth_fields fields)
