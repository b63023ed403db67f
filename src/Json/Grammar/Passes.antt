-- ===== src/Json/Grammar/Passes.antt =====
-- `JsonParser::skip_container` of mcptoolkit/src/json/json_parser.cpp goes over the tokens of JSON inside of a
-- container.
use mcptoolkit.Prelude.{
  ℕ, ◌≡◌, refl, ◌∙◌, ap, Bool, true, false, ◌&&◌, not, Option, some, List, [], ◌∷◌, ◌==◌, inl, inr,
  Bool-cases, if◌then◌else◌, Bytes, arith,
}
use mcptoolkit.Json.Scan.{quote, outside, string_end, container_end, container_turn, going}
use mcptoolkit.Json.Scan.Shapes.{container_end-string_end, then_outside}
use mcptoolkit.Json.Grammar.{
  Piece, plain, escape, Blank, space, tab, line_feed, carriage_return, Gap, Sign, unsigned, plus,
  minus, Exponent, no_exponent, exponent, Fraction, no_fraction, fraction, Number, null, blank_byte,
  write_gap, write_pieces, write_string, digit, write_digits, write_sign, write_exponent,
  write_fraction, write_unsigned, write_number, write_bool, write,
}

-- The two kinds of containers, which the scan tells apart by its arguments.
pub data Kind : Type 0 where
  brackets braces : Kind

abbrev pub open_byte : Kind → ℕ
open_byte brackets = b'['
open_byte braces = b'{'

abbrev pub close_byte : Kind → ℕ
close_byte brackets = b']'
close_byte braces = b'}'

-- The string scan passes over the pieces and stops behind the closing quote.
pub string_end-write_pieces :
    (pieces : List Piece) (rest : Bytes)
    → string_end false (write_pieces pieces (quote ∷ rest)) ≡ some rest
unfolding string_end
string_end-write_pieces [] rest = refl
string_end-write_pieces (plain c ∷ pieces) rest =
    ground (arith, string_end-write_pieces pieces rest)
string_end-write_pieces (escape c ∷ pieces) rest = string_end-write_pieces pieces rest

-- A byte that is no quote and no bracket.
abbrev is_neutral : ℕ → Bool
is_neutral c =
    not (c == quote) && not (c == b'[') && not (c == b']') && not (c == b'{') && not (c == b'}')

pub neutral_turn :
    (k : Kind) (d c : ℕ)
    → is_neutral c ≡ true
    → container_turn (open_byte k) (close_byte k) outside d c ≡ going outside d
unfolding container_turn
neutral_turn brackets d c h = ground arith
neutral_turn braces d c h = ground arith

module _ (k : Kind) (d : ℕ) where
  abbrev pub scan : Bytes → Option Bytes
  scan s = container_end (open_byte k) (close_byte k) outside d s

  pub scan-neutral : (c : ℕ) (s : Bytes) → is_neutral c ≡ true → scan (c ∷ s) ≡ scan s
  unfolding container_end
  scan-neutral c s h = rw (neutral_turn k d c h, container_end) refl

  pub scan-write_string :
      (pieces : List Piece) (rest : Bytes) → scan (write_string pieces rest) ≡ scan rest
  unfolding container_end
  scan-write_string pieces rest =
      container_end-string_end (open_byte k) (close_byte k) d false
        (write_pieces pieces (quote ∷ rest))
      ∙ ap (then_outside (open_byte k) (close_byte k) d) (string_end-write_pieces pieces rest)

  pub scan-write_gap : (gap : Gap) (rest : Bytes) → scan (write_gap gap rest) ≡ scan rest
  scan-write_gap [] rest = refl
  scan-write_gap (b ∷ gap) rest =
      scan-neutral (blank_byte b) (write_gap gap rest) (blank-neutral b) ∙ scan-write_gap gap rest
    where
      blank-neutral : (b : Blank) → is_neutral (blank_byte b) ≡ true
      blank-neutral space = refl
      blank-neutral tab = refl
      blank-neutral line_feed = refl
      blank-neutral carriage_return = refl

  scan-digit : (n : ℕ) (rest : Bytes) → scan (digit n ∷ rest) ≡ scan rest
  scan-digit n rest = scan-neutral (digit n) rest (ground arith)

  scan-write_digits : (ns : List ℕ) (rest : Bytes) → scan (write_digits ns rest) ≡ scan rest
  scan-write_digits [] rest = refl
  scan-write_digits (n ∷ ns) rest = scan-digit n (write_digits ns rest) ∙ scan-write_digits ns rest

  scan-write_sign : (sign : Sign) (rest : Bytes) → scan (write_sign sign rest) ≡ scan rest
  scan-write_sign unsigned rest = refl
  scan-write_sign plus rest = scan-neutral b'+' rest refl
  scan-write_sign minus rest = scan-neutral b'-' rest refl

  scan-write_exponent : (e : Exponent) (rest : Bytes) → scan (write_exponent e rest) ≡ scan rest
  scan-write_exponent no_exponent rest = refl
  scan-write_exponent (exponent upper sign first more) rest =
      mark upper (write_sign sign digits)
      ∙ scan-write_sign sign digits
      ∙ scan-digit first (write_digits more rest)
      ∙ scan-write_digits more rest
    where
      digits : Bytes
      digits = digit first ∷ write_digits more rest

      mark : (b : Bool) (s : Bytes) → scan ((if b then b'E' else b'e') ∷ s) ≡ scan s
      mark true s = scan-neutral b'E' s refl
      mark false s = scan-neutral b'e' s refl

  scan-write_fraction : (f : Fraction) (rest : Bytes) → scan (write_fraction f rest) ≡ scan rest
  scan-write_fraction no_fraction rest = refl
  scan-write_fraction (fraction first more) rest =
      scan-neutral b'.' (digit first ∷ write_digits more rest) refl
      ∙ scan-digit first (write_digits more rest)
      ∙ scan-write_digits more rest

  pub scan-write_number : (n : Number) (rest : Bytes) → scan (write_number n rest) ≡ scan rest
  scan-write_number n rest =
      let scaled = write_exponent n.scaled rest in
      let pointed = write_fraction n.behind_point scaled in
      let text =
        scan-digit n.first (write_digits n.more pointed)
        ∙ scan-write_digits n.more pointed
        ∙ scan-write_fraction n.behind_point scaled
        ∙ scan-write_exponent n.scaled rest in
      elim (Bool-cases n.is_negative) [
        | inl below ↦ simp below (scan-neutral b'-' (write_unsigned n rest) refl ∙ text)
        | inr above ↦ simp above text
      ]

  pub scan-write_bool : (b : Bool) (rest : Bytes) → scan (write_bool b rest) ≡ scan rest
  scan-write_bool true rest =
      scan-neutral b't' _ refl
      ∙ scan-neutral b'r' _ refl
      ∙ scan-neutral b'u' _ refl
      ∙ scan-neutral b'e' rest refl
  scan-write_bool false rest =
      scan-neutral b'f' _ refl
      ∙ scan-neutral b'a' _ refl
      ∙ scan-neutral b'l' _ refl
      ∙ scan-neutral b's' _ refl
      ∙ scan-neutral b'e' rest refl

  pub scan-write_null : (rest : Bytes) → scan (write null rest) ≡ scan rest
  unfolding write
  scan-write_null rest =
      scan-neutral b'n' _ refl
      ∙ scan-neutral b'u' _ refl
      ∙ scan-neutral b'l' _ refl
      ∙ scan-neutral b'l' rest refl
