-- ===== src/Suite.antt =====
-- The repository's own test program TestMcp/TestMcp.cpp: its assertions on the modelled library, what the
-- test functions share, and `main`. What the program measures with a clock is an argument.
pub mod Parsing
pub mod Building
pub mod Serving
pub mod Invalid
pub mod Bounds
pub mod Validating
pub mod Outcome
use mcptoolkit.Prelude.{
  ℕ, ◌+◌, Bool, true, false, ◌&&◌, not, Option, none, some, List, [], ◌∷◌, ◌++◌, ◌==◌,
  if◌then◌else◌, length, Bytes, beq, contains, ℤ, ltb_ℤ,
}
use mcptoolkit.Json.Message.{Message}
use mcptoolkit.Json.Scan.{skip_ws, parse_string, skip_value, parse_int}
use mcptoolkit.Json.Parser.{
  parse_message, default_max_bytes, parse, run_members, read_field, parse_error_object,
  read_error_field,
}

-- The name of an assertion, and its condition.
abbrev pub Assertion : Type 0
Assertion = Bytes × Bool

-- The two counters.
pub record Tally : Type 0 where
  pub test_count : ℕ
  pub pass_count : ℕ

unfoldable pub assert_eq : Assertion → Tally → Tally
assert_eq (name, condition) t = record {
  test_count = t.test_count + 1;
  pass_count = if condition then t.pass_count + 1 else t.pass_count;
}

abbrev pub assert_all : List Assertion → Tally → Tally
assert_all [] t = t
assert_all (assertion ∷ assertions) t = assert_all assertions (assert_eq assertion t)

-- The names that are printed behind a cross.
abbrev pub failed : List Assertion → List Bytes
failed [] = []
failed ((name, condition) ∷ assertions) =
    let rest = failed assertions in if condition then rest else name ∷ rest

-- `out.find(text) != std::string::npos`
abbrev pub finds : Bytes → Bytes → Bool
finds text out = contains text out

unfoldable pub parse_mcp_json : Bytes → Message
unfolding parse_message parse skip_ws run_members parse_string read_field beq skip_value parse_int
    parse_error_object read_error_field
parse_mcp_json json = parse_message (some json) default_max_bytes

-- `pointer != nullptr`
abbrev pub is_set : Option Bytes → Bool
is_set none = false
is_set (some start) = true

-- `pointer[0] == c`
abbrev pub starts_with : ℕ → Option Bytes → Bool
starts_with c none = false
starts_with c (some []) = false
starts_with c (some (d ∷ s)) = d == c

-- `a == b`
abbrev pub equals_ℤ : ℤ → ℤ → Bool
equals_ℤ a b = not (ltb_ℤ a b) && not (ltb_ℤ b a)

-- `msg.id.has_value() && msg.id.value() == n`
abbrev pub has_id : ℤ → Option ℤ → Bool
has_id n none = false
has_id n (some m) = equals_ℤ m n
