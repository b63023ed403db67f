-- ===== src/Json/Grammar/Contents.antt =====
-- What the members of a JSON object say to `JsonParser::parse` of mcptoolkit/src/json/json_parser.cpp.
use mcptoolkit.Prelude.{
  ℕ, ◌≡◌, ◌⊎◌, Bool, true, false, Option, none, some, List, [], length, take, Bytes, codes, ℤ,
}
use mcptoolkit.Json.Message.{Message}
use mcptoolkit.Json.Scan.Suffix.{IsInt}
use mcptoolkit.Json.Builder.{to_string}
use mcptoolkit.Json.Grammar.{Piece, Value, string, Fields, no_fields, field, write}
use mcptoolkit.Json.Grammar.Rounds.{key_text}
use mcptoolkit.Json.Grammar.Ignored.{is_kept}

-- What the members of an object say: the id, and the texts of the method, the parameters and the result.
pub record Contents : Type 0 where
  pub id : Option ℤ
  pub method : Option Bytes
  pub params : Option Bytes
  pub result : Option Bytes

abbrev pub nothing : Contents
nothing = record { id = none; method = none; params = none; result = none }

-- A member adds to what was said before it, or takes its place: the method is a string, the id a decimal
-- number that is an `int` other than the least, the parameters and the result are any values, and a
-- member by another name than these and "error" adds nothing.
abbrev pub Adds : Bytes → Value → Contents → Contents → Type 0
Adds key v c d =
    ((is_kept key ≡ false) × (d ≡ c))
    ⊎ (((key ≡ codes "method")
          × (pieces : List Piece) × (v ≡ string pieces)
          × (d ≡ record c { method = some (key_text pieces) }))
        ⊎ (((key ≡ codes "id")
              × (n : ℤ) × IsInt n
              × (write v [] ≡ to_string n)
              × (d ≡ record c { id = some n }))
            ⊎ (((key ≡ codes "params") × (d ≡ record c { params = some (write v []) }))
                ⊎ ((key ≡ codes "result") × (d ≡ record c { result = some (write v []) })))))

-- What all the members of an object add, one after the other.
abbrev pub AreAdded : Fields → Contents → Contents → Type 0
AreAdded no_fields c d = d ≡ c
AreAdded (field _ key _ _ v _ fields) c d =
    (next : Contents) × Adds (key_text key) v c next × AreAdded fields next d

-- A pointer and a length are the span of the text, or the pointer is null.
abbrev pub IsSpanOf : Option Bytes → ℕ → Option Bytes → Type 0
IsSpanOf pointer len none = pointer ≡ none
IsSpanOf pointer len (some text) =
    (start : Bytes) × (pointer ≡ some start) × (len ≡ length text) × (take len start ≡ text)

abbrev pub is_there : Option Bytes → Bool
is_there none = false
is_there (some text) = true

-- The message says what the members say, and no more.
pub record Holds (msg : Message) (c : Contents) : Type 0 where
  pub same_id : msg.id ≡ c.id
  pub method_span : IsSpanOf msg.method msg.method_len c.method
  pub params_span : IsSpanOf msg.params_start msg.params_len c.params
  pub result_span : IsSpanOf msg.result_start msg.result_len c.result
  pub asks : msg.is_request ≡ is_there c.method
  pub answers : msg.is_response ≡ is_there c.result
  pub has_answer : msg.has_result ≡ is_there c.result
  pub no_error : msg.has_error ≡ false
