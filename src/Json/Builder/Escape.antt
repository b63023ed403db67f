-- ===== src/Json/Builder/Escape.antt =====
-- Escaped text stands between quotes as one JSON string, whatever bytes it is made of.
use mathlib.Core.Path.{◌∙◌}
use mcptoolkit.Prelude.{ℕ, ◌≡◌, refl, false, some, [], ◌∷◌, ◌++◌, append_assoc, Bytes, arith}
use mcptoolkit.Json.Builder.{escape_byte, escape_all}
use mcptoolkit.Json.Scan.{string_end, quote}

string_end-escape_byte :
    (c : ℕ) (rest : Bytes) → string_end false (escape_byte c ++ rest) ≡ string_end false rest
unfolding escape_byte string_end
string_end-escape_byte c rest = ground arith

-- The parser's string loop passes over escaped text and stops at the quote behind it.
pub string_end-escape_all :
    (s rest : Bytes) → string_end false (escape_all s ++ quote ∷ rest) ≡ some rest
unfolding escape_all string_end
string_end-escape_all [] rest = refl
string_end-escape_all (c ∷ s) rest =
    rw (append_assoc (escape_byte c) (escape_all s) (quote ∷ rest))
      (string_end-escape_byte c (escape_all s ++ quote ∷ rest) ∙ string_end-escape_all s rest)
