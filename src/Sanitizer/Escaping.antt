-- ===== src/Sanitizer/Escaping.antt =====
-- The escapes of mcptoolkit/src/response_sanitizer.cpp are those of the JSON builder.
use mcptoolkit.Prelude.{◌≡◌, refl, [], ◌∷◌, Bytes, ℕ, arith}
use mcptoolkit.Json.Builder.{escape_byte, escape_all}
use mcptoolkit.Sanitizer.{escape_control, escape_control_characters}

escape_control-eq-escape_byte : (c : ℕ) → escape_control c ≡ escape_byte c
unfolding escape_control escape_byte
escape_control-eq-escape_byte c = ground arith

-- The sanitizer escapes a text the way `JsonBuilder` does, which then escapes it a second time.
pub escape_control_characters-eq-escape_all :
    (text : Bytes) → escape_control_characters text ≡ escape_all text
unfolding escape_control_characters escape_all
escape_control_characters-eq-escape_all [] = refl
escape_control_characters-eq-escape_all (c ∷ text) =
    rw (escape_control-eq-escape_byte c, escape_control_characters-eq-escape_all text) refl
