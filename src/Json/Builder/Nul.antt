-- ===== src/Json/Builder/Nul.antt =====
-- No NUL stands in what mcptoolkit/src/json/json_builder.cpp writes of a C string, so that a text that was
-- built can be passed on as one.
use mcptoolkit.Prelude.{
  ℕ, ◌≡◌, refl, false, ◌||◌, ◌==◌, [], ◌∷◌, ◌++◌, Bytes, c_str, contains_byte, arith,
}
use mcptoolkit.Json.Builder.{hex_digit, escape_byte, escape_all}

pub c_str-no_nul : (s : Bytes) → contains_byte 0 (c_str s) ≡ false
unfolding contains_byte c_str
c_str-no_nul [] = refl
c_str-no_nul (c ∷ s) = ground (arith, c_str-no_nul s)

contains_byte-append :
    (b : ℕ) (s t : Bytes) → contains_byte b (s ++ t) ≡ (contains_byte b s || contains_byte b t)
unfolding contains_byte
contains_byte-append b [] t = refl
contains_byte-append b (c ∷ s) t = ground (arith, contains_byte-append b s t)

escape_byte-no_nul : (c : ℕ) → (c == 0) ≡ false → contains_byte 0 (escape_byte c) ≡ false
unfolding contains_byte escape_byte hex_digit
escape_byte-no_nul c h = ground arith

escape_all-no_nul : (s : Bytes) → contains_byte 0 s ≡ false → contains_byte 0 (escape_all s) ≡ false
unfolding contains_byte escape_all
escape_all-no_nul [] h = refl
escape_all-no_nul (c ∷ s) h =
    let e = contains_byte-append 0 (escape_byte c) (escape_all s) in
    ground (arith, escape_byte-no_nul c, escape_all-no_nul s)

pub contains_byte-join :
    (b : ℕ) (s t : Bytes)
    → contains_byte b s ≡ false
    → contains_byte b t ≡ false
    → contains_byte b (s ++ t) ≡ false
contains_byte-join b s t h k = let e = contains_byte-append b s t in ground arith

pub escaped-no_nul : (s : Bytes) → contains_byte 0 (escape_all (c_str s)) ≡ false
escaped-no_nul s = escape_all-no_nul (c_str s) (c_str-no_nul s)
