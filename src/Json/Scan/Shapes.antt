-- ===== src/Json/Scan/Shapes.antt =====
-- Which tokens the lexical layer accepts: strings inside of containers, and the nesting limit.
use mcptoolkit.Prelude.{
  ℕ, zero, suc, ◌+◌, ◌≡◌, refl, Bool, true, false, Option, none, some, [], ◌∷◌, ◌++◌, ◌==◌,
  replicate, Bytes, arith,
}
use mcptoolkit.Json.Scan.{
  Place, quote, backslash, string_end, outside, inside, escaped, container_end, skip_container,
  max_depth,
}

abbrev in_string : Bool → Place
in_string true = escaped
in_string false = inside

abbrev pub then_outside : ℕ → ℕ → ℕ → Option Bytes → Option Bytes
then_outside open_byte close_byte depth none = none
then_outside open_byte close_byte depth (some s) =
    container_end open_byte close_byte outside depth s

-- Inside a string the container's loop does what the source does: it calls `skip_string` (here behind
-- the opening quote) and goes on behind the string at the same depth.
pub container_end-string_end :
    (o e depth : ℕ) (back_slashed : Bool) (s : Bytes)
    → container_end o e (in_string back_slashed) depth s
      ≡ then_outside o e depth (string_end back_slashed s)
unfolding container_end string_end
container_end-string_end o e depth back_slashed [] = ground arith
container_end-string_end o e depth true (c ∷ s) = container_end-string_end o e depth false s
container_end-string_end o e depth false (c ∷ s) =
    ground (arith, container_end-string_end o e depth (c == backslash) s)

-- One opening bracket more than the limit leaves room for.
container_end_too_deep :
    (o e : ℕ) (n : ℕ) (s : Bytes) (depth : ℕ)
    → (o == quote) ≡ false
    → depth + n ≡ max_depth
    → container_end o e outside depth (replicate (suc n) o ++ s) ≡ none
unfolding container_end
container_end_too_deep o e zero s depth h d = ground arith
container_end_too_deep o e (suc n) s depth h d =
    ground (arith, container_end_too_deep o e n s (depth + 1))

-- A container that starts with 65 opening brackets is refused, whatever stands behind them; the bracket
-- is not a quote.
pub skip_container_too_deep :
    (o e : ℕ) (s : Bytes) → (o == quote) ≡ false → skip_container o e (replicate 65 o ++ s) ≡ none
unfolding skip_container
skip_container_too_deep o e s h = ground (arith, container_end_too_deep o e 63 s 1 h refl)
