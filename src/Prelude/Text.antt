-- ===== src/Prelude/Text.antt =====
-- Byte strings: what the sources use of `std::string`, `memcmp` and `const char*`.
use Prim.Native.Nat.{ℕ, zero, suc}
use Prim.Native.Char.{code}
use Prim.Native.String.{String}
use mathlib.Core.Path.{◌≡◌, refl, ap}
use mathlib.Core.Logic.{◌≢◌, ◌↔◌, inl, inr}
use mathlib.Core.Bool.{Bool, true, false, ◌&&◌, ◌||◌}
use mathlib.Core.List.{List, [], ◌∷◌, ◌++◌}
use mathlib.Core.Option.{Option, none, some}
use native.Mathlib.Omega.{arith}
use mcptoolkit.Prelude.Tests.{◌==◌, if◌then◌else◌, Bool-cases, Option-cases}
use mcptoolkit.Prelude.Lists.{length, take, drop}

abbrev pub Bytes : Type 0
Bytes = List ℕ

-- The bytes of an ASCII literal.
abbrev pub codes : String → Bytes
codes String.[] = []
codes (String.◌∷◌ c s) = code c ∷ codes s

-- `a == b` on strings.
unfoldable pub beq : Bytes → Bytes → Bool
beq [] [] = true
beq (x ∷ xs) (y ∷ ys) = x == y && beq xs ys
beq _ _ = false

pub beq_iff : (a b : Bytes) → (beq a b ≡ true) ↔ (a ≡ b)
unfolding beq
beq_iff (x ∷ a) (y ∷ b) = ground (arith, beq_iff a b)
beq_iff _ _ = ground arith

pub beq_refl : (a : Bytes) → beq a a ≡ true
beq_refl a = (beq_iff a a).1 refl

-- `s.empty()`
abbrev pub empty : Bytes → Bool
empty [] = true
empty (c ∷ s) = false

-- `memcmp(text, prefix, prefix_len) == 0` where `text` has that many bytes.
unfoldable pub is_prefix : Bytes → Bytes → Bool
is_prefix [] text = true
is_prefix (p ∷ ps) [] = false
is_prefix (p ∷ ps) (t ∷ ts) = p == t && is_prefix ps ts

pub is_prefix-append : (p t : Bytes) → is_prefix p (p ++ t) ≡ true
unfolding is_prefix
is_prefix-append [] t = refl
is_prefix-append (c ∷ p) t = ground (arith, is_prefix-append p t)

pub is_prefix-split : (p t : Bytes) → is_prefix p t ≡ true → t ≡ p ++ drop (length p) t
unfolding is_prefix
is_prefix-split [] t h = refl
is_prefix-split (c ∷ p) [] h = cc
is_prefix-split (c ∷ p) (d ∷ t) h = ground (arith, is_prefix-split p t)

-- `text.find(pattern) != npos`
unfoldable pub contains : Bytes → Bytes → Bool
contains pattern [] = is_prefix pattern []
contains pattern (c ∷ text) = is_prefix pattern (c ∷ text) || contains pattern text

-- `text.find(byte) != npos`
unfoldable pub contains_byte : ℕ → Bytes → Bool
contains_byte b [] = false
contains_byte b (c ∷ text) = c == b || contains_byte b text

-- `text.find_first_of(set) != npos`
unfoldable pub contains_any : Bytes → Bytes → Bool
unfolding contains_byte
contains_any set [] = false
contains_any set (c ∷ text) = contains_byte c set || contains_any set text

-- `text.find(byte)`
unfoldable pub find_byte : ℕ → Bytes → Option ℕ
find_byte b [] = none
find_byte b (c ∷ text) =
    if c == b then some 0 else elim (find_byte b text) [ none ↦ none | some i ↦ some (suc i) ]

-- What a `const char*` shows of a string: the bytes in front of its first NUL.
unfoldable pub c_str : Bytes → Bytes
c_str [] = []
c_str (c ∷ s) = if c == 0 then [] else c ∷ c_str s

pub c_str-of_no_nul : (s : Bytes) → contains_byte 0 s ≡ false → c_str s ≡ s
unfolding c_str contains_byte
c_str-of_no_nul [] h = refl
c_str-of_no_nul (c ∷ s) h = ground (arith, c_str-of_no_nul s)

-- A text contains a pattern exactly if it splits around it.
pub contains_sound :
    (pattern text : Bytes)
    → contains pattern text ≡ true
    → (before : Bytes) × (after : Bytes) × (text ≡ before ++ (pattern ++ after))
unfolding contains
contains_sound pattern [] h = ([], drop (length pattern) [], is_prefix-split pattern [] h)
contains_sound pattern (c ∷ text) h = elim (Bool-cases (is_prefix pattern (c ∷ text))) [
  | inl here ↦ ([], drop (length pattern) (c ∷ text), is_prefix-split pattern (c ∷ text) here)
  | inr later ↦
      let (before, after, e) = contains_sound pattern text (rw later at h) in
      (c ∷ before, after, ap (◌∷◌ c) e)
]

pub contains_complete :
    (pattern before after : Bytes) → contains pattern (before ++ (pattern ++ after)) ≡ true
unfolding contains
contains_complete [] [] [] = unfold is_prefix in refl
contains_complete [] [] (c ∷ after) = unfold is_prefix in refl
contains_complete (p ∷ pattern) [] after = rw (is_prefix-append (p ∷ pattern) after)
contains_complete pattern (c ∷ before) after =
    ground (arith, contains_complete pattern before after)

-- `find` gives the first place of a byte.
pub find_byte-split :
    (b : ℕ) (text : Bytes) (i : ℕ)
    → find_byte b text ≡ some i
    → (text ≡ take i text ++ (b ∷ drop (suc i) text)) × (contains_byte b (take i text) ≡ false)
unfolding find_byte contains_byte
find_byte-split b [] i h = cc
find_byte-split b (c ∷ text) zero h = elim (Option-cases (find_byte b text)) [
  | inl e ↦ ground arith
  | inr (j, e) ↦ ground arith
]
find_byte-split b (c ∷ text) (suc i) h = elim (Option-cases (find_byte b text)) [
  | inl e ↦ ground arith
  | inr (j, e) ↦ ground (arith, find_byte-split b text i)
]

pub find_byte-append :
    (b : ℕ) (text rest : Bytes)
    → contains_byte b text ≡ false
    → find_byte b (text ++ (b ∷ rest)) ≡ some (length text)
unfolding find_byte contains_byte
find_byte-append b [] rest h = ground arith
find_byte-append b (c ∷ text) rest h = ground (arith, find_byte-append b text rest)

pub empty-false : (s : Bytes) → s ≢ [] → empty s ≡ false
empty-false [] h = absurd (h refl)
empty-false (c ∷ s) h = refl
