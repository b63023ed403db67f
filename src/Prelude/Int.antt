-- ===== src/Prelude/Int.antt =====
-- Signed integers over the native numbers, for `int` values and for durations.
use Prim.Native.Nat.{ℕ, suc, ◌+◌, ◌-◌}
use mathlib.Core.Bool.{Bool}
use mcptoolkit.Prelude.Tests.{ltb}

-- `negsuc n` is -(n + 1).
pub data ℤ : Type 0 where
  pos : ℕ → ℤ
  negsuc : ℕ → ℤ

abbrev pub pos_part : ℤ → ℕ
pos_part (pos n) = n
pos_part (negsuc n) = 0

abbrev pub neg_part : ℤ → ℕ
neg_part (pos n) = 0
neg_part (negsuc n) = suc n

-- `-(int) n`.
abbrev pub negate : ℕ → ℤ
negate Prim.Native.Nat.ℕ.zero = pos 0
negate (suc n) = negsuc n

abbrev pub ltb_ℤ : ℤ → ℤ → Bool
ltb_ℤ a b = ltb (pos_part a + neg_part b) (pos_part b + neg_part a)

-- `now - since > d`, for a signed duration `d`.
abbrev pub exceeds : ℕ → ℕ → ℤ → Bool
exceeds now since d = ltb (since + pos_part d) (now + neg_part d)
