-- ===== src/Base/Int.antt =====
-- Signed amounts: `negsuc n` is -(n + 1).
use Prim.Native.Nat.{ℕ, zero, suc}
use mathlib.Core.Bool.{Bool, true, false}

pub data ℤ : Type 0 where
  pos : ℕ → ℤ
  negsuc : ℕ → ℤ

-- `a <= 0`
abbrev pub is_nonpositive : ℤ → Bool
is_nonpositive (pos zero) = true
is_nonpositive (pos (suc n)) = false
is_nonpositive (negsuc n) = true
