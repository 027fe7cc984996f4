-- ===== src/Prelude/Int.antt =====
-- Python's signed integers over the native numbers, as far as the services compare them.
use Prim.Native.Nat.{ℕ}
use mathlib.Core.Path.{◌≡◌}
use mathlib.Core.Logic.{◌↔◌}
use mathlib.Core.Bool.{Bool, true, false}
use native.Mathlib.Omega.{arith}
use lawrence_ai_lms.Prelude.Tests.{◌==◌, ltb, leb}

-- `negsuc n` is -(n + 1).
pub data ℤ : Type 0 where
  pos : ℕ → ℤ
  negsuc : ℕ → ℤ

abbrev pub eq_ℤ : ℤ → ℤ → Bool
eq_ℤ (pos a) (pos b) = a == b
eq_ℤ (pos a) (negsuc b) = false
eq_ℤ (negsuc a) (pos b) = false
eq_ℤ (negsuc a) (negsuc b) = a == b

-- `a < n` for a constant n that is not negative.
abbrev pub ltb_ℤ : ℤ → ℕ → Bool
ltb_ℤ (pos a) n = ltb a n
ltb_ℤ (negsuc a) n = true

-- `n <= a <= m` for constants that are not negative.
abbrev pub in_range_ℤ : ℕ → ℤ → ℕ → Bool
in_range_ℤ n (negsuc a) m = false
in_range_ℤ n (pos a) m = elim (leb n a) [ true ↦ leb a m | false ↦ false ]

pub eq_ℤ_iff : (a b : ℤ) → (eq_ℤ a b ≡ true) ↔ (a ≡ b)
eq_ℤ_iff (pos a) (pos b) = ground arith
eq_ℤ_iff (pos a) (negsuc b) = ground arith
eq_ℤ_iff (negsuc a) (pos b) = ground arith
eq_ℤ_iff (negsuc a) (negsuc b) = ground arith
