-- ===== src/Prelude/Int.antt =====
-- Signed integers over the native numbers, and the wrap-around of a 64-bit negation.
use Prim.Native.Nat.{ℕ, suc, ◌^◌}
use mathlib.Core.Bool.{Bool, true, false}
use middle.Prelude.Tests.{eqb, ltb, if◌then◌else◌}

-- `negsuc n` is -(n + 1).
pub data ℤ : Type 0 where
  pos : ℕ → ℤ
  negsuc : ℕ → ℤ

-- `0 < a`
abbrev pub is_positive : ℤ → Bool
is_positive (pos n) = if eqb n 0 then false else true
is_positive (negsuc n) = false

abbrev pub is_zero : ℤ → Bool
is_zero (pos n) = eqb n 0
is_zero (negsuc n) = false

-- The least value of `int64` is its own negation.
abbrev pub abs_int64 : ℤ → ℤ
abs_int64 (pos n) = pos n
abs_int64 (negsuc n) = if eqb (suc n) (2 ^ 63) then negsuc n else pos (suc n)

abbrev pub is_negative : ℤ → Bool
is_negative (pos n) = false
is_negative (negsuc n) = true

-- `a > n`
abbrev pub exceeds : ℤ → ℕ → Bool
exceeds (pos m) n = ltb n m
exceeds (negsuc m) n = false
