-- ===== src/Prelude/Int.antt =====
-- Go's `int` where its sign is tested: the integers over the native numbers.
use Prim.Native.Nat.{ℕ}
use mathlib.Core.Bool.{Bool, true, false}
use server_assistant.Prelude.Tests.{◌==◌, ltb}

-- `negsuc n` is -(n + 1).
pub data ℤ : Type 0 where
  pos : ℕ → ℤ
  negsuc : ℕ → ℤ

abbrev pub int_eq : ℤ → ℤ → Bool
int_eq (pos a) (pos b) = a == b
int_eq (negsuc a) (negsuc b) = a == b
int_eq _ _ = false

-- 0 < a
abbrev pub is_positive : ℤ → Bool
is_positive (pos n) = ltb 0 n
is_positive (negsuc n) = false

abbrev pub is_negative : ℤ → Bool
is_negative (pos n) = false
is_negative (negsuc n) = true

-- a < b, for a bound `b` that is not negative.
abbrev pub is_below : ℤ → ℕ → Bool
is_below (pos n) b = ltb n b
is_below (negsuc n) b = true

-- b < a, for a bound `b` that is not negative.
abbrev pub is_above : ℤ → ℕ → Bool
is_above (pos n) b = ltb b n
is_above (negsuc n) b = false

-- The magnitude of a value that is not negative.
abbrev pub to_nat : ℤ → ℕ
to_nat (pos n) = n
to_nat (negsuc n) = 0
