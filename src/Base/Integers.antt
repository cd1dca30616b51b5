-- ===== src/Base/Integers.antt =====
-- Go's signed integers over the native numbers.
use Prim.Native.Nat.{ℕ}
use mathlib.Core.Bool.{Bool, false}
use fido_go.Base.Tests.{◌==◌}

pub data ℤ : Type 0 where
  pos negsuc : ℕ → ℤ

unfoldable pub equal_int : ℤ → ℤ → Bool
equal_int (pos m) (pos n) = m == n
equal_int (pos m) (negsuc n) = false
equal_int (negsuc m) (pos n) = false
equal_int (negsuc m) (negsuc n) = m == n
