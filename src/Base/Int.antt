-- ===== src/Base/Int.antt =====
-- Go's `int` (64 bits): the values of a signed integer over the native numbers, and `i++`.
use Prim.Native.Nat.{ℕ, zero, suc, ◌-◌, ◌^◌}
use shimux.Base.Tests.{◌==◌, if◌then◌else◌}

-- `negsuc n` is -(n + 1).
pub data ℤ : Type 0 where
  pos : ℕ → ℤ
  negsuc : ℕ → ℤ

abbrev pub max_int : ℕ
max_int = 2 ^ 63 - 1

-- `i++` wraps at the end of the range.
unfoldable pub increment : ℤ → ℤ
increment (pos n) = if n == max_int then negsuc max_int else pos (suc n)
increment (negsuc zero) = pos 0
increment (negsuc (suc n)) = negsuc n
