-- ===== src/Base/Ints.antt =====
-- Signed integers over the native numbers, with the division of C++, which rounds towards 0.
use Prim.Native.Nat.{ℕ, zero, suc, ◌*◌, ◌/◌}
use mathlib.Core.Bool.{Bool, true, false}
use netpoll_cpp.Base.Tests.{ltb}

pub data ℤ : Type 0 where
  pos : ℕ → ℤ
  negsuc : ℕ → ℤ

-- The number below 0 of this size.
abbrev pub neg : ℕ → ℤ
neg zero = pos zero
neg (suc n) = negsuc n

abbrev pub mul_nat : ℤ → ℕ → ℤ
mul_nat (pos n) k = pos (n * k)
mul_nat (negsuc n) k = neg (suc n * k)

abbrev pub div_nat : ℤ → ℕ → ℤ
div_nat (pos n) k = pos (n / k)
div_nat (negsuc n) k = neg (suc n / k)

abbrev pub ltb_int : ℤ → ℤ → Bool
ltb_int (pos m) (pos n) = ltb m n
ltb_int (pos m) (negsuc n) = false
ltb_int (negsuc m) (pos n) = true
ltb_int (negsuc m) (negsuc n) = ltb n m

-- Whether an `int64_t` holds the number.
abbrev pub fits_int64 : ℤ → Bool
fits_int64 (pos n) = ltb n 9223372036854775808
fits_int64 (negsuc n) = ltb n 9223372036854775808
