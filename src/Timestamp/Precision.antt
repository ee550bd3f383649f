-- ===== src/Timestamp/Precision.antt =====
-- What the precisions of a `Timestamp` keep.

use netpoll_cpp.Base.{
  List, ap, arith, div_nat, mul_nat, neg, negsuc, pos, refl, suc, zero, ℕ, ℤ, ◌*◌, ◌/◌, ◌∙◌, ◌≡◌,
}
use netpoll_cpp.Timestamp.{
  Time, Timestamp, from_since_epoch, microseconds, milliseconds, seconds, since_epoch, to_string,
}

div_nat-neg :
    (n : ℕ)
    → (div_nat (neg n) 1000 ≡ neg (n / 1000)) × (div_nat (neg n) 1000000 ≡ neg (n / 1000000))
div_nat-neg zero = (refl, refl)
div_nat-neg (suc n) = (refl, refl)

div_nat-mul_nat :
    (n : ℤ) → (div_nat (mul_nat n 1000) 1000 ≡ n) × (div_nat (mul_nat n 1000000) 1000000 ≡ n)
div_nat-mul_nat (pos n) = (ap pos (omega arith), ap pos (omega arith))
div_nat-mul_nat (negsuc n) = (
  (div_nat-neg (suc n * 1000)).0 ∙ ap neg {y = suc n} (omega arith),
  (div_nat-neg (suc n * 1000000)).1 ∙ ap neg {y = suc n} (omega arith),
)

-- What was given in a precision is read back in it.
pub since_epoch-from_since_epoch : (p : Time) (n : ℤ) → since_epoch p (from_since_epoch p n) ≡ n
unfolding since_epoch from_since_epoch
since_epoch-from_since_epoch seconds n = (div_nat-mul_nat n).1
since_epoch-from_since_epoch milliseconds n = (div_nat-mul_nat n).0
since_epoch-from_since_epoch microseconds n = refl

div_nat-twice : (n : ℤ) → div_nat (div_nat n 1000) 1000 ≡ div_nat n 1000000
div_nat-twice (pos n) = ap pos (omega arith)
div_nat-twice (negsuc n) = (div_nat-neg (suc n / 1000)).0 ∙ ap neg (omega arith)

-- `toString` prints what `sinceEpoch` gives, though it divides twice.
pub to_string-since_epoch :
    (to_decimal : ℤ → List ℕ) (p : Time) (t : Timestamp)
    → to_string to_decimal p t ≡ to_decimal (since_epoch p t)
unfolding to_string since_epoch
to_string-since_epoch to_decimal seconds t =
    ap to_decimal (div_nat-twice t.micro_seconds_since_epoch)
to_string-since_epoch to_decimal milliseconds t = refl
to_string-since_epoch to_decimal microseconds t = refl
