-- ===== src/Timestamp.antt =====
-- Timestamp (netpoll/util/time_stamp.h and .cc): microseconds since the epoch, an `int64_t`.
pub mod Precision
use netpoll_cpp.Base.{Bool, List, div_nat, ltb_int, mul_nat, pos, ℕ, ℤ, ◌*◌, ◌+◌, ◌/◌}

pub data Time : Type 0 where
  seconds milliseconds microseconds : Time

pub record Timestamp : Type 0 where
  pub micro_seconds_since_epoch : ℤ

abbrev pub milliseconds_per_second : ℕ
milliseconds_per_second = 1000

abbrev pub micro_seconds_per_second : ℕ
micro_seconds_per_second = milliseconds_per_second * 1000

unfoldable pub valid : Timestamp → Bool
valid t = ltb_int (pos 0) t.micro_seconds_since_epoch

unfoldable pub is_before : Timestamp → Timestamp → Bool
is_before l r = ltb_int l.micro_seconds_since_epoch r.micro_seconds_since_epoch

unfoldable pub since_epoch : Time → Timestamp → ℤ
since_epoch milliseconds t = div_nat t.micro_seconds_since_epoch milliseconds_per_second
since_epoch seconds t = div_nat t.micro_seconds_since_epoch micro_seconds_per_second
since_epoch microseconds t = t.micro_seconds_since_epoch

-- A product that an `int64_t` does not hold is undefined: numbers have no bound here.
unfoldable pub from_since_epoch : Time → ℤ → Timestamp
from_since_epoch milliseconds epoch = record {
  micro_seconds_since_epoch = mul_nat epoch milliseconds_per_second;
}
from_since_epoch seconds epoch = record {
  micro_seconds_since_epoch = mul_nat epoch micro_seconds_per_second;
}
from_since_epoch microseconds epoch = record { micro_seconds_since_epoch = epoch }

-- `now`, of what `gettimeofday` gives.
unfoldable pub now : (tv_sec tv_usec : ℕ) → Timestamp
now tv_sec tv_usec = record {
  micro_seconds_since_epoch = pos (tv_sec * micro_seconds_per_second + tv_usec);
}

-- `toString`: the number that is printed.
unfoldable pub to_string : (to_decimal : ℤ → List ℕ) → Time → Timestamp → List ℕ
to_string to_decimal precision t =
    let k = micro_seconds_per_second / milliseconds_per_second in
    let milli_seconds = div_nat t.micro_seconds_since_epoch k in
    elim precision [
      | microseconds ↦ to_decimal t.micro_seconds_since_epoch
      | milliseconds ↦ to_decimal milli_seconds
      | seconds ↦ to_decimal (div_nat milli_seconds k)
    ]
