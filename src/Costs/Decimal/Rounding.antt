-- ===== src/Costs/Decimal/Rounding.antt =====
-- `D` rounds to the nearest millionth, and leaves a value of six places as it is.
use honor.Common.{◌<◌, ◌≡◌, arith, ok}
use honor.Common.Int.{pos, negsuc}
use honor.Costs.Decimal.{
  Micros, quantize_magnitude, with_sign, quantize, of_micros, magnitude, precision_limit,
}

-- A value of six places is unchanged, if it has at most 28 digits.
pub quantize-of_micros :
    (m : Micros) → magnitude m < precision_limit → quantize (of_micros m) ≡ ok m
unfolding quantize quantize_magnitude with_sign
quantize-of_micros (pos n) h = ground arith
quantize-of_micros (negsuc n) h = ground arith

pub quantize-of_micros_eq :
    (m v : Micros) → quantize (of_micros m) ≡ ok v → (v ≡ m) × (magnitude m < precision_limit)
unfolding quantize quantize_magnitude with_sign
quantize-of_micros_eq (pos n) v h = ground arith
quantize-of_micros_eq (negsuc n) v h = ground arith
