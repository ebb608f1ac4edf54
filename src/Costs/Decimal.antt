-- ===== src/Costs/Decimal.antt =====
-- The decimals of services/api/honor_api/costs.py: `D = Decimal(str(value)).quantize("0.000001")`.
-- A finite `Decimal` is a coefficient and the number of its places after the point; what `D`
-- returns always has six places, so it is kept as a whole number of millionths, here `Micros`.
pub mod Rounding
use honor.Common.{
  ℕ, ◌+◌, ◌-◌, ◌*◌, ◌/◌, ◌%◌, ◌^◌, Bool, ◌&&◌, arith, ltb, leb, eqb, if◌then◌else◌, Result, ok, err,
}
use honor.Common.Rounding.{div_half_even}
use honor.Common.Int.{ℤ, pos, negsuc, pos_part, neg_part, sub_ℕ, ◌+ℤ◌}

-- value = coefficient / 10 ^ places
pub record Decimal : Type 0 where
  pub coefficient : ℤ
  pub places : ℕ

abbrev pub Micros : Type 0
Micros = ℤ

-- `decimal.InvalidOperation`
pub data DecimalError : Type 0 where
  invalid_operation : DecimalError

-- The magnitude in millionths.
unfoldable pub quantize_magnitude : ℕ → ℕ → ℕ
quantize_magnitude n places =
    if leb places 6 then n * 10 ^ (6 - places) else div_half_even n (10 ^ (places - 6))

-- The context's precision: `quantize` refuses a result of more than 28 digits.
abbrev pub precision_limit : ℕ
precision_limit = 10 ^ 28

-- The value with the sign of a number and a new magnitude.
unfoldable pub with_sign : ℤ → ℕ → ℤ
with_sign (pos n) m = pos m
with_sign (negsuc n) m = sub_ℕ 0 m

abbrev pub magnitude : ℤ → ℕ
magnitude z = pos_part z + neg_part z

unfoldable pub quantize : Decimal → Result DecimalError Micros
unfolding quantize_magnitude with_sign div_half_even
quantize d =
    let m = quantize_magnitude (magnitude d.coefficient) d.places in
    if ltb m precision_limit then ok (with_sign d.coefficient m) else err invalid_operation

-- A quantized value, used as a `Decimal` again.
abbrev pub of_micros : Micros → Decimal
of_micros m = record { coefficient = m; places = 6 }
