-- ===== src/Common/Rounding.antt =====
-- Rounding to the nearest whole number, ties to even: `decimal`'s ROUND_HALF_EVEN and `round`.
use honor.Common.{ℕ, ◌+◌, ◌*◌, ◌/◌, ◌%◌, ◌≤◌, ◌<◌, ◌≡◌, ltb, eqb, if◌then◌else◌, arith}

-- n / d to the nearest whole number, a tie to the even one (ROUND_HALF_EVEN).
unfoldable pub div_half_even : ℕ → ℕ → ℕ
div_half_even n d =
    let q = n / d in
    let twice = 2 * (n % d) in
    if ltb twice d then q else if ltb d twice then q + 1 else if eqb (q % 2) 0 then q else q + 1

-- Twice the distance to the rounded value is at most the divisor.
pub div_half_even_nearest :
    (n d : ℕ)
    → 0 < d
    → (2 * (div_half_even n d * d) ≤ 2 * n + d) × (2 * n ≤ 2 * (div_half_even n d * d) + d)
unfolding div_half_even
div_half_even_nearest n d h = grind arith

-- A tie goes to the even neighbour.
pub div_half_even_tie : (n d : ℕ) → 0 < d → 2 * (n % d) ≡ d → div_half_even n d % 2 ≡ 0
unfolding div_half_even
div_half_even_tie n d h tie = ground arith
