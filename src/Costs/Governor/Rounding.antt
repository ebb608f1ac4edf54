-- ===== src/Costs/Governor/Rounding.antt =====
-- Rounding to six places first never makes the governor laxer than exact comparison would be.
use native.Mathlib.Numerals.{towards_suc}
use honor.Common.{
  >>=-eq-ok, ok-injective, subst, ℕ, zero, suc, ◌+◌, ◌-◌, ◌*◌, ◌^◌, ◌≤◌, ◌<◌, max, ◌≡◌, Bool, true,
  false, ok, arith, ap, refl, leb, if◌then◌else◌,
}
use honor.Common.Int.{ℤ, pos, negsuc, ◌≤ℤ◌, ltb_ℤ→le}
use honor.Costs.Decimal.{Decimal, Micros, quantize, quantize_magnitude, with_sign}
use honor.Common.Rounding.{div_half_even}
use honor.Costs.Governor.{
  GovernorState, normal, optional_paused, reserve, hard_stop, scale, band, state,
}
use honor.Costs.Governor.Reference.{lt_decimal, hundredths, reference_state}

div_half_even-ge : (n d t : ℕ) → 0 < d → t * d ≤ n → t ≤ div_half_even n d
unfolding div_half_even
div_half_even-ge n d t h le = grind arith

pow_split : (k : ℕ) → 10 ^ (k + 5) ≡ 10000 * 10 ^ (k + 1)
pow_split k = simp towards_suc (omega arith)

pow_pos : (k : ℕ) → 0 < 10 ^ k
pow_pos zero = omega arith
pow_pos (suc k) = omega (arith, pow_pos k)

quantize_magnitude-past_six :
    (n q : ℕ)
    → quantize_magnitude n (suc (suc (suc (suc (suc (suc (suc q)))))))
      ≡ div_half_even n (10 ^ (q + 1))
unfolding quantize_magnitude
quantize_magnitude-past_six n q =
    let e : suc (suc (suc (suc (suc (suc (suc q)))))) - 6 ≡ q + 1 = omega arith in
    let big : leb (suc (suc (suc (suc (suc (suc (suc q))))))) 6 ≡ false = ground arith in
    rw (big, e)

exponent : (q : ℕ) → max (suc (suc (suc (suc (suc (suc (suc q))))))) 2 - 2 ≡ q + 5
exponent q = omega arith

unit :
    (q : ℕ)
    → max (suc (suc (suc (suc (suc (suc (suc q))))))) 2 - suc (suc (suc (suc (suc (suc (suc q))))))
      ≡ 0
unit q = omega arith

scale-pos : (n k : ℕ) → scale (pos n) k ≡ pos (n * k)
unfolding scale
scale-pos n k = ground arith

negative : (h n k m : ℕ) → 0 < k → 0 < m → 0 < h → pos (h * m) ≤ℤ scale (negsuc n) k → ⊥
unfolding scale
negative h n k m hk hm hh le = grind arith

quantize-pos :
    (n places : ℕ) (v : Micros)
    → quantize (record { coefficient = pos n; places = places }) ≡ ok v
    → v ≡ pos (quantize_magnitude n places)
unfolding quantize with_sign
quantize-pos n places v q = ground arith

-- The magnitude reaches a threshold of hundredths that the exact value reaches.
quantize_magnitude-ge :
    (n places h : ℕ)
    → h * 10 ^ (max places 2 - 2) ≤ n * 10 ^ (max places 2 - places)
    → h * 10000 ≤ quantize_magnitude n places
unfolding quantize_magnitude
quantize_magnitude-ge n zero h le = omega arith
quantize_magnitude-ge n (suc zero) h le = omega arith
quantize_magnitude-ge n (suc (suc zero)) h le = omega arith
quantize_magnitude-ge n (suc (suc (suc zero))) h le = omega arith
quantize_magnitude-ge n (suc (suc (suc (suc zero)))) h le = omega arith
quantize_magnitude-ge n (suc (suc (suc (suc (suc zero))))) h le = omega arith
quantize_magnitude-ge n (suc (suc (suc (suc (suc (suc zero)))))) h le = omega arith
quantize_magnitude-ge n (suc (suc (suc (suc (suc (suc (suc q))))))) h le =
    rw (quantize_magnitude-past_six n q) (
      div_half_even-ge n (10 ^ (q + 1)) (h * 10000) (pow_pos (q + 1))
        (scaled (rw (exponent q, unit q) at le)))
  where
    scaled : h * 10 ^ (q + 5) ≤ n * 10 ^ 0 → h * 10000 * 10 ^ (q + 1) ≤ n
    scaled k = omega (arith, ap (λ (t : ℕ). h * t) (pow_split q))

lt_decimal-exact :
    (z : ℤ) (places h : ℕ)
    → lt_decimal (record { coefficient = z; places = places }) (hundredths h) ≡ false
    → pos (h * 10 ^ (max places 2 - 2)) ≤ℤ scale z (10 ^ (max places 2 - places))
unfolding lt_decimal
lt_decimal-exact z places h at =
    let le =
      ltb_ℤ→le (scale z (10 ^ (max places 2 - places))) (scale (pos h) (10 ^ (max places 2 - 2)))
        at in
    rw scale-pos at le

-- What exact comparison puts at a threshold or past it, `D` puts there too.
quantize-ge :
    (z : ℤ) (places : ℕ) (v : Micros) (h : ℕ)
    → 0 < h
    → lt_decimal (record { coefficient = z; places = places }) (hundredths h) ≡ false
    → quantize (record { coefficient = z; places = places }) ≡ ok v
    → pos (h * 10000) ≤ℤ v
quantize-ge (pos n) places v h some_ at q =
    let le = rw scale-pos at (lt_decimal-exact (pos n) places h at) in
    let reached = quantize_magnitude-ge n places h (omega (arith, le)) in
    rw (quantize-pos n places v q) (omega (arith, reached))
quantize-ge (negsuc n) places v h some_ at q = absurd (
    negative h n (10 ^ (max places 2 - places)) (10 ^ (max places 2 - 2)) (pow_pos _) (pow_pos _)
      some_ (lt_decimal-exact (negsuc n) places h at))

-- The bands from the mildest to the strictest.
abbrev pub severity : GovernorState → ℕ
severity normal = 0
severity optional_paused = 1
severity reserve = 2
severity hard_stop = 3

-- The reference's ladder, for any outcome of its three tests.
ladder-le :
    (b₁ b₂ b₃ : Bool) (v : Micros)
    → (b₁ ≡ false → pos 43000000 ≤ℤ v)
    → (b₂ ≡ false → pos 51030000 ≤ℤ v)
    → (b₃ ≡ false → pos 56030000 ≤ℤ v)
    → severity
        (if b₁ then normal else if b₂ then optional_paused else if b₃ then reserve else hard_stop)
      ≤ severity (band v)
unfolding band
ladder-le true b₂ b₃ v h₁ h₂ h₃ = omega arith
ladder-le false true b₃ v h₁ h₂ h₃ = ground (arith, h₁ refl)
ladder-le false false true v h₁ h₂ h₃ = ground (arith, h₁ refl, h₂ refl)
ladder-le false false false v h₁ h₂ h₃ = ground (arith, h₁ refl, h₂ refl, h₃ refl)

-- For any decimal that `D` accepts, the state that `state` returns is at least as severe as the one
-- that the exact comparison of HONOR_C00_VALIDATION.py gives.
pub severity-state_ge :
    (x : Decimal) (s : GovernorState) → state x ≡ ok s → severity (reference_state x) ≤ severity s
unfolding state reference_state
severity-state_ge x s h =
    let (v, q, e) = >>=-eq-ok (quantize x) _ h in
    let reached = λ (t : ℕ) (p : 0 < t) (r : lt_decimal x (hundredths t) ≡ false).
      quantize-ge x.coefficient x.places v t p r q in
    subst (λ (g : GovernorState). severity (reference_state x) ≤ severity g) (ok-injective e)
      (ladder-le (lt_decimal x (hundredths 4300)) (lt_decimal x (hundredths 5103))
        (lt_decimal x (hundredths 5603)) v (reached 4300 (omega arith)) (reached 5103 (omega arith))
        (reached 5603 (omega arith)))
