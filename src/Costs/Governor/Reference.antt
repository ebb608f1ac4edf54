-- ===== src/Costs/Governor/Reference.antt =====
-- The governor of docs/architecture/c00-approved/HONOR_C00_VALIDATION.py, which compares exact
-- decimals with the thresholds, beside the one of services/api/honor_api/costs.py, which rounds to
-- six places first.
use honor.Common.{
  ℕ, ◌-◌, ◌*◌, ◌^◌, ◌<◌, max, String, ◌≡◌, Bool, true, false, ok, arith, ap, refl, ◌&&◌, not,
  if◌then◌else◌, member,
}
use honor.Common.Int.{ℤ, pos, negsuc, ◌+ℤ◌, ◌<ℤ◌, ◌≤ℤ◌, ltb_ℤ, le→ltb_ℤ, int_laws}
use honor.Costs.Decimal.{Decimal, Micros, of_micros, magnitude, precision_limit}
use honor.Costs.Decimal.Rounding.{quantize-of_micros}
use honor.Costs.Governor.{
  PaidClass, optional, core_required, emergency_allowed, emergency_purposes, GovernorState, normal,
  optional_paused, reserve, hard_stop, optional_threshold, scale, add, band, admit, admit_class,
  decide_admission,
}

-- `a < b` on exact decimals.
unfoldable pub lt_decimal : Decimal → Decimal → Bool
unfolding scale
lt_decimal a b =
    let places = max a.places b.places in
    ltb_ℤ (scale a.coefficient (10 ^ (places - a.places)))
      (scale b.coefficient (10 ^ (places - b.places)))

-- `Decimal('43.00')` and so on: hundredths.
abbrev pub hundredths : ℕ → Decimal
hundredths n = record { coefficient = pos n; places = 2 }

unfoldable pub reference_state : Decimal → GovernorState
reference_state x =
    if lt_decimal x (hundredths 4300)
    then normal
    else if lt_decimal x (hundredths 5103)
    then optional_paused
    else if lt_decimal x (hundredths 5603)
    then reserve
    else hard_stop

-- The branches on `kind`, with the exposure before and after.
reference_class : PaidClass → Decimal → Decimal → Bool
unfolding lt_decimal
reference_class optional current post =
    lt_decimal current (hundredths 4300) && lt_decimal post (hundredths 4300)
reference_class core_required current post =
    lt_decimal current (hundredths 5103) && lt_decimal post (hundredths 5103)
reference_class emergency_allowed current post =
    lt_decimal current (hundredths 5603) && lt_decimal post (hundredths 5603)

unfoldable pub reference_admit : Decimal → Decimal → PaidClass → Bool
unfolding reference_class
reference_admit current cost kind =
    let post = add current cost in
    if not (lt_decimal current (hundredths 5603)) then false else reference_class kind current post

scale_one : (z : ℤ) → scale z 1 ≡ z
unfolding scale
scale_one (pos n) = ground arith
scale_one (negsuc n) = ground arith

lt_decimal-hundredths :
    (m : Micros) (h : ℕ) → lt_decimal (of_micros m) (hundredths h) ≡ ltb_ℤ m (pos (h * 10000))
unfolding lt_decimal
lt_decimal-hundredths m h = rw scale_one (unfold scale in ground arith)

add-of_micros : (c r : Micros) → add (of_micros c) (of_micros r) ≡ of_micros (c +ℤ r)
unfolding add
add-of_micros c r = rw scale_one (rw scale_one refl)

-- At six places the two agree on the state.
pub reference_state-of_micros : (m : Micros) → reference_state (of_micros m) ≡ band m
unfolding reference_state band
reference_state-of_micros m =
    rw (lt_decimal-hundredths m 4300, lt_decimal-hundredths m 5103, lt_decimal-hundredths m 5603)

module _ (c r : Micros) (charged : pos 0 <ℤ r) where
  pub decide-eq-reference :
      (k : PaidClass) (purpose : String)
      → (k ≡ emergency_allowed → member purpose emergency_purposes ≡ true)
      → decide_admission c r (c +ℤ r) k purpose ≡ reference_admit (of_micros c) (of_micros r) k
  unfolding decide_admission admit_class reference_admit
  decide-eq-reference optional purpose h =
      rw
        (
          add-of_micros c r,
          lt_decimal-hundredths c 4300,
          lt_decimal-hundredths (c +ℤ r) 4300,
          lt_decimal-hundredths c 5603,
        )
        (ground arith)
  decide-eq-reference core_required purpose h =
      rw
        (
          add-of_micros c r,
          lt_decimal-hundredths c 5103,
          lt_decimal-hundredths (c +ℤ r) 5103,
          lt_decimal-hundredths c 5603,
        )
        (ground arith)
  decide-eq-reference emergency_allowed purpose h =
      rw
        (
          add-of_micros c r,
          lt_decimal-hundredths c 5603,
          lt_decimal-hundredths (c +ℤ r) 5603,
          h refl,
        )
        (ground arith)

-- On amounts of six places within the precision, for a positive charge and for emergency work with
-- an allowed purpose, `admit` returns what the governor of HONOR_C00_VALIDATION.py returns.
pub admit-eq-reference :
    (c r : Micros) (k : PaidClass) (purpose : String)
    → pos 0 <ℤ r
    → magnitude c < precision_limit
    → magnitude r < precision_limit
    → magnitude (c +ℤ r) < precision_limit
    → (k ≡ emergency_allowed → member purpose emergency_purposes ≡ true)
    → admit (of_micros c) (of_micros r) k purpose
      ≡ ok (reference_admit (of_micros c) (of_micros r) k)
unfolding admit
admit-eq-reference c r k purpose charged hc hr hs h =
    rw (quantize-of_micros c hc, quantize-of_micros r hr, quantize-of_micros (c +ℤ r) hs)
      (ap ok (decide-eq-reference c r charged k purpose h))

-- For optional work with nothing to charge, at every exposure of six places from the optional
-- threshold on, `admit` returns True and the governor of HONOR_C00_VALIDATION.py False.
pub admit_free_divergence :
    (c : Micros) (purpose : String)
    → optional_threshold ≤ℤ c
    → magnitude c < precision_limit
    → (admit (of_micros c) (of_micros (pos 0)) optional purpose ≡ ok true)
      × (reference_admit (of_micros c) (of_micros (pos 0)) optional ≡ false)
unfolding admit decide_admission reference_admit
admit_free_divergence c purpose h hc = (
  rw (
    quantize-of_micros c hc,
    quantize-of_micros (pos 0) (omega arith),
    zero_sum,
    quantize-of_micros c hc,
  ),
  rw (add-of_micros c (pos 0), lt_decimal-hundredths c 4300, le→ltb_ℤ c optional_threshold h)
      (ground arith),
)
  where
    zero_sum : c +ℤ pos 0 ≡ c
    zero_sum = omega int_laws
