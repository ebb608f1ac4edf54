-- ===== src/Costs/Governor.antt =====
-- The cost governor of services/api/honor_api/costs.py: `Exposure.total`, `state`, `admit` and
-- `unfunded_reservation`, and the governor that docs/architecture/c00-approved/
-- HONOR_C00_VALIDATION.py states for the same thresholds.
pub mod Admission
pub mod History
pub mod Reference
pub mod Rounding
use honor.Common.{
  ℕ, ◌-◌, ◌*◌, ◌^◌, max, String, Bool, true, false, ◌&&◌, ◌||◌, List, [], ◌∷◌, not, member,
  if◌then◌else◌, Result, ok, err, ◌>>=◌,
}
use honor.Common.Int.{ℤ, pos, negsuc, pos_part, neg_part, sub_ℕ, ◌+ℤ◌, ◌-ℤ◌, ltb_ℤ}
use honor.Costs.Decimal.{Decimal, Micros, DecimalError, quantize, of_micros}

abbrev pub optional_threshold : Micros
optional_threshold = pos 43000000

abbrev pub reserve_threshold : Micros
reserve_threshold = pos 51030000

abbrev pub hard_threshold : Micros
hard_threshold = pos 56030000

pub data GovernorState : Type 0 where
  normal optional_paused reserve hard_stop : GovernorState

pub data PaidClass : Type 0 where
  optional core_required emergency_allowed : PaidClass

pub record Exposure : Type 0 where
  pub cash_spend_counted_usd : Decimal
  pub unpaid_committed_usd : Decimal
  pub admitted_queued_unfunded_usd : Decimal

scale : ℤ → ℕ → ℤ
scale z k = sub_ℕ (pos_part z * k) (neg_part z * k)

-- `a + b` on decimals: at the finer of the two exponents.
unfoldable pub add : Decimal → Decimal → Decimal
unfolding scale ◌+ℤ◌
add a b =
    let places = max a.places b.places in
    record {
      coefficient =
          scale a.coefficient (10 ^ (places - a.places))
          +ℤ scale b.coefficient (10 ^ (places - b.places));
      places = places;
    }

unfoldable pub total : Exposure → Result DecimalError Micros
total e =
    quantize
      (add (add e.cash_spend_counted_usd e.unpaid_committed_usd) e.admitted_queued_unfunded_usd)

-- The bands of `state`, on a quantized value.
unfoldable pub band : Micros → GovernorState
band value =
    if ltb_ℤ value optional_threshold
    then normal
    else if ltb_ℤ value reserve_threshold
    then optional_paused
    else if ltb_ℤ value hard_threshold
    then reserve
    else hard_stop

unfoldable pub state : Decimal → Result DecimalError GovernorState
state exposure = do value ← quantize exposure; ok (band value)

abbrev pub emergency_purposes : List String
emergency_purposes = "recovery" ∷ "security" ∷ "reconciliation" ∷ []

-- The branches on `paid_class`.
unfoldable pub admit_class : PaidClass → String → Micros → Micros → Bool
admit_class optional purpose current post =
    ltb_ℤ current optional_threshold && ltb_ℤ post optional_threshold
admit_class core_required purpose current post =
    ltb_ℤ current reserve_threshold && ltb_ℤ post reserve_threshold
admit_class emergency_allowed purpose current post =
    member purpose emergency_purposes && ltb_ℤ post hard_threshold

-- The tests of `admit` in their order, on the quantized values.
unfoldable pub decide_admission : Micros → Micros → Micros → PaidClass → String → Bool
decide_admission current reserved post paid_class purpose =
    if not (ltb_ℤ (pos 0) reserved)
    then true
    else if not (ltb_ℤ current hard_threshold) || not (ltb_ℤ post hard_threshold)
    then false
    else admit_class paid_class purpose current post

unfoldable pub admit : Decimal → Decimal → PaidClass → String → Result DecimalError Bool
admit current reservation paid_class purpose = do
  current' ← quantize current
  reserved ← quantize reservation
  post ← quantize (of_micros (current' +ℤ reserved))
  ok (decide_admission current' reserved post paid_class purpose)

unfoldable pub unfunded_reservation : Decimal → Decimal → Result DecimalError Micros
unfunded_reservation max_incremental remaining_prepaid_credit = do
  wanted ← quantize max_incremental
  credit ← quantize remaining_prepaid_credit
  let excess = wanted -ℤ credit
  quantize (of_micros (if ltb_ℤ (pos 0) excess then excess else pos 0))
