-- ===== src/Costs/Governor/Admission.antt =====
-- What `admit` decides, as a condition on the exposure and the reservation alone.
use honor.Common.{
  >>=-eq-ok, ap, refl, ◌<◌, String, ◌≡◌, ◌↔◌, ◌⊎◌, inl, inr, true, member, ok, arith, Bool-cases,
}
use honor.Common.Int.{pos, ◌+ℤ◌, ◌-ℤ◌, ltb_ℤ, ◌<ℤ◌, ◌≤ℤ◌, int_laws, ltb_ℤ→lt, ltb_ℤ→le}
use honor.Costs.Decimal.{of_micros, Decimal, Micros, quantize, magnitude, precision_limit}
use honor.Costs.Decimal.Rounding.{quantize-of_micros, quantize-of_micros_eq}
use honor.Costs.Governor.{
  PaidClass, optional, core_required, emergency_allowed, optional_threshold, reserve_threshold,
  hard_threshold, emergency_purposes, admit_class, decide_admission, admit, unfunded_reservation,
}

-- The exposure that work of a class must stay below.
abbrev pub ceiling : PaidClass → Micros
ceiling optional = optional_threshold
ceiling core_required = reserve_threshold
ceiling emergency_allowed = hard_threshold

abbrev pub HasPurpose : PaidClass → String → Type 0
HasPurpose emergency_allowed purpose = member purpose emergency_purposes ≡ true
HasPurpose optional purpose = Unit
HasPurpose core_required purpose = Unit

-- A reservation that costs nothing, or exposure below the ceiling before and after.
abbrev pub Admissible : PaidClass → String → Micros → Micros → Type 0
Admissible k purpose current reserved =
    (reserved ≤ℤ pos 0)
    ⊎ ((current <ℤ ceiling k) × (current +ℤ reserved <ℤ ceiling k) × HasPurpose k purpose)

module _ (purpose : String) (c r : Micros) where
  pub decide_iff :
      (k : PaidClass) → (decide_admission c r (c +ℤ r) k purpose ≡ true) ↔ Admissible k purpose c r
  unfolding decide_admission admit_class
  decide_iff optional = (λ h. ground arith, λ h. ground arith)
  decide_iff core_required = (λ h. ground arith, λ h. ground arith)
  decide_iff emergency_allowed = (λ h. ground arith, λ h. ground arith)

-- For amounts that `D` accepts and a sum that it accepts, `admit` returns True exactly if the
-- reservation is not positive, or the exposure before and after it is below the ceiling of its
-- class and emergency work has an allowed purpose.
pub admit_iff :
    (current reservation : Decimal) (k : PaidClass) (purpose : String) (c r : Micros)
    → quantize current ≡ ok c
    → quantize reservation ≡ ok r
    → magnitude (c +ℤ r) < precision_limit
    → (admit current reservation k purpose ≡ ok true) ↔ Admissible k purpose c r
unfolding admit
admit_iff current reservation k purpose c r hc hr small =
    rw (hc, hr, quantize-of_micros (c +ℤ r) small)
      (λ h. (decide_iff purpose c r k).0 (cc h), λ h. ap ok ((decide_iff purpose c r k).1 h))

-- An admission from a quantized exposure was within the precision, and admissible.
pub admit_sound :
    (reservation : Decimal) (k : PaidClass) (purpose : String) (c r : Micros)
    → quantize reservation ≡ ok r
    → admit (of_micros c) reservation k purpose ≡ ok true
    → Admissible k purpose c r
unfolding admit
admit_sound reservation k purpose c r hr h =
    let (c', hc, h₁) = >>=-eq-ok (quantize (of_micros c)) _ h in
    let (r', hr', h₂) = >>=-eq-ok (quantize reservation) _ h₁ in
    let (p, hp, h₃) = >>=-eq-ok (quantize (of_micros (c' +ℤ r'))) _ h₂ in
    (decide_iff purpose c r k).0 (
      cc
        ((quantize-of_micros_eq c c' hc).0, (quantize-of_micros_eq (c' +ℤ r') p hp).0, hr, hr', h₃))

-- The unfunded part of a reservation is what the credit does not cover, and never negative.
pub unfunded_reservation_lem :
    (wanted credit : Decimal) (w c : Micros)
    → quantize wanted ≡ ok w
    → quantize credit ≡ ok c
    → magnitude (w -ℤ c) < precision_limit
    → (u : Micros) × (unfunded_reservation wanted credit ≡ ok u)
      × (pos 0 ≤ℤ u)
      × (((w ≤ℤ c) × (u ≡ pos 0)) ⊎ ((c <ℤ w) × (c +ℤ u ≡ w)))
unfolding unfunded_reservation
unfunded_reservation_lem wanted credit w c hw hc small =
    elim (Bool-cases (ltb_ℤ (pos 0) (w -ℤ c))) [
      | inl more ↦ (
        w -ℤ c,
        rw (hw, hc, more, quantize-of_micros (w -ℤ c) small),
        omega (int_laws, ltb_ℤ→lt (pos 0) (w -ℤ c) more),
        inr (omega (int_laws, ltb_ℤ→lt (pos 0) (w -ℤ c) more), omega int_laws),
      )
      | inr enough ↦ (
        pos 0,
        rw (hw, hc, enough, quantize-of_micros (pos 0) (omega arith)),
        omega arith,
        inl (omega (int_laws, ltb_ℤ→le (pos 0) (w -ℤ c) enough), refl),
      )
    ]
