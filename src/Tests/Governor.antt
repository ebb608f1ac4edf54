-- ===== src/Tests/Governor.antt =====
-- The governor and the decimals at concrete amounts.
use honor.Common.{◌≤◌, ◌≡◌, ◌⊎◌, ◌↔◌, refl, true, false, ok, arith}
use honor.Common.Int.{pos, ◌+ℤ◌, ◌-ℤ◌, ◌<ℤ◌, ◌≤ℤ◌}
use honor.Costs.Decimal.{Decimal, Micros, of_micros, quantize}
use honor.Costs.Governor.{
  PaidClass, optional, core_required, optional_paused, admit, state, unfunded_reservation,
  optional_threshold, band, decide_admission, admit_class,
}
use honor.Costs.Governor.Admission.{Admissible, admit_iff, unfunded_reservation_lem}
use honor.Costs.Governor.History.{History, start, admitted, History-lt}
use honor.Costs.Governor.Reference.{
  reference_state, reference_admit, admit-eq-reference, admit_free_divergence,
}
use honor.Costs.Governor.Rounding.{severity, severity-state_ge}

-- 42.50 and a cent.
abbrev exposed : Decimal
exposed = record { coefficient = pos 4250; places = 2 }

abbrev cent : Decimal
cent = record { coefficient = pos 1; places = 2 }

admit_iff_example :
    (admit exposed cent optional "" ≡ ok true) ↔ Admissible optional "" (pos 42500000) (pos 10000)
unfolding quantize ◌+ℤ◌
admit_iff_example =
    admit_iff exposed cent optional "" (pos 42500000) (pos 10000) refl refl (omega arith)

admit-eq-reference_example :
    admit (of_micros (pos 51000000)) (of_micros (pos 40000)) core_required ""
    ≡ ok (reference_admit (of_micros (pos 51000000)) (of_micros (pos 40000)) core_required)
unfolding ◌+ℤ◌
admit-eq-reference_example =
    admit-eq-reference (pos 51000000) (pos 40000) core_required "" (omega arith) (omega arith)
      (omega arith) (omega arith) (λ h. cc)

-- 42.9999996 rounds to the threshold.
abbrev close : Decimal
close = record { coefficient = pos 429999996; places = 7 }

severity-state_ge_example : severity (reference_state close) ≤ severity optional_paused
unfolding state quantize band
severity-state_ge_example = severity-state_ge close optional_paused refl

abbrev IsOptional : PaidClass → Type 0
IsOptional k = k ≡ optional

one_admission : History IsOptional (pos 42500000) (pos 42510000)
unfolding ◌+ℤ◌ quantize admit decide_admission admit_class
one_admission = admitted (pos 42510000) optional "" cent (pos 10000) start refl refl refl refl

History-lt_example : pos 42510000 <ℤ optional_threshold
History-lt_example =
    History-lt IsOptional optional_threshold (λ k e. rw e (omega arith)) (pos 42500000)
      (pos 42510000) (omega arith) one_admission

unfunded_reservation_lem_example :
    (u : Micros) × (unfunded_reservation cent (of_micros (pos 4000)) ≡ ok u)
    × (pos 0 ≤ℤ u)
    × (((pos 10000 ≤ℤ pos 4000) × (u ≡ pos 0))
        ⊎ ((pos 4000 <ℤ pos 10000) × (pos 4000 +ℤ u ≡ pos 10000)))
unfolding quantize ◌-ℤ◌
unfunded_reservation_lem_example =
    unfunded_reservation_lem cent (of_micros (pos 4000)) (pos 10000) (pos 4000) refl refl
      (omega arith)

admit_free_divergence_example :
    (admit (of_micros (pos 60000000)) (of_micros (pos 0)) optional "" ≡ ok true)
    × (reference_admit (of_micros (pos 60000000)) (of_micros (pos 0)) optional ≡ false)
admit_free_divergence_example = admit_free_divergence (pos 60000000) "" (omega arith) (omega arith)
