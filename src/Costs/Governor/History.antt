-- ===== src/Costs/Governor/History.antt =====
-- The governor over a history of admissions, in which each admitted reservation is added to the
-- exposure before the next one is judged.
use honor.Common.{String, ◌≡◌, inl, inr, true, ok}
use honor.Common.Int.{◌+ℤ◌, ◌<ℤ◌, ◌≤ℤ◌, int_laws}
use honor.Costs.Decimal.{Decimal, Micros, quantize, of_micros}
use honor.Costs.Governor.{PaidClass, admit}
use honor.Costs.Governor.Admission.{ceiling, admit_sound, Admissible}

-- `History P s c`: from exposure `s` admissions of work of the classes `P` have led to `c`.
pub data History (P : PaidClass → Type 0) (s : Micros) : Micros → Type 0 where
  start : History P s s
  admitted :
      {c : Micros} (e : Micros) (k : PaidClass) (purpose : String) (reservation : Decimal)
      (r : Micros)
      → History P s c
      → P k
      → quantize reservation ≡ ok r
      → admit (of_micros c) reservation k purpose ≡ ok true
      → e ≡ c +ℤ r
      → History P s e

Admissible-lt :
    (k : PaidClass) (purpose : String) (c r limit : Micros)
    → ceiling k ≤ℤ limit
    → c <ℤ limit
    → Admissible k purpose c r
    → c +ℤ r <ℤ limit
Admissible-lt k purpose c r limit hk hc (inl free) = omega int_laws
Admissible-lt k purpose c r limit hk hc (inr (_, post, _)) = omega int_laws

-- If exposure starts below a limit, and no class of the admitted work has a ceiling above the
-- limit, then after any sequence of admissions, each added to the exposure, the exposure is below
-- the limit.
pub History-lt :
    (P : PaidClass → Type 0) (limit : Micros)
    → ((k : PaidClass) → P k → ceiling k ≤ℤ limit)
    → (s c : Micros) → s <ℤ limit
    → History P s c
    → c <ℤ limit
History-lt P limit bound s c h start = h
History-lt P limit bound s _ h
      (admitted {c} e k purpose reservation r before pk reserved granted eq) =
    let now = History-lt P limit bound s c h before in
    let fits = admit_sound reservation k purpose c r reserved granted in
    rw eq (Admissible-lt k purpose c r limit (bound k pk) now fits)
