-- ===== src/Tests/Ledger.antt =====
-- The cost ledger at one reservation.
use honor.Common.{◌≡◌, refl, [], ◌∷◌, none, some, ok, All}
use honor.Common.Int.{pos}
use honor.Common.Table.{find, insert, update}
use honor.Costs.Decimal.{Decimal, quantize}
use honor.Costs.Ledger.{LedgerRow, amount, classify_ledger_row, check_column, check_optional_column}
use honor.Costs.Ledger.Repository.{
  Table, Reservation, one, check_row, inserted_or_replayed, insert_or_replay,
  record_prepaid_funding, prepaid_row, uuid_column, uuid_parameter, reserved_row, reserve,
  reconciled_row, reconcile_row, reconcile,
}
use honor.Costs.Ledger.Replay.{reserve_again}
use honor.Costs.Ledger.Changes.{IsSoundRow}
use honor.Costs.Ledger.History.{History, begin, later, reserves, reconciles, History-IsSoundRow}
use honor.Tests.Samples.{plain}

abbrev ten : Decimal
ten = record { coefficient = pos 10; places = 0 }

abbrev funding : Table
funding = prepaid_row "f-1" 7 "openai" (pos 10000000) "fund-1" ∷ []

funded :
    record_prepaid_funding "f-1" 7 "openai" ten "fund-1" []
    ≡ ok (classify_ledger_row (prepaid_row "f-1" 7 "openai" (pos 10000000) "fund-1"), funding)
unfolding record_prepaid_funding amount quantize insert_or_replay check_row check_column
    check_optional_column inserted_or_replayed find insert prepaid_row
funded = refl

abbrev reservation : Reservation
reservation = record {
  provider = "openai";
  service = "reasoning";
  cost_category = "AI_REASONING";
  estimated_usd = ten;
  idempotency_key = "r-1";
  job_id = some "j-1";
  polli_session_id = none;
  quantity = one;
  unit = "OPERATION";
  confidence = "HIGH";
}

abbrev row : LedgerRow
row = reserved_row plain "l-1" 7 reservation (pos 1000000) (pos 10000000) (some "j-1") none

reserved : reserve plain "l-1" 7 reservation [] ≡ ok (classify_ledger_row row, row ∷ [])
unfolding reserve amount quantize uuid_column uuid_parameter insert_or_replay check_row check_column
    check_optional_column inserted_or_replayed find insert reserved_row
reserved = refl

job_IsCanonical : uuid_column plain (some "j-1") ≡ ok (some "j-1")
unfolding uuid_column uuid_parameter
job_IsCanonical = refl

session_IsCanonical : uuid_column plain none ≡ ok none
unfolding uuid_column
session_IsCanonical = refl

reserve_again_example :
    reserve plain "l-2" 9 reservation (row ∷ []) ≡ ok (classify_ledger_row row, row ∷ [])
reserve_again_example =
    reserve_again plain "l-1" 7 reservation [] (row ∷ []) (classify_ledger_row row) "l-2" 9
      job_IsCanonical session_IsCanonical reserved

abbrev one_reservation : History plain [] (row ∷ [])
one_reservation =
    later begin (reserves "l-1" 7 reservation (classify_ledger_row row) (row ∷ []) reserved)

History-IsSoundRow_example : All IsSoundRow (row ∷ [])
History-IsSoundRow_example = History-IsSoundRow plain one_reservation tt

-- The reservation is reconciled at its estimate.
abbrev settled : LedgerRow
settled = reconciled_row 8 (pos 10000000) row

reconciled_once :
    reconcile plain "l-1" ten 8 (row ∷ []) ≡ ok (classify_ledger_row settled, settled ∷ [])
unfolding reconcile amount quantize uuid_parameter find update reconcile_row check_column
    reserved_row
reconciled_once = refl

abbrev reconciliation : History plain (row ∷ []) (settled ∷ [])
reconciliation =
    later begin
      (reconciles "l-1" ten 8 (classify_ledger_row settled) (settled ∷ []) reconciled_once)
