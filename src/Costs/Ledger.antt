-- ===== src/Costs/Ledger.antt =====
-- `CostLedgerRepository` of services/api/honor_api/costs.py over the tables `cost_ledger` and
-- `provider_usage`: reservations, prepaid funding, commitments, usage and reconciliation. A column of
-- type numeric(p, 6) holds what `D` returns; its CHECK and its p digits are written out.
pub mod Repository
pub mod Usage
pub mod Replay
pub mod Changes
pub mod History
use honor.Common.{
  ℕ, ◌^◌, String, Bool, true, false, not, ◌&&◌, List, [], ◌∷◌, ◌++◌, Option, none, some, is_some,
  ltb, eqb, opt_eq, Result, ok, err, ◌>>=◌, ◌>>◌, raise_if, ◌==◌, if◌then◌else◌,
}
use honor.Common.Int.{ℤ, pos, negsuc, pos_part, neg_part}
use honor.Common.Text.{sort}
use honor.Common.Table.{find, insert, update}
use honor.Common.Platform.{Platform}
use honor.Costs.Decimal.{Decimal, Micros, DecimalError, quantize, magnitude}
use honor.Jobs.Store.{failing}

-- A row of `cost_ledger`; times in microseconds.
pub record LedgerRow : Type 0 where
  pub id : String
  pub provider : String
  pub service : String
  pub cost_category : String
  pub job_id : Option String
  pub polli_session_id : Option String
  pub quantity : Micros
  pub unit : String
  pub estimated_cost_usd : Micros
  pub actual_cost_usd : Option Micros
  pub cost_confidence : String
  pub incurred_at : ℕ
  pub reconciled_at : Option ℕ
  pub external_usage_id : Option String
  pub idempotency_key : String

pub record CostLedgerView : Type 0 where
  pub id : String
  pub provider : String
  pub service : String
  pub job_id : Option String
  pub polli_session_id : Option String
  pub estimated_cost_usd : Micros
  pub actual_cost_usd : Option Micros
  pub incurred_at : ℕ
  pub idempotency_key : String
  pub status : String
  pub source_of_cost_data : String
  pub reconciliation_state : String
  pub reservation_kind : String

pub data LedgerError : Type 0 where
  amount_refused : DecimalError → LedgerError
  invalid_uuid : LedgerError
  numeric_overflow : LedgerError
  check_violation : LedgerError
  unique_violation : LedgerError
  key_reused : List String → LedgerError
  request_reused : LedgerError
  absent_or_reconciled : LedgerError

-- `row.get(column)` as a condition, for a column of texts.
unfoldable pub is_truthy : Option String → Bool
is_truthy none = false
is_truthy (some s) = not (s == "")

unfoldable pub classify_ledger_row : LedgerRow → CostLedgerView
classify_ledger_row row = record {
  id = row.id;
  provider = row.provider;
  service = row.service;
  job_id = row.job_id;
  polli_session_id = row.polli_session_id;
  estimated_cost_usd = row.estimated_cost_usd;
  actual_cost_usd = row.actual_cost_usd;
  incurred_at = row.incurred_at;
  idempotency_key = row.idempotency_key;
  status =
      if is_some row.actual_cost_usd && is_some row.reconciled_at
      then "RECONCILED"
      else "RESERVED_OR_COMMITTED";
  source_of_cost_data =
      if is_truthy row.external_usage_id
      then "PROVIDER_RECONCILIATION"
      else "HONOR_PRE_DISPATCH_ESTIMATE";
  reconciliation_state = if is_some row.reconciled_at then "RECONCILED" else "PENDING";
  reservation_kind =
      if row.service == "PREPAID_FUNDING"
      then "PREPAID_FUNDING"
      else if is_truthy row.external_usage_id
      then "PROVIDER_USAGE"
      else "ADMITTED_OR_COMMITTED_RESERVATION";
}

-- `D(a) == D(b)` on amounts of six places.
unfoldable pub same_amount : Micros → Micros → Bool
same_amount (pos a) (pos b) = eqb a b
same_amount (negsuc a) (negsuc b) = eqb a b
same_amount (pos a) (negsuc b) = false
same_amount (negsuc a) (pos b) = false

-- `D(value)`
unfoldable pub amount : Decimal → Result LedgerError Micros
unfolding quantize
amount d = elim (quantize d) [ ok m ↦ ok m | err e ↦ err (amount_refused e) ]

abbrev pub ledger_key : LedgerRow → String
ledger_key row = row.idempotency_key

abbrev pub ledger_id : LedgerRow → String
ledger_id row = row.id

-- A value for a column numeric(p, 6) with a CHECK that it is not negative.
unfoldable pub check_column : ℕ → Micros → Result LedgerError (Unit {0})
check_column digits m = do
  raise_if (not (ltb (magnitude m) (10 ^ digits))) numeric_overflow
  raise_if (ltb 0 (neg_part m)) check_violation

unfoldable pub check_optional_column : ℕ → Option Micros → Result LedgerError (Unit {0})
unfolding check_column
check_optional_column digits none = ok tt
check_optional_column digits (some m) = check_column digits m
