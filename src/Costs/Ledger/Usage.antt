-- ===== src/Costs/Ledger/Usage.antt =====
-- `record_provider_usage` of services/api/honor_api/costs.py over the table `provider_usage`.
use honor.Common.{
  ℕ, String, not, ◌&&◌, ◌||◌, List, [], ◌∷◌, Option, none, some, opt_eq, Result, ok, err, ◌>>=◌,
  ◌==◌, if◌then◌else◌,
}
use honor.Common.Table.{insert}
use honor.Common.Platform.{Platform}
use honor.Costs.Decimal.{Decimal}
use honor.Costs.Ledger.{LedgerError, request_reused}
use honor.Costs.Ledger.Repository.{uuid_column}

-- What was used, as it is passed; the method does not read it back.
pub record Measures : Type 0 where
  pub model_or_sku : Option String
  pub input_units : Option ℕ
  pub output_units : Option ℕ
  pub audio_seconds : Option Decimal
  pub duration_seconds : Option Decimal
  pub storage_bytes : Option ℕ
  pub operation_count : Option ℕ
  pub raw_usage : String
  pub captured_at : ℕ

pub record UsageRow : Type 0 where
  pub id : String
  pub provider : String
  pub service : String
  pub request_id : Option String
  pub job_id : Option String
  pub measures : Measures

-- The unique index: provider and request, where there is a request.
unfoldable pub find_request : String → Option String → List UsageRow → Option UsageRow
find_request provider none rows = none
find_request provider (some request) [] = none
find_request provider (some request) (row ∷ rows) =
    if row.provider == provider && opt_eq row.request_id (some request)
    then some row
    else find_request provider (some request) rows

-- After the `INSERT`, by the row that has its request already: it must be of the same service and job.
unfoldable pub stored_or_replayed :
    UsageRow
    → Option String
    → List UsageRow
    → Option UsageRow
    → Result LedgerError (String × List UsageRow)
stored_or_replayed row job_id rows none = ok (row.id, insert row rows)
stored_or_replayed row job_id rows (some existing) =
    if not (existing.service == row.service) || not (opt_eq existing.job_id job_id)
    then err request_reused
    else ok (existing.id, rows)

-- `record_provider_usage`
unfoldable pub record_provider_usage :
    Platform
    → String
    → String
    → String
    → Option String
    → Option String
    → Measures
    → List UsageRow
    → Result LedgerError (String × List UsageRow)
record_provider_usage lib id provider service request_id job_id measures rows = do
  stored_job ← uuid_column lib job_id
  stored_or_replayed
      (record {
        id = id;
        provider = provider;
        service = service;
        request_id = request_id;
        job_id = stored_job;
        measures = measures;
      })
      job_id rows (find_request provider request_id rows)
