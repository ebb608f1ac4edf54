-- ===== src/Costs/Ledger/Repository.antt =====
-- The methods of `CostLedgerRepository` on the table `cost_ledger`. `uuid4()` and the clock come as
-- arguments. A transaction that raises leaves the table as it was.
use honor.Common.{
  ℕ, String, Bool, true, false, not, ◌||◌, List, [], ◌∷◌, ◌++◌, Option, none, some, is_some, opt_eq,
  Result, ok, err, ◌>>=◌, ◌>>◌, raise_if, ◌==◌, if◌then◌else◌,
}
use honor.Common.Int.{pos}
use honor.Common.Text.{sort}
use honor.Common.Table.{find, insert, update}
use honor.Common.Platform.{Platform}
use honor.Costs.Decimal.{Decimal, Micros}
use honor.Costs.Ledger.{
  LedgerRow, CostLedgerView, LedgerError, invalid_uuid, unique_violation, key_reused,
  absent_or_reconciled, classify_ledger_row, same_amount, amount, ledger_key, ledger_id,
  check_column, check_optional_column,
}
use honor.Jobs.Store.{failing}

-- What `_verify_replay` compares with the row.
pub record Semantics : Type 0 where
  pub provider : String
  pub service : String
  pub cost_category : String
  pub quantity : Micros
  pub unit : String
  pub estimated_usd : Micros
  pub confidence : String
  pub job_id : Option String
  pub polli_session_id : Option String
  pub actual_usd : Option Micros
  pub reconciled : Option Bool

-- The entry of `checks` for `actual_usd`, if one is asked for.
unfoldable pub actual_checks : Option Micros → Option Micros → List (String × Bool)
actual_checks none actual = []
actual_checks (some m) none = ("actual_cost_usd", false) ∷ []
actual_checks (some m) (some a) = ("actual_cost_usd", same_amount a m) ∷ []

unfoldable pub reconciled_checks : Option Bool → Option ℕ → List (String × Bool)
reconciled_checks none at = []
reconciled_checks (some true) at = ("reconciled_at", is_some at) ∷ []
reconciled_checks (some false) at = ("reconciled_at", not (is_some at)) ∷ []

unfoldable pub checks : Semantics → LedgerRow → List (String × Bool)
checks s row =
    ("provider", row.provider == s.provider)
    ∷ ("service", row.service == s.service)
    ∷ ("cost_category", row.cost_category == s.cost_category)
    ∷ ("quantity", same_amount row.quantity s.quantity)
    ∷ ("unit", row.unit == s.unit)
    ∷ ("estimated_cost_usd", same_amount row.estimated_cost_usd s.estimated_usd)
    ∷ ("cost_confidence", row.cost_confidence == s.confidence)
    ∷ ("job_id", opt_eq row.job_id s.job_id)
    ∷ ("polli_session_id", opt_eq row.polli_session_id s.polli_session_id)
    ∷ (actual_checks s.actual_usd row.actual_cost_usd
        ++ reconciled_checks s.reconciled row.reconciled_at)

unfoldable pub raise_conflicts : List String → Result LedgerError (Unit {0})
raise_conflicts [] = ok tt
raise_conflicts (m ∷ ms) = err (key_reused (sort (m ∷ ms)))

-- `_verify_replay`
unfoldable pub verify_replay : Semantics → LedgerRow → Result LedgerError (Unit {0})
unfolding raise_conflicts
verify_replay s row = raise_conflicts (failing (checks s row))

-- The columns' types and CHECK constraints, which PostgreSQL tests before it looks for a conflict.
unfoldable pub check_row : LedgerRow → Result LedgerError (Unit {0})
check_row row = do
  check_column 24 row.quantity
  check_column 18 row.estimated_cost_usd
  check_optional_column 18 row.actual_cost_usd

abbrev pub Table : Type 0
Table = List LedgerRow

-- After the `INSERT`, by the row that has its key already.
unfoldable pub inserted_or_replayed :
    Semantics → LedgerRow → Table → Option LedgerRow → Result LedgerError (CostLedgerView × Table)
inserted_or_replayed s row rows none = do
  raise_if (is_some (find ledger_id row.id rows)) unique_violation
  ok (classify_ledger_row row, insert row rows)
inserted_or_replayed s row rows (some existing) = do
  verify_replay s existing
  ok (classify_ledger_row existing, rows)

-- `INSERT … ON CONFLICT(idempotency_key) DO NOTHING RETURNING *`, and the replay if nothing is returned.
unfoldable pub insert_or_replay :
    Semantics → LedgerRow → Table → Result LedgerError (CostLedgerView × Table)
insert_or_replay s row rows = do
  check_row row
  inserted_or_replayed s row rows (find ledger_key row.idempotency_key rows)

unfoldable pub prepaid_row : String → ℕ → String → Micros → String → LedgerRow
prepaid_row id now provider amount_usd idempotency_key = record {
  id = id;
  provider = provider;
  service = "PREPAID_FUNDING";
  cost_category = "AI_REASONING";
  job_id = none;
  polli_session_id = none;
  quantity = amount_usd;
  unit = "USD_CASH_PURCHASE";
  estimated_cost_usd = amount_usd;
  actual_cost_usd = some amount_usd;
  cost_confidence = "HIGH";
  incurred_at = now;
  reconciled_at = some now;
  external_usage_id = none;
  idempotency_key = idempotency_key;
}

unfoldable pub prepaid_semantics : String → Micros → Semantics
prepaid_semantics provider amount_usd = record {
  provider = provider;
  service = "PREPAID_FUNDING";
  cost_category = "AI_REASONING";
  quantity = amount_usd;
  unit = "USD_CASH_PURCHASE";
  estimated_usd = amount_usd;
  confidence = "HIGH";
  job_id = none;
  polli_session_id = none;
  actual_usd = some amount_usd;
  reconciled = some true;
}

-- `record_prepaid_funding`
unfoldable pub record_prepaid_funding :
    String → ℕ → String → Decimal → String → Table → Result LedgerError (CostLedgerView × Table)
record_prepaid_funding id now provider amount_usd idempotency_key rows = do
  m ← amount amount_usd
  insert_or_replay (prepaid_semantics provider m) (prepaid_row id now provider m idempotency_key)
      rows

-- The columns that `reconcile` sets.
unfoldable pub reconciled_row : ℕ → Micros → LedgerRow → LedgerRow
reconciled_row now actual row = record row {
  actual_cost_usd = some actual;
  reconciled_at = some now;
}

-- `WHERE id=$1 AND actual_cost_usd IS NULL AND reconciled_at IS NULL`
unfoldable pub reconcile_row :
    ℕ → Micros → Table → Option LedgerRow → Result LedgerError (CostLedgerView × Table)
reconcile_row now actual rows none = err absent_or_reconciled
reconcile_row now actual rows (some row) =
    if is_some row.actual_cost_usd || is_some row.reconciled_at
    then err absent_or_reconciled
    else (check_column 18 actual
        >> ok (
          classify_ledger_row (reconciled_row now actual row),
          update ledger_id row.id (reconciled_row now actual) rows,
        ))

-- The arguments of `reserve`.
pub record Reservation : Type 0 where
  pub provider : String
  pub service : String
  pub cost_category : String
  pub estimated_usd : Decimal
  pub idempotency_key : String
  pub job_id : Option String
  pub polli_session_id : Option String
  pub quantity : Decimal
  pub unit : String
  pub confidence : String

abbrev pub one : Decimal
one = record { coefficient = pos 1; places = 0 }

module _ (lib : Platform) where
  -- A parameter for a uuid column.
  unfoldable pub uuid_parameter : String → Result LedgerError String
  uuid_parameter text = elim (lib.parse_uuid text) [ none ↦ err invalid_uuid | some u ↦ ok u ]

  unfoldable pub uuid_column : Option String → Result LedgerError (Option String)
  unfolding uuid_parameter
  uuid_column none = ok none
  uuid_column (some text) = uuid_parameter text >>= λ u. ok (some u)

  -- `reconcile`
  unfoldable pub reconcile :
      String → Decimal → ℕ → Table → Result LedgerError (CostLedgerView × Table)
  unfolding uuid_parameter
  reconcile id actual_usd now rows = do
    actual ← amount actual_usd
    key ← uuid_parameter id
    reconcile_row now actual rows (find ledger_id key rows)

  unfoldable pub reserved_row :
      String → ℕ → Reservation → Micros → Micros → Option String → Option String → LedgerRow
  reserved_row id now r quantity estimate job_id polli_session_id = record {
    id = id;
    provider = r.provider;
    service = r.service;
    cost_category = r.cost_category;
    job_id = job_id;
    polli_session_id = polli_session_id;
    quantity = quantity;
    unit = r.unit;
    estimated_cost_usd = estimate;
    actual_cost_usd = none;
    cost_confidence = r.confidence;
    incurred_at = now;
    reconciled_at = none;
    external_usage_id = none;
    idempotency_key = r.idempotency_key;
  }

  unfoldable pub reserve_semantics : Reservation → Micros → Micros → Semantics
  reserve_semantics r quantity estimate = record {
    provider = r.provider;
    service = r.service;
    cost_category = r.cost_category;
    quantity = quantity;
    unit = r.unit;
    estimated_usd = estimate;
    confidence = r.confidence;
    job_id = r.job_id;
    polli_session_id = r.polli_session_id;
    actual_usd = none;
    reconciled = none;
  }

  -- `reserve`
  unfoldable pub reserve :
      String → ℕ → Reservation → Table → Result LedgerError (CostLedgerView × Table)
  reserve id now r rows = do
    quantity ← amount r.quantity
    estimate ← amount r.estimated_usd
    job_id ← uuid_column r.job_id
    polli_session_id ← uuid_column r.polli_session_id
    insert_or_replay (reserve_semantics r quantity estimate)
        (reserved_row id now r quantity estimate job_id polli_session_id) rows

  -- `record_unpaid_commitment`
  unfoldable pub record_unpaid_commitment :
      String
      → ℕ
      → String
      → String
      → String
      → Decimal
      → String
      → Option String
      → Table
      → Result LedgerError (CostLedgerView × Table)
  record_unpaid_commitment id now provider service cost_category committed_usd idempotency_key
        job_id rows =
      reserve id now
        (record {
          provider = provider;
          service = service;
          cost_category = cost_category;
          estimated_usd = committed_usd;
          idempotency_key = idempotency_key;
          job_id = job_id;
          polli_session_id = none;
          quantity = one;
          unit = "COMMITTED_OPERATION";
          confidence = "HIGH";
        })
        rows
