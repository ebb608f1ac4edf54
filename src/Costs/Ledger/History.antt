-- ===== src/Costs/Ledger/History.antt =====
-- The ledger under any sequence of its methods.
use honor.Common.{ℕ, String, ◌≡◌, refl, sym, subst, Option, some, is_some, ok, >>=-eq-ok, All}
use honor.Common.Table.{find, find-key}
use honor.Common.Platform.{Platform}
use honor.Costs.Decimal.{Decimal, Micros}
use honor.Costs.Ledger.{CostLedgerView, amount, ledger_id}
use honor.Costs.Ledger.Repository.{
  Table, prepaid_row, record_prepaid_funding, Reservation, uuid_column, uuid_parameter,
  reserved_row, reserve, reconcile,
}
use honor.Costs.Ledger.Changes.{IsSoundRow, Keeps, insert_or_replay-Keeps, reconcile_row-Keeps}

module _ (lib : Platform) where
  -- A call of a method that returned.
  pub data Step (rows : Table) : Table → Type 0 where
    reserves :
        (id : String) (now : ℕ) (r : Reservation) (v : CostLedgerView) (rows' : Table)
        → reserve lib id now r rows ≡ ok (v, rows')
        → Step rows rows'
    funds :
        (id : String) (now : ℕ) (provider : String) (d : Decimal) (key : String)
        (v : CostLedgerView) (rows' : Table)
        → record_prepaid_funding id now provider d key rows ≡ ok (v, rows')
        → Step rows rows'
    reconciles :
        (id : String) (d : Decimal) (now : ℕ) (v : CostLedgerView) (rows' : Table)
        → reconcile lib id d now rows ≡ ok (v, rows')
        → Step rows rows'

  pub data History (rows : Table) : Table → Type 0 where
    begin : History rows rows
    later : {mid end : Table} → History rows mid → Step mid end → History rows end

  reserved_open :
      (id : String) (now : ℕ) (r : Reservation) (q e : Micros) (j p : Option String)
      → is_some (reserved_row lib id now r q e j p).actual_cost_usd
        ≡ is_some (reserved_row lib id now r q e j p).reconciled_at
  unfolding reserved_row
  reserved_open id now r q e j p = refl

  prepaid_settled :
      (id : String) (now : ℕ) (provider : String) (m : Micros) (key : String)
      → is_some (prepaid_row id now provider m key).actual_cost_usd
        ≡ is_some (prepaid_row id now provider m key).reconciled_at
  unfolding prepaid_row
  prepaid_settled id now provider m key = refl

  reserve-Keeps :
      (id : String) (now : ℕ) (r : Reservation) (rows : Table) (v : CostLedgerView) (rows' : Table)
      → reserve lib id now r rows ≡ ok (v, rows')
      → Keeps rows rows'
  unfolding reserve
  reserve-Keeps id now r rows v rows' h =
      let (_, _, h₁) = >>=-eq-ok (amount r.quantity) _ h in
      let (_, _, h₂) = >>=-eq-ok (amount r.estimated_usd) _ h₁ in
      let (_, _, h₃) = >>=-eq-ok (uuid_column lib r.job_id) _ h₂ in
      let (_, _, h₄) = >>=-eq-ok (uuid_column lib r.polli_session_id) _ h₃ in
      insert_or_replay-Keeps _ _ rows v rows' (reserved_open id now r _ _ _ _) h₄

  funding-Keeps :
      (id : String) (now : ℕ) (provider : String) (d : Decimal) (key : String) (rows : Table)
      (v : CostLedgerView) (rows' : Table)
      → record_prepaid_funding id now provider d key rows ≡ ok (v, rows')
      → Keeps rows rows'
  unfolding record_prepaid_funding
  funding-Keeps id now provider d key rows v rows' h =
      let (_, _, h₁) = >>=-eq-ok (amount d) _ h in
      insert_or_replay-Keeps _ _ rows v rows' (prepaid_settled id now provider _ key) h₁

  reconcile-Keeps :
      (id : String) (d : Decimal) (now : ℕ) (rows : Table) (v : CostLedgerView) (rows' : Table)
      → reconcile lib id d now rows ≡ ok (v, rows')
      → Keeps rows rows'
  unfolding reconcile
  reconcile-Keeps id d now rows v rows' h =
      let (_, _, h₁) = >>=-eq-ok (amount d) _ h in
      let (key, _, h₂) = >>=-eq-ok (uuid_parameter lib id) _ h₁ in
      reconcile_row-Keeps now _ rows _ v rows'
        (λ x e.
          subst (λ k. find ledger_id k rows ≡ some x) (sym (find-key ledger_id key rows x e)) e)
        h₂

  Step-Keeps : {rows rows' : Table} → Step rows rows' → Keeps rows rows'
  Step-Keeps {rows} (reserves id now r v rows' h) = reserve-Keeps id now r rows v rows' h
  Step-Keeps {rows} (funds id now provider d key v rows' h) =
      funding-Keeps id now provider d key rows v rows' h
  Step-Keeps {rows} (reconciles id d now v rows' h) = reconcile-Keeps id d now rows v rows' h

  -- If every row of the cost ledger is sound (amounts not negative and within their columns, an
  -- actual amount exactly if there is a time of reconciliation), then so is every row after any
  -- sequence of calls.
  pub History-IsSoundRow :
      {rows rows' : Table} → History rows rows' → All IsSoundRow rows → All IsSoundRow rows'
  History-IsSoundRow begin h = h
  History-IsSoundRow (later past st) h = (Step-Keeps st).1 (History-IsSoundRow past h)
