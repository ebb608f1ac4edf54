-- ===== src/Costs/Ledger/Replay.antt =====
-- The idempotency of the ledger's writes: a call made again with the same arguments returns the row
-- of the first call and writes nothing.
use honor.Common.{
  ℕ, String, ◌≡◌, refl, sym, ◌∙◌, subst, true, Option, none, some, is_some, opt_eq, ok, >>=-eq-ok,
  ok-injective, raise_if, eq_refl, arith,
}
use honor.Common.Int.{pos, negsuc}
use honor.Common.Table.{find, find-insert}
use honor.Common.Platform.{Platform}
use honor.Costs.Decimal.{Decimal, Micros}
use honor.Costs.Ledger.{
  LedgerRow, CostLedgerView, same_amount, amount, ledger_key, ledger_id, classify_ledger_row,
}
use honor.Costs.Ledger.Repository.{
  Semantics, checks, actual_checks, reconciled_checks, raise_conflicts, verify_replay, check_row,
  Table, inserted_or_replayed, insert_or_replay, prepaid_row, prepaid_semantics,
  record_prepaid_funding, Reservation, uuid_column, reserved_row, reserve_semantics, reserve,
}
use honor.Jobs.Store.{failing}

same_amount_refl : (m : Micros) → same_amount m m ≡ true
unfolding same_amount
same_amount_refl (pos n) = ground arith
same_amount_refl (negsuc n) = ground arith

opt_eq_refl : (o : Option String) → opt_eq o o ≡ true
opt_eq_refl none = refl
opt_eq_refl (some s) = eq_refl s

-- After a call, the row of its key is there, is the one returned, and passes the replay's checks.
abbrev Settled : Semantics → String → Table → CostLedgerView → Type 0
Settled s key rows v =
    (x : LedgerRow) × (find ledger_key key rows ≡ some x)
    × (verify_replay s x ≡ ok tt)
    × (classify_ledger_row x ≡ v)

inserted-Settled :
    (s : Semantics) (row : LedgerRow) (rows : Table) (o : Option LedgerRow) (v : CostLedgerView)
    (rows' : Table)
    → find ledger_key row.idempotency_key rows ≡ o
    → verify_replay s row ≡ ok tt
    → inserted_or_replayed s row rows o ≡ ok (v, rows')
    → Settled s row.idempotency_key rows' v
unfolding inserted_or_replayed
inserted-Settled s row rows none v rows' e own h =
    let (_, _, h') = >>=-eq-ok (raise_if (is_some (find ledger_id row.id rows)) _) _ h in
    subst (λ (q : CostLedgerView × Table). Settled s row.idempotency_key q.1 q.0) (ok-injective h')
      (
        row,
        find-insert ledger_key row.idempotency_key row rows
            ∙ rw (e, eq_refl row.idempotency_key) refl,
        own,
        refl,
      )
inserted-Settled s row rows (some x) v rows' e own h =
    let (_, passed, h') = >>=-eq-ok (verify_replay s x) _ h in
    subst (λ (q : CostLedgerView × Table). Settled s row.idempotency_key q.1 q.0) (ok-injective h')
      (x, e, passed, refl)

-- A call and the call made again: the row that the second would insert has the key of the first's.
again :
    (s : Semantics) (row row' : LedgerRow) (rows rows' : Table) (v : CostLedgerView)
    → row'.idempotency_key ≡ row.idempotency_key
    → check_row row' ≡ check_row row
    → verify_replay s row ≡ ok tt
    → insert_or_replay s row rows ≡ ok (v, rows')
    → insert_or_replay s row' rows' ≡ ok (v, rows')
unfolding insert_or_replay inserted_or_replayed
again s row row' rows rows' v key same own h =
    let (_, checked, h') = >>=-eq-ok (check_row row) _ h in
    let (x, there, passed, view) = inserted-Settled s row rows _ v rows' refl own h' in
    rw (same, checked, key, there, passed, view) refl

prepaid_own :
    (id : String) (now : ℕ) (provider : String) (m : Micros) (key : String)
    → verify_replay (prepaid_semantics provider m) (prepaid_row id now provider m key) ≡ ok tt
unfolding verify_replay prepaid_semantics prepaid_row checks actual_checks reconciled_checks failing
    raise_conflicts
prepaid_own id now provider m key = rw (eq_refl provider, same_amount_refl m) refl

-- After a call of `record_prepaid_funding` that returned, the same call with another id at another
-- time returns the same view and changes nothing.
pub record_prepaid_funding_again :
    (id : String) (now : ℕ) (provider : String) (d : Decimal) (key : String) (rows rows' : Table)
    (v : CostLedgerView) (id' : String) (now' : ℕ)
    → record_prepaid_funding id now provider d key rows ≡ ok (v, rows')
    → record_prepaid_funding id' now' provider d key rows' ≡ ok (v, rows')
unfolding record_prepaid_funding
record_prepaid_funding_again id now provider d key rows rows' v id' now' h =
    let (m, e, h') = >>=-eq-ok (amount d) _ h in
    rw e (
      again (prepaid_semantics provider m) (prepaid_row id now provider m key)
        (prepaid_row id' now' provider m key) rows rows' v (unfold prepaid_row in refl)
        (unfold prepaid_row check_row in refl) (prepaid_own id now provider m key) h')

module _ (lib : Platform) where
  -- The optional UUID is written in its canonical form.
  abbrev pub IsCanonicalColumn : Option String → Type 0
  IsCanonicalColumn o = uuid_column lib o ≡ ok o

  reserve_own :
      (id : String) (now : ℕ) (r : Reservation) (q e : Micros)
      → verify_replay
          (reserve_semantics lib r q e)
          (reserved_row lib id now r q e r.job_id r.polli_session_id)
        ≡ ok tt
  unfolding verify_replay reserve_semantics reserved_row checks actual_checks reconciled_checks
      failing raise_conflicts
  reserve_own id now r q e =
      rw
        (
          eq_refl r.provider,
          eq_refl r.service,
          eq_refl r.cost_category,
          same_amount_refl q,
          eq_refl r.unit,
          same_amount_refl e,
          eq_refl r.confidence,
          opt_eq_refl r.job_id,
          opt_eq_refl r.polli_session_id,
        )
        refl

  reserve_value :
      (id : String) (now : ℕ) (r : Reservation) (rows : Table) (q e : Micros)
      → amount r.quantity ≡ ok q
      → amount r.estimated_usd ≡ ok e
      → IsCanonicalColumn r.job_id
      → IsCanonicalColumn r.polli_session_id
      → reserve lib id now r rows
        ≡ insert_or_replay
            (reserve_semantics lib r q e)
            (reserved_row lib id now r q e r.job_id r.polli_session_id)
            rows
  unfolding reserve
  reserve_value id now r rows q e eq ee cj cp = rw (eq, ee, cj, cp) refl

  -- After a call of `reserve` that returned, with its UUIDs in canonical form, the same call with
  -- another id at another time returns the same view and changes nothing.
  pub reserve_again :
      (id : String) (now : ℕ) (r : Reservation) (rows rows' : Table) (v : CostLedgerView)
      (id' : String) (now' : ℕ)
      → IsCanonicalColumn r.job_id
      → IsCanonicalColumn r.polli_session_id
      → reserve lib id now r rows ≡ ok (v, rows')
      → reserve lib id' now' r rows' ≡ ok (v, rows')
  unfolding reserve
  reserve_again id now r rows rows' v id' now' cj cp h =
      let (q, eq, h₁) = >>=-eq-ok (amount r.quantity) _ h in
      let (e, ee, h₂) = >>=-eq-ok (amount r.estimated_usd) _ h₁ in
      let first = reserve_value id now r rows q e eq ee cj cp in
      let second = reserve_value id' now' r rows' q e eq ee cj cp in
      second
      ∙ again (reserve_semantics lib r q e)
          (reserved_row lib id now r q e r.job_id r.polli_session_id)
          (reserved_row lib id' now' r q e r.job_id r.polli_session_id) rows rows' v
          (unfold reserved_row in refl) (unfold reserved_row check_row in refl)
          (reserve_own id now r q e) (sym first ∙ h)
