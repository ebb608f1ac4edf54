-- ===== src/Costs/Ledger/Changes.antt =====
-- What an insertion and a reconciliation do to the rows of the ledger: amounts stay in range, and a row
-- changes once at most, when it is reconciled.
use honor.Common.{
  ℕ, ◌<◌, ◌^◌, String, ◌≡◌, ◌⊎◌, inl, inr, refl, sym, ◌∙◌, subst, false, ◌||◌, Option, none, some,
  is_some, Result, ok, >>=-eq-ok, ok-injective, raise_if, ◌==◌, eq_iff, arith, Bool-cases,
  Option-cases, All,
}
use honor.Common.Int.{pos_part, neg_part}
use honor.Common.Table.{
  find, find-insert, find-update, insert, update, All-find, All-update, All-insert,
}
use honor.Costs.Decimal.{Micros}
use honor.Costs.Ledger.{
  LedgerRow, CostLedgerView, LedgerError, ledger_id, check_column, check_optional_column,
}
use honor.Costs.Ledger.Repository.{
  Semantics, check_row, Table, inserted_or_replayed, insert_or_replay, verify_replay,
  reconciled_row, reconcile_row,
}

-- An amount that is not negative and fits its column.
abbrev pub InRange : ℕ → Micros → Type 0
InRange digits m = (neg_part m ≡ 0) × (pos_part m < 10 ^ digits)

abbrev pub OptionalInRange : ℕ → Option Micros → Type 0
OptionalInRange digits none = Unit {0}
OptionalInRange digits (some m) = InRange digits m

pub record IsSoundRow (row : LedgerRow) : Type 0 where
  pub quantity_fits : InRange 24 row.quantity
  pub estimate_fits : InRange 18 row.estimated_cost_usd
  pub actual_fits : OptionalInRange 18 row.actual_cost_usd
  pub settled : is_some row.actual_cost_usd ≡ is_some row.reconciled_at

-- How a row may change: not at all, or by the one reconciliation.
abbrev pub RowKept : LedgerRow → LedgerRow → Type 0
RowKept x y =
    (y ≡ x)
    ⊎ ((x.actual_cost_usd ≡ none)
        × (x.reconciled_at ≡ none)
        × ((now : ℕ) × (actual : Micros) × (y ≡ reconciled_row now actual x)))

abbrev pub RowsKept : Table → Table → Type 0
RowsKept rows rows' =
    (j : String) (x : LedgerRow)
    → find ledger_id j rows ≡ some x
    → (y : LedgerRow) × (find ledger_id j rows' ≡ some y) × RowKept x y

-- What every method keeps.
abbrev pub Keeps : Table → Table → Type 0
Keeps rows rows' = RowsKept rows rows' × (All IsSoundRow rows → All IsSoundRow rows')

Keeps-refl : (rows : Table) → Keeps rows rows
Keeps-refl rows = (λ j x e. (x, e, inl refl), λ h. h)

check_column-InRange : (digits : ℕ) (m : Micros) → check_column digits m ≡ ok tt → InRange digits m
unfolding check_column
check_column-InRange digits m h = ground arith

check_optional_column-InRange :
    (digits : ℕ) (o : Option Micros)
    → check_optional_column digits o ≡ ok tt
    → OptionalInRange digits o
unfolding check_optional_column
check_optional_column-InRange digits none h = tt
check_optional_column-InRange digits (some m) h = check_column-InRange digits m h

check_row-IsSoundRow :
    (row : LedgerRow)
    → is_some row.actual_cost_usd ≡ is_some row.reconciled_at
    → check_row row ≡ ok tt
    → IsSoundRow row
unfolding check_row
check_row-IsSoundRow row s h =
    let (_, q, h₁) = >>=-eq-ok (check_column 24 row.quantity) _ h in
    let (_, e, a) = >>=-eq-ok (check_column 18 row.estimated_cost_usd) _ h₁ in
    record {
      quantity_fits = check_column-InRange 24 row.quantity q;
      estimate_fits = check_column-InRange 18 row.estimated_cost_usd e;
      actual_fits = check_optional_column-InRange 18 row.actual_cost_usd a;
      settled = s;
    }

insert-Keeps : (row : LedgerRow) (rows : Table) → IsSoundRow row → Keeps rows (insert row rows)
insert-Keeps row rows sound = (
  λ j x e. (x, find-insert ledger_id j row rows ∙ rw e refl, inl refl),
  λ h. All-insert IsSoundRow row rows h sound,
)

to_result :
    (rows rows' : Table) (v : CostLedgerView) (p : CostLedgerView × Table)
    → ◌≡◌ {A = Result LedgerError (CostLedgerView × Table)} (ok p) (ok (v, rows'))
    → Keeps rows p.1
    → Keeps rows rows'
to_result rows rows' v p e k =
    subst (λ (q : CostLedgerView × Table). Keeps rows q.1) (ok-injective e) k

inserted-Keeps :
    (s : Semantics) (row : LedgerRow) (rows : Table) (o : Option LedgerRow) (v : CostLedgerView)
    (rows' : Table)
    → IsSoundRow row
    → inserted_or_replayed s row rows o ≡ ok (v, rows')
    → Keeps rows rows'
unfolding inserted_or_replayed
inserted-Keeps s row rows none v rows' sound h =
    let (_, _, h') = >>=-eq-ok (raise_if (is_some (find ledger_id row.id rows)) _) _ h in
    to_result rows rows' v _ h' (insert-Keeps row rows sound)
inserted-Keeps s row rows (some x) v rows' sound h =
    let (_, _, h') = >>=-eq-ok (verify_replay s x) _ h in
    to_result rows rows' v _ h' (Keeps-refl rows)

pub insert_or_replay-Keeps :
    (s : Semantics) (row : LedgerRow) (rows : Table) (v : CostLedgerView) (rows' : Table)
    → is_some row.actual_cost_usd ≡ is_some row.reconciled_at
    → insert_or_replay s row rows ≡ ok (v, rows')
    → Keeps rows rows'
unfolding insert_or_replay
insert_or_replay-Keeps s row rows v rows' settled h =
    let (_, checked, h') = >>=-eq-ok (check_row row) _ h in
    inserted-Keeps s row rows _ v rows' (check_row-IsSoundRow row settled checked) h'

-- The row that is reconciled, while it is open.
abbrev IsOpen : LedgerRow → Type 0
IsOpen row = (row.actual_cost_usd ≡ none) × (row.reconciled_at ≡ none)

row-IsOpen :
    (row : LedgerRow)
    → (is_some row.actual_cost_usd || is_some row.reconciled_at) ≡ false
    → IsOpen row
row-IsOpen row h = elim (Option-cases row.actual_cost_usd) [
  | inl a ↦ elim (Option-cases row.reconciled_at) [
    | inl b ↦ (a, b)
    | inr (t, b) ↦ absurd (let h' = rw (a, b) at h in cc)
  ]
  | inr (m, a) ↦ absurd (let h' = rw a at h in cc)
]

reconciled-IsSoundRow :
    (now : ℕ) (actual : Micros) (row : LedgerRow)
    → InRange 18 actual
    → IsSoundRow row
    → IsSoundRow (reconciled_row now actual row)
unfolding reconciled_row
reconciled-IsSoundRow now actual row fits h = record {
  quantity_fits = h.quantity_fits;
  estimate_fits = h.estimate_fits;
  actual_fits = fits;
  settled = refl;
}

update-Keeps :
    (now : ℕ) (actual : Micros) (rows : Table) (row : LedgerRow)
    → find ledger_id row.id rows ≡ some row
    → IsOpen row
    → InRange 18 actual
    → Keeps rows (update ledger_id row.id (reconciled_row now actual) rows)
update-Keeps now actual rows row found (a, r) fits = (
  λ j x e. elim (Bool-cases (row.id == j)) [
    | inl hit ↦
        let same = (eq_iff row.id j).0 hit in
        let is_row = subst (λ k. find ledger_id k rows ≡ some row) same found in
        let same_row : row ≡ x = cc (sym is_row ∙ e) in
        (
          reconciled_row now actual x,
          find-update ledger_id row.id j (reconciled_row now actual)
                (unfold reconciled_row in λ y. refl) rows
              ∙ rw (hit, e) refl,
          subst (λ (y : LedgerRow). RowKept y (reconciled_row now actual y)) same_row
              (inr (a, r, (now, actual, refl))),
        )
    | inr miss ↦ (
      x,
      find-update ledger_id row.id j (reconciled_row now actual)
            (unfold reconciled_row in λ y. refl) rows
          ∙ rw (miss, e) refl,
      inl refl,
    )
  ],
  λ h. All-update ledger_id IsSoundRow row.id (reconciled_row now actual) rows h (λ x e.
      reconciled-IsSoundRow now actual x fits (All-find ledger_id IsSoundRow row.id rows h e)),
)

pub reconcile_row-Keeps :
    (now : ℕ) (actual : Micros) (rows : Table) (o : Option LedgerRow) (v : CostLedgerView)
    (rows' : Table)
    → ((x : LedgerRow) → o ≡ some x → find ledger_id x.id rows ≡ some x)
    → reconcile_row now actual rows o ≡ ok (v, rows')
    → Keeps rows rows'
unfolding reconcile_row
reconcile_row-Keeps now actual rows none v rows' at h = cc
reconcile_row-Keeps now actual rows (some row) v rows' at h =
    elim (Bool-cases (is_some row.actual_cost_usd || is_some row.reconciled_at)) [
      | inl closed ↦ absurd (let h' = rw closed at h in cc)
      | inr free ↦
          let (_, fits, h') = >>=-eq-ok (check_column 18 actual) _ (rw free at h) in
          to_result rows rows' v _ h' (
            update-Keeps now actual rows row (at row refl) (row-IsOpen row free)
              (check_column-InRange 18 actual fits))
    ]
