-- ===== src/Worker/Reconciler/Selection.antt =====
-- Which rows a query of the reconciler selects, by their ids.
use honor.Common.{
  ℕ, String, ◌≡◌, ◌≢◌, inl, inr, refl, sym, ap, ◌∙◌, subst, Bool, false, ◌&&◌, ◌||◌, List, [], ◌∷◌,
  Option, none, some, arith, ltb, eqb, Bool-cases, ◌==◌, eq_iff, if_then, if_else,
}
use honor.Common.Text.{le_text}
use honor.Common.Table.{find}
use honor.Jobs.{JobRow, job_id}
use honor.Worker.Reconciler.{select, insert_by, order_by, ids}

some-ne-none : (r : JobRow) → ◌≢◌ {A = Option JobRow} (some r) none
some-ne-none r h = cc

some_injective : {r s : JobRow} → ◌≡◌ {A = Option JobRow} (some r) (some s) → r ≡ s
some_injective h = cc

-- Whether an id is among these.
unfoldable pub has : String → List String → Bool
has k [] = false
has k (j ∷ js) = (j == k) || has k js

has-insert_by :
    (k : String) (at : JobRow → ℕ) (r : JobRow) (rows : List JobRow)
    → has k (ids (insert_by at r rows)) ≡ ((r.id == k) || has k (ids rows))
unfolding has insert_by
has-insert_by k at r [] = refl
has-insert_by k at r (s ∷ rows) =
    elim (Bool-cases (ltb (at r) (at s) || (eqb (at r) (at s) && le_text r.id s.id))) [
      | inl before ↦ rw before refl
      | inr after ↦ rw after ground (arith, has-insert_by k at r rows)
    ]

pub has-order_by :
    (k : String) (at : JobRow → ℕ) (rows : List JobRow)
    → has k (ids (order_by at rows)) ≡ has k (ids rows)
unfolding has order_by
has-order_by k at [] = refl
has-order_by k at (r ∷ rows) =
    has-insert_by k at r (order_by at rows) ∙ ap (λ b. (r.id == k) || b) (has-order_by k at rows)

-- No two rows have the same id.
abbrev pub HasDistinctIds : List JobRow → Type 0
HasDistinctIds [] = Unit
HasDistinctIds (r ∷ rows) = (find job_id r.id rows ≡ none) × HasDistinctIds rows

has-select-none :
    (k : String) (p : JobRow → Bool) (rows : List JobRow)
    → find job_id k rows ≡ none
    → has k (ids (select p rows)) ≡ false
unfolding has find
has-select-none k p [] free = refl
has-select-none k p (r ∷ rows) free =
    let rest = has-select-none k p rows in
    elim (Bool-cases (r.id == k)) [
      | inl hit ↦ absurd (some-ne-none r (rw (← free, hit) refl))
      | inr miss ↦ elim (Bool-cases (p r)) [
        | inl p_r ↦ rw p_r (rw miss (rest (ground (arith, miss, free))))
        | inr not_p ↦ rw not_p (rest (ground (arith, miss, free)))
      ]
    ]

-- A row is selected exactly if it passes the test.
pub has-select :
    (k : String) (p : JobRow → Bool) (rows : List JobRow) (r : JobRow)
    → HasDistinctIds rows
    → find job_id k rows ≡ some r
    → has k (ids (select p rows)) ≡ p r
unfolding has find
has-select k p [] r distinct found = cc
has-select k p (x ∷ rows) r (free, distinct) found = elim (Bool-cases (x.id == k)) [
  | inl hit ↦
      let rest =
        has-select-none k p rows
          (subst (λ j. find job_id j rows ≡ none) ((eq_iff x.id k).0 hit) free) in
      let same : x ≡ r = some_injective (sym (if_then _ _ _ hit) ∙ found) in
      elim (Bool-cases (p x)) [
        | inl p_x ↦ rw p_x (rw hit (rw (← same) (sym p_x)))
        | inr not_p ↦ rw not_p (rest ∙ rw (← same) (sym not_p))
      ]
  | inr miss ↦
      let rest = has-select k p rows r distinct (sym (if_else _ _ _ miss) ∙ found) in
      elim (Bool-cases (p x)) [ inl p_x ↦ rw p_x (rw miss rest) | inr not_p ↦ rw not_p rest ]
]
