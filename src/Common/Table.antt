-- ===== src/Common/Table.antt =====
-- A database table whose rows have a text as their key: `SELECT … WHERE key=$1`, `UPDATE … WHERE
-- key=$1`, `INSERT`, over the rows in the order of insertion.
use Prim.Native.String.{String}
use mathlib.Core.Path.{◌≡◌, ◌∙◌, ap, subst}
use mathlib.Core.Logic.{inl, inr}
use mathlib.Core.Option
use mathlib.Core.Option.{Option, none, some}
use mathlib.Core.List.{List, [], ◌∷◌, ◌++◌}
use text.Mathlib.Text.{◌==◌}
use text.Mathlib.TextEquality.{eq_iff}
use native.Mathlib.Omega.{arith}
use honor.Common.Lists.{All}
use honor.Common.Tests.{if◌then◌else◌, Bool-cases}
use text.Mathlib.TextPositions.{eq_refl}

unfoldable pub insert {ℓ} : {A : Type ℓ} → A → List A → List A
insert x xs = xs ++ x ∷ []

module _ {ℓ} {A : Type ℓ} (key : A → String) where
  unfoldable pub find : String → List A → Option A
  find k [] = none
  find k (x ∷ xs) = if key x == k then some x else find k xs

  -- The key is unique in the tables, so one row at most is changed.
  unfoldable pub update : String → (A → A) → List A → List A
  update k f [] = []
  update k f (x ∷ xs) = if key x == k then f x ∷ xs else x ∷ update k f xs

  pub find-key : (k : String) (xs : List A) (x : A) → find k xs ≡ some x → key x ≡ k
  unfolding find
  find-key k [] x h = cc
  find-key k (y ∷ xs) x h = ground (arith, eq_iff (key y) k, find-key k xs x)

  -- What a lookup finds after an insertion: the row that was there, else the new one.
  pub find-insert :
      (k : String) (x : A) (xs : List A)
      → find k (insert x xs)
        ≡ elim (find k xs) [ some y ↦ some y | none ↦ if key x == k then some x else none ]
  unfolding find insert
  find-insert k x [] = ground arith
  find-insert k x (y ∷ xs) = ground (arith, find-insert k x xs)

  -- What a lookup finds after an update, for any two keys.
  pub find-update :
      (k j : String) (f : A → A)
      → ((x : A) → key (f x) ≡ key x)
      → (xs : List A)
      → find j (update k f xs) ≡ (if k == j then Option.map f (find j xs) else find j xs)
  unfolding find update
  find-update k j f same [] = ground arith
  find-update k j f same (x ∷ xs) = ground (
    arith,
    same x,
    ap (λ (s : String). s == j) (same x),
    eq_iff k j,
    eq_iff (key x) k,
    eq_iff (key x) j,
    eq_refl j,
    find-update k j f same xs,
  )

  -- What a lookup finds after an update of the row that it found.
  pub find-updated :
      (k : String) (f : A → A)
      → ((x : A) → key (f x) ≡ key x)
      → (xs : List A) (x : A) → find k xs ≡ some x
      → find k (update (key x) f xs) ≡ some (f x)
  find-updated k f same xs x found =
      find-update (key x) k f same xs
      ∙ rw ((eq_iff (key x) k).1 (find-key k xs x found)) (ap (Option.map f) found)

module _ {ℓ κ} {A : Type ℓ} (key : A → String) (P : A → Type κ) where
  pub All-find : (k : String) (xs : List A) {x : A} → All P xs → find key k xs ≡ some x → P x
  unfolding find
  All-find k [] a h = cc
  All-find k (y ∷ xs) a h = elim (Bool-cases (key y == k)) [
    | inl e ↦ subst P (ground (arith, e)) a.0
    | inr e ↦ All-find k xs a.1 (ground (arith, e))
  ]

  -- An update keeps a predicate that the changed row satisfies.
  pub All-update :
      (k : String) (f : A → A) (xs : List A)
      → All P xs
      → ((x : A) → find key k xs ≡ some x → P (f x))
      → All P (update key k f xs)
  unfolding find update
  All-update k f [] a h = tt
  All-update k f (y ∷ xs) a h = elim (Bool-cases (key y == k)) [
    | inl e ↦ rw e (h y (rw e), a.1)
    | inr e ↦ rw e (a.0, All-update k f xs a.1 (λ x q. h x (rw e q)))
  ]

pub All-insert {ℓ κ} :
    {A : Type ℓ} (P : A → Type κ) (x : A) (xs : List A) → All P xs → P x → All P (insert x xs)
unfolding insert
All-insert P x [] a p = (p, tt)
All-insert P x (y ∷ xs) a p = (a.0, All-insert P x xs a.1 p)
