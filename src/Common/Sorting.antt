-- ===== src/Common/Sorting.antt =====
-- `sorted(xs, key=…)`: an insertion sort by a total order, which keeps the order of equal keys.
use honor.Common.Tests.{if◌then◌else◌, Bool-cases}
use mathlib.Core.Path.{◌≡◌}
use mathlib.Core.Logic.{◌⊎◌, inl, inr}
use mathlib.Core.Bool.{Bool, true, false}
use mathlib.Core.List.{List, [], ◌∷◌, Perm}
use mathlib.Core.List.Perm

module _ {ℓ} {A : Type ℓ} (le : A → A → Bool) where
  unfoldable pub insert_sorted : A → List A → List A
  insert_sorted x [] = x ∷ []
  insert_sorted x (y ∷ ys) = if le x y then x ∷ y ∷ ys else y ∷ insert_sorted x ys

  unfoldable pub sort : List A → List A
  unfolding insert_sorted
  sort [] = []
  sort (x ∷ xs) = insert_sorted x (sort xs)

  abbrev pub IsSorted : List A → Type 0
  IsSorted [] = Unit
  IsSorted (x ∷ []) = Unit
  IsSorted (x ∷ y ∷ ys) = (le x y ≡ true) × IsSorted (y ∷ ys)

  -- Of two values, one is at most the other.
  abbrev pub IsTotal : Type ℓ
  IsTotal = (x y : A) → (le x y ≡ true) ⊎ (le y x ≡ true)

  or_above : (x y : A) → (le x y ≡ true) ⊎ (le y x ≡ true) → le x y ≡ false → le y x ≡ true
  or_above x y (inl below) above = cc
  or_above x y (inr other) above = other

  -- The head of a sorted list goes before what is inserted behind it.
  between :
      (x y z : A) (zs : List A)
      → le y x ≡ true
      → IsSorted (y ∷ z ∷ zs)
      → IsSorted (insert_sorted x (z ∷ zs))
      → IsSorted (y ∷ insert_sorted x (z ∷ zs))
  unfolding insert_sorted
  between x y z zs after s rest = elim (Bool-cases (le x z)) [
    | inl below ↦ rw below (after, (below, s.1))
    | inr above ↦ rw above (s.0, rw above at rest)
  ]

  insert-IsSorted : (x : A) (ys : List A) → IsTotal → IsSorted ys → IsSorted (insert_sorted x ys)
  unfolding insert_sorted
  insert-IsSorted x [] total s = tt
  insert-IsSorted x (y ∷ []) total s = elim (Bool-cases (le x y)) [
    | inl below ↦ rw below (below, tt)
    | inr above ↦ rw above (or_above x y (total x y) above, tt)
  ]
  insert-IsSorted x (y ∷ z ∷ zs) total s = elim (Bool-cases (le x y)) [
    | inl below ↦ rw below (below, s)
    | inr above ↦
        rw above (
          between x y z zs (or_above x y (total x y) above) s
            (insert-IsSorted x (z ∷ zs) total s.1))
  ]

  pub sort-IsSorted : (xs : List A) → IsTotal → IsSorted (sort xs)
  unfolding sort
  sort-IsSorted [] total = tt
  sort-IsSorted (x ∷ xs) total = insert-IsSorted x (sort xs) total (sort-IsSorted xs total)

  insert-perm : (x : A) (ys : List A) → Perm (insert_sorted x ys) (x ∷ ys)
  unfolding insert_sorted
  insert-perm x [] = Perm.refl (x ∷ [])
  insert-perm x (y ∷ ys) = elim (Bool-cases (le x y)) [
    | inl below ↦ rw below (Perm.refl (x ∷ y ∷ ys))
    | inr above ↦ rw above (Perm.trans (Perm.cons y (insert-perm x ys)) (Perm.swap x y ys))
  ]

  pub sort-perm : (xs : List A) → Perm (sort xs) xs
  unfolding sort
  sort-perm [] = Perm.refl []
  sort-perm (x ∷ xs) = Perm.trans (insert-perm x (sort xs)) (Perm.cons x (sort-perm xs))
