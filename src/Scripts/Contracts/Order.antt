-- ===== src/Scripts/Contracts/Order.antt =====
-- The order of the generated operations.
use honor.Common.{
  true-ne-false, ◌≡◌, ◌⊎◌, inl, inr, sym, ◌∙◌, subst, true, false, List, ok, >>=-eq-ok,
  ok-injective, Bool-cases,
}
use mathlib.Core.List.{Perm}
use honor.Common.Regex.{Text, same_text, same_text_iff, le_text_total}
use honor.Common.Sorting.{sort, IsSorted, sort-IsSorted, sort-perm}
use honor.Scripts.Contracts.{Item, Operation, path_operations, le_operation, operations}

le_operation_total : (a b : Operation) → (le_operation a b ≡ true) ⊎ (le_operation b a ≡ true)
unfolding le_operation
le_operation_total a b = elim (Bool-cases (same_text a.path b.path)) [
  | inl hit ↦
      let back : same_text b.path a.path ≡ true =
        (same_text_iff b.path a.path).1 (sym ((same_text_iff a.path b.path).0 hit)) in
      rw (hit, back) (le_text_total a.method b.method)
  | inr miss ↦ rw (miss, unequal a.path b.path miss) (le_text_total a.path b.path)
]
  where
    unequal : (s t : Text) → same_text s t ≡ false → same_text t s ≡ false
    unequal s t miss = elim (Bool-cases (same_text t s)) [
      | inr other ↦ other
      | inl hit ↦
          absurd
            (true-ne-false (sym ((same_text_iff s t).1 (sym ((same_text_iff t s).0 hit))) ∙ miss))
    ]

-- The generated operations are sorted, and are the ones that the paths have, each as often.
pub operations-IsSorted :
    (paths : List (Text × List (Text × Item))) (os : List Operation)
    → operations paths ≡ ok os
    → IsSorted le_operation os
      × ((found : List Operation) × (path_operations paths ≡ ok found) × Perm os found)
unfolding operations
operations-IsSorted paths os h =
    let (found, read, h') = >>=-eq-ok (path_operations paths) _ h in
    let sorted : sort le_operation found ≡ os = ok-injective h' in
    (
      subst (IsSorted le_operation) sorted (sort-IsSorted le_operation found le_operation_total),
      (found, read, subst (λ l. Perm l found) sorted (sort-perm le_operation found)),
    )
