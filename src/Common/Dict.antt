-- ===== src/Common/Dict.antt =====
-- Python's dicts with keys that have a test of equality: the entries in the order of insertion.
use honor.Common.Tests.{if◌then◌else◌, Bool-cases, Option-cases, is_some, if_then, if_else}
use mathlib.Core.Path.{◌≡◌, refl, sym, ap, ◌∙◌, subst}
use mathlib.Core.Logic.{inl, inr}
use mathlib.Core.Bool.{Bool, true, false, not}
use mathlib.Core.Option.{Option, none, some}
use mathlib.Core.List.{List, [], ◌∷◌}
use native.Mathlib.Omega.{arith}

-- A test that holds exactly between equal values.
pub record IsEquality {ℓ} {K : Type ℓ} (eq : K → K → Bool) : Type ℓ where
  pub sound : (a b : K) → eq a b ≡ true → a ≡ b
  pub reflexive : (a : K) → eq a a ≡ true

cons-ne-nil {ℓ} : {A : Type ℓ} {x : A} {xs : List A} → ◌≡◌ {A = List A} (x ∷ xs) [] → ⊥
cons-ne-nil h = cc

some-ne-none {ℓ} : {A : Type ℓ} (o : Option A) → o ≡ none → is_some o ≡ true → ⊥
some-ne-none none e h = cc
some-ne-none (some a) e h = cc

module _ {ℓ κ} {K : Type ℓ} {V : Type κ} (eq : K → K → Bool) where
  -- `d.get(k)`
  unfoldable pub lookup : K → List (K × V) → Option V
  lookup k [] = none
  lookup k ((j, v) ∷ d) = if eq j k then some v else lookup k d

  -- `d[k] = v`
  unfoldable pub put : K → V → List (K × V) → List (K × V)
  put k v [] = (k, v) ∷ []
  put k v ((j, w) ∷ d) = if eq j k then (j, v) ∷ d else (j, w) ∷ put k v d

  pub lookup-put_self :
      (k : K) (v : V) (d : List (K × V)) → IsEquality eq → lookup k (put k v d) ≡ some v
  unfolding lookup put
  lookup-put_self k v [] e = rw (e.reflexive k) refl
  lookup-put_self k v ((j, w) ∷ d) e = elim (Bool-cases (eq j k)) [
    | inl hit ↦ rw (hit, hit) refl
    | inr miss ↦ rw (miss, miss) (lookup-put_self k v d e)
  ]

  pub lookup-put_other :
      (k m : K) (v : V) (d : List (K × V))
      → IsEquality eq
      → eq k m ≡ false
      → lookup m (put k v d) ≡ lookup m d
  unfolding lookup put
  lookup-put_other k m v [] e other = rw other refl
  lookup-put_other k m v ((j, w) ∷ d) e other = elim (Bool-cases (eq j k)) [
    | inl hit ↦
        let same : j ≡ k = e.sound j k hit in
        let miss : eq j m ≡ false = ap (λ x. eq x m) same ∙ other in rw (hit, miss) refl
    | inr miss ↦ rw miss (ap (λ o. if eq j m then some w else o) (lookup-put_other k m v d e other))
  ]

  -- `sorted(set(d) - set(other))`, before it is sorted.
  unfoldable pub keys_without : List (K × V) → List (K × V) → List K
  unfolding lookup
  keys_without [] other = []
  keys_without ((k, v) ∷ d) other =
      let rest = keys_without d other in if is_some (lookup k other) then rest else k ∷ rest

module _ {ℓ κ} {K : Type ℓ} {V : Type κ} (eq : K → K → Bool) (same : V → V → Bool) where
  abbrev differs : V → Option V → Bool
  differs v none = false
  differs v (some w) = not (same v w)

  -- The keys of both dicts whose values differ.
  unfoldable pub keys_changed : List (K × V) → List (K × V) → List K
  unfolding lookup
  keys_changed [] other = []
  keys_changed ((k, v) ∷ d) other =
      let rest = keys_changed d other in if differs v (lookup eq k other) then k ∷ rest else rest

  agreed :
      (v : V) (o : Option V) → IsEquality same → is_some o ≡ true → differs v o ≡ false → o ≡ some v
  agreed v none e h h' = cc
  agreed v (some w) e h h' = elim (Bool-cases (same v w)) [
    | inl hit ↦ ap some (sym (e.sound v w hit))
    | inr miss ↦ absurd (unequal miss h')
  ]
    where
      unequal : same v w ≡ false → not (same v w) ≡ false → ⊥
      unequal miss h = ground arith

  -- No key missing and no value changed: what is in the first is in the second.
  lookup-unchanged :
      (d other : List (K × V)) (k : K) (v : V)
      → IsEquality eq
      → IsEquality same
      → keys_without eq d other ≡ []
      → keys_changed d other ≡ []
      → lookup eq k d ≡ some v
      → lookup eq k other ≡ some v
  unfolding lookup keys_without keys_changed
  lookup-unchanged [] other k v e e' none_missing none_changed found = cc
  lookup-unchanged ((j, w) ∷ d) other k v e e' none_missing none_changed found =
      elim (Bool-cases (is_some (lookup eq j other))) [
        | inr absent ↦ absurd (cons-ne-nil (sym (if_else _ _ _ absent) ∙ none_missing))
        | inl there ↦ elim (Bool-cases (differs w (lookup eq j other))) [
          | inl changed ↦ absurd (cons-ne-nil (sym (if_then _ _ _ changed) ∙ none_changed))
          | inr kept ↦ elim (Bool-cases (eq j k)) [
            | inl hit ↦
                let own : ◌≡◌ {A = Option V} (some w) (some v) = sym (if_then _ _ _ hit) ∙ found in
                subst (λ n. lookup eq n other ≡ some v) (e.sound j k hit)
                  (agreed w (lookup eq j other) e' there kept ∙ own)
            | inr miss ↦
                lookup-unchanged d other k v e e' (sym (if_then _ _ _ there) ∙ none_missing)
                  (sym (if_else _ _ _ kept) ∙ none_changed) (sym (if_else _ _ _ miss) ∙ found)
          ]
        ]
      ]

  -- A key of neither list of the first is in it.
  lookup-present :
      (d other : List (K × V)) (k : K) (v : V)
      → IsEquality eq
      → keys_without eq d other ≡ []
      → lookup eq k d ≡ some v
      → is_some (lookup eq k other) ≡ true
  unfolding lookup keys_without
  lookup-present [] other k v e none_missing found = cc
  lookup-present ((j, w) ∷ d) other k v e none_missing found =
      elim (Bool-cases (is_some (lookup eq j other))) [
        | inr absent ↦ absurd (cons-ne-nil (sym (if_else _ _ _ absent) ∙ none_missing))
        | inl there ↦ elim (Bool-cases (eq j k)) [
          | inl hit ↦ subst (λ n. is_some (lookup eq n other) ≡ true) (e.sound j k hit) there
          | inr miss ↦
              lookup-present d other k v e (sym (if_then _ _ _ there) ∙ none_missing)
                (sym (if_else _ _ _ miss) ∙ found)
        ]
      ]

  -- Two dicts with no key that the other lacks and no value that differs are the same map.
  pub lookup-same :
      (d other : List (K × V)) (k : K)
      → IsEquality eq
      → IsEquality same
      → keys_without eq d other ≡ []
      → keys_without eq other d ≡ []
      → keys_changed d other ≡ []
      → lookup eq k d ≡ lookup eq k other
  lookup-same d other k e e' missing extra changed = elim (Option-cases (lookup eq k d)) [
    | inr (v, found) ↦ found ∙ sym (lookup-unchanged d other k v e e' missing changed found)
    | inl absent ↦ elim (Option-cases (lookup eq k other)) [
      | inl absent' ↦ absent ∙ sym absent'
      | inr (w, found) ↦
          absurd (some-ne-none (lookup eq k d) absent (lookup-present other d k w e extra found))
    ]
  ]
