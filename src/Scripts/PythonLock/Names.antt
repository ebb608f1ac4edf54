-- ===== src/Scripts/PythonLock/Names.antt =====
-- The canonical form of a distribution's name.
use honor.Common.{
  ℕ, ◌≡◌, refl, ap, ◌∙◌, Bool, true, false, [], ◌∷◌, map, Bool-cases, inl, inr, arith,
}
use honor.Common.Regex.{Text, lower}
use honor.Scripts.PythonLock.{is_dash, collapse, canonical}

lower_twice : (c : ℕ) → lower (lower c) ≡ lower c
unfolding lower
lower_twice c = ground arith

is_dash-lower : (c : ℕ) → is_dash (lower c) ≡ is_dash c
unfolding lower is_dash
is_dash-lower c = ground arith

lower-dash : (c : ℕ) → is_dash c ≡ true → lower c ≡ c
unfolding lower is_dash
lower-dash c h = ground arith

-- Letters in lower case collapse as they did.
collapse-lower :
    (after : Bool) (s : Text) → collapse after (map lower s) ≡ map lower (collapse after s)
unfolding collapse lower
collapse-lower after [] = refl
collapse-lower true (c ∷ cs) = elim (Bool-cases (is_dash c)) [
  | inl dash ↦ rw (is_dash-lower c, dash) (collapse-lower true cs)
  | inr other ↦ rw (is_dash-lower c, other) (ap (λ t. lower c ∷ t) (collapse-lower false cs))
]
collapse-lower false (c ∷ cs) = elim (Bool-cases (is_dash c)) [
  | inl dash ↦ rw (is_dash-lower c, dash) (ap (λ t. 45 ∷ t) (collapse-lower true cs))
  | inr other ↦ rw (is_dash-lower c, other) (ap (λ t. lower c ∷ t) (collapse-lower false cs))
]

collapse_twice : (after : Bool) (s : Text) → collapse after (collapse after s) ≡ collapse after s
unfolding collapse is_dash
collapse_twice after [] = refl
collapse_twice true (c ∷ cs) = elim (Bool-cases (is_dash c)) [
  | inl dash ↦ rw dash (collapse_twice true cs)
  | inr other ↦ rw (other, other) (ap (λ t. c ∷ t) (collapse_twice false cs))
]
collapse_twice false (c ∷ cs) = elim (Bool-cases (is_dash c)) [
  | inl dash ↦ rw dash (ap (λ t. 45 ∷ t) (collapse_twice true cs))
  | inr other ↦ rw (other, other) (ap (λ t. c ∷ t) (collapse_twice false cs))
]

map-lower_twice : (s : Text) → map lower (map lower s) ≡ map lower s
map-lower_twice [] = refl
map-lower_twice (c ∷ cs) = rw (lower_twice c) (ap (λ t. lower c ∷ t) (map-lower_twice cs))

-- The canonical form of a name is its own canonical form.
pub canonical_twice : (name : Text) → canonical (canonical name) ≡ canonical name
unfolding canonical
canonical_twice name =
    ap (map lower) (collapse-lower false (collapse false name))
    ∙ map-lower_twice (collapse false (collapse false name))
    ∙ ap (map lower) (collapse_twice false name)
