-- ===== src/Api/Storage/Keys.antt =====
-- A validated key is in normal form and cannot leave the root directory.
use honor.Common.{
  ◌≡◌, inl, inr, refl, subst, Bool, true, false, not, ◌||◌, List, [], ◌∷◌, any, eqb, ok, >>=-eq-ok,
  ok-injective, raise_if, Bool-cases, arith,
}
use honor.Api.Storage.{
  Text, slash, StorageError, normalized, same, split, is_unsafe_part, check_key, validated_key,
  enter, resolve, inside, same_path, is_inside, local_path, starts_with, contains,
  has_allowed_prefix, invalid_object_key, unapproved_storage_prefix,
}

normalized_twice : (key : Text) → normalized (normalized key) ≡ normalized key
unfolding normalized
normalized_twice [] = refl
normalized_twice (c ∷ cs) = ground (arith, normalized_twice cs)

-- A key that `_validated_key` returned is accepted again and returned as it is.
pub validated_key_twice : (key n : Text) → validated_key key ≡ ok n → validated_key n ≡ ok n
unfolding validated_key
validated_key_twice key n h =
    let (_, passed, e) = >>=-eq-ok (check_key (normalized key)) _ h in
    subst (λ k. validated_key k ≡ ok k) (ok-injective e) (rw (normalized_twice key, passed) refl)

pub same_refl : (s : Text) → same s s ≡ true
unfolding same
same_refl [] = refl
same_refl (c ∷ cs) = ground (arith, same_refl cs)

pub same_path_refl : (ps : List Text) → same_path ps ps ≡ true
unfolding same_path
same_path_refl [] = refl
same_path_refl (p ∷ ps) = rw (same_refl p) (same_path_refl ps)

-- The parts, put one on another.
abbrev pub stacked : List Text → List Text → List Text
stacked up [] = up
stacked up (part ∷ parts) = stacked (part ∷ up) parts

enter-safe :
    (up : List Text) (part : Text) → is_unsafe_part part ≡ false → enter up part ≡ part ∷ up
unfolding enter is_unsafe_part
enter-safe up part h = ground arith

resolve-safe :
    (up parts : List Text) → any is_unsafe_part parts ≡ false → resolve up parts ≡ stacked up parts
unfolding resolve
resolve-safe up [] h = refl
resolve-safe up (part ∷ parts) h = elim (Bool-cases (is_unsafe_part part)) [
  | inl bad ↦ absurd (let h' = rw bad at h in cc)
  | inr good ↦ rw (enter-safe up part good) (resolve-safe (part ∷ up) parts (rw good at h))
]

stacked-inside :
    (root up parts : List Text)
    → is_inside root up ≡ true
    → is_inside root (stacked up parts) ≡ true
unfolding is_inside
stacked-inside root up [] h = h
stacked-inside root up (part ∷ parts) h = stacked-inside root (part ∷ up) parts (ground (arith, h))

stacked-cons :
    (root : List Text) (part : Text) (parts : List Text)
    → is_inside root (stacked (part ∷ root) parts) ≡ true
unfolding is_inside
stacked-cons root part parts =
    stacked-inside root (part ∷ root) parts (rw (same_path_refl root) refl)

split-cons : (s : Text) → (part : Text) × (parts : List Text) × (split s ≡ part ∷ parts)
unfolding split
split-cons [] = ([], [], refl)
split-cons (c ∷ cs) =
    let (part, parts, e) = split-cons cs in
    elim (Bool-cases (eqb c slash)) [
      | inl hit ↦ ([], part ∷ parts, rw (hit, e) refl)
      | inr miss ↦ (c ∷ part, parts, rw (miss, e) refl)
    ]

passed_test : (b : Bool) (e : StorageError) → raise_if b e ≡ ok tt → b ≡ false
passed_test true e h = cc
passed_test false e h = refl

check_key-parts : (key : Text) → check_key key ≡ ok tt → any is_unsafe_part (split key) ≡ false
unfolding check_key
check_key-parts key h =
    let (_, _, h₁) =
      >>=-eq-ok (raise_if (starts_with (slash ∷ []) key || contains 0 key) invalid_object_key) _
        h in
    let (_, _, h₂) =
      >>=-eq-ok (raise_if (not (has_allowed_prefix key)) unapproved_storage_prefix) _ h₁ in
    passed_test _ invalid_object_key h₂

validated_key-parts :
    (key n : Text) → validated_key key ≡ ok n → any is_unsafe_part (split n) ≡ false
unfolding validated_key
validated_key-parts key n h =
    let (_, passed, e) = >>=-eq-ok (check_key (normalized key)) _ h in
    subst (λ k. any is_unsafe_part (split k) ≡ false) (ok-injective e)
      (check_key-parts (normalized key) passed)

-- For a key that `_validated_key` accepts, the local adapter's path is the root with the parts of
-- the normalized key below it, and the check of the path passes.
pub local_path-stacked :
    (root : List Text) (key n : Text)
    → validated_key key ≡ ok n
    → local_path root key ≡ ok (stacked root (split n))
unfolding local_path inside
local_path-stacked root key n h =
    let (part, parts, e) = split-cons n in
    rw
      (
        h,
        resolve-safe root (split n) (validated_key-parts key n h),
        e,
        stacked-cons root part parts,
      )
      refl
