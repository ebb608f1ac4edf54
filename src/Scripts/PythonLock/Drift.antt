-- ===== src/Scripts/PythonLock/Drift.antt =====
-- What a comparison that passes means, and what a file that is read pins.
use honor.Common.{
  true-ne-false, some_injective, ◌≡◌, inl, inr, refl, sym, ap, ◌∙◌, subst, Bool, true, false, not,
  ◌&&◌, List, [], ◌∷◌, Option, none, some, Result, ok, err, >>=-eq-ok, ok-injective, Bool-cases,
  if_then, if_else, and_left, and_right, All, if◌then◌else◌,
}
use honor.Common.Regex.{Text, same_text, same_text_iff, text-IsEquality, strip, split_lines}
use honor.Common.Dict.{lookup, put, lookup-put_self, lookup-put_other}
use honor.Scripts.PythonLock.{
  LockError, canonical, match_line, Pins, conflicts, add_pin, matched_line, is_skipped, parse_lines,
  parse, is_version, included, compare_pins, compare_locks,
}

pair_injective : (a b : Text × Text) → ◌≡◌ {A = Option (Text × Text)} (some a) (some b) → a ≡ b
pair_injective a b h = cc

err-ne-pins : (e : LockError) (pins : Pins) → ◌≡◌ {A = Result LockError Pins} (err e) (ok pins) → ⊥
err-ne-pins e pins h = cc

not_refuted : (b : Bool) → not b ≡ false → b ≡ true
not_refuted true h = refl
not_refuted false h = cc

err-ne-ok : (e : LockError) → ◌≡◌ {A = Result LockError (Unit {0})} (err e) (ok tt) → ⊥
err-ne-ok e h = cc

abbrev pub pinned : Text → Pins → Option Text
pinned name pins = lookup same_text name pins

is_version-some :
    (version : Text) (o : Option Text) → is_version version o ≡ true → o ≡ some version
is_version-some version none h = cc
is_version-some version (some found) h = ap some ((same_text_iff found version).0 h)

included-pinned :
    (a b : Pins) (name version : Text)
    → included a b ≡ true
    → pinned name a ≡ some version
    → pinned name b ≡ some version
unfolding included lookup
included-pinned [] b name version h found = cc
included-pinned ((n, v) ∷ a) b name version h found = elim (Bool-cases (same_text n name)) [
  | inl hit ↦
      let same : n ≡ name = (same_text_iff n name).0 hit in
      let own : v ≡ version = some_injective _ _ (sym (if_then _ _ _ hit) ∙ found) in
      rw (← same, ← own) (is_version-some v (pinned n b) (and_left _ _ h))
  | inr miss ↦ included-pinned a b name version (and_right _ _ h) (sym (if_else _ _ _ miss) ∙ found)
]

-- Included in one another, two graphs pin every name alike.
both_included :
    (a b : Pins) (name : Text)
    → included a b && included b a ≡ true
    → (o p : Option Text) → pinned name a ≡ o
    → pinned name b ≡ p
    → o ≡ p
both_included a b name h none none e e' = refl
both_included a b name h (some v) p e e' = sym (included-pinned a b name v (and_left _ _ h) e) ∙ e'
both_included a b name h none (some v) e e' =
    sym e ∙ included-pinned b a name v (and_right _ _ h) e'

compared :
    (sort : List Text → List Text) (a b : Pins)
    → compare_pins sort a b ≡ ok tt
    → included a b && included b a ≡ true
unfolding compare_pins
compared sort a b h = elim (Bool-cases (included a b && included b a)) [
  | inl both ↦ both
  | inr drifted ↦ absurd (err-ne-ok _ (sym (if_else _ _ _ drifted) ∙ h))
]

-- If the comparison of two lock files passes, both are read, and every name has the same version in
-- both, or is in neither.
pub compare_locks-pinned :
    (sort : List Text → List Text) (expected regenerated : Text)
    → compare_locks sort expected regenerated ≡ ok tt
    → (a : Pins) × (b : Pins) × (parse expected ≡ ok a)
      × (parse regenerated ≡ ok b)
      × ((name : Text) → pinned name a ≡ pinned name b)
unfolding compare_locks
compare_locks-pinned sort expected regenerated h =
    let (a, read, h') = >>=-eq-ok (parse expected) _ h in
    let (b, read', h'') = >>=-eq-ok (parse regenerated) _ h' in
    (a, b, read, read', λ name. both_included a b name (compared sort a b h'') _ _ refl refl)

unconflicted : (version old : Text) → conflicts version (some old) ≡ false → old ≡ version
unconflicted version old h = (same_text_iff old version).0 (not_refuted (same_text old version) h)

-- A pin that is added is there, and one that was there stays.
module _ (name version : Text) (pins pins' : Pins)
    (added : add_pin name version pins ≡ ok pins') where
  fits : (conflicts version (pinned name pins) ≡ false) × (put same_text name version pins ≡ pins')
  unfolding add_pin
  fits = elim (Bool-cases (conflicts version (pinned name pins))) [
    | inl clash ↦ absurd (err-ne-pins _ _ (sym (if_then _ _ _ clash) ∙ added))
    | inr free ↦ (free, ok-injective (sym (if_else _ _ _ free) ∙ added))
  ]

  add_pin-pinned : pinned name pins' ≡ some version
  add_pin-pinned = rw (← (fits.1)) (lookup-put_self same_text name version pins text-IsEquality)

  add_pin-kept : (other v : Text) → pinned other pins ≡ some v → pinned other pins' ≡ some v
  add_pin-kept other v found = elim (Bool-cases (same_text name other)) [
    | inl hit ↦
        let same : name ≡ other = (same_text_iff name other).0 hit in
        let own : pinned name pins ≡ some v = ap (λ n. pinned n pins) same ∙ found in
        let agrees : v ≡ version =
          unconflicted version v (ap (conflicts version) (sym own) ∙ fits.0) in
        rw (← same, agrees) add_pin-pinned
    | inr miss ↦
        rw (← (fits.1))
          (lookup-put_other same_text name other version pins text-IsEquality miss ∙ found)
  ]

-- If a line is a requirement, its name in canonical form has its version.
abbrev pub IsPinnedBy : Pins → Text → Type 0
IsPinnedBy pins raw =
    (name version : Text)
    → is_skipped (strip raw) ≡ false
    → match_line (strip raw) ≡ some (name, version)
    → pinned (canonical name) pins ≡ some version

-- The step of the loop.
line_step :
    (raw : Text) (pins pins' : Pins) (matched : Option (Text × Text))
    → matched_line (strip raw) pins matched ≡ ok pins'
    → ((other v : Text) → pinned other pins ≡ some v → pinned other pins' ≡ some v)
      × ((name version : Text)
          → matched ≡ some (name, version)
          → pinned (canonical name) pins' ≡ some version)
unfolding matched_line
line_step raw pins pins' none h = cc
line_step raw pins pins' (some (name, version)) h = (
  add_pin-kept (canonical name) version pins pins' h,
  λ n v e.
      subst (λ (q : Text × Text). pinned (canonical q.0) pins' ≡ some q.1)
        (pair_injective (name, version) (n, v) e)
        (add_pin-pinned (canonical name) version pins pins' h),
)

abbrev Kept : Pins → Pins → Type 0
Kept pins pins' = (other v : Text) → pinned other pins ≡ some v → pinned other pins' ≡ some v

step-Kept :
    (raw : Text) (pins pins' : Pins)
    → (if is_skipped (strip raw)
        then ok pins
        else matched_line (strip raw) pins (match_line (strip raw)))
      ≡ ok pins'
    → Kept pins pins' × IsPinnedBy pins' raw
step-Kept raw pins pins' h = elim (Bool-cases (is_skipped (strip raw))) [
  | inl skipped ↦
      let same : pins ≡ pins' = ok-injective (sym (if_then _ _ _ skipped) ∙ h) in
      (
        λ other v found. rw (← same) found,
        λ name version read e. absurd (true-ne-false (sym skipped ∙ read)),
      )
  | inr read ↦
      let (kept, own) =
        line_step raw pins pins' (match_line (strip raw)) (sym (if_else _ _ _ read) ∙ h) in
      (kept, λ name version _ e. own name version e)
]

parse_lines-pinned :
    (raws : List Text) (pins pins' : Pins)
    → parse_lines pins raws ≡ ok pins'
    → Kept pins pins' × All (IsPinnedBy pins') raws
unfolding parse_lines
parse_lines-pinned [] pins pins' h =
    (λ other v found. subst (λ p. pinned other p ≡ some v) (ok-injective h) found, tt)
parse_lines-pinned (raw ∷ raws) pins pins' h =
    let (next, stepped, h') = >>=-eq-ok _ _ h in
    let (kept, own) = step-Kept raw pins next stepped in
    let (kept', rest) = parse_lines-pinned raws next pins' h' in
    (
      λ other v found. kept' other v (kept other v found),
      (λ name version read e. kept' (canonical name) version (own name version read e), rest),
    )

-- Every requirement of a file that `parse` reads is pinned under its canonical name in the result.
pub parse-pinned :
    (text : Text) (pins : Pins) → parse text ≡ ok pins → All (IsPinnedBy pins) (split_lines text)
unfolding parse
parse-pinned text pins h = (parse_lines-pinned (split_lines text) [] pins h).1
