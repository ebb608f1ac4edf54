-- ===== src/Scripts/PythonLock.antt =====
-- scripts/compare_python_lock.py: the comparison of two files of pinned requirements.
pub mod Names
pub mod Drift
use honor.Common.{
  ℕ, ◌+◌, String, Bool, true, false, not, ◌&&◌, ◌||◌, List, [], ◌∷◌, map, Option, none, some, leb,
  eqb, ltb, Result, ok, err, ◌>>=◌, if◌then◌else◌,
}
use honor.Common.Text.{codes}
use honor.Common.Regex.{
  first, Text, exact, literal, run, skip, is_space, same_text, strip, lower, split_lines,
  starts_with,
}
use honor.Common.Dict.{lookup, put, keys_without, keys_changed}

pub data LockError : Type 0 where
  unrecognized : Text → LockError
  conflicting_pin : Text → LockError
  usage : LockError
  drift : (missing added changed : List Text) → LockError

unfoldable pub is_dash : ℕ → Bool
is_dash c = eqb c 45 || (eqb c 95 || eqb c 46)

-- `re.sub(r"[-_.]+", "-", name)`; `after` tells that the character before was one of them.
unfoldable pub collapse : Bool → Text → Text
unfolding is_dash
collapse after [] = []
collapse after (c ∷ cs) =
    let rest = collapse (is_dash c) cs in
    if is_dash c then if after then rest else 45 ∷ rest else c ∷ rest

-- `canonical`, on the names that `LINE` matches, which are ASCII.
unfoldable pub canonical : Text → Text
unfolding collapse lower
canonical name = map lower (collapse false name)

-- `[A-Za-z0-9_.-]`
unfoldable pub is_name_character : ℕ → Bool
unfolding is_dash
is_name_character c =
    (leb 65 c && leb c 90) || (leb 97 c && leb c 122) || (leb 48 c && leb c 57) || is_dash c

-- `[^\s;]`
unfoldable pub is_version_character : ℕ → Bool
unfolding is_space
is_version_character c = not (is_space c || eqb c 59)

-- `\[[^\]]+\]`, 0 where there is none.
unfoldable pub extras : Text → ℕ
unfolding run skip
extras [] = 0
extras (c ∷ cs) =
    let inside = run (λ d. not (eqb d 93)) cs in
    if eqb c 91 && (leb 1 inside && exact (93 ∷ []) (skip inside cs)) then inside + 2 else 0

-- What follows the name: the version, if `==` and one are there.
unfoldable pub version_of : Text → Option Text
unfolding run skip first is_version_character
version_of s =
    let rest = skip 2 s in
    let matched = run is_version_character rest in
    if exact (codes "==") s && leb 1 matched then some (first matched rest) else none

abbrev pub with_name : Text → Option Text → Option (Text × Text)
with_name name none = none
with_name name (some version) = some (name, version)

-- `LINE.match(line)`: the name and the version.
unfoldable pub match_line : Text → Option (Text × Text)
unfolding run skip first is_name_character extras version_of
match_line line =
    let n = run is_name_character line in
    let rest = skip n line in
    if leb 1 n then with_name (first n line) (version_of (skip (extras rest) rest)) else none

abbrev pub Pins : Type 0
Pins = List (Text × Text)

-- The pin of a name is there already, with another version.
abbrev pub conflicts : Text → Option Text → Bool
conflicts version none = false
conflicts version (some old) = not (same_text old version)

unfoldable pub add_pin : Text → Text → Pins → Result LockError Pins
unfolding same_text lookup put
add_pin name version pins =
    if conflicts version (lookup same_text name pins)
    then err (conflicting_pin name)
    else ok (put same_text name version pins)

-- A line that is no comment and no option.
unfoldable pub matched_line : Text → Pins → Option (Text × Text) → Result LockError Pins
unfolding canonical add_pin
matched_line line pins none = err (unrecognized line)
matched_line line pins (some (name, version)) = add_pin (canonical name) version pins

abbrev pub is_skipped : Text → Bool
is_skipped line =
    same_text line [] || (starts_with (codes "#") line || starts_with (codes "--") line)

-- The loop of `parse` over the lines.
unfoldable pub parse_lines : Pins → List Text → Result LockError Pins
unfolding strip match_line matched_line
parse_lines pins [] = ok pins
parse_lines pins (raw ∷ raws) =
    (if is_skipped (strip raw)
      then ok pins
      else matched_line (strip raw) pins (match_line (strip raw)))
    >>= λ next. parse_lines next raws

-- `parse`, on the text of the file.
unfoldable pub parse : Text → Result LockError Pins
unfolding parse_lines split_lines
parse text = parse_lines [] (split_lines text)

abbrev pub is_version : Text → Option Text → Bool
is_version version none = false
is_version version (some found) = same_text found version

-- Every pin of the first is one of the second.
unfoldable pub included : Pins → Pins → Bool
unfolding same_text lookup
included [] other = true
included ((name, version) ∷ pins) other =
    is_version version (lookup same_text name other) && included pins other

-- The test `expected != regenerated` of two dicts, and the report, its lists sorted by `sort`.
unfoldable pub compare_pins : (List Text → List Text) → Pins → Pins → Result LockError (Unit {0})
unfolding included keys_without keys_changed same_text
compare_pins sort expected regenerated =
    if included expected regenerated && included regenerated expected
    then ok tt
    else err (
        drift (sort (keys_without same_text expected regenerated))
          (sort (keys_without same_text regenerated expected))
          (sort (keys_changed same_text same_text expected regenerated)))

-- `main`, on the texts of the two files.
unfoldable pub compare_locks : (List Text → List Text) → Text → Text → Result LockError (Unit {0})
unfolding parse compare_pins
compare_locks sort expected regenerated = do
  a ← parse expected
  b ← parse regenerated
  compare_pins sort a b
