-- ===== src/Scripts/Lockfiles.antt =====
-- scripts/check_lockfiles.py: that the locks of npm and Python are whole and frozen, by what is read of
-- package-lock.json, apps/web/package.json, requirements.lock and the other files. The first check that
-- fails is the result.
pub mod Closed
use honor.Common.{
  ℕ, ◌+◌, String, Bool, true, false, not, ◌&&◌, ◌||◌, List, [], ◌∷◌, ◌++◌, map, any, length, Option,
  none, some, is_some, leb, ltb, eqb, Result, ok, err, ◌>>=◌, ◌>>◌, raise_if, if◌then◌else◌,
}
use honor.Common.Text.{codes}
use honor.Common.Regex.{
  Text, same_text, exact, literal, run, skip, is_space, search_in, strip, lower, split_lines,
  starts_with,
}
use honor.Common.Dict.{lookup}

-- An entry of `packages`.
pub record Package : Type 0 where
  pub link : Bool
  pub version : Option Text
  pub has_resolved : Bool
  pub has_integrity : Bool
  pub dependencies : List Text

abbrev pub Packages : Type 0
Packages = List (Text × Package)

pub data LockError : Type 0 where
  not_version_three : LockError
  not_resolved : LockError
  missing_workspace : String → LockError
  missing_version : Text → LockError
  missing_metadata : Text → LockError
  absent_dependency : (key dependency : Text) → LockError
  missing_direct : Text → LockError
  other_version : (name requested : Text) (locked : Option Text) → LockError
  unfrozen : Text → LockError
  not_transitive : LockError
  missing_transitive : String → LockError
  build_cache : Text → LockError
  no_npm_ci : LockError
  dockerfile_installs : LockError

abbrev pub node_module : Text → Text
node_module name = codes "node_modules/" ++ name

-- `key in packages`
unfoldable pub has_package : Text → Packages → Bool
unfolding lookup same_text
has_package key packages = is_some (lookup same_text key packages)

unfoldable pub check_dependencies : Packages → Text → List Text → Result LockError (Unit {0})
unfolding has_package
check_dependencies packages key [] = ok tt
check_dependencies packages key (name ∷ names) = do
  raise_if (not (has_package (node_module name) packages)) (absent_dependency key name)
  check_dependencies packages key names

-- A package below node_modules that is no link.
unfoldable pub is_installed : Text → Package → Bool
unfolding starts_with literal
is_installed key info = starts_with (codes "node_modules/") key && not info.link

unfoldable pub check_package : Packages → Text → Package → Result LockError (Unit {0})
unfolding check_dependencies
check_package packages key info = do
  raise_if (not (is_some info.version)) (missing_version key)
  raise_if (not (info.has_resolved && info.has_integrity)) (missing_metadata key)
  check_dependencies packages key info.dependencies

-- The loop over `packages`; the first argument is the whole graph.
unfoldable pub check_packages : Packages → Packages → Result LockError (Unit {0})
unfolding is_installed check_package
check_packages packages [] = ok tt
check_packages packages ((key, info) ∷ more) =
    (if is_installed key info then check_package packages key info else ok tt)
    >> check_packages packages more

abbrev pub same_version : Text → Option Text → Bool
same_version requested none = false
same_version requested (some locked) = same_text requested locked

unfoldable pub check_locked : Text → Text → Option Package → Result LockError (Unit {0})
unfolding same_text
check_locked name requested none = err (missing_direct name)
check_locked name requested (some info) =
    raise_if (not (same_version requested info.version)) (other_version name requested info.version)

-- The loop over one section of apps/web/package.json.
unfoldable pub check_direct : Packages → List (Text × Text) → Result LockError (Unit {0})
unfolding check_locked lookup same_text
check_direct packages [] = ok tt
check_direct packages ((name, requested) ∷ more) =
    (if same_text name (codes "@honor/design-system")
      then ok tt
      else check_locked name requested (lookup same_text (node_module name) packages))
    >> check_direct packages more

abbrev pub workspaces : List String
workspaces = "apps/web" ∷ "packages/design-system" ∷ []

unfoldable pub check_workspaces : Packages → List String → Result LockError (Unit {0})
unfolding has_package
check_workspaces packages [] = ok tt
check_workspaces packages (w ∷ ws) =
    raise_if (not (has_package (codes w) packages)) (missing_workspace w)
    >> check_workspaces packages ws

-- The checks of package-lock.json and apps/web/package.json.
unfoldable pub check_npm :
    ℕ → Packages → List (Text × Text) → List (Text × Text) → Result LockError (Unit {0})
unfolding check_workspaces check_packages check_direct
check_npm version packages dependencies dev_dependencies = do
  raise_if (not (eqb version 3)) not_version_three
  raise_if (ltb (length packages) 25) not_resolved
  check_workspaces packages workspaces
  check_packages packages packages
  check_direct packages dependencies
  check_direct packages dev_dependencies

-- `[A-Za-z0-9_.-]`
unfoldable pub is_name_character : ℕ → Bool
is_name_character c =
    (leb 65 c && leb c 90)
    || (leb 97 c && leb c 122)
    || (leb 48 c && leb c 57)
    || (eqb c 95 || (eqb c 46 || eqb c 45))

-- `(?:\[[A-Za-z0-9_,.-]+\])?`
unfoldable pub after_extras : Text → Text
unfolding run skip is_name_character literal
after_extras [] = []
after_extras (c ∷ cs) =
    let inside = run (λ d. is_name_character d || eqb d 44) cs in
    if eqb c 91 && (leb 1 inside && exact (codes "]") (skip inside cs))
    then skip (inside + 1) cs
    else c ∷ cs

-- `(?:\s*;.*)?$` on a line without a newline.
unfoldable pub is_marker : Text → Bool
unfolding run skip is_space literal
is_marker [] = true
is_marker (c ∷ cs) = exact (codes ";") (skip (run is_space (c ∷ cs)) (c ∷ cs))

-- `==[^\s;]+`, and the end of the line.
unfoldable pub is_pinned : Text → Bool
unfolding run skip is_space literal is_marker
is_pinned s =
    let version = run (λ d. not (is_space d || eqb d 59)) (skip 2 s) in
    exact (codes "==") s && (leb 1 version && is_marker (skip version (skip 2 s)))

-- The regular expression of a frozen requirement.
unfoldable pub is_frozen : Text → Bool
unfolding run skip is_name_character after_extras is_pinned
is_frozen line =
    let n = run is_name_character line in leb 1 n && is_pinned (after_extras (skip n line))

unfoldable pub is_requirement : Text → Bool
unfolding literal starts_with
is_requirement line =
    not (same_text line [] || (starts_with (codes "#") line || starts_with (codes "--") line))

-- The loop over requirements.lock: `req_lines`.
unfoldable pub requirement_lines : List Text → Result LockError (List Text)
unfolding strip is_requirement is_frozen same_text
requirement_lines [] = ok []
requirement_lines (raw ∷ raws) =
    let rest = requirement_lines raws in
    if is_requirement (strip raw)
    then raise_if (not (is_frozen (strip raw))) (unfrozen (strip raw))
      >> (rest >>= λ lines. ok (strip raw ∷ lines))
    else rest

unfoldable pub check_transitive : List Text → List String → Result LockError (Unit {0})
unfolding starts_with literal lower
check_transitive lines [] = ok tt
check_transitive lines (name ∷ names) = do
  raise_if (not (any (λ line. starts_with (codes name ++ codes "==") (map lower line)) lines))
      (missing_transitive name)
  check_transitive lines names

-- The checks of requirements.lock.
unfoldable pub check_requirements : Text → Result LockError (Unit {0})
unfolding requirement_lines split_lines check_transitive
check_requirements text = do
  lines ← requirement_lines (split_lines text)
  raise_if (ltb (length lines) 35) not_transitive
  check_transitive lines (
      "starlette" ∷ "pydantic-core" ∷ "kombu" ∷ "botocore" ∷ "httpcore"
      ∷ "jsonschema-specifications" ∷ [])

abbrev is_ignored : List Text → Bool
is_ignored parts =
    any (λ part. any (λ name. same_text (codes name) part) (".git" ∷ ".next" ∷ "node_modules" ∷ []))
      parts

-- The files `*.tsbuildinfo`, by their path and its parts.
unfoldable pub check_caches : List (Text × List Text) → Result LockError (Unit {0})
unfolding same_text
check_caches [] = ok tt
check_caches ((path, parts) ∷ more) =
    raise_if (not (is_ignored parts)) (build_cache path) >> check_caches more

abbrev mentions : String → Text → Bool
mentions words text = search_in (exact (codes words)) text

-- The texts of the workflow and of the Dockerfile.
unfoldable pub check_npm_ci : Text → Text → Result LockError (Unit {0})
unfolding literal search_in
check_npm_ci ci dockerfile = do
  raise_if (not (mentions "npm ci" ci)) no_npm_ci
  raise_if (not (mentions "npm ci" dockerfile) || mentions "npm install" dockerfile)
      dockerfile_installs
