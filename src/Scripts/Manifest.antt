-- ===== src/Scripts/Manifest.antt =====
-- scripts/check_c01_manifest.py: the files of the repository against their recorded digests. A file is
-- what `rglob` finds: the parts of its path below the root, its suffix, whether it is a regular file, and
-- the digest of its bytes.
pub mod Coverage
use honor.Common.{
  ℕ, String, Bool, true, false, not, ◌&&◌, ◌||◌, List, [], ◌∷◌, ◌++◌, any, Option, none, some, eqb,
  Result, ok, err, ◌>>=◌, ◌>>◌, raise_if, is_some, if◌then◌else◌,
}
use honor.Common.Text.{codes}
use honor.Common.Regex.{Text, same_text, le_text, is_blank, split_lines}
use honor.Common.Sorting.{sort}
use honor.Common.Dict.{lookup, put, keys_without, keys_changed}

pub record File : Type 0 where
  pub parts : List Text
  pub suffix : Text
  pub is_file : Bool
  pub digest : Text

pub data ManifestError : Type 0 where
  malformed_line : Text → ManifestError
  duplicate_path : Text → ManifestError
  inventory_drift : (missing extra : List Text) → ManifestError
  checksum_drift : List Text → ManifestError

-- `path.as_posix()`, of a path below the root.
unfoldable pub posix : List Text → Text
posix [] = []
posix (part ∷ []) = part
posix (part ∷ next ∷ parts) = part ++ codes "/" ++ posix (next ∷ parts)

abbrev pub excluded_dirs : List String
excluded_dirs = ".git" ∷ ".venv" ∷ "node_modules" ∷ ".next" ∷ ".pytest_cache" ∷ "__pycache__" ∷ []

abbrev pub excluded_suffixes : List String
excluded_suffixes = ".pyc" ∷ ".pyo" ∷ ".tsbuildinfo" ∷ []

abbrev pub is_one_of : List String → Text → Bool
is_one_of names text = any (λ name. same_text (codes name) text) names

-- `included`
unfoldable pub included : File → Bool
unfolding posix same_text
included f =
    not (same_text (posix f.parts) (codes "MANIFEST_C01_SHA256.txt"))
    && (not (any (is_one_of excluded_dirs) f.parts)
        && (not (is_one_of excluded_suffixes f.suffix) && f.is_file))

unfoldable pub included_files : List File → List File
unfolding included
included_files [] = []
included_files (f ∷ fs) = let rest = included_files fs in if included f then f ∷ rest else rest

-- The included files, sorted by path.
unfoldable pub inventory : List File → List File
unfolding included_files sort le_text posix
inventory files = sort (λ f g. le_text (posix f.parts) (posix g.parts)) (included_files files)

abbrev pub Entries : Type 0
Entries = List (Text × Text)

unfoldable pub entries : Entries → List File → Entries
unfolding posix put same_text
entries out [] = out
entries out (f ∷ fs) = entries (put same_text (codes "./" ++ posix f.parts) f.digest out) fs

-- `expected_entries`
unfoldable pub expected_entries : List File → Entries
unfolding inventory entries
expected_entries files = entries [] (inventory files)

abbrev before : ℕ → Option (Text × Text) → Option (Text × Text)
before c none = none
before c (some (first, rest)) = some (c ∷ first, rest)

-- `raw.split("  ", 1)`: what stands before the first two spaces, and what follows them.
unfoldable pub split_once : Text → Option (Text × Text)
split_once [] = none
split_once (c ∷ []) = none
split_once (c ∷ d ∷ rest) =
    let later = split_once (d ∷ rest) in
    if eqb c 32 && eqb d 32 then some ([], rest) else before c later

unfoldable pub add_entry : Text → Entries → Option (Text × Text) → Result ManifestError Entries
unfolding lookup put same_text
add_entry raw out none = err (malformed_line raw)
add_entry raw out (some (digest, path)) =
    raise_if (is_some (lookup same_text path out)) (duplicate_path path)
    >> ok (put same_text path digest out)

-- `read_manifest`, on the lines.
unfoldable pub read_lines : Entries → List Text → Result ManifestError Entries
unfolding split_once add_entry is_blank
read_lines out [] = ok out
read_lines out (raw ∷ raws) =
    (if is_blank raw then ok out else add_entry raw out (split_once raw)) >>= λ next.
    read_lines next raws

unfoldable pub check_inventory :
    (List Text → List Text) → List Text → List Text → Result ManifestError (Unit {0})
check_inventory in_order [] [] = ok tt
check_inventory in_order (m ∷ ms) extra = err (inventory_drift (in_order (m ∷ ms)) (in_order extra))
check_inventory in_order [] (e ∷ es) = err (inventory_drift (in_order []) (in_order (e ∷ es)))

unfoldable pub check_digests : List Text → Result ManifestError (Unit {0})
check_digests [] = ok tt
check_digests (p ∷ ps) = err (checksum_drift (p ∷ ps))

-- `main`, on the files of the repository and the text of the manifest.
unfoldable pub check_manifest :
    (List Text → List Text) → List File → Text → Result ManifestError (Unit {0})
unfolding expected_entries read_lines split_lines same_text keys_without keys_changed
    check_inventory check_digests
check_manifest in_order files manifest = do
  actual ← read_lines [] (split_lines manifest)
  let expected = expected_entries files
  check_inventory in_order (keys_without same_text expected actual)
      (keys_without same_text actual expected)
  check_digests (keys_changed same_text same_text expected actual)
