-- ===== src/Api/Storage.antt =====
-- The object keys of services/api/honor_api/storage.py: `_validated_key`, `safe_key` and the path of
-- the local adapter. A text is the list of its code points.
pub mod Keys
pub mod Adapters
use honor.Common.{
  ℕ, String, Bool, true, false, not, ◌&&◌, ◌||◌, List, [], ◌∷◌, ◌++◌, map, any, Option, none, some,
  eqb, Result, ok, err, ◌>>=◌, ◌>>◌, raise_if, if◌then◌else◌,
}
use honor.Common.Text.{codes}

abbrev pub Text : Type 0
Text = List ℕ

pub data StorageError : Type 0 where
  invalid_object_key : StorageError
  unapproved_storage_prefix : StorageError
  unsafe_path : StorageError
  file_not_found : StorageError
  os_error : StorageError

abbrev pub slash : ℕ
slash = 47

abbrev pub allowed_prefixes : List Text
allowed_prefixes =
    codes "sources/" ∷ codes "renders/" ∷ codes "evidence/" ∷ codes "uploads/" ∷ codes "polli/" ∷ []

-- `key.replace("\\", "/")`
unfoldable pub normalized : Text → Text
normalized [] = []
normalized (c ∷ cs) = (if eqb c 92 then slash else c) ∷ normalized cs

unfoldable pub starts_with : Text → Text → Bool
starts_with [] s = true
starts_with (c ∷ cs) [] = false
starts_with (c ∷ cs) (d ∷ ds) = eqb c d && starts_with cs ds

unfoldable pub contains : ℕ → Text → Bool
contains c [] = false
contains c (d ∷ ds) = eqb c d || contains c ds

unfoldable pub same : Text → Text → Bool
same [] [] = true
same [] (d ∷ ds) = false
same (c ∷ cs) [] = false
same (c ∷ cs) (d ∷ ds) = eqb c d && same cs ds

-- A code point before the first part of a split.
abbrev pub onto_first : ℕ → List Text → List Text
onto_first c [] = (c ∷ []) ∷ []
onto_first c (part ∷ parts) = (c ∷ part) ∷ parts

-- `s.split("/")`
unfoldable pub split : Text → List Text
split [] = [] ∷ []
split (c ∷ cs) = let parts = split cs in if eqb c slash then [] ∷ parts else onto_first c parts

-- `part in {"", ".", ".."}`
unfoldable pub is_unsafe_part : Text → Bool
unfolding same
is_unsafe_part part = same part [] || (same part (46 ∷ []) || same part (46 ∷ 46 ∷ []))

unfoldable pub has_allowed_prefix : Text → Bool
unfolding starts_with
has_allowed_prefix key = any (λ prefix. starts_with prefix key) allowed_prefixes

-- The three tests on a normalized key.
unfoldable pub check_key : Text → Result StorageError (Unit {0})
unfolding split is_unsafe_part starts_with contains has_allowed_prefix
check_key key = do
  raise_if (starts_with (slash ∷ []) key || contains 0 key) invalid_object_key
  raise_if (not (has_allowed_prefix key)) unapproved_storage_prefix
  raise_if (any is_unsafe_part (split key)) invalid_object_key

-- `_validated_key`
unfoldable pub validated_key : Text → Result StorageError Text
unfolding normalized
validated_key key = check_key (normalized key) >> ok (normalized key)

-- `safe_key`
unfoldable pub safe_key : Text → Text → Result StorageError Text
unfolding normalized
safe_key prefix name = do
  raise_if (not (any (λ p. same prefix p) allowed_prefixes)) unapproved_storage_prefix
  validated_key (prefix ++ normalized name)

abbrev pub parent : List Text → List Text
parent [] = []
parent (dir ∷ up) = up

-- One part of a path that is resolved without symbolic links, the directories last one first.
unfoldable pub enter : List Text → Text → List Text
unfolding same
enter up part =
    if same part [] || same part (46 ∷ [])
    then up
    else if same part (46 ∷ 46 ∷ [])
    then parent up
    else part ∷ up

unfoldable pub resolve : List Text → List Text → List Text
unfolding enter
resolve up [] = up
resolve up (part ∷ parts) = resolve (enter up part) parts

unfoldable pub same_path : List Text → List Text → Bool
unfolding same
same_path [] [] = true
same_path [] (q ∷ qs) = false
same_path (p ∷ ps) [] = false
same_path (p ∷ ps) (q ∷ qs) = same p q && same_path ps qs

-- `root in path.parents`
unfoldable pub is_inside : List Text → List Text → Bool
unfolding same_path
is_inside root [] = false
is_inside root (part ∷ up) = same_path up root || is_inside root up

unfoldable pub inside : List Text → List Text → Result StorageError (List Text)
unfolding is_inside
inside root path = raise_if (not (is_inside root path)) unsafe_path >> ok path

-- `LocalStorage._path`
unfoldable pub local_path : List Text → Text → Result StorageError (List Text)
unfolding resolve inside
local_path root key = do checked ← validated_key key; inside root (resolve root (split checked))
