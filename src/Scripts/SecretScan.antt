-- ===== src/Scripts/SecretScan.antt =====
-- scripts/secret_scan.py: the scan of the repository for text that looks like a live secret. What a
-- regular expression of `PATTERNS` finds in a text (`finditer`), and `urlsplit`, are arguments.
pub mod Clean
use honor.Common.{
  ℕ, zero, suc, String, Bool, true, false, not, ◌&&◌, ◌||◌, List, [], ◌∷◌, ◌++◌, map, any, Option,
  none, some, eqb, if◌then◌else◌,
}
use honor.Common.Text.{codes}
use honor.Common.Regex.{first, Text, same_text, exact, literal, search_in, lower}

-- What `urlsplit` gives; the parts that are missing are `none`.
pub record UrlParts : Type 0 where
  pub scheme : Text
  pub hostname : Option Text
  pub username : Option Text
  pub password : Option Text

-- A file that `rglob` finds; `none` where it cannot be read.
pub record File : Type 0 where
  pub path : Text
  pub parts : List Text
  pub name : Text
  pub lower_suffix : Text
  pub is_file : Bool
  pub text : Option Text

-- An entry of `PATTERNS`: its name, and the texts of its matches.
abbrev pub Pattern : Type 0
Pattern = Text × (Text → List Text)

pub record Issue : Type 0 where
  pub path : Text
  pub pattern : Text
  pub value : Text

abbrev pub is_one_of : List String → Text → Bool
is_one_of names text = any (λ name. same_text (codes name) text) names

abbrev pub ignore_names : List String
ignore_names = "package-lock.json" ∷ "HONOR_SECRET_ENV_REGISTRY.json" ∷ ".env.example" ∷ []

abbrev pub ignore_path_parts : List String
ignore_path_parts = ".git" ∷ ".next" ∷ ".venv" ∷ "node_modules" ∷ "__pycache__" ∷ []

abbrev pub binary_suffixes : List String
binary_suffixes = ".zip" ∷ ".png" ∷ ".jpg" ∷ ".jpeg" ∷ ".gif" ∷ ".mp4" ∷ ".pyc" ∷ []

abbrev pub is_local_host : Option Text → Bool
is_local_host none = false
is_local_host (some host) = is_one_of ("localhost" ∷ "127.0.0.1" ∷ "::1" ∷ "postgres" ∷ []) host

abbrev pub or_empty : Option Text → Text
or_empty none = []
or_empty (some text) = text

abbrev pub allowed_pairs : List (String × String)
allowed_pairs =
    ("postgres", "postgres")
    ∷ ("postgres", "dev-only-postgres")
    ∷ ("x", "x")
    ∷ ("u", "p")
    ∷ ("honor_app", "dev-only-honor-app")
    ∷ ("honor_app", "ci-honor-app-password")
    ∷ []

-- `is_explicit_test_database_url`, on the parts, or the ValueError of `urlsplit`.
unfoldable pub is_test_url : Option UrlParts → Bool
unfolding same_text
is_test_url none = false
is_test_url (some u) =
    is_one_of ("postgres" ∷ "postgresql" ∷ []) u.scheme
    && (is_local_host u.hostname
        && any
            (λ pair.
              same_text (codes pair.0) (or_empty u.username)
              && same_text (codes pair.1) (or_empty u.password))
            allowed_pairs)

-- `value.rstrip(",);]}")`
unfoldable pub is_closing : ℕ → Bool
is_closing c = eqb c 44 || (eqb c 41 || (eqb c 59 || (eqb c 93 || eqb c 125)))

abbrev all_closing : Text → Bool
all_closing [] = true
all_closing (c ∷ cs) = is_closing c && all_closing cs

unfoldable pub without_closing : Text → Text
unfolding is_closing
without_closing [] = []
without_closing (c ∷ cs) =
    let rest = without_closing cs in if all_closing (c ∷ cs) then [] else c ∷ rest

-- A file that is read.
unfoldable pub is_scanned : File → Bool
unfolding same_text
is_scanned f =
    f.is_file
    && (not (any (is_one_of ignore_path_parts) f.parts)
        && (not (is_one_of ignore_names f.name) && not (is_one_of binary_suffixes f.lower_suffix)))

module _ (urlsplit : Text → Option UrlParts) where
  -- `allowed_placeholder`
  unfoldable pub allowed_placeholder : Text → Text → Bool
  unfolding literal search_in lower same_text is_test_url
  allowed_placeholder name value =
      let lowered = map lower value in
      (search_in (exact (codes "replace_me")) lowered
        || search_in (exact (codes "example")) lowered)
      || (same_text name (codes "postgres-password-url") && is_test_url (urlsplit value))

  -- The matches of one pattern.
  unfoldable pub match_issues : File → Text → List Text → List Issue
  unfolding allowed_placeholder without_closing first
  match_issues f name [] = []
  match_issues f name (matched ∷ more) =
      let rest = match_issues f name more in
      if allowed_placeholder name (without_closing matched)
      then rest
      else record { path = f.path; pattern = name; value = first 80 (without_closing matched) }
        ∷ rest

  unfoldable pub pattern_issues : File → List Pattern → Text → List Issue
  unfolding match_issues
  pattern_issues f [] text = []
  pattern_issues f ((name, find_all) ∷ patterns) text =
      match_issues f name (find_all text) ++ pattern_issues f patterns text

  unfoldable pub text_issues : File → List Pattern → Option Text → List Issue
  unfolding pattern_issues
  text_issues f patterns none = []
  text_issues f patterns (some text) = pattern_issues f patterns text

  -- The loop over the files: `issues`.
  unfoldable pub scan : List Pattern → List File → List Issue
  unfolding is_scanned text_issues
  scan patterns [] = []
  scan patterns (f ∷ files) =
      let rest = scan patterns files in
      if is_scanned f then text_issues f patterns f.text ++ rest else rest
