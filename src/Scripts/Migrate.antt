-- ===== src/Scripts/Migrate.antt =====
-- scripts/migrate.py: the discovery of the migrations and their application under the advisory lock.
-- The schema is any type, with what PostgreSQL makes of one migration's SQL as an argument.
pub mod Run
use honor.Common.{
  ℕ, ◌-◌, String, ◌≡◌, Bool, true, false, not, ◌&&◌, ◌||◌, List, [], ◌∷◌, ◌++◌, map, any, Option,
  none, some, leb, eqb, member, Result, ok, err, ◌>>=◌, raise_if, ◌==◌, if◌then◌else◌,
}
use honor.Common.Text.{codes, le_text, sort}
use honor.Common.Table.{find, insert}

pub record Migration : Type 0 where
  pub version : String
  pub sha256 : String
  pub sql : String

-- A file of the directory: its name, and its bytes' digest and text.
pub record File : Type 0 where
  pub name : String
  pub digest : String
  pub text : String

pub data MigrationError : Type 0 where
  no_migrations : MigrationError
  not_unique_and_ordered : MigrationError
  checksum_changed : (version database repository : String) → MigrationError
  sql_failed : (version : String) → MigrationError

abbrev is_digit : ℕ → Bool
is_digit c = leb 48 c && leb c 57

same_codes : List ℕ → List ℕ → Bool
same_codes [] [] = true
same_codes [] (b ∷ bs) = false
same_codes (a ∷ more) [] = false
same_codes (a ∷ more) (b ∷ bs) = eqb a b && same_codes more bs

-- `*.sql`
ends_with_sql : List ℕ → Bool
unfolding same_codes
ends_with_sql [] = false
ends_with_sql (c ∷ cs) = same_codes (c ∷ cs) (codes ".sql") || ends_with_sql cs

-- `[0-9][0-9][0-9][0-9]_*.sql`
matches : List ℕ → Bool
unfolding ends_with_sql
matches (a ∷ b ∷ c ∷ d ∷ e ∷ rest) =
    is_digit a && (is_digit b && (is_digit c && (is_digit d && (eqb e 95 && ends_with_sql rest))))
matches [] = false
matches (a ∷ []) = false
matches (a ∷ b ∷ []) = false
matches (a ∷ b ∷ c ∷ []) = false
matches (a ∷ b ∷ c ∷ d ∷ []) = false

glob : List File → List File
unfolding matches
glob [] = []
glob (f ∷ fs) = if matches (codes f.name) then f ∷ glob fs else glob fs

insert_file : File → List File → List File
insert_file f [] = f ∷ []
insert_file f (g ∷ gs) = if le_text f.name g.name then f ∷ g ∷ gs else g ∷ insert_file f gs

-- `sorted(directory.glob(…))`: the paths differ in their names only.
sort_files : List File → List File
unfolding insert_file le_text
sort_files [] = []
sort_files (f ∷ fs) = insert_file f (sort_files fs)

same_texts : List String → List String → Bool
same_texts [] [] = true
same_texts [] (t ∷ ts) = false
same_texts (s ∷ ss) [] = false
same_texts (s ∷ ss) (t ∷ ts) = s == t && same_texts ss ts

has_duplicate : List String → Bool
has_duplicate [] = false
has_duplicate (s ∷ ss) = member s ss || has_duplicate ss

abbrev of_file : File → Migration
of_file f = record { version = f.name; sha256 = f.digest; sql = f.text }

unfoldable pub checked : List Migration → Result MigrationError (List Migration)
unfolding sort has_duplicate same_texts
checked [] = err no_migrations
checked (m ∷ ms) =
    let versions = map (λ m. m.version) (m ∷ ms) in
    raise_if (not (same_texts versions (sort versions)) || has_duplicate versions)
      not_unique_and_ordered
    >>= λ _. ok (m ∷ ms)

-- `discover_migrations`
unfoldable pub discover_migrations : List File → Result MigrationError (List Migration)
unfolding sort_files glob
discover_migrations files = checked (map of_file (sort_files (glob files)))

abbrev pub frozen_c00_sha256 : String
frozen_c00_sha256 = "c0a74f6b34076785e3321c83e6988359f5a8ca18d1a0ba375665016dabf55915"

-- A row of `honor_migrations.schema_migrations`.
pub record Applied : Type 0 where
  pub version : String
  pub checksum_sha256 : String

abbrev pub applied_version : Applied → String
applied_version a = a.version

-- The database: its ledger of migrations, and everything else.
pub record Database {ℓ} (S : Type ℓ) : Type ℓ where
  pub ledger : List Applied
  pub schema : S

-- One transaction's SQL, whether function bodies are unchecked in it, and the schema that it leaves, if it succeeds.
abbrev pub Execute {ℓ} : Type ℓ → Type ℓ
Execute S = Bool → String → S → Option S

module _ {ℓ} {S : Type ℓ} (execute : Execute S) where
  -- The transaction on one migration that is not recorded.
  unfoldable pub executed : Migration → Database S → Option S → Result MigrationError (Database S)
  executed m db none = err (sql_failed m.version)
  executed m db (some schema) = ok (record {
    ledger = insert (record { version = m.version; checksum_sha256 = m.sha256 }) db.ledger;
    schema = schema;
  })

  -- One round of the loop: the versions that it applied, and the database that it leaves.
  unfoldable pub apply_one :
      Migration → Database S → Option Applied → Result MigrationError (List String × Database S)
  apply_one m db (some a) =
      if a.checksum_sha256 == m.sha256
      then ok ([], db)
      else err (checksum_changed m.version a.checksum_sha256 m.sha256)
  apply_one m db none =
      executed m db (execute (m.sha256 == frozen_c00_sha256) m.sql db.schema) >>= λ db'.
      ok (m.version ∷ [], db')

  unfoldable pub continued :
      Database S
      → Result MigrationError (List String × Database S)
      → (Database S → Result MigrationError (List String) × Database S)
      → Result MigrationError (List String) × Database S
  continued db (err e) rest = (err e, db)
  continued db (ok (now, db')) rest =
      let (more, db'') = rest db' in ((more >>= λ versions. ok (now ++ versions)), db'')

  -- `apply_migrations`, with the migrations discovered; what is committed stays when a later one fails.
  unfoldable pub apply_migrations :
      List Migration → Database S → Result MigrationError (List String) × Database S
  unfolding continued
  apply_migrations [] db = (ok [], db)
  apply_migrations (m ∷ ms) db =
      continued db (apply_one m db (find applied_version m.version db.ledger)) (apply_migrations ms)
