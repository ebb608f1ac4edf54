-- ===== src/Scripts/Contracts.antt =====
-- scripts/generate_contracts.py: the artifacts made from the contracts, and scripts/check_contract_drift.py,
-- which compares them and the copies with the approved ones. The JSON documents are given as read, and
-- their rendering (`json.dumps`, `repr`) is an argument.
pub mod Order
pub mod Generated
use honor.Common.{
  ℕ, ◌-◌, String, Bool, true, false, not, ◌&&◌, ◌||◌, List, [], ◌∷◌, ◌++◌, map, any, length, Option,
  none, some, leb, eqb, Result, ok, err, ◌>>=◌, ◌>>◌, raise_if, if◌then◌else◌,
}
use honor.Common.Text.{codes}
use honor.Common.Regex.{Text, same_text, le_text}
use honor.Common.Sorting.{sort}
use honor.Api.Json.{Value}
use honor.Common.Dict.{lookup, put, keys_without, keys_changed}

-- `s.upper()` of a key of a path item, which is ASCII.
unfoldable pub upper : Text → Text
upper = map (λ c. if leb 97 c && leb c 122 then c - 32 else c)

abbrev pub methods : List String
methods = "GET" ∷ "POST" ∷ "PUT" ∷ "PATCH" ∷ "DELETE" ∷ []

unfoldable pub is_method : Text → Bool
unfolding upper same_text
is_method name = any (λ m. same_text (codes m) (upper name)) methods

-- A value of a path item.
pub record Item : Type 0 where
  pub operation_id : Option Text
  pub authorization : Option Value
  pub idempotency : Option Value

-- An entry of `operations`.
pub record Operation : Type 0 where
  pub method : Text
  pub path : Text
  pub operation_id : Text
  pub authorization : Option Value
  pub idempotency : Option Value

-- `KeyError` on an operation without an id.
unfoldable pub operation_of : Text → Text → Item → Option Text → Result Text Operation
operation_of path method item none = err path
operation_of path method item (some id) = ok (record {
  method = upper method;
  path = path;
  operation_id = id;
  authorization = item.authorization;
  idempotency = item.idempotency;
})

-- The inner loop, over the entries of a path item.
unfoldable pub item_operations : Text → List (Text × Item) → Result Text (List Operation)
unfolding is_method operation_of
item_operations path [] = ok []
item_operations path ((method, item) ∷ items) =
    let rest = item_operations path items in
    if is_method method
    then operation_of path method item item.operation_id >>= (λ o. rest >>= λ os. ok (o ∷ os))
    else rest

-- The outer loop, over `paths`.
unfoldable pub path_operations : List (Text × List (Text × Item)) → Result Text (List Operation)
unfolding item_operations
path_operations [] = ok []
path_operations ((path, items) ∷ paths) = do
  first ← item_operations path items
  rest ← path_operations paths
  ok (first ++ rest)

-- The order of the pairs `(path, method)`.
unfoldable pub le_operation : Operation → Operation → Bool
unfolding le_text same_text
le_operation a b =
    if same_text a.path b.path then le_text a.method b.method else le_text a.path b.path

unfoldable pub operations : List (Text × List (Text × Item)) → Result Text (List Operation)
unfolding path_operations le_operation sort
operations paths = path_operations paths >>= λ os. ok (sort le_operation os)

-- An entry of `tools`.
pub record Tool : Type 0 where
  pub name : Text
  pub read_only : Bool
  pub scope : Text

unfoldable pub tools : List Tool → List Tool
unfolding sort le_text
tools = sort (λ a b. le_text a.name b.name)

abbrev pub Files : Type 0
Files = List (Text × Text)

-- How the artifacts are rendered, from the operations, the tools and the columns.
pub record Rendering : Type 0 where
  pub indented_operations : List Operation → Text
  pub compact_operations : List Operation → Text
  pub repr_operations : List Operation → Text
  pub indented_tools : List Tool → Text
  pub compact_tools : List Tool → Text
  pub repr_tools : List Tool → Text
  pub indented_columns : Value → Text
  pub repr_columns : Value → Text

module _ (r : Rendering) where
  -- The dict that `build_outputs` returns.
  unfoldable pub outputs : List Operation → List Tool → Value → Files
  outputs os ts columns =
      (codes "openapi_operations.json", r.indented_operations os ++ codes "\n")
      ∷ (codes "polli_tools.json", r.indented_tools ts ++ codes "\n")
      ∷ (codes "jsonb_columns.json", r.indented_columns columns ++ codes "\n")
      ∷ (
        codes "openapi_operations.ts",
        codes "export const OPENAPI_OPERATIONS = "
            ++ (r.compact_operations os ++ codes " as const;\n"),
      )
      ∷ (
        codes "polli_tools.ts",
        codes "export const POLLI_TOOLS = " ++ (r.compact_tools ts ++ codes " as const;\n"),
      )
      ∷ (
        codes "contracts.py",
        codes "OPENAPI_OPERATIONS = "
            ++ (r.repr_operations os
                ++ (codes "\nPOLLI_TOOLS = "
                    ++ (r.repr_tools ts
                        ++ (codes "\nJSONB_COLUMNS = "
                            ++ (r.repr_columns columns ++ codes "\n"))))),
      )
      ∷ []

  unfoldable pub build_outputs :
      List (Text × List (Text × Item)) → List Tool → Value → Result Text Files
  unfolding operations tools outputs
  build_outputs paths polli_tools columns =
      operations paths >>= λ os. ok (outputs os (tools polli_tools) columns)

-- `write_outputs`, into a directory's files.
unfoldable pub write_outputs : Files → Files → Files
unfolding put same_text
write_outputs [] files = files
write_outputs ((name, content) ∷ more) files = write_outputs more (put same_text name content files)

pub data Drift : Type 0 where
  contract_drift : Text → Drift
  not_thirty_schemas : Drift
  schema_names_drifted : Drift
  schema_drift : Text → Drift
  artifact_set_drifted : (missing extra : List Text) → Drift
  generated_drift : Text → Drift
  validator_failed : ℕ → Drift

-- A canonical copy: its name, the approved bytes and the copy's.
unfoldable pub check_copies : List (Text × Text × Text) → Result Drift (Unit {0})
unfolding same_text
check_copies [] = ok tt
check_copies ((name, source, destination) ∷ copies) = do
  raise_if (not (same_text source destination)) (contract_drift name)
  check_copies copies

abbrev names : Files → List Text
names files = map (λ f. f.0) files

unfoldable pub same_names : List Text → List Text → Bool
unfolding same_text
same_names [] [] = true
same_names [] (b ∷ bs) = false
same_names (a ∷ more) [] = false
same_names (a ∷ more) (b ∷ bs) = same_text a b && same_names more bs

-- The loop over both lists of schemas.
unfoldable pub check_schema_bytes : Files → Files → Result Drift (Unit {0})
unfolding same_text
check_schema_bytes [] repository = ok tt
check_schema_bytes ((name, source) ∷ approved) [] = ok tt
check_schema_bytes ((name, source) ∷ approved) ((name', destination) ∷ repository) = do
  raise_if (not (same_text source destination)) (schema_drift name)
  check_schema_bytes approved repository

-- `sorted(directory.glob("*.json"))`, of the files of one directory.
unfoldable pub by_name : Files → Files
unfolding sort le_text
by_name = sort (λ f g. le_text f.0 g.0)

unfoldable pub check_sorted : Files → Files → Result Drift (Unit {0})
unfolding same_names check_schema_bytes
check_sorted approved repository = do
  raise_if (not (eqb (length approved) 30) || not (eqb (length repository) 30)) not_thirty_schemas
  raise_if (not (same_names (names approved) (names repository))) schema_names_drifted
  check_schema_bytes approved repository

-- The schemas of both directories.
unfoldable pub check_schemas : Files → Files → Result Drift (Unit {0})
unfolding by_name check_sorted
check_schemas approved repository = check_sorted (by_name approved) (by_name repository)

unfoldable pub check_set : List Text → List Text → Result Drift (Unit {0})
check_set [] [] = ok tt
check_set (m ∷ ms) extra = err (artifact_set_drifted (m ∷ ms) extra)
check_set [] (e ∷ es) = err (artifact_set_drifted [] (e ∷ es))

unfoldable pub check_contents : List Text → Result Drift (Unit {0})
check_contents [] = ok tt
check_contents (n ∷ ns) = err (generated_drift n)

-- The generated artifacts against the files that are there.
unfoldable pub check_generated : Files → Files → Result Drift (Unit {0})
unfolding keys_without keys_changed same_text check_set check_contents
check_generated expected actual = do
  check_set (keys_without same_text expected actual) (keys_without same_text actual expected)
  check_contents (keys_changed same_text same_text expected actual)

-- The whole script, with the exit code of the validator.
unfoldable pub check_drift :
    List (Text × Text × Text) → Files → Files → Files → Files → ℕ → Result Drift (Unit {0})
unfolding check_copies check_schemas check_generated
check_drift copies approved repository expected actual returncode = do
  check_copies copies
  check_schemas approved repository
  check_generated expected actual
  raise_if (not (eqb returncode 0)) (validator_failed returncode)
