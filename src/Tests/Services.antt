-- ===== src/Tests/Services.antt =====
-- The API's guards and the migrations at concrete inputs.
use honor.Common.{none, String, ◌≡◌, ◌↔◌, refl, true, List, [], ◌∷◌, ◌++◌, some, ok}
use honor.Common.Text.{codes}
use honor.Common.Table.{find, insert}
use honor.Api.Storage.{
  Text, normalized, validated_key, check_key, split, is_unsafe_part, has_allowed_prefix,
  starts_with, contains, same, local_path,
}
use honor.Api.Storage.Keys.{stacked, local_path-stacked}
use honor.Api.Storage.{inside, is_inside, resolve, enter, same_path}
use honor.Api.Storage.Adapters.{
  Files, StoredObject, local_put, local_get, stored, written, object_of,
}
use honor.Api.Storage.Adapters.Contents.{local_get-local_put}
use honor.Api.Outbound.{ParsedUrl}
use honor.Api.Polli.{
  Tool, PolliGateway, Validator, Limiter, registry_of, call, dispatch, admitted, handle, result_of,
  validate, check_read_only,
}
use honor.Api.Polli.Gateway.{IsFull, call-IsFull}
use honor.Api.Auth.{Verification, claims, Profile, active, bearer, require_owner}
use honor.Api.Auth.Owner.{IsOwnerToken, require_owner_iff}
use honor.Scripts.Migrate.{
  Migration, applied_version, Database, Execute, apply_migrations, apply_one, executed, continued,
}
use honor.Scripts.Migrate.Run.{row_of, apply_migrations_again}
use honor.Tests.Samples.{plain}

abbrev backslashed : Text
backslashed = codes "uploads\\a.mp4"

abbrev key : Text
key = codes "uploads/a.mp4"

key_valid : validated_key backslashed ≡ ok key
unfolding validated_key normalized check_key split is_unsafe_part has_allowed_prefix starts_with
    contains same
key_valid = refl

abbrev root : List Text
root = codes "honor-media" ∷ codes "tmp" ∷ []

local_path-stacked_example : local_path root backslashed ≡ ok (stacked root (split key))
local_path-stacked_example = local_path-stacked root backslashed key key_valid

abbrev files : Files
files = (stacked root (split key), codes "abc") ∷ []

abbrev uploaded : StoredObject
uploaded = record { key = key; sha256 = codes "abc"; bytes = 3; content_type = codes "video/mp4" }

was_put :
    local_put
      (λ content. content)
      (λ path. true)
      root
      backslashed
      (codes "abc")
      (codes "video/mp4")
      []
    ≡ (ok uploaded, files)
unfolding local_put stored written object_of local_path inside is_inside resolve enter same_path
    validated_key normalized check_key split is_unsafe_part has_allowed_prefix starts_with contains
    same
was_put = refl

local_get-local_put_example : local_get root backslashed files ≡ ok (codes "abc")
local_get-local_put_example =
    local_get-local_put (λ content. content) (λ path. true) root backslashed (codes "abc")
      (codes "video/mp4") [] uploaded files was_put

abbrev parsed : Text → ParsedUrl
parsed url = record {
  scheme = codes "https";
  hostname = some (codes "API.openai.com.");
  username = none;
  password = none;
}

abbrev tool : Tool
tool = record {
  name = "get_queue";
  read_only = true;
  arguments_schema = "{}";
  result_schema = "{}";
}

abbrev gateway : PolliGateway
gateway = record {
  tools = tool ∷ [];
  handlers = record { tool = "get_queue"; handler = λ args. ok "[]" } ∷ [];
}

abbrev anything : Validator
anything schema value = true

abbrev unlimited : Limiter
unlimited owner_id name = true

called : (call anything plain unlimited gateway "get_queue" "{}" "o-1" "q-1").0 ≡ ok "[]"
unfolding call dispatch admitted handle result_of validate find
called = refl

call-IsFull_example :
    IsFull unlimited "get_queue" "{}" "o-1" "q-1"
      (call anything plain unlimited gateway "get_queue" "{}" "o-1" "q-1").1
call-IsFull_example =
    call-IsFull anything plain unlimited gateway "get_queue" "{}" "o-1" "q-1" "[]" called

abbrev twelve_tools : List Tool
twelve_tools =
    tool ∷ tool ∷ tool ∷ tool ∷ tool ∷ tool ∷ tool ∷ tool ∷ tool ∷ tool ∷ tool ∷ tool ∷ []

registered : registry_of twelve_tools ≡ ok twelve_tools
unfolding registry_of check_read_only
registered = refl

abbrev verify : String → Verification
verify token = claims "o-1"

abbrev profile : String → Profile
profile owner = active true

require_owner_iff_example :
    (require_owner plain "o-1" verify profile (some "Bearer abc") ≡ ok "o-1") ↔ (
      (token : String) × (bearer "Bearer abc" ≡ some token)
      × IsOwnerToken plain "o-1" (verify token) "o-1"
      × (profile "o-1" ≡ active true))
require_owner_iff_example = require_owner_iff plain "o-1" verify profile "Bearer abc" "o-1"

-- A schema is the list of the texts that were executed.
abbrev log : Execute (List String)
log unchecked sql schema = some (schema ++ sql ∷ [])

abbrev first_migration : Migration
first_migration = record { version = "0001_a.sql"; sha256 = "s1"; sql = "A" }

abbrev second_migration : Migration
second_migration = record { version = "0002_b.sql"; sha256 = "s2"; sql = "B" }

abbrev migrations : List Migration
migrations = first_migration ∷ second_migration ∷ []

abbrev half : Database (List String)
half = record { ledger = row_of first_migration ∷ []; schema = "A" ∷ [] }

abbrev whole : Database (List String)
whole = record {
  ledger = row_of first_migration ∷ row_of second_migration ∷ [];
  schema = "A" ∷ "B" ∷ [];
}

migrated : apply_migrations log migrations half ≡ (ok ("0002_b.sql" ∷ []), whole)
unfolding apply_migrations continued apply_one executed find insert
migrated = refl

apply_migrations_again_example : apply_migrations log migrations whole ≡ (ok [], whole)
apply_migrations_again_example =
    apply_migrations_again log migrations half whole ("0002_b.sql" ∷ []) migrated

first_recorded : find applied_version "0001_a.sql" half.ledger ≡ some (row_of first_migration)
unfolding find
first_recorded = refl

returned : (apply_migrations log migrations half).0 ≡ ok ("0002_b.sql" ∷ [])
unfolding apply_migrations continued apply_one executed find insert
returned = refl
