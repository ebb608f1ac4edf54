-- ===== src/Api/App.antt =====
-- services/api/honor_api/app.py: `/healthz` and `/readyz`, with the readiness probes of
-- services/api/honor_api/db.py, redis_client.py and storage.py. What Redis, PostgreSQL and the bucket answer
-- is an argument; `err` is an exception of theirs.
pub mod Readiness
use honor.Common.{
  ℕ, String, Bool, true, false, List, [], ◌∷◌, any, Option, none, some, Result, ok, err, ◌>>=◌,
  ◌==◌, if◌then◌else◌,
}
use honor.Api.Json.{Value, dict, Fields, end, field}
use honor.Api.Errors.{HonorError, value}
use honor.Common.Platform.{Platform}
use honor.Api.Auth.{Verification, Profile, active, fails, require_owner}
use honor.Api.Database.{DatabaseError, Driver, ProfileRow, owner_profile_is_active}
use honor.Api.Storage.Adapters.{Adapter, local, r2, storage}

-- `healthz` at a time.
unfoldable pub healthz : String → Fields
healthz time =
    field "status" (value "ok")
      (field "service" (value "honor-api") (field "time" (value time) end))

-- `redis_ready`: the answer to `ping`, after which the client is closed, which may raise as well.
unfoldable pub redis_ready : Result (Unit {0}) Bool → Bool → Bool
redis_ready (err e) closes = false
redis_ready (ok pong) closes = if closes then pong else false

-- `isinstance(selected, R2Storage)`, and the call of `head_bucket`.
unfoldable pub bucket_answers : Bool → Adapter → Bool
bucket_answers head_bucket r2 = head_bucket
bucket_answers head_bucket local = true

-- `storage_ready`, in an environment, by whether an adapter can be made and the bucket answers.
unfoldable pub storage_ready : String → (Adapter → Bool) → Bool → Bool
unfolding storage bucket_answers
storage_ready environment can_be_made head_bucket =
    if can_be_made (storage environment)
    then bucket_answers head_bucket (storage environment)
    else false

abbrev pub outcome : Bool → String
outcome ready = if ready then "ok" else "error"

-- The dict `checks`.
unfoldable pub checks : Bool → Bool → Bool → List (String × String)
checks database redis bucket =
    ("database", outcome database) ∷ ("redis", outcome redis) ∷ ("r2", outcome bucket) ∷ []

unfoldable pub checks_value : List (String × String) → Fields
checks_value [] = end
checks_value ((name, o) ∷ cs) = field name (value o) (checks_value cs)

-- `"error" in checks.values()`
unfoldable pub has_error : List (String × String) → Bool
has_error cs = any (λ c. c.1 == "error") cs

abbrev pub unavailable : List (String × String) → HonorError
unavailable cs = record {
  status = 503;
  code = "PROVIDER_UNAVAILABLE";
  message = "One or more required dependencies are unavailable.";
  details = field "checks" (dict (checks_value cs)) end;
}

unfoldable pub ready : String → List (String × String) → Result HonorError Fields
unfolding has_error checks_value
ready time cs =
    if has_error cs
    then err (unavailable cs)
    else ok (
        field "status" (value "ready")
          (field "time" (value time) (field "checks" (dict (checks_value cs)) end)))

-- `readyz`, on what `require_owner` gave and the three probes.
unfoldable pub readyz :
    String → Result HonorError String → Bool → Bool → Bool → Result HonorError Fields
unfolding ready checks
readyz time owner database redis bucket = owner >>= λ o. ready time (checks database redis bucket)

-- What `require_owner` sees of `owner_profile_is_active`: an exception of the database is no HonorError.
unfoldable pub profile_of : Result (DatabaseError (Unit {0})) Bool → Profile
profile_of (ok b) = active b
profile_of (err e) = fails

-- A request for `/readyz` with its `Authorization` header, against the rows of `owner_profiles`.
unfoldable pub get_readyz :
    Platform
    → String
    → (String → Verification)
    → Driver
    → List ProfileRow
    → String
    → Option String
    → Bool
    → Bool
    → Bool
    → Result HonorError Fields
unfolding readyz require_owner profile_of owner_profile_is_active
get_readyz lib configured verify d rows time header database redis bucket =
    readyz time
      (require_owner lib configured verify (λ o. profile_of (owner_profile_is_active lib d rows o))
        header)
      database redis bucket
