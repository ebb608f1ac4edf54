-- ===== src/Tests/Serving.antt =====
-- The API's requests at concrete inputs.
use honor.Common.{
  false, String, ◌≡◌, ◌≢◌, ◌↔◌, ◌&&◌, inl, inr, refl, true, List, [], ◌∷◌, none, some, Result, ok,
  err,
}
use honor.Common.Table.{insert}
use honor.Common.Text.{codes}
use honor.Common.Regex.{literal, search_in, fold, run, skip}
use honor.Api.Json.{Fields, text, dict, end, field}
use honor.Api.Errors.{HonorError, value, RequestState, honor_error}
use honor.Api.Logging.{Event, log_event}
use honor.Api.Logging.Patterns.{is_secret_key}
use honor.Api.Logging.Secrecy.{same, shown, hidden, no_fields, log_event-hides}
use honor.Api.RequestContext.{chosen_id, Request, Surroundings, Application}
use honor.Api.RequestContext.Identity.{answered, own_id}
use honor.Api.Auth.{
  Verification, claims, bearer, require_owner, with_token, validate_owner_token, verified_sub,
  authorized,
}
use honor.Api.Database.{
  Context, Driver, ProfileRow, checked, connected, start, within, attempted, sets, seen, after_body,
  commit, after_commit, excepted, owner_transaction, profile_exists, exists_row, is_visible,
  owner_profile_is_active,
}
use honor.Api.Database.Transaction.{
  IsAtomic, IsClosed, HasActiveRow, owner_transaction-IsAtomic, owner_profile_is_active_iff,
}
use honor.Api.App.{get_readyz, readyz, ready, checks, has_error, checks_value, profile_of}
use honor.Api.App.Readiness.{get_readyz-ready}
use honor.Api.Idempotency.{
  IdempotencyRow, key_reused, Call, owner_of, select, new_row, is_storable, recorded,
  record_response,
}
use honor.Api.Idempotency.Replay.{record_again, record_reused}
use honor.Tests.Samples.{plain}

abbrev post : Call
post = record {
  owner_user_id = "o-1";
  key = "k-1";
  method = "POST";
  path = "/v1/jobs";
  request_sha256 = "0123456789abcdef0123456789abcdef0123456789abcdef0123456789abcdef";
  response_status = 202;
  response_body = end;
  ttl_seconds = 60;
  id = "i-1";
  now = 5;
}

abbrev row : IdempotencyRow
row = record {
  id = "i-1";
  owner_user_id = "o-1";
  idempotency_key = "k-1";
  http_method = "POST";
  path = "/v1/jobs";
  request_sha256 = "0123456789abcdef0123456789abcdef0123456789abcdef0123456789abcdef";
  response_status = 202;
  response_body = end;
  expires_at = 65;
}

post_recorded : record_response (λ body ttl. true) plain post [] ≡ ok (row, row ∷ [])
unfolding record_response owner_of recorded select is_storable new_row insert
post_recorded = refl

record_again_example :
    record_response (λ body ttl. true) plain (record post { now = 9; id = "i-2" }) (row ∷ [])
    ≡ ok (row, row ∷ [])
record_again_example =
    record_again (λ body ttl. true) plain post (record post { now = 9; id = "i-2" }) [] (row ∷ [])
      row post_recorded
      (record {
        same_owner = refl;
        same_key = refl;
        same_method = refl;
        same_path = refl;
        same_hash = refl;
      })

other_path : ◌≢◌ {A = String} "/v1/clips" "/v1/jobs"
other_path h = cc

record_reused_example :
    record_response (λ body ttl. true) plain (record post { path = "/v1/clips" }) (row ∷ [])
    ≡ err key_reused
record_reused_example =
    record_reused (λ body ttl. true) plain post (record post { path = "/v1/clips" }) [] (row ∷ [])
      row post_recorded refl refl (inr (inl other_path))

abbrev working : Driver
working = record {
  acquires = true;
  starts = true;
  sets_owner = true;
  sets_request = true;
  commits = true;
  unconfirmed = false;
  rolls_back = true;
}

-- A transaction that writes and then raises.
abbrev writing : Context → List String → Result String (Unit {0}) × List String
writing context rows = (err "conflict", context.owner_user_id ∷ rows)

owner_transaction-IsAtomic_example :
    IsAtomic working writing
      (record { owner_user_id = "o-1"; request_id = some "r-1" })
      ("a" ∷ [])
      (owner_transaction plain working "o-1" (some "r-1") writing ("a" ∷ []))
    × IsClosed working (owner_transaction plain working "o-1" (some "r-1") writing ("a" ∷ []))
owner_transaction-IsAtomic_example =
    owner_transaction-IsAtomic plain working "o-1" (some "r-1") writing ("a" ∷ [])

abbrev profiles : List ProfileRow
profiles = record { user_id = "o-1"; active = true } ∷ []

owner_profile_is_active_iff_example :
    (owner_profile_is_active plain working profiles "o-1" ≡ ok true)
    ↔ ((plain.parse_uuid "o-1" ≡ some "o-1") × HasActiveRow "o-1" profiles)
owner_profile_is_active_iff_example = owner_profile_is_active_iff plain working profiles "o-1" refl

abbrev verify : String → Verification
verify token = claims "o-1"

abbrev readiness : Fields
readiness = field "status" (value "ready") (
    field "time" (value "t-1") (
      field "checks"
        (dict (
          field "database" (value "ok") (field "redis" (value "ok") (field "r2" (value "ok") end))))
        end))

is_ready :
    get_readyz plain "o-1" verify working profiles "t-1" (some "Bearer abc") true true true
    ≡ ok readiness
unfolding get_readyz readyz ready checks has_error checks_value profile_of require_owner bearer
    with_token validate_owner_token verified_sub authorized owner_profile_is_active
    owner_transaction checked connected start within attempted sets seen after_body commit
    after_commit excepted profile_exists exists_row is_visible
is_ready = refl

get_readyz-ready_example :
    (true && (true && true) ≡ true)
    × ((token : String) × (bearer "Bearer abc" ≡ some token) × (verify token ≡ claims "o-1"))
    × (plain.parse_uuid "o-1" ≡ some "o-1")
    × HasActiveRow "o-1" profiles
get_readyz-ready_example =
    get_readyz-ready plain "o-1" verify working profiles "t-1" "Bearer abc" true true true
      {body = readiness} is_ready

abbrev asked : Request
asked = record { incoming = some "r-1"; method = "GET"; path = "/readyz" }

abbrev around : Surroundings
around = record { fresh_id = "r-9"; environment = "test"; timestamp = "t-1"; duration_ms = 3 }

abbrev refusal : HonorError
refusal = record { status = 403; code = "OWNER_FORBIDDEN"; message = "No."; details = end }

abbrev refusing : Application
refusing state = (err (honor_error refusal), state)

abbrev framework : Application
framework state = answered (refusing state)

abbrev asked_state : RequestState
asked_state = record { request_id = some "r-1"; actor_id = none }

asked_id : own_id plain around asked refusing framework ≡ "r-1"
unfolding chosen_id
asked_id = refl

abbrev login : Event
login = record {
  service = "api";
  environment = "test";
  request_id = none;
  job_id = none;
  actor_id = none;
  event_code = "LOGIN";
  severity = "INFO";
  metadata = some (field "path" (text (codes "/v1")) (field "password" (text (codes "abc")) end));
}

password_secret : is_secret_key (codes "password") ≡ true
unfolding is_secret_key literal search_in fold run skip
password_secret = refl

log_event-hides_example :
    log_event "t-1" (record login {
      metadata =
          some (field "path" (text (codes "/v1")) (field "password" (text (codes "xyz")) end));
    })
    ≡ log_event "t-1" login
log_event-hides_example = log_event-hides "t-1" login (
    shown "path" (same (text (codes "/v1")))
      (hidden "password" (text (codes "abc")) (text (codes "xyz")) password_secret no_fields))
