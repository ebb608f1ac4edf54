-- ===== src/Api/RequestContext.antt =====
-- services/api/honor_api/request_context.py: the middleware that gives each request its id. `uuid4()`, the
-- clocks and the settings come as arguments; `call_next` runs the rest of the application on the
-- request's state, and returns the response or the exception with the state that it leaves.
pub mod Identity
use honor.Common.{
  ℕ, String, Bool, List, [], ◌∷◌, Option, none, some, Result, ok, err, ◌==◌, if◌then◌else◌,
}
use honor.Common.Int.{pos}
use honor.Common.Platform.{Platform}
use honor.Api.Json.{integer, Fields, end, field}
use honor.Api.Errors.{RequestState, Response, Raised, value}
use honor.Api.Logging.{Event, log_event}

pub record Request : Type 0 where
  pub incoming : Option String
  pub method : String
  pub path : String

pub record Surroundings : Type 0 where
  pub fresh_id : String
  pub environment : String
  pub timestamp : String
  pub duration_ms : ℕ

abbrev pub Application : Type 0
Application = RequestState → Result Raised Response × RequestState

abbrev pub parsed_or : String → Option String → String
parsed_or fresh none = fresh
parsed_or fresh (some canonical) = canonical

-- The id of a request: the canonical form of the client's, if it is a UUID, else a fresh one.
unfoldable pub chosen_id : Platform → String → Option String → String
chosen_id lib fresh none = fresh
chosen_id lib fresh (some text) =
    if text == "" then fresh else parsed_or fresh (lib.parse_uuid text)

without : String → List (String × String) → List (String × String)
without name [] = []
without name ((key, v) ∷ hs) =
    let rest = without name hs in if key == name then rest else (key, v) ∷ rest

-- `headers[name] = v`: the first header of the name gets the value, the others go.
unfoldable pub set_header : String → String → List (String × String) → List (String × String)
unfolding without
set_header name v [] = (name, v) ∷ []
set_header name v ((key, w) ∷ hs) =
    if key == name then (name, v) ∷ without name hs else (key, w) ∷ set_header name v hs

-- `dict.get` on the headers.
unfoldable pub header : String → List (String × String) → Option String
header name [] = none
header name ((key, v) ∷ hs) = if key == name then some v else header name hs

unfoldable pub unhandled_event : Request → Surroundings → String → Option String → Event
unhandled_event r s request_id actor_id = record {
  service = "api";
  environment = s.environment;
  request_id = some request_id;
  job_id = none;
  actor_id = actor_id;
  event_code = "HTTP_UNHANDLED_ERROR";
  severity = "ERROR";
  metadata = some (field "method" (value r.method) (field "path" (value r.path) end));
}

unfoldable pub completed_event : Request → Surroundings → String → Option String → ℕ → Event
completed_event r s request_id actor_id status = record {
  service = "api";
  environment = s.environment;
  request_id = some request_id;
  job_id = none;
  actor_id = actor_id;
  event_code = "HTTP_REQUEST_COMPLETED";
  severity = "INFO";
  metadata = some (
      field "method" (value r.method) (
        field "path" (value r.path) (
          field "status" (integer (pos status))
            (field "duration_ms" (integer (pos s.duration_ms)) end))));
}

-- What follows `call_next`: the response or the exception, and the payload of the log line.
unfoldable pub after_call :
    Request
    → Surroundings
    → String
    → Result Raised Response × RequestState
    → Result Raised Response × Fields
unfolding set_header unhandled_event completed_event log_event
after_call r s request_id (err raised, state) =
    (err raised, log_event s.timestamp (unhandled_event r s request_id state.actor_id))
after_call r s request_id (ok response, state) = (
  ok (record response { headers = set_header "x-request-id" request_id response.headers }),
  log_event s.timestamp (completed_event r s request_id state.actor_id response.status),
)

-- `request_context`
unfoldable pub request_context :
    Platform → Surroundings → Request → Application → Result Raised Response × Fields
unfolding chosen_id after_call
request_context lib s r call_next =
    let id = chosen_id lib s.fresh_id r.incoming in
    after_call r s id (call_next (record { request_id = some id; actor_id = none }))
