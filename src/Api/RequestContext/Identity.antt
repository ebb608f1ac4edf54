-- ===== src/Api/RequestContext/Identity.antt =====
-- The id of a request, in its response, in an error's content and in its log line.
use honor.Common.{
  String, ◌≡◌, ◌≢◌, ap, ◌∙◌, ◌∙◌, refl, Bool, true, false, List, [], ◌∷◌, Option, none, some,
  Result, ok, err, ◌==◌, Bool-cases, inl, inr, eq_refl, if◌then◌else◌,
}
use honor.Common.Platform.{Platform}
use honor.Api.Json.{Fields, end, field}
use honor.Api.Errors.{value, RequestState, Response, Raised, other, envelope, registered_handler}
use honor.Api.Logging.{log_event}
use honor.Api.RequestContext.{
  Request, Surroundings, Application, parsed_or, chosen_id, set_header, header, after_call,
  request_context,
}

pub header-set_header :
    (name v : String) (hs : List (String × String)) → header name (set_header name v hs) ≡ some v
unfolding header set_header
header-set_header name v [] = rw (eq_refl name) refl
header-set_header name v ((key, w) ∷ hs) = elim (Bool-cases (key == name)) [
  | inl hit ↦ rw (hit, eq_refl name) refl
  | inr miss ↦ rw (miss, miss) (header-set_header name v hs)
]

err-ne-ok :
    (raised : Raised) (response : Response)
    → ◌≢◌ {A = Result Raised Response} (err raised) (ok response)
err-ne-ok raised response h = cc

abbrev headers_of : Result Raised Response → List (String × String)
headers_of (ok response) = response.headers
headers_of (err raised) = []

after_call-header :
    (r : Request) (s : Surroundings) (id : String) (called : Result Raised Response × RequestState)
    (response : Response) {line : Fields}
    → after_call r s id called ≡ (ok response, line)
    → header "x-request-id" response.headers ≡ some id
unfolding after_call
after_call-header r s id (err raised, state) response h =
    absurd (err-ne-ok raised response (ap (λ q. q.0) h))
after_call-header r s id (ok answer, state) response h =
    let e : set_header "x-request-id" id answer.headers ≡ response.headers =
      ap (λ q. headers_of q.0) h in
    rw (← e) (header-set_header "x-request-id" id answer.headers)

module _ (lib : Platform) where
  abbrev pub IsCanonical : String → Type 0
  IsCanonical id = lib.parse_uuid id ≡ some id

  parsed_or-IsCanonical :
      (fresh text : String) (o : Option String)
      → lib.parse_uuid text ≡ o
      → IsCanonical fresh
      → IsCanonical (parsed_or fresh o)
  parsed_or-IsCanonical fresh text none e h = h
  parsed_or-IsCanonical fresh text (some c) e h = lib.parse_canonical text c e

  pub chosen_id-IsCanonical :
      (fresh : String) (incoming : Option String)
      → IsCanonical fresh
      → IsCanonical (chosen_id lib fresh incoming)
  unfolding chosen_id
  chosen_id-IsCanonical fresh none h = h
  chosen_id-IsCanonical fresh (some text) h = elim (Bool-cases (text == "")) [
    | inl hit ↦ rw hit h
    | inr miss ↦ rw miss (parsed_or-IsCanonical fresh text (lib.parse_uuid text) refl h)
  ]

  -- If the fresh id is canonical, a response of `request_context` carries in its header
  -- x-request-id the canonical id that was chosen for the request.
  pub request_context-header :
      (s : Surroundings) (r : Request) (call_next : Application) (response : Response)
      {line : Fields}
      → IsCanonical s.fresh_id
      → request_context lib s r call_next ≡ (ok response, line)
      → (id : String) × (header "x-request-id" response.headers ≡ some id)
        × IsCanonical id
        × (id ≡ chosen_id lib s.fresh_id r.incoming)
  unfolding request_context
  request_context-header s r call_next response fresh h = (
    chosen_id lib s.fresh_id r.incoming,
    after_call-header r s (chosen_id lib s.fresh_id r.incoming) _ response h,
    chosen_id-IsCanonical s.fresh_id r.incoming fresh,
    refl,
  )

-- An exception whose handler runs inside the middleware: one of the three classes that have a handler
-- of their own. Any other is handled outside, by the handler of `Exception`.
abbrev pub is_handled_inside : Raised → Bool
is_handled_inside other = false
is_handled_inside _ = true

-- What is documented for the handlers registered with the framework, on a route: the one of an
-- exception's class answers with the request's state; the one of `Exception`, for every class without
-- a handler of its own, runs outside of the middlewares, which see that exception.
abbrev pub answered : Result Raised Response × RequestState → Result Raised Response × RequestState
answered (ok response, state) = (ok response, state)
answered (err raised, state) =
    (if is_handled_inside raised then ok (registered_handler raised state) else err raised, state)

module _ (lib : Platform) (s : Surroundings) (r : Request) (route call_next : Application) where
  abbrev pub own_id : String
  own_id = chosen_id lib s.fresh_id r.incoming

  abbrev pub start : RequestState
  start = record { request_id = some own_id; actor_id = none }

  -- The response of the exception's own handler, with the request's id in its content and its header.
  abbrev pub IsAnswered : Raised → RequestState → Result Raised Response × Fields → Type 0
  IsAnswered raised state called =
      (response : Response) × (line : Fields) × (called ≡ (ok response, line))
      × (header "x-request-id" response.headers ≡ some own_id)
      × (header "cache-control" response.headers ≡ some "private, no-store")
      × (response.status ≡ (registered_handler raised state).status)
      × (code : String) × (message : String) × (details : Fields) × (response.content
          ≡ envelope code message own_id details)

  -- The exception goes on to the server's handler, after a line that says so.
  abbrev pub IsRaisedAgain : Raised → RequestState → Result Raised Response × Fields → Type 0
  IsRaisedAgain raised state called = called ≡ (
    err raised,
    log_event s.timestamp (record {
      service = "api";
      environment = s.environment;
      request_id = some own_id;
      job_id = none;
      actor_id = state.actor_id;
      event_code = "HTTP_UNHANDLED_ERROR";
      severity = "ERROR";
      metadata = some (field "method" (value r.method) (field "path" (value r.path) end));
    }),
  )
