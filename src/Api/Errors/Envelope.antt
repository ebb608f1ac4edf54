-- ===== src/Api/Errors/Envelope.antt =====
-- What a client sees of an error: the envelope of its content, and the header that forbids caching.
use honor.Common.{String, ◌≡◌, refl, [], ◌∷◌, eqb, if◌then◌else◌}
use honor.Api.Json.{Fields, list, end, field}
use honor.Api.Errors.{
  RequestState, Raised, honor_error, validation_error, http_exception, other, envelope, fields_of,
  request_id_of, registered_handler,
}

-- The response is an error's envelope with the request's id, and may not be stored.
abbrev pub IsEnvelope : Raised → RequestState → Type 0
IsEnvelope raised state =
    (code : String) × (message : String) × (details : Fields) × ((registered_handler raised
        state).content
      ≡ envelope code message (request_id_of state) details)
    × ((registered_handler raised state).headers ≡ ("cache-control", "private, no-store") ∷ [])

pub registered_handler-IsEnvelope :
    (raised : Raised) (state : RequestState) → IsEnvelope raised state
unfolding registered_handler
registered_handler-IsEnvelope (honor_error e) state = (e.code, e.message, e.details, refl, refl)
registered_handler-IsEnvelope (validation_error es) state = (
  "VALIDATION_ERROR",
  "Request validation failed.",
  field "fields" (list (fields_of es)) end,
  refl,
  refl,
)
registered_handler-IsEnvelope (http_exception n) state =
    (if eqb n 404 then "NOT_FOUND" else "HTTP_ERROR", "Request failed.", end, refl, refl)
registered_handler-IsEnvelope other state =
    ("INTERNAL_ERROR", "Internal server error.", end, refl, refl)
