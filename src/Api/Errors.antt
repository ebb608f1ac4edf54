-- ===== src/Api/Errors.antt =====
-- services/api/honor_api/errors.py: `HonorError`, `error_response` and the four handlers that
-- `create_app` of services/api/honor_api/app.py registers. A response is its status, the dict that is
-- its JSON content, and its headers with their names in lower case.
pub mod Envelope
use honor.Common.{ℕ, String, List, [], ◌∷◌, Option, none, some, eqb, if◌then◌else◌}
use honor.Common.Text.{codes, decimal}
use honor.Api.Json.{Value, text, list, dict, integer, Items, nil, cons, Fields, end, field}

pub record HonorError : Type 0 where
  pub status : ℕ
  pub code : String
  pub message : String
  pub details : Fields

-- `request.state`; an attribute that was not set is `none`.
pub record RequestState : Type 0 where
  pub request_id : Option String
  pub actor_id : Option String

pub record Response : Type 0 where
  pub status : ℕ
  pub content : Fields
  pub headers : List (String × String)

-- An entry of a location: the name of a field, or a position in a list.
pub data Location : Type 0 where
  name : String → Location
  position : ℕ → Location

-- An entry of `RequestValidationError.errors()`.
pub record FieldError : Type 0 where
  pub loc : List Location
  pub error_type : String

-- An exception of a route, by the class that the handlers are registered for; `other` is one of any class
-- without a handler of its own, which the handler of `Exception` gets.
pub data Raised : Type 0 where
  honor_error : HonorError → Raised
  validation_error : List FieldError → Raised
  http_exception : (status_code : ℕ) → Raised
  other : Raised

abbrev pub value : String → Value
value s = text (codes s)

abbrev pub nil_request_id : String
nil_request_id = "00000000-0000-0000-0000-000000000000"

-- `_request_id`
unfoldable pub request_id_of : RequestState → String
request_id_of s = elim s.request_id [ some id ↦ id | none ↦ nil_request_id ]

abbrev pub envelope : String → String → String → Fields → Fields
envelope code message request_id details =
    field "error"
      (dict (
        field "code" (value code) (
          field "message" (value message)
            (field "request_id" (value request_id) (field "details" (dict details) end)))))
      end

unfoldable pub error_response : RequestState → ℕ → String → String → Fields → Response
unfolding request_id_of
error_response s status code message details = record {
  status = status;
  content = envelope code message (request_id_of s) details;
  headers = ("cache-control", "private, no-store") ∷ [];
}

unfoldable pub honor_error_handler : RequestState → HonorError → Response
unfolding error_response
honor_error_handler s e = error_response s e.status e.code e.message e.details

-- `str(v)`
unfoldable pub location_text : Location → String
location_text (name n) = n
location_text (position n) = decimal n

unfoldable pub locations : List Location → Items
unfolding location_text
locations [] = nil
locations (v ∷ vs) = cons (value (location_text v)) (locations vs)

unfoldable pub fields_of : List FieldError → Items
unfolding locations
fields_of [] = nil
fields_of (e ∷ es) =
    cons (dict (field "location" (list (locations e.loc)) (field "type" (value e.error_type) end)))
      (fields_of es)

unfoldable pub validation_error_handler : RequestState → List FieldError → Response
unfolding error_response fields_of
validation_error_handler s es =
    error_response s 422 "VALIDATION_ERROR" "Request validation failed."
      (field "fields" (list (fields_of es)) end)

unfoldable pub http_error_handler : RequestState → ℕ → Response
unfolding error_response
http_error_handler s status_code =
    error_response s status_code (if eqb status_code 404 then "NOT_FOUND" else "HTTP_ERROR")
      "Request failed." end

unfoldable pub unhandled_error_handler : RequestState → Response
unfolding error_response
unhandled_error_handler s = error_response s 500 "INTERNAL_ERROR" "Internal server error." end

-- The handler that `create_app` registers for an exception's class.
unfoldable pub registered_handler : Raised → RequestState → Response
unfolding honor_error_handler validation_error_handler http_error_handler unhandled_error_handler
registered_handler (honor_error e) s = honor_error_handler s e
registered_handler (validation_error es) s = validation_error_handler s es
registered_handler (http_exception status_code) s = http_error_handler s status_code
registered_handler other s = unhandled_error_handler s
