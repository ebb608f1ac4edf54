-- ===== src/Api/Logging.antt =====
-- services/api/honor_api/logging.py: `redact` and `log_event`. A text under the patterns is the list of
-- its code points.
pub mod Patterns
pub mod Secrecy
use honor.Common.{ℕ, String, true, false, List, map, Option, none, some, if◌then◌else◌}
use honor.Common.Text.{codes}
use honor.Api.Json.{
  Value, null, boolean, integer, text, list, tuple, dict, Items, nil, cons, Fields, end, field,
}
use honor.Api.Logging.Patterns.{is_secret_key, redact_text, redacted_mark}

unfoldable mutual
  unfolding is_secret_key redact_text

  pub redact : Value → Value
  redact null = null
  redact (boolean b) = boolean b
  redact (integer n) = integer n
  redact (text s) = text (redact_text s)
  redact (list vs) = list (redact_items vs)
  redact (tuple vs) = tuple (redact_items vs)
  redact (dict fs) = dict (redact_fields fs)

  pub redact_items : Items → Items
  redact_items nil = nil
  redact_items (cons v vs) = cons (redact v) (redact_items vs)

  pub redact_fields : Fields → Fields
  redact_fields end = end
  redact_fields (field k v fs) =
      field k (if is_secret_key (codes k) then text redacted_mark else redact v) (redact_fields fs)

-- The arguments of `log_event`.
pub record Event : Type 0 where
  pub service : String
  pub environment : String
  pub request_id : Option String
  pub job_id : Option String
  pub actor_id : Option String
  pub event_code : String
  pub severity : String
  pub metadata : Option Fields

abbrev pub text_value : String → Value
text_value s = text (codes s)

abbrev pub optional : Option String → Value
optional none = null
optional (some s) = text_value s

-- `metadata or {}`
abbrev pub given : Option Fields → Fields
given none = end
given (some fs) = fs

-- The payload that `log_event` writes, as the JSON text of this dict, at the time `timestamp`.
unfoldable pub log_event : String → Event → Fields
unfolding redact
log_event timestamp e = field "timestamp" (text_value timestamp) (
    field "service" (text_value e.service) (
      field "environment" (text_value e.environment) (
        field "request_id" (optional e.request_id) (
          field "job_id" (optional e.job_id) (
            field "actor_id" (optional e.actor_id) (
              field "event_code" (text_value e.event_code) (
                field "severity" (text_value e.severity)
                  (field "metadata" (redact (dict (given e.metadata))) end))))))))
