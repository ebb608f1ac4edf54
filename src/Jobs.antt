-- ===== src/Jobs.antt =====
-- Durable jobs: the rows of tables `jobs` and `events` that services/api/honor_api/jobs.py and
-- services/worker/honor_worker/durable_jobs.py read and write, and their states.
pub mod Graph
pub mod Spec
pub mod Store
use honor.Common.{ℕ, String, Bool, true, false, Option, List, [], ◌∷◌}

pub data JobState : Type 0 where
  queued running retrying blocked_owner_action failed_terminal succeeded cancelled : JobState

-- The texts of `job_state_enum`.
unfoldable pub state_name : JobState → String
state_name queued = "queued"
state_name running = "running"
state_name retrying = "retrying"
state_name blocked_owner_action = "blocked-owner-action"
state_name failed_terminal = "failed-terminal"
state_name succeeded = "succeeded"
state_name cancelled = "cancelled"

unfoldable pub is_queued : JobState → Bool
is_queued queued = true
is_queued _ = false

-- A row of `jobs`. Times are microseconds; ids are canonical UUID texts.
pub record JobRow : Type 0 where
  pub id : String
  pub job_type : String
  pub domain_entity_type : String
  pub domain_entity_id : String
  pub state : JobState
  pub stage : String
  pub attempt : ℕ
  pub max_attempts : ℕ
  pub idempotency_key : String
  pub dispatch_token : String
  pub correlation_id : String
  pub run_id : Option String
  pub timeout_seconds : ℕ
  pub available_at : ℕ
  pub started_at : Option ℕ
  pub heartbeat_at : Option ℕ
  pub lease_expires_at : Option ℕ
  pub finished_at : Option ℕ
  pub failure_code : Option String
  pub failure_detail_redacted : Option String
  pub owner_action_id : Option String
  pub version : ℕ
  pub updated_at : ℕ

-- What `_event_payload` of the worker puts into the payload of a job's event.
pub record JobEvent : Type 0 where
  pub event_name : String
  pub subject_id : String
  pub state : String
  pub reason_code : Option String
  pub evidence_id : Option String
  pub related_ids : List String

-- A JSON payload: the text that `enqueue` was given, or a job's event.
pub data Payload : Type 0 where
  text : String → Payload
  job_event : JobEvent → Payload

-- A row of `events`.
pub record EventRow : Type 0 where
  pub id : String
  pub event_name : String
  pub occurred_at : ℕ
  pub actor_type : String
  pub source_service : String
  pub correlation_id : String
  pub run_id : Option String
  pub job_id : String
  pub entity_type : String
  pub entity_id : String
  pub idempotency_key : String
  pub payload : Payload

pub record Database : Type 0 where
  pub jobs : List JobRow
  pub events : List EventRow

abbrev pub job_key : JobRow → String
job_key r = r.idempotency_key

abbrev pub job_id : JobRow → String
job_id r = r.id

abbrev pub event_key : EventRow → String
event_key e = e.idempotency_key

-- One second, in the unit of the timestamps: `make_interval(secs=>n)` is `seconds n`.
abbrev pub second : ℕ
second = 1000000
