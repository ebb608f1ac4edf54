-- ===== src/Jobs/Store.antt =====
-- `DurableJobStore` of services/api/honor_api/jobs.py: `enqueue`, `enqueue_and_dispatch` and
-- `dispatchable`, over the tables `jobs` and `events`.
pub mod Replay
pub mod Fresh
pub mod Identity
pub mod Insertion
use honor.Common.{
  ℕ, ◌+◌, ◌*◌, String, Bool, true, false, not, ◌&&◌, ◌||◌, List, [], ◌∷◌, ◌++◌, Option, none, some,
  is_some, eqb, leb, opt_eq, Result, ok, err, ◌>>=◌, ◌>>◌, raise_if, ◌==◌, if◌then◌else◌,
}
use honor.Common.Text.{concat, sort}
use honor.Common.Table.{find, insert}
use honor.Common.Platform.{Platform}
use honor.Jobs.{
  JobState, JobRow, EventRow, Database, Payload, queued, is_queued, retrying, job_id, job_key,
  event_key,
}
use honor.Jobs.Spec.{
  JobSpec, JobError, invalid_uuid, event_schema_violation, event_name_mismatch, unique_violation,
  job_lookup_failed, key_reused, check_uuid, validate, deterministic_job_id,
  deterministic_dispatch_token, deterministic_event_id,
}

pub record DurableJob : Type 0 where
  pub id : String
  pub dispatch_token : String
  pub state : JobState
  pub stage : String
  pub version : ℕ
  pub idempotency_key : String

-- `event_payload`: its entry "event_name", and its text by `json.dumps`.
pub record EventPayload : Type 0 where
  pub event_name : Option String
  pub json : String

-- The arguments of `enqueue` besides the spec, and the clocks that it reads: `datetime.now` and
-- PostgreSQL's `now()`.
pub record Request : Type 0 where
  pub owner_user_id : String
  pub event_name : String
  pub event_payload : EventPayload
  pub actor_type : String
  pub source_service : String
  pub client_now : ℕ
  pub now : ℕ

-- The columns that `enqueue` reads back.
unfoldable pub durable : JobRow → DurableJob
durable r = record {
  id = r.id;
  dispatch_token = r.dispatch_token;
  state = r.state;
  stage = r.stage;
  version = r.version;
  idempotency_key = r.idempotency_key;
}

-- `INSERT … ON CONFLICT (idempotency_key) DO NOTHING RETURNING …`. A clash of another unique
-- column, `id` or `dispatch_token`, raises.
unfoldable pub insert_job : JobRow → List JobRow → Result JobError (Option (List JobRow))
insert_job r jobs =
    if is_some (find job_key r.idempotency_key jobs)
    then ok none
    else if is_some (find job_id r.id jobs)
        || is_some (find (λ x. x.dispatch_token) r.dispatch_token jobs)
    then err unique_violation
    else ok (some (insert r jobs))

-- `INSERT INTO events … ON CONFLICT (idempotency_key) DO NOTHING`. The id is computed from the key,
-- so the key decides.
unfoldable pub insert_event : EventRow → List EventRow → List EventRow
insert_event e events =
    if is_some (find event_key e.idempotency_key events) then events else insert e events

-- The names of the checks that fail, in the order of the checks.
unfoldable pub failing : List (String × Bool) → List String
failing [] = []
failing ((name, valid) ∷ rest) = if valid then failing rest else name ∷ failing rest

-- `expected`, each entry compared with the row's.
unfoldable pub replay_checks : JobSpec → String → String → JobRow → List (String × Bool)
replay_checks spec id token r =
    ("id", r.id == id)
    ∷ ("dispatch_token", r.dispatch_token == token)
    ∷ ("job_type", r.job_type == spec.job_type)
    ∷ ("domain_entity_type", r.domain_entity_type == spec.domain_entity_type)
    ∷ ("domain_entity_id", r.domain_entity_id == spec.domain_entity_id)
    ∷ ("stage", r.stage == spec.stage)
    ∷ ("correlation_id", r.correlation_id == spec.correlation_id)
    ∷ ("run_id", opt_eq r.run_id spec.run_id)
    ∷ ("max_attempts", eqb r.max_attempts spec.max_attempts)
    ∷ ("timeout_seconds", eqb r.timeout_seconds spec.timeout_seconds)
    ∷ []

unfoldable pub raise_mismatches : List String → Result JobError (Unit {0})
raise_mismatches [] = ok tt
raise_mismatches (m ∷ ms) = err (key_reused (sort (m ∷ ms)))

unfoldable pub event_key_of : JobSpec → String → String
event_key_of spec event_name =
    concat ("job-enqueue:" ∷ spec.idempotency_key ∷ ":" ∷ event_name ∷ [])

-- The row was there before: it must mean the same job.
unfoldable pub replay :
    JobSpec → String → String → Database → Option JobRow → Result JobError (DurableJob × Database)
replay spec id token db none = err job_lookup_failed
replay spec id token db (some r) = do
  raise_mismatches (failing (replay_checks spec id token r))
  ok (durable r, db)

-- The end of a transaction: one that raises is rolled back.
unfoldable pub committed :
    Result JobError (DurableJob × Database) → Database → Result JobError DurableJob × Database
committed (ok (job, db')) db = (ok job, db')
committed (err e) db = (err e, db)

-- After the commit of `enqueue`: a queued job is handed to the broker.
unfoldable pub dispatched :
    Result JobError DurableJob × Database → Result JobError DurableJob × Database × List DurableJob
dispatched (ok job, db) = (ok job, db, if is_queued job.state then job ∷ [] else [])
dispatched (err e, db) = (err e, db, [])

module _ (lib : Platform) where
  open lib use {parse_uuid, is_valid_event}

  -- The text of a uuid column: `$n::uuid` stores the canonical form of the argument, which is a
  -- UUID wherever this is called. That the driver's encoder may refuse some of its forms is not
  -- modelled.
  unfoldable pub canonical : String → String
  canonical text = elim (parse_uuid text) [ none ↦ text | some u ↦ u ]

  unfoldable pub canonical_optional : Option String → Option String
  canonical_optional none = none
  canonical_optional (some text) = some (canonical text)

  -- The row that `enqueue` inserts; the columns not named take their defaults.
  unfoldable pub new_row : JobSpec → String → String → ℕ → JobRow
  new_row spec id token now = record {
    id = id;
    job_type = spec.job_type;
    domain_entity_type = spec.domain_entity_type;
    domain_entity_id = canonical spec.domain_entity_id;
    state = queued;
    stage = spec.stage;
    attempt = 0;
    max_attempts = spec.max_attempts;
    idempotency_key = spec.idempotency_key;
    dispatch_token = token;
    correlation_id = canonical spec.correlation_id;
    run_id = canonical_optional spec.run_id;
    timeout_seconds = spec.timeout_seconds;
    available_at = now;
    started_at = none;
    heartbeat_at = none;
    lease_expires_at = none;
    finished_at = none;
    failure_code = none;
    failure_detail_redacted = none;
    owner_action_id = none;
    version = 1;
    updated_at = now;
  }

  unfoldable pub enqueue_event : Request → JobSpec → String → EventRow
  enqueue_event q spec id =
      let key = event_key_of spec q.event_name in
      record {
        id = deterministic_event_id lib key;
        event_name = q.event_name;
        occurred_at = q.client_now;
        actor_type = q.actor_type;
        source_service = q.source_service;
        correlation_id = canonical spec.correlation_id;
        run_id = canonical_optional spec.run_id;
        job_id = id;
        entity_type = spec.domain_entity_type;
        entity_id = canonical spec.domain_entity_id;
        idempotency_key = key;
        payload = Payload.text q.event_payload.json;
      }

  -- `if row is None: … else: …`, after the insertion.
  unfoldable pub after_insert :
      Request
      → JobSpec
      → String
      → String
      → Database
      → Option (List JobRow)
      → Result JobError (DurableJob × Database)
  after_insert q spec id token db none =
      replay spec id token db (find job_key spec.idempotency_key db.jobs)
  after_insert q spec id token db (some jobs) = ok (
    durable (new_row spec id token q.now),
    record { jobs = jobs; events = insert_event (enqueue_event q spec id) db.events },
  )

  -- The body of the transaction.
  unfoldable pub enqueue_rows :
      Request → JobSpec → String → String → Database → Result JobError (DurableJob × Database)
  unfolding after_insert
  enqueue_rows q spec id token db = do
    inserted ← insert_job (new_row spec id token q.now) db.jobs
    after_insert q spec id token db inserted

  unfoldable pub enqueue_checked :
      Request → JobSpec → Database → Result JobError (DurableJob × Database)
  enqueue_checked q spec db = do
    validate lib spec
    raise_if (not (is_valid_event q.event_payload.json)) event_schema_violation
    raise_if (not (opt_eq q.event_payload.event_name (some q.event_name))) event_name_mismatch
    let id = deterministic_job_id lib spec.job_type spec.idempotency_key
    token ← deterministic_dispatch_token lib id
    check_uuid lib q.owner_user_id
    enqueue_rows q spec id token db

  unfoldable pub enqueue : Request → JobSpec → Database → Result JobError DurableJob × Database
  enqueue q spec db = committed (enqueue_checked q spec db) db

  -- `enqueue_and_dispatch`: the third part is the jobs handed to the broker.
  unfoldable pub enqueue_and_dispatch :
      Request → JobSpec → Database → Result JobError DurableJob × Database × List DurableJob
  unfolding dispatched
  enqueue_and_dispatch q spec db = dispatched (enqueue q spec db)

  is_waiting : JobState → Bool
  is_waiting queued = true
  is_waiting retrying = true
  is_waiting _ = false

  unfoldable pub dispatchable : String → String → String → ℕ → Database → Result JobError Bool
  unfolding is_waiting
  dispatchable owner_user_id job_id' dispatch_token now db = do
    check_uuid lib job_id'
    check_uuid lib dispatch_token
    check_uuid lib owner_user_id
    ok (elim (find job_id (canonical job_id') db.jobs) [
      | none ↦ false
      | some r ↦
          r.dispatch_token == canonical dispatch_token
          && is_waiting r.state
          && leb r.available_at now
    ])

-- `dispatch_payload`: the only entries of the broker's message.
unfoldable pub dispatch_payload : DurableJob → List (String × String)
dispatch_payload job = ("job_id", job.id) ∷ ("dispatch_token", job.dispatch_token) ∷ []
