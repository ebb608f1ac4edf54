-- ===== src/Jobs/Store/Insertion.antt =====
-- What `enqueue` stores of a new job, column by column.
use honor.Common.{
  String, ◌≡◌, refl, sym, ap, ◌∙◌, true, List, [], ◌∷◌, ◌++◌, Option, none, some, is_some, ok,
}
use honor.Common.Text.{concat}
use honor.Common.Table.{find, insert}
use honor.Common.Platform.{Platform}
use honor.Jobs.{JobRow, EventRow, Database, Payload, queued, event_key}
use honor.Jobs.Spec.{JobSpec, IsOptionalUuid, IsValidSpec, deterministic_event_id}
use honor.Jobs.Store.{
  DurableJob, Request, durable, insert_event, event_key_of, canonical, canonical_optional, new_row,
  enqueue_event, enqueue,
}
use honor.Jobs.Store.Replay.{IsAccepted, job_id_of, token_of}
use honor.Jobs.Store.Fresh.{IsFresh, row_of, enqueue-fresh}

module _ (lib : Platform) where
  -- The column holds the UUID that the text denotes, or NULL for no text.
  abbrev pub IsColumnOf : Option String → Option String → Type 0
  IsColumnOf none column = column ≡ none
  IsColumnOf (some text) column =
      (id : String) × (column ≡ some id) × (lib.parse_uuid text ≡ some id)

  -- A job that waits for its first attempt, available from the time of its insertion.
  pub record IsNewJob (q : Request) (spec : JobSpec) (r : JobRow) : Type 0 where
    pub id : r.id ≡ job_id_of lib spec
    pub dispatch_token : r.dispatch_token ≡ token_of lib spec
    pub idempotency_key : r.idempotency_key ≡ spec.idempotency_key
    pub job_type : r.job_type ≡ spec.job_type
    pub entity_type : r.domain_entity_type ≡ spec.domain_entity_type
    pub entity : lib.parse_uuid spec.domain_entity_id ≡ some r.domain_entity_id
    pub correlation : lib.parse_uuid spec.correlation_id ≡ some r.correlation_id
    pub run : IsColumnOf spec.run_id r.run_id
    pub state : r.state ≡ queued
    pub stage : r.stage ≡ spec.stage
    pub attempt : r.attempt ≡ 0
    pub max_attempts : r.max_attempts ≡ spec.max_attempts
    pub timeout : r.timeout_seconds ≡ spec.timeout_seconds
    pub version : r.version ≡ 1
    pub available : r.available_at ≡ q.now
    pub updated : r.updated_at ≡ q.now
    pub unstarted : r.started_at ≡ none
    pub unbeaten : r.heartbeat_at ≡ none
    pub unleased : r.lease_expires_at ≡ none
    pub unfinished : r.finished_at ≡ none
    pub unfailed : r.failure_code ≡ none
    pub undetailed : r.failure_detail_redacted ≡ none
    pub unblocked : r.owner_action_id ≡ none

  -- The request's event about the job.
  pub record IsNewEvent (q : Request) (spec : JobSpec) (e : EventRow) : Type 0 where
    pub idempotency_key :
        e.idempotency_key ≡ concat ("job-enqueue:" ∷ spec.idempotency_key ∷ ":" ∷ q.event_name ∷ [])
    pub id : e.id ≡ deterministic_event_id lib e.idempotency_key
    pub event_name : e.event_name ≡ q.event_name
    pub occurred : e.occurred_at ≡ q.client_now
    pub actor_type : e.actor_type ≡ q.actor_type
    pub source_service : e.source_service ≡ q.source_service
    pub correlation : lib.parse_uuid spec.correlation_id ≡ some e.correlation_id
    pub run : IsColumnOf spec.run_id e.run_id
    pub job : e.job_id ≡ job_id_of lib spec
    pub entity_type : e.entity_type ≡ spec.domain_entity_type
    pub entity : lib.parse_uuid spec.domain_entity_id ≡ some e.entity_id
    pub payload : e.payload ≡ Payload.text q.event_payload.json

  -- What the caller gets of the row.
  pub record IsViewOf (job : DurableJob) (r : JobRow) : Type 0 where
    pub id : job.id ≡ r.id
    pub dispatch_token : job.dispatch_token ≡ r.dispatch_token
    pub state : job.state ≡ r.state
    pub stage : job.stage ≡ r.stage
    pub version : job.version ≡ r.version
    pub idempotency_key : job.idempotency_key ≡ r.idempotency_key

  canonical_lem : (text id : String) → lib.parse_uuid text ≡ some id → canonical lib text ≡ id
  unfolding canonical
  canonical_lem text id e = rw (e, canonical) refl

  parsed-canonical :
      (text : String) (o : Option String)
      → lib.parse_uuid text ≡ o
      → is_some o ≡ true
      → lib.parse_uuid text ≡ some (canonical lib text)
  parsed-canonical text none e h = cc
  parsed-canonical text (some id) e h = e ∙ ap some (sym (canonical_lem text id e))

  canonical_optional-IsColumnOf :
      (o : Option String) → IsOptionalUuid lib o → IsColumnOf o (canonical_optional lib o)
  unfolding canonical_optional
  canonical_optional-IsColumnOf none h = refl
  canonical_optional-IsColumnOf (some text) h =
      (canonical lib text, refl, parsed-canonical text _ refl h)

  module _ (q : Request) (spec : JobSpec) (valid : IsValidSpec lib spec) where
    entity_parsed :
        lib.parse_uuid spec.domain_entity_id ≡ some (canonical lib spec.domain_entity_id)
    entity_parsed = parsed-canonical spec.domain_entity_id _ refl valid.entity

    correlation_parsed :
        lib.parse_uuid spec.correlation_id ≡ some (canonical lib spec.correlation_id)
    correlation_parsed = parsed-canonical spec.correlation_id _ refl valid.correlation

    new_row-IsNewJob : IsNewJob q spec (row_of lib q spec)
    unfolding new_row
    new_row-IsNewJob = record {
      id = refl;
      dispatch_token = refl;
      idempotency_key = refl;
      job_type = refl;
      entity_type = refl;
      entity = entity_parsed;
      correlation = correlation_parsed;
      run = canonical_optional-IsColumnOf spec.run_id valid.run;
      state = refl;
      stage = refl;
      attempt = refl;
      max_attempts = refl;
      timeout = refl;
      version = refl;
      available = refl;
      updated = refl;
      unstarted = refl;
      unbeaten = refl;
      unleased = refl;
      unfinished = refl;
      unfailed = refl;
      undetailed = refl;
      unblocked = refl;
    }

    enqueue_event-IsNewEvent : IsNewEvent q spec (enqueue_event lib q spec (job_id_of lib spec))
    unfolding enqueue_event event_key_of
    enqueue_event-IsNewEvent = record {
      idempotency_key = refl;
      id = refl;
      event_name = refl;
      occurred = refl;
      actor_type = refl;
      source_service = refl;
      correlation = correlation_parsed;
      run = canonical_optional-IsColumnOf spec.run_id valid.run;
      job = refl;
      entity_type = refl;
      entity = entity_parsed;
      payload = refl;
    }

  durable-IsViewOf : (r : JobRow) → IsViewOf (durable r) r
  unfolding durable
  durable-IsViewOf r = record {
    id = refl;
    dispatch_token = refl;
    state = refl;
    stage = refl;
    version = refl;
    idempotency_key = refl;
  }

  event_inserted :
      (e : EventRow) (events : List EventRow)
      → find event_key e.idempotency_key events ≡ none
      → insert_event e events ≡ events ++ (e ∷ [])
  unfolding insert_event insert
  event_inserted e events free = rw free refl

  -- An accepted request whose idempotency key, id and dispatch token no row has, and whose
  -- event's key no event has, appends one row, queued, at attempt 0 and version 1, available from
  -- its insertion, without a lease, a start, an end or a failure, with the values of the
  -- request's `JobSpec` and the UUIDs that its texts denote, and one event about it with the
  -- request's values, changes nothing else, and returns the columns of that row.
  pub enqueue-stored :
      (q : Request) (spec : JobSpec) (db : Database)
      → IsAccepted lib q spec
      → IsFresh lib spec db.jobs
      → find event_key (event_key_of spec q.event_name) db.events ≡ none
      → (job : DurableJob) × (r : JobRow) × (e : EventRow) × (enqueue lib q spec db
          ≡ (ok job, record { jobs = db.jobs ++ (r ∷ []); events = db.events ++ (e ∷ []) }))
        × IsNewJob q spec r
        × IsNewEvent q spec e
        × IsViewOf job r
  unfolding insert enqueue_event
  enqueue-stored q spec db a f event_free =
      let r : JobRow = row_of lib q spec in
      let e : EventRow = enqueue_event lib q spec (job_id_of lib spec) in
      (
        durable r,
        r,
        e,
        enqueue-fresh lib q spec db a f
            ∙ ap
                (λ (events : List EventRow).
                  (ok (durable r), record { jobs = db.jobs ++ (r ∷ []); events = events }))
                (event_inserted e db.events event_free),
        new_row-IsNewJob q spec a.spec_valid,
        enqueue_event-IsNewEvent q spec a.spec_valid,
        durable-IsViewOf r,
      )
