-- ===== src/Worker/Transitions.antt =====
-- The transitions of services/worker/honor_worker/durable_jobs.py on the tables: `claim`,
-- `heartbeat`, `succeed` and `fail`, each one transaction. `owner_tx` checks the owner's id; the id
-- and the owner come as arguments.
use honor.Common.{
  ℕ, ◌+◌, ◌*◌, String, Bool, true, false, ◌&&◌, [], ◌∷◌, Option, none, some, leb, ltb, Result, ok,
  ◌>>◌, ◌==◌, if◌then◌else◌,
}
use honor.Common.Text.{concat, decimal}
use honor.Common.Table.{find, update}
use honor.Common.Platform.{Platform}
use honor.Jobs.{
  JobState, JobRow, EventRow, Payload, Database, running, retrying, blocked_owner_action,
  failed_terminal, succeeded, is_queued, job_id, second,
}
use honor.Jobs.Spec.{JobError, check_uuid, deterministic_event_id}
use honor.Jobs.Store.{canonical, insert_event}
use honor.Worker.Retry.{retry_delay}
use honor.Worker.Details.{redact_detail}

unfoldable pub is_running : JobState → Bool
is_running running = true
is_running _ = false

-- `COALESCE(a, b)`
unfoldable pub coalesce : Option ℕ → ℕ → Option ℕ
coalesce none b = some b
coalesce (some a) b = some a

-- `_event_payload`
unfoldable pub event_payload : String → String → String → Option String → Option String → Payload
event_payload event_name id state reason_code evidence_id = Payload.job_event (record {
  event_name = event_name;
  subject_id = id;
  state = state;
  reason_code = reason_code;
  evidence_id = evidence_id;
  related_ids = elim evidence_id [ none ↦ [] | some e ↦ if e == "" then [] else e ∷ [] ];
})

-- The columns that each `UPDATE` sets, at the time of its statement.
unfoldable pub claimed : ℕ → JobRow → JobRow
claimed now r = record r {
  state = running;
  attempt = r.attempt + 1;
  started_at = coalesce r.started_at now;
  heartbeat_at = some now;
  lease_expires_at = some (now + r.timeout_seconds * second);
  failure_code = none;
  failure_detail_redacted = none;
  version = r.version + 1;
  updated_at = now;
}

unfoldable pub renewed : ℕ → JobRow → JobRow
renewed now r = record r {
  heartbeat_at = some now;
  lease_expires_at = some (now + r.timeout_seconds * second);
  updated_at = now;
}

unfoldable pub completed : ℕ → JobRow → JobRow
completed now r = record r {
  state = succeeded;
  finished_at = some now;
  heartbeat_at = some now;
  lease_expires_at = none;
  failure_code = none;
  failure_detail_redacted = none;
  version = r.version + 1;
  updated_at = now;
}

unfoldable pub blocked : ℕ → String → String → String → JobRow → JobRow
blocked now owner_action_id code detail r = record r {
  state = blocked_owner_action;
  owner_action_id = some owner_action_id;
  failure_code = some code;
  failure_detail_redacted = some detail;
  lease_expires_at = none;
  version = r.version + 1;
  updated_at = now;
}

unfoldable pub delayed : ℕ → ℕ → String → String → JobRow → JobRow
delayed now delay code detail r = record r {
  state = retrying;
  available_at = now + delay * second;
  failure_code = some code;
  failure_detail_redacted = some detail;
  lease_expires_at = none;
  version = r.version + 1;
  updated_at = now;
}

unfoldable pub failed : ℕ → String → String → JobRow → JobRow
failed now code detail r = record r {
  state = failed_terminal;
  finished_at = some now;
  failure_code = some code;
  failure_detail_redacted = some detail;
  lease_expires_at = none;
  version = r.version + 1;
  updated_at = now;
}

-- The row may be claimed: the token is the stored text, the job is queued, and its time has come by
-- the worker's own clock.
unfoldable pub is_claimable : String → ℕ → JobRow → Bool
is_claimable dispatch_token client_now r =
    r.dispatch_token == dispatch_token && (is_queued r.state && leb r.available_at client_now)

unfoldable pub claim_row : String → ℕ → ℕ → Database → Option JobRow → Option JobRow × Database
claim_row dispatch_token client_now now db none = (none, db)
claim_row dispatch_token client_now now db (some r) =
    if is_claimable dispatch_token client_now r
    then (some (claimed now r), record db { jobs = update job_id r.id (claimed now) db.jobs })
    else (none, db)

-- `WHERE id=$1::uuid AND dispatch_token=$2::uuid`, and the state is `running`.
unfoldable pub if_running : String → Option JobRow → Option JobRow
if_running token none = none
if_running token (some r) = if r.dispatch_token == token && is_running r.state then some r else none

unfoldable pub heartbeat_row : ℕ → Database → Option JobRow → Bool × Database
heartbeat_row now db none = (false, db)
heartbeat_row now db (some r) =
    (true, record db { jobs = update job_id r.id (renewed now) db.jobs })

-- The arguments of `fail_on_connection` after the connection and the ids.
pub record Failure : Type 0 where
  pub code : String
  pub detail : String
  pub retryable : Bool
  pub owner_action_id : Option String

module _ (lib : Platform) where
  -- `_insert_job_event`, from the row as the `UPDATE` returned it.
  unfoldable pub job_event_row :
      ℕ → JobRow → String → String → Option String → Option String → EventRow
  job_event_row now r event_name state reason_code evidence_id =
      let key =
        concat ("job:" ∷ r.id ∷ ":" ∷ event_name ∷ ":" ∷ decimal r.attempt ∷ ":" ∷ state ∷ []) in
      record {
        id = deterministic_event_id lib key;
        event_name = event_name;
        occurred_at = now;
        actor_type = "SYSTEM";
        source_service = "worker";
        correlation_id = r.correlation_id;
        run_id = elim r.run_id [ none ↦ none | some u ↦ if u == "" then none else some u ];
        job_id = r.id;
        entity_type = "job";
        entity_id = r.id;
        idempotency_key = key;
        payload = event_payload event_name r.id state reason_code evidence_id;
      }

  -- `UPDATE jobs SET … WHERE id=$1 RETURNING *`, then the event of the row that comes back.
  unfoldable pub transition :
      ℕ
      → JobRow
      → (JobRow → JobRow)
      → String
      → String
      → Option String
      → Option String
      → Database
      → Database
  transition now r f event_name state reason_code evidence_id db = record {
    jobs = update job_id r.id f db.jobs;
    events =
        insert_event (job_event_row now (f r) event_name state reason_code evidence_id) db.events;
  }

  -- `claim_job_on_connection`
  unfoldable pub claim :
      String → String → String → ℕ → ℕ → Database → Result JobError (Option JobRow × Database)
  claim owner id dispatch_token client_now now db = do
    check_uuid lib id
    check_uuid lib dispatch_token
    check_uuid lib owner
    ok (claim_row dispatch_token client_now now db (find job_id (canonical lib id) db.jobs))

  unfoldable pub running_row : String → String → Database → Option JobRow
  unfolding if_running
  running_row id dispatch_token db =
      if_running (canonical lib dispatch_token) (find job_id (canonical lib id) db.jobs)

  -- `heartbeat_on_connection`: whether the one row was updated.
  unfoldable pub heartbeat : String → String → ℕ → Database → Bool × Database
  heartbeat id dispatch_token now db = heartbeat_row now db (running_row id dispatch_token db)

  unfoldable pub succeed_row : ℕ → Database → Option JobRow → Bool × Database
  succeed_row now db none = (false, db)
  succeed_row now db (some r) =
      (true, transition now r (completed now) "JOB_SUCCEEDED" "succeeded" none none db)

  -- `succeed_on_connection`
  unfoldable pub succeed : String → String → ℕ → Database → Bool × Database
  succeed id dispatch_token now db = succeed_row now db (running_row id dispatch_token db)

  -- A failure that needs no owner: another attempt if one is left, else the end.
  unfoldable pub retry_or_give_up : Failure → String → ℕ → JobRow → Database → String × Database
  retry_or_give_up f key now r db =
      if f.retryable && ltb r.attempt r.max_attempts
      then (
        "retrying",
        transition now r
            (delayed now (retry_delay lib r.attempt (some key)) f.code (redact_detail f.detail))
            "JOB_RETRY_SCHEDULED" "retrying" (some f.code) none db,
      )
      else (
        "failed-terminal",
        transition now r (failed now f.code (redact_detail f.detail)) "JOB_FAILED_TERMINAL"
            "failed-terminal" (some f.code) none db,
      )

  -- The failure of a running job, by whether an owner's action is asked for.
  unfoldable pub fail_running :
      Failure → String → ℕ → JobRow → Database → Option String → Result JobError (String × Database)
  fail_running f key now r db none = ok (retry_or_give_up f key now r db)
  fail_running f key now r db (some action) = do
    check_uuid lib action
    ok (
      "blocked-owner-action",
      transition now r (blocked now (canonical lib action) f.code (redact_detail f.detail))
          "OWNER_ACTION_REQUIRED" "blocked-owner-action" (some f.code) (some action) db,
    )

  unfoldable pub fail_row :
      Failure → String → ℕ → Database → Option JobRow → Result JobError (String × Database)
  fail_row f key now db none = ok ("ineligible", db)
  fail_row f key now db (some r) = fail_running f key now r db f.owner_action_id

  -- `fail_on_connection`
  unfoldable pub fail :
      String → String → Failure → ℕ → Database → Result JobError (String × Database)
  fail id dispatch_token f now db = fail_row f id now db (running_row id dispatch_token db)
