-- ===== src/Worker/Execute.antt =====
-- `run_with_job_heartbeat` and `execute_durable_job` of services/worker/honor_worker/durable_jobs.py.
-- How the two tasks of a run end, the locks, the clocks and what other sessions do in between (the
-- heartbeat's session is one of them) are arguments.
pub mod Outcomes
pub mod Heartbeat
pub mod Answers
pub mod Truth
use honor.Common.{ℕ, String, Bool, true, false, Option, none, some, Result, ok, err, if◌then◌else◌}
use Prim.Native.String.{◌++◌}
use honor.Common.Platform.{Platform}
use honor.Jobs.{JobRow, Database}
use honor.Jobs.Spec.{JobError, check_uuid}
use honor.Worker.Transitions.{Failure, claim, succeed, fail}

-- An exception, by the class that the handlers test for; a class's `code` can be overridden.
pub data JobException : Type 0 where
  heartbeat_error : String → JobException
  retryable : (code detail : String) → JobException
  non_retryable : (code detail : String) → JobException
  owner_action_required : (code owner_action_id detail : String) → JobException
  other : (type_name detail : String) → JobException

-- A task that was cancelled: it ends so, or ends otherwise all the same.
pub data Cancelled : Type 0 where
  cancelled : Cancelled
  finished : Cancelled
  failed : JobException → Cancelled

-- The heartbeat when the work has ended: done before, or ended by `stop`; with its exception, if any.
pub data Beat : Type 0 where
  done : Option JobException → Beat
  stopped : Option JobException → Beat

pub data Run : Type 0 where
  -- `RuntimeError`: the configured interval is not a positive number.
  refused : String → Run
  heartbeat_first : Option JobException → Cancelled → Run
  work_first : Result JobException String → Beat → Run

-- What a heartbeat that ended before the work raises.
unfoldable pub heartbeat_lost : Option JobException → JobException
heartbeat_lost none = heartbeat_error "heartbeat loop stopped before work completed"
heartbeat_lost (some (heartbeat_error detail)) = heartbeat_error detail
heartbeat_lost (some (other name detail)) = heartbeat_error ("heartbeat renewal failed: " ++ name)
heartbeat_lost (some (retryable code detail)) =
    heartbeat_error "heartbeat renewal failed: RetryableJobError"
heartbeat_lost (some (non_retryable code detail)) =
    heartbeat_error "heartbeat renewal failed: NonRetryableJobError"
heartbeat_lost (some (owner_action_required code action detail)) =
    heartbeat_error "heartbeat renewal failed: OwnerActionRequired"

-- `run_with_job_heartbeat`
unfoldable pub run_with_job_heartbeat : Run → Result JobException String
unfolding heartbeat_lost
run_with_job_heartbeat (refused detail) = err (other "RuntimeError" detail)
run_with_job_heartbeat (heartbeat_first beat cancelled) = err (heartbeat_lost beat)
run_with_job_heartbeat (heartbeat_first none finished) = err (heartbeat_lost none)
run_with_job_heartbeat (heartbeat_first (some e) finished) = err e
run_with_job_heartbeat (heartbeat_first beat (failed e)) = err e
run_with_job_heartbeat (work_first (ok result) (done none)) = ok result
run_with_job_heartbeat (work_first (ok result) (stopped none)) = ok result
run_with_job_heartbeat (work_first (ok result) (done (some e))) = err e
run_with_job_heartbeat (work_first (err e) (done beat)) = err e
run_with_job_heartbeat (work_first (err e) (stopped none)) = err e
run_with_job_heartbeat (work_first work (stopped (some e))) = err e

-- The arguments that a handler passes to `fail_on_connection`.
unfoldable pub failure_of : JobException → Failure
failure_of (heartbeat_error detail) = record {
  code = "JOB_HEARTBEAT_FAILED";
  detail = detail;
  retryable = true;
  owner_action_id = none;
}
failure_of (retryable code detail) = record {
  code = code;
  detail = detail;
  retryable = true;
  owner_action_id = none;
}
failure_of (non_retryable code detail) = record {
  code = code;
  detail = detail;
  retryable = false;
  owner_action_id = none;
}
failure_of (owner_action_required code action detail) = record {
  code = code;
  detail = detail;
  retryable = false;
  owner_action_id = some action;
}
failure_of (other name detail) = record {
  code = "FOUNDATION_UNHANDLED_ERROR";
  detail = detail;
  retryable = true;
  owner_action_id = none;
}

-- What `execute_durable_job` returns or raises.
pub data Report : Type 0 where
  duplicate_or_ineligible : Report
  succeeded : (attempt : ℕ) (result : String) → Report
  not_succeeded : (state : String) → Report
  raises : JobError → Report

-- The surroundings of one call.
pub record Surroundings : Type 0 where
  pub owner : String
  pub lock_acquired : Bool
  pub client_now : ℕ
  pub claim_now : ℕ
  pub run : Run
  pub while_working : Database → Database
  pub end_now : ℕ
  pub after_refusal : Database → Database
  pub refusal_now : ℕ

unfoldable pub failure_report : Database → Result JobError (String × Database) → Report × Database
failure_report db (ok (state, db')) = (not_succeeded state, db')
failure_report db (err e) = (raises e, db)

module _ (lib : Platform) where
  -- A handler: the failure is recorded.
  unfoldable pub handle : String → String → ℕ → JobException → Database → Report × Database
  handle id token now e db = failure_report db (fail lib id token (failure_of e) now db)

  -- After `succeed_on_connection`: a job that is no longer eligible raises, and the last handler catches it.
  unfoldable pub after_success :
      Surroundings → String → String → ℕ → String → Bool × Database → Report × Database
  after_success s id token attempt result (true, db) = (succeeded attempt result, db)
  after_success s id token attempt result (false, db) =
      handle id token s.refusal_now
        (other "RuntimeError" "job became ineligible before success transition")
        (s.after_refusal db)

  -- The run of a claimed job has ended.
  unfoldable pub after_run :
      Surroundings → String → String → ℕ → Result JobException String → Database → Report × Database
  after_run s id token attempt (ok result) db =
      after_success s id token attempt result (succeed lib id token s.end_now db)
  after_run s id token attempt (err e) db = handle id token s.end_now e db

  unfoldable pub after_claim :
      Surroundings
      → String
      → String
      → Database
      → Result JobError (Option JobRow × Database)
      → Report × Database
  after_claim s id token db (err e) = (raises e, db)
  after_claim s id token db (ok (none, db')) = (duplicate_or_ineligible, db')
  after_claim s id token db (ok (some row, db')) =
      after_run s id token row.attempt (run_with_job_heartbeat s.run) (s.while_working db')

  -- After `UUID(job_id)` of `try_execution_lock`.
  unfoldable pub with_lock :
      Surroundings → String → String → Database → Result JobError (Unit {0}) → Report × Database
  with_lock s id token db (err e) = (raises e, db)
  with_lock s id token db (ok _) =
      let claimed =
        after_claim s id token db (claim lib s.owner id token s.client_now s.claim_now db) in
      if s.lock_acquired then claimed else (duplicate_or_ineligible, db)

  -- `execute_durable_job`
  unfoldable pub execute_durable_job : Surroundings → String → String → Database → Report × Database
  execute_durable_job s id token db = with_lock s id token db (check_uuid lib id)
