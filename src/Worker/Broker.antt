-- ===== src/Worker/Broker.antt =====
-- The messages that the API and the reconciler send through Celery, and the task that receives them:
-- services/api/honor_api/dispatcher.py, services/worker/honor_worker/dispatcher.py and
-- services/worker/honor_worker/tasks.py.
pub mod Delivery
use honor.Common.{String, List, [], ◌∷◌, Option, none, some, ◌==◌, if◌then◌else◌}
use honor.Common.Platform.{Platform}
use honor.Jobs.{Database}
use honor.Jobs.Store.{DurableJob, dispatch_payload}
use honor.Worker.Execute.{Report, Surroundings, execute_durable_job}

-- The arguments of `send_task`.
pub record TaskMessage : Type 0 where
  pub task : String
  pub kwargs : List (String × String)
  pub task_id : String
  pub queue : String

-- `publish_foundation_job`; `celery_task_id` is the job's id.
unfoldable pub publish_foundation_job : DurableJob → TaskMessage
unfolding dispatch_payload
publish_foundation_job job = record {
  task = "honor.foundation.echo";
  kwargs = dispatch_payload job;
  task_id = job.id;
  queue = "foundation";
}

-- `publish_job`
unfoldable pub publish_job : String → String → TaskMessage
publish_job job_id dispatch_token = record {
  task = "honor.foundation.echo";
  kwargs = ("job_id", job_id) ∷ ("dispatch_token", dispatch_token) ∷ [];
  task_id = job_id;
  queue = "foundation";
}

-- The argument of a name in a message's `kwargs`.
unfoldable pub argument : String → List (String × String) → Option String
argument name [] = none
argument name ((key, v) ∷ rest) = if key == name then some v else argument name rest

-- The call with its two arguments; without them it is a TypeError, and nothing happens.
unfoldable pub called_with :
    Platform → Surroundings → Option String → Option String → Database → Option Report × Database
called_with lib s none token db = (none, db)
called_with lib s (some id) none db = (none, db)
called_with lib s (some id) (some token) db =
    let (report, db') = execute_durable_job lib s id token db in (some report, db')

-- `foundation_echo` on a message, through `execute_foundation_job_sync` and `execute_foundation_job`.
unfoldable pub foundation_echo :
    Platform → Surroundings → TaskMessage → Database → Option Report × Database
unfolding argument called_with
foundation_echo lib s m db =
    called_with lib s (argument "job_id" m.kwargs) (argument "dispatch_token" m.kwargs) db
