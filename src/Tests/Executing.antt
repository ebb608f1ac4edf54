-- ===== src/Tests/Executing.antt =====
-- The execution of one job.
use honor.Common.{◌≡◌, ◌⊎◌, refl, true, none, ok}
use honor.Common.Table.{find, update}
use honor.Jobs.{Database, is_queued}
use honor.Jobs.Spec.{check_uuid}
use honor.Jobs.Store.{canonical}
use honor.Worker.Transitions.{
  is_running, claimed, claim, claim_row, is_claimable, running_row, if_running, succeed,
  succeed_row,
}
use honor.Worker.Execute.{
  Run, work_first, done, run_with_job_heartbeat, succeeded, Surroundings, execute_durable_job,
  with_lock, after_claim, after_run, after_success,
}
use honor.Worker.Execute.Outcomes.{Succeeds, execute_durable_job-Succeeds}
use honor.Worker.Execute.Truth.{Told, execute_durable_job-IsTold}
use honor.Tests.Samples.{plain, waiting, stored}

abbrev run : Run
run = work_first (ok "{}") (done none)

abbrev pub quiet : Surroundings
quiet = record {
  owner = "o-1";
  lock_acquired = true;
  client_now = 1;
  claim_now = 2;
  run = run;
  while_working = λ db. db;
  end_now = 4;
  after_refusal = λ db. db;
  refusal_now = 5;
}

abbrev ended : Database
ended = (execute_durable_job plain quiet "j-1" "t-1" (stored waiting)).1

executed : execute_durable_job plain quiet "j-1" "t-1" (stored waiting) ≡ (succeeded 1 "{}", ended)
unfolding execute_durable_job with_lock after_claim after_run after_success run_with_job_heartbeat
    claim check_uuid find canonical claim_row is_claimable is_queued update claimed succeed
    running_row if_running is_running succeed_row
executed = refl

execute_durable_job-Succeeds_example :
    (true ≡ true) × Succeeds plain quiet "j-1" "t-1" (stored waiting) 1 "{}" ended
execute_durable_job-Succeeds_example =
    execute_durable_job-Succeeds plain quiet "j-1" "t-1" (stored waiting) 1 "{}" ended executed

execute_durable_job-IsTold_example :
    Told plain "j-1" "t-1" (stored waiting) (succeeded 1 "{}") ended
    × ((true ≡ true) ⊎ (ended ≡ stored waiting))
unfolding execute_durable_job with_lock after_claim after_run after_success run_with_job_heartbeat
    claim check_uuid find canonical claim_row is_claimable is_queued update claimed succeed
    running_row if_running is_running succeed_row
execute_durable_job-IsTold_example =
    execute_durable_job-IsTold plain "j-1" quiet "t-1" (stored waiting)
