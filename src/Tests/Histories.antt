-- ===== src/Tests/Histories.antt =====
-- One job's history: it is claimed, renewed and finished.
use honor.Common.{◌+◌, ◌≤◌, ◌≡◌, refl, [], ◌∷◌, none, some, ok, arith}
use honor.Common.Table.{find, update}
use honor.Jobs.{JobRow, EventRow, Payload, Database, job_id, event_key, is_queued}
use honor.Jobs.Store.{canonical}
use honor.Jobs.Spec.{check_uuid}
use honor.Worker.Transitions
use honor.Worker.Transitions.{claimed, completed, is_claimable, claim_row, is_running}
use honor.Worker.System.Rows.{IsSound}
use honor.Worker.System.Tables.{IsSoundDatabase}
use honor.Worker.System.History.{
  History, begin, later, claims, beats, succeeds, RowPath, History-IsSoundDatabase, History-RowPath,
}
use honor.Worker.System.Lifetime.{History-is_terminal}
use honor.Worker.System.Runs.{runs, runs-max_attempts}
use honor.Tests.Samples.{plain, waiting, stored}

abbrev at_work : Database
at_work = stored (claimed 2 waiting)

claim_accepted :
    Transitions.claim plain "o-1" "j-1" "t-1" 1 2 (stored waiting)
    ≡ ok (some (claimed 2 waiting), at_work)
unfolding Transitions.claim check_uuid find canonical claim_row is_claimable is_queued update
claim_accepted = refl

abbrev renewed : Database
renewed = (Transitions.heartbeat plain "j-1" "t-1" 3 at_work).1

abbrev finished : Database
finished = (Transitions.succeed plain "j-1" "t-1" 4 renewed).1

abbrev one_run : History plain (stored waiting) finished
one_run =
    later
      (later
        (later begin
          (claims "o-1" "j-1" "t-1" 1 2 (some (claimed 2 waiting)) at_work claim_accepted))
        (beats "j-1" "t-1" 3))
      (succeeds "j-1" "t-1" 4)

waiting-IsSound : IsSound waiting
unfolding is_running
waiting-IsSound = ground arith

stored-IsSoundDatabase : IsSoundDatabase (stored waiting)
stored-IsSoundDatabase = record { rows = (waiting-IsSound, tt) }

History-IsSoundDatabase_example : IsSoundDatabase finished
History-IsSoundDatabase_example = History-IsSoundDatabase plain one_run stored-IsSoundDatabase

waiting_found : find job_id "j-1" (stored waiting).jobs ≡ some waiting
unfolding find
waiting_found = refl

History-RowPath_example :
    (s : JobRow) × (find job_id "j-1" finished.jobs ≡ some s) × RowPath waiting s
History-RowPath_example = History-RowPath plain one_run "j-1" waiting waiting_found

runs-max_attempts_example : runs plain "j-1" one_run + 0 ≤ 3
runs-max_attempts_example =
    runs-max_attempts plain one_run "j-1" waiting stored-IsSoundDatabase waiting_found

-- A job that has ended, and a worker that still holds its token.
abbrev over : JobRow
over = completed 4 (claimed 2 waiting)

abbrev late : History plain (stored over) (Transitions.succeed plain "j-1" "t-1" 9 (stored over)).1
late = later begin (succeeds "j-1" "t-1" 9)

over_found : find job_id "j-1" (stored over).jobs ≡ some over
unfolding find completed claimed
over_found = refl

History-is_terminal_example :
    (s : JobRow) × (find job_id "j-1" (Transitions.succeed plain "j-1" "t-1" 9 (stored over)).1.jobs
      ≡ some s)
    × (s.state ≡ over.state)
    × (s.version ≡ over.version)
    × (s.attempt ≡ over.attempt)
History-is_terminal_example =
    History-is_terminal plain late "j-1" over over_found (unfold completed in refl)

abbrev note : EventRow
note = record {
  id = "v-1";
  event_name = "JOB_ENQUEUED";
  occurred_at = 0;
  actor_type = "SYSTEM";
  source_service = "api";
  correlation_id = "c-1";
  run_id = none;
  job_id = "j-1";
  entity_type = "job";
  entity_id = "j-1";
  idempotency_key = "job-enqueue:k1:JOB_ENQUEUED";
  payload = Payload.text "{}";
}

abbrev noted : Database
noted = record { jobs = over ∷ []; events = note ∷ [] }

abbrev noted_history : History plain noted (Transitions.heartbeat plain "j-1" "t-1" 9 noted).1
noted_history = later begin (beats "j-1" "t-1" 9)

note_found : find event_key note.idempotency_key noted.events ≡ some note
unfolding find
note_found = refl
