-- ===== src/Tests/Delivering.antt =====
-- A message's way to a worker, and the health signals, at concrete inputs.
use honor.Common.{◌≡◌, ◌↔◌, refl, true, List, [], ◌∷◌, none, some, any, ok, arith, false}
use honor.Common.Table.{find}
use honor.Jobs.{JobRow, Database, job_id, succeeded}
use honor.Jobs.Store.{DurableJob, enqueue_and_dispatch}
use honor.Jobs.Store.Replay.{job_id_of, token_of}
use honor.Worker.Execute.{Report, Surroundings, run_with_job_heartbeat}
use honor.Worker.Broker.{publish_foundation_job, foundation_echo}
use honor.Worker.Broker.Delivery.{IsWorking, KeepsRunning, foundation_echo-enqueued}
use honor.Worker.Monitoring.{Round, read_key, health_is_live, main_rounds, is_pong}
use honor.Worker.Monitoring.Rounds.{is_recent, publications, health_is_live_iff}
use honor.Tests.Samples.{plain, spec, request, empty}
use honor.Tests.Store.{spec-IsFresh, request-IsAccepted}
use honor.Tests.Executing.{quiet}

abbrev later : Surroundings
later = record quiet { client_now = 6; claim_now = 7; end_now = 8 }

later-IsWorking : IsWorking plain later "{}"
unfolding run_with_job_heartbeat
later-IsWorking = record { locked = refl; owned = refl; returned = refl }

kept : KeepsRunning plain later (job_id_of plain spec) (token_of plain spec)
kept = λ db r h. (r, h)

foundation_echo-enqueued_example :
    (job : DurableJob) × (db' : Database) × (db'' : Database) × (row : JobRow)
    × (enqueue_and_dispatch plain request spec empty ≡ (ok job, db', job ∷ []))
    × (foundation_echo plain later (publish_foundation_job job) db'
        ≡ (some (Report.succeeded 1 "{}"), db''))
    × (find job_id job.id db''.jobs ≡ some row)
    × (row.state ≡ succeeded)
foundation_echo-enqueued_example =
    foundation_echo-enqueued plain request spec empty later "{}" request-IsAccepted spec-IsFresh
      (omega arith) later-IsWorking kept

-- A round that publishes after 2 seconds, and one in which `reconcile_once` raises.
abbrev two_rounds : List Round
two_rounds =
    record { duration = 2; reconciles = true; sets = true }
    ∷ record { duration = 1; reconciles = false; sets = true }
    ∷ []

health_is_live_iff_example :
    (health_is_live
        (ok (some "pong" ∷ []))
        (ok (read_key 40 (main_rounds 45 5 (record { clock = 0; key = none }) two_rounds).key))
        true
      ≡ true)
    ↔ ((any is_pong (some "pong" ∷ []) ≡ true)
        × (is_recent 45 5 40 (publications 45 5 0 two_rounds) ≡ true))
health_is_live_iff_example = health_is_live_iff 45 5 two_rounds 0 40 (some "pong" ∷ [])
