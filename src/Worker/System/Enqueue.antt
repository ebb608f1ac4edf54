-- ===== src/Worker/System/Enqueue.antt =====
-- `enqueue` keeps the tables sound: it adds one queued row with its event, or changes nothing.
use honor.Common.{
  ℕ, ◌≤◌, String, ◌≡◌, refl, ap, subst, not, List, Option, none, some, arith, Result, ok, err,
  raise_if, >>=-eq-ok, ok-injective, opt_eq,
}
use honor.Common.Table.{insert, All-insert}
use honor.Common.Platform.{Platform}
use honor.Jobs.{JobRow, Database}
use honor.Jobs.Spec.{
  JobSpec, JobError, validate, validate_iff, check_uuid, deterministic_dispatch_token,
  deterministic_job_id,
}
use honor.Jobs.Store.{
  DurableJob, Request, insert_job, insert_event, new_row, failing, replay_checks, raise_mismatches,
  replay, after_insert, committed, enqueue_event, enqueue_rows, enqueue_checked, enqueue,
}
use honor.Worker.Transitions.{is_running}
use honor.Worker.System.Rows.{IsSound}
use honor.Worker.System.Tables.{Keeps, Keeps-refl, JobsEvolve-insert, EventsKept-insert_event}

replay-db :
    (spec : JobSpec) (id token : String) (db : Database) (o : Option JobRow) (job : DurableJob)
    (db' : Database)
    → replay spec id token db o ≡ ok (job, db')
    → db ≡ db'
unfolding replay
replay-db spec id token db none job db' h = cc
replay-db spec id token db (some r) job db' h =
    let (_, _, h') = >>=-eq-ok (raise_mismatches (failing (replay_checks spec id token r))) _ h in
    ap (λ (p : DurableJob × Database). p.1) (ok-injective h')

insert_job-jobs :
    (r : JobRow) (jobs jobs' : List JobRow)
    → insert_job r jobs ≡ ok (some jobs')
    → insert r jobs ≡ jobs'
unfolding insert_job
insert_job-jobs r jobs jobs' h = ground arith

module _ (lib : Platform) where
  new_row-IsSound :
      (spec : JobSpec) (id token : String) (now : ℕ)
      → 1 ≤ spec.max_attempts
      → IsSound (new_row lib spec id token now)
  unfolding new_row is_running
  new_row-IsSound spec id token now h = ground arith

  added :
      (q : Request) (spec : JobSpec) (id token : String) (db : Database)
      → 1 ≤ spec.max_attempts
      → Keeps db (record {
        jobs = insert (new_row lib spec id token q.now) db.jobs;
        events = insert_event (enqueue_event lib q spec id) db.events;
      })
  added q spec id token db h = (
    record {
      jobs_evolve = JobsEvolve-insert (new_row lib spec id token q.now) db.jobs;
      events_kept = EventsKept-insert_event (enqueue_event lib q spec id) db.events;
    },
    λ s. record {
      rows =
          All-insert IsSound (new_row lib spec id token q.now) db.jobs s.rows
            (new_row-IsSound spec id token q.now h);
    },
  )

  inserted-Keeps :
      (q : Request) (spec : JobSpec) (id token : String) (db : Database)
      (jobs : Option (List JobRow)) (job : DurableJob) (db' : Database)
      → 1 ≤ spec.max_attempts
      → insert_job (new_row lib spec id token q.now) db.jobs ≡ ok jobs
      → after_insert lib q spec id token db jobs ≡ ok (job, db')
      → Keeps db db'
  unfolding after_insert
  inserted-Keeps q spec id token db none job db' some_ stored h =
      subst (Keeps db) (replay-db spec id token db _ job db' h) (Keeps-refl db)
  inserted-Keeps q spec id token db (some jobs) job db' some_ stored h =
      subst (λ (p : DurableJob × Database). Keeps db p.1) (ok-injective h)
        (rw (← (insert_job-jobs (new_row lib spec id token q.now) db.jobs jobs stored))
          (added q spec id token db some_))

  enqueue_checked-Keeps :
      (q : Request) (spec : JobSpec) (db : Database) (job : DurableJob) (db' : Database)
      → enqueue_checked lib q spec db ≡ ok (job, db')
      → Keeps db db'
  unfolding enqueue_checked enqueue_rows
  enqueue_checked-Keeps q spec db job db' h =
      let (_, valid, h₁) = >>=-eq-ok (validate lib spec) _ h in
      let (_, _, h₂) =
        >>=-eq-ok (raise_if (not (lib.is_valid_event q.event_payload.json)) _) _ h₁ in
      let (_, _, h₃) =
        >>=-eq-ok (raise_if (not (opt_eq q.event_payload.event_name (some q.event_name))) _) _ h₂ in
      let (token, _, h₄) =
        >>=-eq-ok
          (deterministic_dispatch_token lib
            (deterministic_job_id lib spec.job_type spec.idempotency_key))
          _ h₃ in
      let (_, _, h₅) = >>=-eq-ok (check_uuid lib q.owner_user_id) _ h₄ in
      let (jobs, stored, h₆) =
        >>=-eq-ok (insert_job (new_row lib spec _ token q.now) db.jobs) _ h₅ in
      inserted-Keeps q spec _ token db jobs job db' ((validate_iff lib spec).0 valid).attempts
        stored h₆

  committed-Keeps :
      (db : Database) (r : Result JobError (DurableJob × Database))
      → ((job : DurableJob) (db' : Database) → r ≡ ok (job, db') → Keeps db db')
      → Keeps db (committed r db).1
  unfolding committed
  committed-Keeps db (ok (job, db')) h = h job db' refl
  committed-Keeps db (err e) h = Keeps-refl db

  pub enqueue-Keeps :
      (q : Request) (spec : JobSpec) (db : Database) → Keeps db (enqueue lib q spec db).1
  unfolding enqueue
  enqueue-Keeps q spec db = committed-Keeps db _ (enqueue_checked-Keeps q spec db)
