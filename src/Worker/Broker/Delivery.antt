-- ===== src/Worker/Broker/Delivery.antt =====
-- From a job that is enqueued to its success: what is sent, and what a worker makes of it.
use honor.Common.{
  ℕ, ◌+◌, ◌≤◌, String, ◌≡◌, refl, ap, ◌∙◌, subst, true, [], ◌∷◌, Option, none, some, ok, eq_iff,
  eq_refl, if_then, arith,
}
use honor.Common.Table.{find, insert, update, find-insert, find-updated}
use honor.Common.Platform.{Platform}
use honor.Jobs.{JobRow, Database, job_id, is_queued, succeeded}
use honor.Jobs.Spec.{JobSpec, deterministic_job_id, IsUuid, check_uuid_iff}
use honor.Jobs.Store.{
  Request, DurableJob, durable, new_row, canonical, dispatched, enqueue_and_dispatch,
}
use honor.Jobs.Store.Replay.{job_id_of, token_of, IsAccepted}
use honor.Jobs.Store.Fresh.{IsFresh, row_of, after, enqueue-fresh}
use honor.Worker.Transitions.{
  claimed, completed, if_running, is_running, is_claimable, claim_row, claim, running_row,
  transition, succeed_row, succeed,
}
use honor.Worker.Execute.{
  run_with_job_heartbeat, Report, Surroundings, after_success, after_run, after_claim, with_lock,
  execute_durable_job,
}
use honor.Worker.Broker.{publish_foundation_job, foundation_echo}

claimable_token :
    (token : String) (client_now : ℕ) (r : JobRow)
    → is_claimable token client_now r ≡ true
    → r.dispatch_token ≡ token
unfolding is_claimable
claimable_token token client_now r h = ground (arith, eq_iff r.dispatch_token token)

module _ (lib : Platform) (s : Surroundings) where
  -- A worker that has the job's lock and the worker's owner, whose work returns in time.
  pub record IsWorking (result : String) : Type 0 where
    pub locked : s.lock_acquired ≡ true
    pub owned : IsUuid lib s.owner
    pub returned : run_with_job_heartbeat s.run ≡ ok result

module _ (lib : Platform) (s : Surroundings) (id token : String) where
  -- What other sessions do while the work runs leaves the running row a running row of its token, as a
  -- renewal of its lease does.
  abbrev pub KeepsRunning : Type 0
  KeepsRunning =
      (db : Database) (r : JobRow)
      → running_row lib id token db ≡ some r
      → (r' : JobRow) × (running_row lib id token (s.while_working db) ≡ some r')

  -- The claim of a claimable row.
  claim-some :
      (client_now now : ℕ) (db : Database) (r : JobRow)
      → IsUuid lib id
      → IsUuid lib token
      → IsUuid lib s.owner
      → find job_id (canonical lib id) db.jobs ≡ some r
      → is_claimable token client_now r ≡ true
      → claim lib s.owner id token client_now now db
        ≡ ok (some (claimed now r), record db { jobs = update job_id r.id (claimed now) db.jobs })
  unfolding claim claim_row
  claim-some client_now now db r u v w found claimable =
      rw
        (
          (check_uuid_iff lib id).1 u,
          (check_uuid_iff lib token).1 v,
          (check_uuid_iff lib s.owner).1 w,
          found,
          claimable,
        )
        refl

  if_running-some :
      (token' : String) (o : Option JobRow) (r : JobRow) → if_running token' o ≡ some r → o ≡ some r
  unfolding if_running
  if_running-some token' none r h = cc
  if_running-some token' (some q) r h = ground arith

  claimed-running :
      (now : ℕ) (db : Database) (r : JobRow)
      → canonical lib token ≡ token
      → find job_id (canonical lib id) db.jobs ≡ some r
      → r.dispatch_token ≡ token
      → running_row lib id token (record db { jobs = update job_id r.id (claimed now) db.jobs })
        ≡ some (claimed now r)
  unfolding running_row if_running claimed is_running
  claimed-running now db r c found same =
      let there =
        find-updated job_id (canonical lib id) (claimed now) (unfold claimed in λ x. refl) db.jobs r
          found in
      rw (there, c, same, eq_refl token) refl

  -- The success of a running row, and what is found of it then.
  succeed-running :
      (now : ℕ) (db : Database) (r : JobRow)
      → running_row lib id token db ≡ some r
      → (db' : Database) × (succeed lib id token now db ≡ (true, db'))
        × (find job_id (canonical lib id) db'.jobs ≡ some (completed now r))
  unfolding succeed succeed_row transition completed
  succeed-running now db r found =
      let there =
        if_running-some (canonical lib token) (find job_id (canonical lib id) db.jobs) r
          (unfold running_row in found) in
      (
        transition lib now r (completed now) "JOB_SUCCEEDED" "succeeded" none none db,
        rw found refl,
        find-updated job_id (canonical lib id) (completed now) (λ x. refl) db.jobs r there,
      )

  -- A claimable job is succeeded after a call of `execute_durable_job` whose worker has the lock
  -- and works, if other sessions leave its lease running, and the call reports the next attempt.
  pub execute_durable_job-claimable :
      (result : String) (db : Database) (r : JobRow)
      → IsWorking lib s result
      → KeepsRunning
      → IsUuid lib id
      → IsUuid lib token
      → canonical lib token ≡ token
      → find job_id (canonical lib id) db.jobs ≡ some r
      → is_claimable token s.client_now r ≡ true
      → (db' : Database) × (row : JobRow) × (execute_durable_job lib s id token db
          ≡ (Report.succeeded (r.attempt + 1) result, db'))
        × (find job_id (canonical lib id) db'.jobs ≡ some row)
        × (row.state ≡ succeeded)
  unfolding execute_durable_job with_lock after_claim after_run after_success claimed
  execute_durable_job-claimable result db r w keeps u v c found claimable =
      let claimed_db : Database = record db {
        jobs = update job_id r.id (claimed s.claim_now) db.jobs;
      } in
      let same : r.dispatch_token ≡ token = claimable_token token s.client_now r claimable in
      let (r', kept) =
        keeps claimed_db (claimed s.claim_now r) (claimed-running s.claim_now db r c found same) in
      let (db', done, there) = succeed-running s.end_now (s.while_working claimed_db) r' kept in
      (
        db',
        completed s.end_now r',
        rw
            (
              (check_uuid_iff lib id).1 u,
              if_then s.lock_acquired _ _ w.locked,
              claim-some s.client_now s.claim_now db r u v w.owned found claimable,
              w.returned,
              done,
            )
            refl,
        there,
        unfold completed in refl,
      )

module _ (lib : Platform) where
  uuid5-canonical :
      (namespace name : String)
      → canonical lib (lib.uuid5 namespace name) ≡ lib.uuid5 namespace name
  unfolding canonical
  uuid5-canonical namespace name = rw (lib.parse-uuid5 namespace name, canonical) refl

  uuid5-IsUuid : (namespace name : String) → IsUuid lib (lib.uuid5 namespace name)
  uuid5-IsUuid namespace name = rw (lib.parse-uuid5 namespace name) refl

  new-claimable :
      (q : Request) (spec : JobSpec) (client_now : ℕ)
      → q.now ≤ client_now
      → is_claimable (token_of lib spec) client_now (row_of lib q spec) ≡ true
  unfolding is_claimable is_queued new_row
  new-claimable q spec client_now h = rw (eq_refl (token_of lib spec)) (ground arith)

  -- An accepted request for a fresh job publishes one message, and a worker that receives it, has
  -- the job's lock and does the work, not before the job is available, ends with the job
  -- succeeded at attempt 1, if what other sessions do meanwhile leaves the running job running.
  pub foundation_echo-enqueued :
      (q : Request) (spec : JobSpec) (db : Database) (s : Surroundings) (result : String)
      → IsAccepted lib q spec
      → IsFresh lib spec db.jobs
      → q.now ≤ s.client_now
      → IsWorking lib s result
      → KeepsRunning lib s (job_id_of lib spec) (token_of lib spec)
      → (job : DurableJob) × (db' : Database) × (db'' : Database) × (row : JobRow)
        × (enqueue_and_dispatch lib q spec db ≡ (ok job, db', job ∷ []))
        × (foundation_echo lib s (publish_foundation_job job) db'
            ≡ (some (Report.succeeded 1 result), db''))
        × (find job_id job.id db''.jobs ≡ some row)
        × (row.state ≡ succeeded)
  unfolding enqueue_and_dispatch foundation_echo publish_foundation_job deterministic_job_id durable
      new_row is_queued
  foundation_echo-enqueued q spec db s result a f due w keeps =
      let id : String = job_id_of lib spec in
      let token : String = token_of lib spec in
      let r : JobRow = row_of lib q spec in
      let stored : find job_id id (insert r db.jobs) ≡ some r =
        find-insert job_id id r db.jobs ∙ rw (f.id_free, eq_refl id) refl in
      let same : canonical lib id ≡ id = uuid5-canonical _ _ in
      let (db'', row, ran, there, won) =
        execute_durable_job-claimable lib s id token result (after lib q spec db) r w keeps
          (uuid5-IsUuid _ _) (uuid5-IsUuid _ _) (uuid5-canonical _ _) (rw same stored)
          (new-claimable q spec s.client_now due) in
      (
        durable r,
        after lib q spec db,
        db'',
        row,
        ap dispatched (enqueue-fresh lib q spec db a f),
        rw ran refl,
        subst (λ k. find job_id k db''.jobs ≡ some row) same there,
        won,
      )
