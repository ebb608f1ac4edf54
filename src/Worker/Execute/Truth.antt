-- ===== src/Worker/Execute/Truth.antt =====
-- That what `execute_durable_job` reports of a job is what its row says.
use honor.Common.{
  ℕ, String, ◌≡◌, ◌⊎◌, inl, inr, refl, sym, subst, Bool, true, false, Option, none, some, Result,
  ok, err, >>=-eq-ok, ok-injective, if◌then◌else◌,
}
use honor.Common.Table.{find}
use honor.Common.Platform.{Platform}
use honor.Jobs.{JobRow, Database, job_id}
use honor.Jobs.Spec.{JobError, check_uuid}
use honor.Jobs.Store.{canonical}
use honor.Worker.Transitions.{claim, running_row, succeed, Failure, fail_running, fail_row, fail}
use honor.Worker.Execute.{
  JobException, run_with_job_heartbeat, failure_of, Report, duplicate_or_ineligible, succeeded,
  not_succeeded, raises, Surroundings, failure_report, handle, after_success, after_run,
  after_claim, with_lock, execute_durable_job,
}
use honor.Worker.Execute.Answers.{
  IsIn, IsRow, running_row-IsRow, fail_running-IsIn, succeed_row-IsIn, claim_row-none, IsRefusal,
  check_uuid-IsRefusal, fail_running-IsRefusal, claim-IsRefusal,
}

module _ (lib : Platform) (id : String) where
  -- That a report says what the tables hold.
  pub data Told (token : String) (db : Database) : Report → Database → Type 0 where
    -- Nothing was done.
    untouched : Told token db duplicate_or_ineligible db
    -- The row has the state that is returned.
    is_succeeded :
        {attempt : ℕ} {result : String} {end : Database}
        → IsIn lib id "succeeded" end
        → Told token db (succeeded attempt result) end
    is_in :
        {state : String} {end : Database}
        → IsIn lib id state end
        → Told token db (not_succeeded state) end
    -- The job no longer runs under this token.
    ineligible :
        {end : Database}
        → running_row lib id token end ≡ none
        → Told token db (not_succeeded "ineligible") end
    -- A text that is no UUID.
    raised : {e : JobError} {end : Database} → IsRefusal lib id e → Told token db (raises e) end

  abbrev IsTold : String → Database → Report × Database → Type 0
  IsTold token db answer = Told token db answer.0 answer.1

  ended-IsTold :
      (f : Failure) (token key : String) (now : ℕ) (start db : Database) (r : JobRow)
      (action : Option String) (o : Result JobError (String × Database))
      → find job_id (canonical lib id) db.jobs ≡ some r
      → fail_running lib f key now r db action ≡ o
      → IsTold token start (failure_report db o)
  unfolding failure_report
  ended-IsTold f token key now start db r action (err e) found h =
      raised (fail_running-IsRefusal lib id f key now r db action e h)
  ended-IsTold f token key now start db r action (ok (state, db')) found h =
      is_in (fail_running-IsIn lib id f key now r db action state db' found h)

  failed-IsTold :
      (f : Failure) (token : String) (now : ℕ) (start db : Database) (o : Option JobRow)
      → running_row lib id token db ≡ o
      → IsRow lib id db o
      → IsTold token start (failure_report db (fail_row lib f id now db o))
  unfolding failure_report fail_row
  failed-IsTold f token now start db none is at = ineligible is
  failed-IsTold f token now start db (some r) is at =
      ended-IsTold f token id now start db r f.owner_action_id _ (at r refl) refl

  handle-IsTold :
      (token : String) (now : ℕ) (e : JobException) (start db : Database)
      → IsTold token start (handle lib id token now e db)
  unfolding handle fail
  handle-IsTold token now e start db =
      failed-IsTold (failure_of e) token now start db _ refl (running_row-IsRow lib id token db)

  success-IsTold :
      (s : Surroundings) (token : String) (attempt : ℕ) (result : String) (start db : Database)
      (o : Bool × Database)
      → succeed lib id token s.end_now db ≡ o
      → IsTold token start (after_success lib s id token attempt result o)
  unfolding after_success succeed
  success-IsTold s token attempt result start db (true, db') h =
      is_succeeded
        (succeed_row-IsIn lib id s.end_now db db' _ (running_row-IsRow lib id token db) h)
  success-IsTold s token attempt result start db (false, db') h =
      handle-IsTold token s.refusal_now _ start (s.after_refusal db')

  run-IsTold :
      (s : Surroundings) (token : String) (attempt : ℕ) (o : Result JobException String)
      (start db : Database)
      → IsTold token start (after_run lib s id token attempt o db)
  unfolding after_run
  run-IsTold s token attempt (ok result) start db =
      success-IsTold s token attempt result start db _ refl
  run-IsTold s token attempt (err e) start db = handle-IsTold token s.end_now e start db

  claim-none :
      (owner token : String) (client_now now : ℕ) (db db' : Database)
      → claim lib owner id token client_now now db ≡ ok (none, db')
      → db' ≡ db
  unfolding claim
  claim-none owner token client_now now db db' h =
      let (_, _, h1) = >>=-eq-ok (check_uuid lib id) _ h in
      let (_, _, h2) = >>=-eq-ok (check_uuid lib token) _ h1 in
      let (_, _, h3) = >>=-eq-ok (check_uuid lib owner) _ h2 in
      claim_row-none lib id token client_now now db db' _ (ok-injective h3)

  claim-IsTold :
      (s : Surroundings) (token : String) (db : Database)
      (o : Result JobError (Option JobRow × Database))
      → claim lib s.owner id token s.client_now s.claim_now db ≡ o
      → IsTold token db (after_claim lib s id token db o)
  unfolding after_claim
  claim-IsTold s token db (err e) h =
      raised (claim-IsRefusal lib id s.owner token s.client_now s.claim_now db e h)
  claim-IsTold s token db (ok (none, db')) h =
      subst (Told token db duplicate_or_ineligible)
        (sym (claim-none s.owner token s.client_now s.claim_now db db' h)) untouched
  claim-IsTold s token db (ok (some row, db')) h =
      run-IsTold s token row.attempt (run_with_job_heartbeat s.run) db (s.while_working db')

  if-IsTold :
      (token : String) (db : Database) (b : Bool) (p : Report × Database)
      → IsTold token db p
      → IsTold token db (if b then p else (duplicate_or_ineligible, db))
        × ((b ≡ true) ⊎ ((if b then p else (duplicate_or_ineligible, db)).1 ≡ db))
  if-IsTold token db true p told = (told, inl refl)
  if-IsTold token db false p told = (untouched, inr refl)

  lock-IsTold :
      (s : Surroundings) (token : String) (db : Database) (u : Result JobError (Unit {0}))
      → check_uuid lib id ≡ u
      → IsTold token db (with_lock lib s id token db u)
        × ((s.lock_acquired ≡ true) ⊎ ((with_lock lib s id token db u).1 ≡ db))
  unfolding with_lock
  lock-IsTold s token db (err e) h = (raised (check_uuid-IsRefusal lib id id e h), inr refl)
  lock-IsTold s token db (ok _) h =
      if-IsTold token db s.lock_acquired _ (claim-IsTold s token db _ refl)

  -- Whatever other sessions do meanwhile, what `execute_durable_job` reports holds of the tables
  -- that it leaves: after a success the job's row is succeeded; a state that it returns for a
  -- failure is the state of the row, or is ineligible and the job does not run under the token; a
  -- duplicate or ineligible job leaves the tables as they were; an exception that it raises is
  -- about a text that is no UUID. Without the job's lock the call changes nothing.
  pub execute_durable_job-IsTold :
      (s : Surroundings) (token : String) (db : Database)
      → IsTold token db (execute_durable_job lib s id token db)
        × ((s.lock_acquired ≡ true) ⊎ ((execute_durable_job lib s id token db).1 ≡ db))
  unfolding execute_durable_job
  execute_durable_job-IsTold s token db = lock-IsTold s token db _ refl
