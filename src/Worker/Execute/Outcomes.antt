-- ===== src/Worker/Execute/Outcomes.antt =====
-- What the end of a run means for the result that is returned.
use honor.Common.{
  ℕ, String, ◌≡◌, ◌≢◌, ◌⊎◌, ◌↔◌, inl, inr, refl, ap, subst, Bool, true, false, Option, none, some,
  Result, ok, err, if◌then◌else◌,
}
use honor.Common.Platform.{Platform}
use honor.Jobs.{JobRow, Database}
use honor.Jobs.Spec.{JobError}
use honor.Worker.Transitions.{claim, succeed}
use honor.Worker.Execute.{
  JobException, cancelled, finished, failed, done, stopped, Run, refused, heartbeat_first,
  work_first, run_with_job_heartbeat, Report, duplicate_or_ineligible, succeeded, Surroundings,
  failure_report, handle, after_success, after_run, after_claim, with_lock, execute_durable_job,
}

-- The runs that return a result.
abbrev pub Returns : Run → String → Type 0
Returns run result =
    (run ≡ work_first (ok result) (done none)) ⊎ (run ≡ work_first (ok result) (stopped none))

run-Returns :
    (run : Run) (result : String) → run_with_job_heartbeat run ≡ ok result → Returns run result
unfolding run_with_job_heartbeat
run-Returns (refused detail) result h = cc
run-Returns (heartbeat_first beat cancelled) result h = cc
run-Returns (heartbeat_first none finished) result h = cc
run-Returns (heartbeat_first (some e) finished) result h = cc
run-Returns (heartbeat_first beat (failed e)) result h = cc
run-Returns (work_first (ok r) (done none)) result h = inl (cc)
run-Returns (work_first (ok r) (stopped none)) result h = inr (cc)
run-Returns (work_first (ok r) (done (some e))) result h = cc
run-Returns (work_first (err e) (done beat)) result h = cc
run-Returns (work_first (err e) (stopped none)) result h = cc
run-Returns (work_first work (stopped (some e))) result h = cc

Returns-run :
    (run : Run) (result : String) → Returns run result → run_with_job_heartbeat run ≡ ok result
unfolding run_with_job_heartbeat
Returns-run run result (inl e) = rw e refl
Returns-run run result (inr e) = rw e refl

-- `run_with_job_heartbeat` returns a result exactly if the work returned it before the heartbeat
-- ended and the heartbeat, done before or stopped then, ended without an exception.
pub run_with_job_heartbeat_iff :
    (run : Run) (result : String) → (run_with_job_heartbeat run ≡ ok result) ↔ Returns run result
run_with_job_heartbeat_iff run result = (run-Returns run result, Returns-run run result)

module _ (lib : Platform) where
  failure-not_succeeded :
      (db : Database) (r : Result JobError (String × Database)) (attempt : ℕ) (result : String)
      → (failure_report db r).0 ≢ succeeded attempt result
  unfolding failure_report
  failure-not_succeeded db (ok (state, db')) attempt result h = cc
  failure-not_succeeded db (err x) attempt result h = cc

  -- The one way to a success: the claim, a run that returns, and the transition that it allows.
  abbrev pub Succeeds : Surroundings → String → String → Database → ℕ → String → Database → Type 0
  Succeeds s id token db attempt result db' =
      (row : JobRow) × (claimed : Database) × (claim lib s.owner id token s.client_now s.claim_now
          db
        ≡ ok (some row, claimed))
      × (row.attempt ≡ attempt)
      × Returns s.run result
      × (succeed lib id token s.end_now (s.while_working claimed) ≡ (true, db'))

  success-Succeeds :
      (s : Surroundings) (id token : String) (attempt n : ℕ) (r result : String)
      (o : Bool × Database)
      → (after_success lib s id token n r o).0 ≡ succeeded attempt result
      → (n ≡ attempt) × (r ≡ result) × (o ≡ (true, (after_success lib s id token n r o).1))
  unfolding after_success handle
  success-Succeeds s id token attempt n r result (true, db) h = (cc, cc, refl)
  success-Succeeds s id token attempt n r result (false, db) h =
      absurd (failure-not_succeeded _ _ attempt result h)

  run-Succeeds :
      (s : Surroundings) (id token : String) (attempt n : ℕ) (result : String)
      (o : Result JobException String) (db : Database)
      → (after_run lib s id token n o db).0 ≡ succeeded attempt result
      → (n ≡ attempt)
        × (o ≡ ok result)
        × (succeed lib id token s.end_now db ≡ (true, (after_run lib s id token n o db).1))
  unfolding after_run handle
  run-Succeeds s id token attempt n result (err e) db h =
      absurd (failure-not_succeeded _ _ attempt result h)
  run-Succeeds s id token attempt n result (ok r) db h =
      let (a, b, c) = success-Succeeds s id token attempt n r result _ h in (a, ap (λ x. ok x) b, c)

  claim-Succeeds :
      (s : Surroundings) (id token : String) (db : Database) (attempt : ℕ) (result : String)
      (r : Result JobError (Option JobRow × Database))
      → claim lib s.owner id token s.client_now s.claim_now db ≡ r
      → (after_claim lib s id token db r).0 ≡ succeeded attempt result
      → Succeeds s id token db attempt result (after_claim lib s id token db r).1
  unfolding after_claim
  claim-Succeeds s id token db attempt result (err x) e h = cc
  claim-Succeeds s id token db attempt result (ok (none, db')) e h = cc
  claim-Succeeds s id token db attempt result (ok (some row, db')) e h =
      let (a, b, c) =
        run-Succeeds s id token attempt row.attempt result (run_with_job_heartbeat s.run)
          (s.while_working db') h in
      (row, db', e, a, run-Returns s.run result b, c)

  if-succeeded :
      (db : Database) (b : Bool) (p : Report × Database) (attempt : ℕ) (result : String)
      (db' : Database)
      → (if b then p else (duplicate_or_ineligible, db)) ≡ (succeeded attempt result, db')
      → (b ≡ true) × (p ≡ (succeeded attempt result, db'))
  if-succeeded db true p attempt result db' h = (refl, h)
  if-succeeded db false p attempt result db' h =
      absurd (let e = ap (λ (q : Report × Database). q.0) h in cc)

  lock-Succeeds :
      (s : Surroundings) (id token : String) (db : Database) (attempt : ℕ) (result : String)
      (db' : Database) (u : Result JobError (Unit {0}))
      → with_lock lib s id token db u ≡ (succeeded attempt result, db')
      → (s.lock_acquired ≡ true) × Succeeds s id token db attempt result db'
  unfolding with_lock
  lock-Succeeds s id token db attempt result db' (err e) h =
      absurd (let e' = ap (λ (q : Report × Database). q.0) h in cc)
  lock-Succeeds s id token db attempt result db' (ok _) h =
      let (locked, e) = if-succeeded db s.lock_acquired _ attempt result db' h in
      (
        locked,
        subst (λ d. Succeeds s id token db attempt result d) (ap (λ (q : Report × Database). q.1) e)
            (claim-Succeeds s id token db attempt result _ refl
              (ap (λ (q : Report × Database). q.0) e)),
      )

  -- If `execute_durable_job` reports a success, then it held the job's lock, its claim returned a
  -- row with the reported attempt, the work returned the reported result with no exception of the
  -- heartbeat, and `succeed_on_connection` accepted the job and left the tables that the call
  -- leaves.
  pub execute_durable_job-Succeeds :
      (s : Surroundings) (id token : String) (db : Database) (attempt : ℕ) (result : String)
      (db' : Database)
      → execute_durable_job lib s id token db ≡ (succeeded attempt result, db')
      → (s.lock_acquired ≡ true) × Succeeds s id token db attempt result db'
  unfolding execute_durable_job
  execute_durable_job-Succeeds s id token db attempt result db' h =
      lock-Succeeds s id token db attempt result db' _ h
