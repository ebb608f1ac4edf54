-- ===== src/Lib.antt =====
-- Verification of the HONOR services: the durable jobs, the cost control and the guards of the API.
--
-- The program. The API (services/api/honor_api) stores jobs in PostgreSQL and hands their ids to a
-- broker; workers (services/worker/honor_worker/durable_jobs.py) claim a job, run it under a
-- heartbeat and record how it ended; a reconciler (services/worker/honor_worker/reconciler.py)
-- recovers expired leases, returns due retries to the queue and publishes queued work again, and
-- publishes a key by which a monitor (monitoring.py) sees that it lives. PostgreSQL is the one
-- authority: every operation is a transaction on the tables `jobs` and `events`. A request to the
-- API passes a middleware that gives it an id (request_context.py), the owner's authentication
-- (auth.py), whose profile query runs in a transaction of the owner (db.py), and the handlers of
-- errors (errors.py); log lines go through `redact` (logging.py). Apart from them stand the cost
-- governor and the cost ledger (costs.py), the idempotency records (idempotency.py), the keys of
-- stored objects (storage.py), the Polli tool gateway (polli.py), the migration runner
-- (scripts/migrate.py) and the scripts that check the repository.
--
-- The files.
--   Common     helpers: tests, lists, keyed tables (SELECT, INSERT, UPDATE by key), results of
--              Python calls, integers, texts, half-even division, dicts in the order of insertion
--              (Dict), `sorted` (Sorting), the parts of regular expressions on code points (Regex),
--              and `Platform`, the record of what the code calls and does not implement, with its
--              documented laws.
--   Costs      Decimal is `D`; Governor is `state`, `admit`, `Exposure.total`,
--              `unfunded_reservation` and the governor of
--              docs/architecture/c00-approved/HONOR_C00_VALIDATION.py (Reference); Ledger is
--              `CostLedgerRepository` over `cost_ledger` (Repository) and `provider_usage` (Usage).
--   Jobs       the rows; Graph is `ALLOWED` and `assert_job_transition`; Spec is `JobSpec.validate`
--              and the deterministic ids; Store is `DurableJobStore`, with its proofs in Replay
--              (the key is there), Fresh (the key is new), Insertion (what is stored of a new job) and
--              Identity (which jobs the ids tell apart).
--   Worker     Retry is `retry_delay`; Details is `_redact_detail`; Transitions are
--              `claim_job_on_connection` (claim), `heartbeat_on_connection`,
--              `succeed_on_connection` and `fail_on_connection`; Execute is
--              `run_with_job_heartbeat` and `execute_durable_job` (Answers and Truth are what it says
--              of the row), and in Heartbeat `_heartbeat_loop`; Reconciler is `_recover_expired`
--              (recover_expired) and `reconcile_once`, with the recovery of a lease in Lease, the
--              return of due retries in Selection, Requeue and Promotion, and the messages in
--              Publishing. System puts all transactions together: Rows, Tables, Updates, Transactions
--              and Enqueue show what each keeps, History is any interleaving of them, Lifetime and
--              Runs follow one job. Broker is the messages of the two dispatcher.py and
--              `foundation_echo` of tasks.py, and in Delivery the way of a job from the API to its end;
--              Monitoring is `publish_reconciler_liveness`, the rounds of `_main`, `health_is_live`,
--              `run_once`, `ping` and the URLs of celery_app.py.
--   Api        Auth is `validate_owner_token` and `require_owner`; Database is `owner_transaction`,
--              `owner_profile_is_active` and `database_ready`; Idempotency is
--              `IdempotencyRepository`; RequestContext is `request_context`; Errors is
--              `error_response` and the handlers; Logging is `redact` and `log_event` on the values
--              of Json; Config is `get_settings`; App is `healthz`, `readyz` and its probes;
--              Storage is `_validated_key`, `safe_key` and `LocalStorage._path`, and in Adapters
--              `LocalStorage` and `R2Storage`; Outbound is `validate_https_target`; Polli is
--              `PolliRegistry` and `PolliGateway`, and in Persistence `PolliPersistence`.
--   Scripts    Migrate is `discover_migrations` and `apply_migrations`; PythonLock is
--              compare_python_lock.py; Manifest is check_c01_manifest.py; Contracts is
--              generate_contracts.py and check_contract_drift.py; SecretScan is secret_scan.py;
--              Lockfiles is check_lockfiles.py.
--   Approved   decision functions of docs/architecture/c00-approved/HONOR_C00_VALIDATION.py.
--   Tests      the theorems at concrete inputs.
--
-- How the state is modelled. A table is the list of its rows in the order of insertion; a
-- transaction is a function on the tables that returns its value or its exception, and one that
-- raises leaves them as they were. Two transactions on one row are serialized by its lock, so any
-- execution of the sessions is a sequence of transactions, a `History`; time is an argument of each
-- and need not grow. Times are microseconds, in Monitoring seconds; `statement_timestamp()` is one
-- value per transaction. A uuid column holds the canonical text of its argument. Advisory locks are
-- arguments that say whether the lock was acquired. A commit of an owner's transaction that raises
-- may have taken effect or not, which is an argument too. A decimal is finite; sums of decimals are
-- exact, which they are below 28 digits. The integers of a `JobSpec` are naturals. A text under a
-- regular expression is the list of its code points. The recursion is structural throughout; the
-- one fuel, in the decimal numeral of a number, is the number itself, which has fewer digits than
-- that.
--
-- Parameters. UUID parsing, `uuid5`, the hash of the jitter and the JSON schema of event payloads
-- are fields of `Platform`; PyJWT, the jsonschema validator, `urlparse`, `urlsplit`, `ipaddress`,
-- the matches of `finditer`, the signer of boto3, the rate limiter, the handlers, the broker, the
-- answers of Redis, Celery and the driver of PostgreSQL, the text of generated files and
-- PostgreSQL's execution of a migration are arguments of the definitions that use them. What the
-- web framework does with the registered handlers is a hypothesis, `answered` in
-- Api/RequestContext/Identity, that says what its documentation says.
--
-- Not modelled: row-level security but the policy honor_owner_direct on owner_profiles, foreign
-- keys and the CHECK constraints of `jobs` and `events`, the connection's codecs, the transactions
-- of an owner (cancelling a job, resolving an owner's action), which the repository's SQL allows
-- and no Python code performs, the creation of the connection pool, the configuration of FastAPI
-- and Celery beyond what is named above, the errors of the network and the disk, the scripts
-- provision_runtime_role.py and static_acceptance.py, which send SQL and start the other checks,
-- the other functions of HONOR_C00_VALIDATION.py and its assertions on the approved documents, the
-- SQL of the migrations, and the web application.
pub mod Common
pub mod Costs
pub mod Jobs
pub mod Worker
pub mod Scripts
pub mod Approved
pub mod Api
pub mod Tests
