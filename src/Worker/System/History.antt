-- ===== src/Worker/System/History.antt =====
-- Any interleaving of the API, the workers and the reconciler on one database, one transaction at a
-- time, and what holds along it.
use honor.Common.{ℕ, String, ◌≡◌, Option, some, ok}
use honor.Common.Table.{find, update}
use honor.Common.Platform.{Platform}
use honor.Jobs.{JobRow, Database, job_id, retrying}
use honor.Jobs.Spec.{JobSpec}
use honor.Jobs.Store.{Request, enqueue}
use honor.Worker.Transitions
use honor.Worker.Transitions.{Failure}
use honor.Worker.Reconciler.{Stats, recover_row, requeued, touch, Message}
use honor.Worker.System.Rows.{RowStep}
use honor.Worker.System.Tables.{Keeps, IsSoundDatabase, EventsKept}
use honor.Worker.System.Transactions.{
  claim-Keeps, heartbeat-Keeps, succeed-Keeps, fail-Keeps, recover-Keeps, touch-Keeps,
  requeue-Keeps,
}
use honor.Worker.System.Enqueue.{enqueue-Keeps}

module _ (lib : Platform) where
  -- One transaction of some session, at whatever time.
  pub data Step (db : Database) : Database → Type 0 where
    enqueues : (q : Request) (spec : JobSpec) → Step db (enqueue lib q spec db).1
    claims :
        (owner id token : String) (client_now now : ℕ) (o : Option JobRow) (db' : Database)
        → Transitions.claim lib owner id token client_now now db ≡ ok (o, db')
        → Step db db'
    beats : (id token : String) (now : ℕ) → Step db (Transitions.heartbeat lib id token now db).1
    succeeds : (id token : String) (now : ℕ) → Step db (Transitions.succeed lib id token now db).1
    fails :
        (id token : String) (f : Failure) (now : ℕ) (s : String) (db' : Database)
        → Transitions.fail lib id token f now db ≡ ok (s, db')
        → Step db db'
    recovers :
        (id : String) (now : ℕ) (stats : Stats)
        → Step db (recover_row lib now stats db (find job_id id db.jobs)).1
    requeues :
        (now : ℕ) (r : JobRow)
        → find job_id r.id db.jobs ≡ some r
        → r.state ≡ retrying
        → Step db (record db { jobs = update job_id r.id (requeued now) db.jobs })
    touches : (now : ℕ) (m : Message) → Step db (touch now m db)

  pub data History (db : Database) : Database → Type 0 where
    begin : History db db
    later : {mid end : Database} → History db mid → Step mid end → History db end

  -- One history after another.
  pub joined : {a b c : Database} → History a b → History b c → History a c
  joined past begin = past
  joined past (later more st) = later (joined past more) st

  pub Step-Keeps : {db db' : Database} → Step db db' → Keeps db db'
  Step-Keeps {db} (enqueues q spec) = enqueue-Keeps lib q spec db
  Step-Keeps {db} (claims owner id token client_now now o db' h) =
      claim-Keeps lib db owner id token client_now now o db' h
  Step-Keeps {db} (beats id token now) = heartbeat-Keeps lib db id token now
  Step-Keeps {db} (succeeds id token now) = succeed-Keeps lib db id token now
  Step-Keeps {db} (fails id token f now s db' h) = fail-Keeps lib db id token f now s db' h
  Step-Keeps {db} (recovers id now stats) = recover-Keeps lib db id now stats
  Step-Keeps {db} (requeues now r found e) = requeue-Keeps now db r found e
  Step-Keeps {db} (touches now m) = touch-Keeps now m db

  -- If every row of `jobs` is sound (a lease exactly while it runs, attempts within the limit and
  -- one to spare while it waits, an end recorded when it has ended, no failure's text of more
  -- than 500 characters or with a URL of a PostgreSQL database), then after any sequence of
  -- transactions of the API, the workers and the reconciler every row is sound.
  pub History-IsSoundDatabase :
      {db db' : Database} → History db db' → IsSoundDatabase db → IsSoundDatabase db'
  History-IsSoundDatabase begin h = h
  History-IsSoundDatabase (later past st) h = (Step-Keeps st).1 (History-IsSoundDatabase past h)

  -- An event that is stored is found unchanged under its idempotency key after any sequence of
  -- transactions.
  pub History-EventsKept : {db db' : Database} → History db db' → EventsKept db.events db'.events
  History-EventsKept begin k e h = h
  History-EventsKept (later past st) k e h =
      (Step-Keeps st).0.events_kept k e (History-EventsKept past k e h)

-- Row steps one after another.
pub data RowPath (r : JobRow) : JobRow → Type 0 where
  here : RowPath r r
  further : {s t : JobRow} → RowPath r s → RowStep s t → RowPath r t

module _ (lib : Platform) where
  -- A stored job is there after any sequence of transactions, and has got there by steps that
  -- each keep its identity and go along one edge of the transition graph, with the version
  -- counted up and the attempt counted up exactly when it begins to run, or keep state, version
  -- and attempt.
  pub History-RowPath :
      {db db' : Database}
      → History lib db db'
      → (j : String) (r : JobRow) → find job_id j db.jobs ≡ some r
      → (s : JobRow) × (find job_id j db'.jobs ≡ some s) × RowPath r s
  History-RowPath begin j r e = (r, e, here)
  History-RowPath (later past st) j r e =
      let (s, found, path) = History-RowPath past j r e in
      let (t, found', step) = (Step-Keeps lib st).0.jobs_evolve j s found in
      (t, found', further path step)
