-- ===== src/Worker/System/Transactions.antt =====
-- Each transaction of the worker, of the reconciler and of `enqueue` keeps the tables sound, and
-- changes rows only along the graph.
use honor.Common.{ℕ, String, ◌≡◌, refl, Option, some, ok, >>=-eq-ok, ok-injective}
use honor.Common.Table.{find, update}
use honor.Common.Platform.{Platform}
use honor.Jobs.{JobRow, Database, job_id, retrying}
use honor.Jobs.Spec.{check_uuid}
use honor.Jobs.Store.{canonical}
use honor.Worker.Transitions.{claim, heartbeat, succeed, Failure, fail}
use honor.Worker.Reconciler.{Stats, recover_row, requeued, touch, Message}
use honor.Worker.System.Rows.{requeued-IsSound, requeued-RowStep}
use honor.Worker.System.Tables.{Keeps, update-Keeps}
use honor.Worker.System.Updates.{
  to_result, Stored-find, claim_row-Keeps, running_row-IsRunningRow, heartbeat_row-Keeps,
  touch_row-Keeps, succeed_row-Keeps, recover_row-Keeps, fail_row-Keeps,
}

module _ (lib : Platform) (db : Database) where
  pub claim-Keeps :
      (owner id token : String) (client_now now : ℕ) (o : Option JobRow) (db' : Database)
      → claim lib owner id token client_now now db ≡ ok (o, db')
      → Keeps db db'
  unfolding claim
  claim-Keeps owner id token client_now now o db' h =
      let (_, _, h₁) = >>=-eq-ok (check_uuid lib id) _ h in
      let (_, _, h₂) = >>=-eq-ok (check_uuid lib token) _ h₁ in
      let (_, _, h₃) = >>=-eq-ok (check_uuid lib owner) _ h₂ in
      to_result (ok-injective h₃)
        (claim_row-Keeps token client_now now db _ (Stored-find db (canonical lib id)))

  pub heartbeat-Keeps : (id token : String) (now : ℕ) → Keeps db (heartbeat lib id token now db).1
  unfolding heartbeat
  heartbeat-Keeps id token now =
      heartbeat_row-Keeps now db _ (running_row-IsRunningRow lib id token db)

  pub succeed-Keeps : (id token : String) (now : ℕ) → Keeps db (succeed lib id token now db).1
  unfolding succeed
  succeed-Keeps id token now =
      succeed_row-Keeps lib now db _ (running_row-IsRunningRow lib id token db)

  pub fail-Keeps :
      (id token : String) (f : Failure) (now : ℕ) (s : String) (db' : Database)
      → fail lib id token f now db ≡ ok (s, db')
      → Keeps db db'
  unfolding fail
  fail-Keeps id token f now s db' h =
      fail_row-Keeps lib f id now db _ s db' (running_row-IsRunningRow lib id token db) h

  pub recover-Keeps :
      (id : String) (now : ℕ) (stats : Stats)
      → Keeps db (recover_row lib now stats db (find job_id id db.jobs)).1
  recover-Keeps id now stats = recover_row-Keeps lib now stats db _ (Stored-find db id)

pub touch-Keeps : (now : ℕ) (m : Message) (db : Database) → Keeps db (touch now m db)
unfolding touch
touch-Keeps now (id, token) db = touch_row-Keeps now token db _ (Stored-find db id)

pub requeue-Keeps :
    (now : ℕ) (db : Database) (r : JobRow)
    → find job_id r.id db.jobs ≡ some r
    → r.state ≡ retrying
    → Keeps db (record db { jobs = update job_id r.id (requeued now) db.jobs })
requeue-Keeps now db r found e =
    update-Keeps db r (requeued now) found (unfold requeued in λ x. refl) (requeued-RowStep now r e)
      (requeued-IsSound now r e)
