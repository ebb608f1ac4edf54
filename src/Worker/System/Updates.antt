-- ===== src/Worker/System/Updates.antt =====
-- What each row of `jobs` that a transaction finds becomes: sound if it was, one step along the graph.
use honor.Common.{
  ℕ, ◌<◌, String, ◌≡◌, inl, inr, refl, sym, subst, true, List, Option, none, some, arith,
  Bool-cases, ◌==◌, ◌&&◌, ok, >>=-eq-ok, ok-injective, ltb, leb,
}
use honor.Common.Table.{find, find-key}
use honor.Common.Platform.{Platform}
use honor.Jobs.{JobState, JobRow, Database, job_id, queued, running, is_queued}
use honor.Jobs.Spec.{check_uuid}
use honor.Jobs.Store.{canonical}
use honor.Worker.Transitions.{
  is_running, is_claimable, claimed, renewed, completed, blocked, delayed, failed, transition,
  claim_row, if_running, running_row, heartbeat_row, succeed_row, Failure, retry_or_give_up,
  fail_running, fail_row,
}
use honor.Worker.Reconciler.{Stats, is_expired, recover_row, touched, touch_row}
use honor.Common.Regex.{literal, fold}
use honor.Api.Logging.Patterns.{postgres_url}
use honor.Worker.Details.Urls.{redact_detail-HidesUrls}
use honor.Worker.System.Rows.{
  IsHidden, claimed-IsSound, claimed-RowStep, renewed-IsSound, renewed-RowStep, completed-IsSound,
  completed-RowStep, blocked-IsSound, blocked-RowStep, delayed-IsSound, delayed-RowStep,
  failed-IsSound, failed-RowStep, touched-IsSound, touched-RowStep,
}
use honor.Worker.System.Tables.{Keeps, Keeps-refl, update-Keeps, transition-Keeps}

is_running_eq : (s : JobState) → is_running s ≡ true → s ≡ running
unfolding is_running
is_running_eq running h = refl
is_running_eq s h = cc

is_queued_eq : (s : JobState) → is_queued s ≡ true → s ≡ queued
unfolding is_queued
is_queued_eq queued h = refl
is_queued_eq s h = cc

pub to_result :
    {A : Type 0} {db db' : Database} {p : A × Database} {a : A}
    → p ≡ (a, db')
    → Keeps db p.1
    → Keeps db db'
to_result {db = db} e k = subst (λ q. Keeps db q.1) e k

-- A row that was found by some id is found by its own.
found_by_id :
    (jobs : List JobRow) (id : String) (r : JobRow)
    → find job_id id jobs ≡ some r
    → find job_id r.id jobs ≡ some r
found_by_id jobs id r e =
    subst (λ k. find job_id k jobs ≡ some r) (sym (find-key job_id id jobs r e)) e

claimable_queued :
    (token : String) (now : ℕ) (r : JobRow) → is_claimable token now r ≡ true → r.state ≡ queued
unfolding is_claimable
claimable_queued token now r h = ground (arith, is_queued_eq r.state)

expired_running : (now : ℕ) (r : JobRow) → is_expired now r ≡ true → r.state ≡ running
unfolding is_expired
expired_running now r h = ground (arith, is_running_eq r.state)

-- Where a row comes from, in what follows.
abbrev Stored : Database → Option JobRow → Type 0
Stored db o = (r : JobRow) → o ≡ some r → find job_id r.id db.jobs ≡ some r

pub Stored-find : (db : Database) (id : String) → Stored db (find job_id id db.jobs)
Stored-find db id r e = found_by_id db.jobs id r e

pub claim_row-Keeps :
    (token : String) (client_now now : ℕ) (db : Database) (o : Option JobRow)
    → Stored db o
    → Keeps db (claim_row token client_now now db o).1
unfolding claim_row
claim_row-Keeps token client_now now db none at = Keeps-refl db
claim_row-Keeps token client_now now db (some r) at =
    elim (Bool-cases (is_claimable token client_now r)) [
      | inl free ↦
          let e = claimable_queued token client_now r free in
          rw free (
            update-Keeps db r (claimed now) (at r refl) (unfold claimed in λ x. refl)
              (claimed-RowStep now r e) (claimed-IsSound now r e))
      | inr other ↦ rw other (Keeps-refl db)
    ]

-- A running row, as the operations on a claimed job read it.
abbrev IsRunningRow : Database → Option JobRow → Type 0
IsRunningRow db o =
    (r : JobRow) → o ≡ some r → (find job_id r.id db.jobs ≡ some r) × (r.state ≡ running)

if_running-eq_some :
    (token : String) (o : Option JobRow) (r : JobRow)
    → if_running token o ≡ some r
    → (o ≡ some r) × (r.state ≡ running)
unfolding if_running
if_running-eq_some token none r h = cc
if_running-eq_some token (some x) r h = ground (arith, is_running_eq x.state)

pub running_row-IsRunningRow :
    (lib : Platform) (id token : String) (db : Database)
    → IsRunningRow db (running_row lib id token db)
unfolding running_row
running_row-IsRunningRow lib id token db r e =
    let (there, at) =
      if_running-eq_some (canonical lib token) (find job_id (canonical lib id) db.jobs) r e in
    (found_by_id db.jobs (canonical lib id) r there, at)

pub heartbeat_row-Keeps :
    (now : ℕ) (db : Database) (o : Option JobRow)
    → IsRunningRow db o
    → Keeps db (heartbeat_row now db o).1
unfolding heartbeat_row
heartbeat_row-Keeps now db none at = Keeps-refl db
heartbeat_row-Keeps now db (some r) at =
    let (found, e) = at r refl in
    update-Keeps db r (renewed now) found (unfold renewed in λ x. refl) (renewed-RowStep now r)
      (renewed-IsSound now r e)

pub touch_row-Keeps :
    (now : ℕ) (token : String) (db : Database) (o : Option JobRow)
    → Stored db o
    → Keeps db (touch_row now token db o)
unfolding touch_row
touch_row-Keeps now token db none at = Keeps-refl db
touch_row-Keeps now token db (some r) at =
    elim (Bool-cases (r.dispatch_token == token && is_queued r.state)) [
      | inl hit ↦ rw hit (
          update-Keeps db r (touched now) (at r refl) (unfold touched in λ x. refl)
            (touched-RowStep now r) (touched-IsSound now r))
      | inr miss ↦ rw miss (Keeps-refl db)
    ]

expiry-IsHidden : IsHidden (some "worker lease expired")
unfolding postgres_url literal fold
expiry-IsHidden = (omega arith, refl)

module _ (lib : Platform) where
  pub succeed_row-Keeps :
      (now : ℕ) (db : Database) (o : Option JobRow)
      → IsRunningRow db o
      → Keeps db (succeed_row lib now db o).1
  unfolding succeed_row
  succeed_row-Keeps now db none at = Keeps-refl db
  succeed_row-Keeps now db (some r) at =
      let (found, e) = at r refl in
      transition-Keeps db r (completed now) found (unfold completed in λ x. refl)
        (completed-RowStep now r e) (completed-IsSound now r e) lib now _ _ _ _

  failed-Keeps :
      (now : ℕ) (code detail name state : String) (reason evidence : Option String) (db : Database)
      (r : JobRow)
      → IsHidden (some detail)
      → find job_id r.id db.jobs ≡ some r
      → r.state ≡ running
      → Keeps db (transition lib now r (failed now code detail) name state reason evidence db)
  failed-Keeps now code detail name state reason evidence db r hides found e =
      transition-Keeps db r (failed now code detail) found (unfold failed in λ x. refl)
        (failed-RowStep now r code detail e) (failed-IsSound now r code detail hides e) lib now _ _
        _ _

  delayed-Keeps :
      (now delay : ℕ) (code detail name state : String) (reason evidence : Option String)
      (db : Database) (r : JobRow)
      → IsHidden (some detail)
      → find job_id r.id db.jobs ≡ some r
      → r.state ≡ running
      → r.attempt < r.max_attempts
      → Keeps db
          (transition lib now r (delayed now delay code detail) name state reason evidence db)
  delayed-Keeps now delay code detail name state reason evidence db r hides found e room =
      transition-Keeps db r (delayed now delay code detail) found (unfold delayed in λ x. refl)
        (delayed-RowStep now r delay code detail e)
        (delayed-IsSound now r delay code detail hides room e) lib now _ _ _ _

  retry_or_give_up-Keeps :
      (f : Failure) (key : String) (now : ℕ) (db : Database) (r : JobRow)
      → find job_id r.id db.jobs ≡ some r
      → r.state ≡ running
      → Keeps db (retry_or_give_up lib f key now r db).1
  unfolding retry_or_give_up
  retry_or_give_up-Keeps f key now db r found e =
      elim (Bool-cases (f.retryable && ltb r.attempt r.max_attempts)) [
        | inl again ↦ rw again (
            delayed-Keeps now _ f.code _ _ _ _ _ db r (redact_detail-HidesUrls f.detail) found e
              (room again))
        | inr over ↦
            rw over
              (failed-Keeps now f.code _ _ _ _ _ db r (redact_detail-HidesUrls f.detail) found e)
      ]
    where
      room : (f.retryable && ltb r.attempt r.max_attempts) ≡ true → r.attempt < r.max_attempts
      room h = ground arith

  pub recover_row-Keeps :
      (now : ℕ) (stats : Stats) (db : Database) (o : Option JobRow)
      → Stored db o
      → Keeps db (recover_row lib now stats db o).1
  unfolding recover_row
  recover_row-Keeps now stats db none at = Keeps-refl db
  recover_row-Keeps now stats db (some r) at = elim (Bool-cases (is_expired now r)) [
    | inr live ↦ rw live (Keeps-refl db)
    | inl over ↦ elim (Bool-cases (leb r.max_attempts r.attempt)) [
      | inl spent ↦
          rw (over, spent)
            (failed-Keeps now _ _ _ _ _ _ db r expiry-IsHidden (at r refl)
              (expired_running now r over))
      | inr left ↦
          rw (over, left)
            (delayed-Keeps now _ _ _ _ _ _ _ db r expiry-IsHidden (at r refl)
              (expired_running now r over) (ground arith))
    ]
  ]

  blocked-Keeps :
      (now : ℕ) (action code detail name state : String) (reason evidence : Option String)
      (db : Database) (r : JobRow)
      → IsHidden (some detail)
      → find job_id r.id db.jobs ≡ some r
      → r.state ≡ running
      → Keeps db
          (transition lib now r (blocked now action code detail) name state reason evidence db)
  blocked-Keeps now action code detail name state reason evidence db r hides found e =
      transition-Keeps db r (blocked now action code detail) found (unfold blocked in λ x. refl)
        (blocked-RowStep now r action code detail e)
        (blocked-IsSound now r action code detail hides e) lib now _ _ _ _

  fail_running-Keeps :
      (f : Failure) (key : String) (now : ℕ) (r : JobRow) (db : Database) (o : Option String)
      (s : String) (db' : Database)
      → find job_id r.id db.jobs ≡ some r
      → r.state ≡ running
      → fail_running lib f key now r db o ≡ ok (s, db')
      → Keeps db db'
  unfolding fail_running
  fail_running-Keeps f key now r db none s db' found e h =
      to_result (ok-injective h) (retry_or_give_up-Keeps f key now db r found e)
  fail_running-Keeps f key now r db (some action) s db' found e h =
      let (_, _, h') = >>=-eq-ok (check_uuid lib action) _ h in
      to_result (ok-injective h')
        (blocked-Keeps now _ f.code _ _ _ _ _ db r (redact_detail-HidesUrls f.detail) found e)

  pub fail_row-Keeps :
      (f : Failure) (key : String) (now : ℕ) (db : Database) (o : Option JobRow) (s : String)
      (db' : Database)
      → IsRunningRow db o
      → fail_row lib f key now db o ≡ ok (s, db')
      → Keeps db db'
  unfolding fail_row
  fail_row-Keeps f key now db none s db' at h = to_result (ok-injective h) (Keeps-refl db)
  fail_row-Keeps f key now db (some r) s db' at h =
      let (found, e) = at r refl in
      fail_running-Keeps f key now r db f.owner_action_id s db' found e h
