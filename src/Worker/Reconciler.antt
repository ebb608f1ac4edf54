-- ===== src/Worker/Reconciler.antt =====
-- services/worker/honor_worker/reconciler.py: the recovery of expired leases, the return of due
-- retries to the queue, and the publishing of queued work. What other sessions do between two
-- transactions, the clock and the broker are the environment, `Env`.
pub mod Lease
pub mod Publishing
pub mod Selection
pub mod Requeue
pub mod Promotion
use honor.Common.{
  ℕ, ◌+◌, ◌-◌, ◌*◌, max, String, Bool, true, false, not, ◌&&◌, ◌||◌, List, [], ◌∷◌, ◌++◌, map,
  length, Option, none, some, is_some, leb, ltb, eqb, ◌==◌, if◌then◌else◌,
}
use honor.Common.Text.{le_text}
use honor.Common.Table.{find, update}
use honor.Common.Platform.{Platform}
use honor.Jobs.{JobRow, JobState, Database, queued, retrying, is_queued, job_id, second}
use honor.Worker.Retry.{retry_delay}
use honor.Worker.Transitions.{is_running, delayed, failed, transition}

pub record Stats : Type 0 where
  pub leader : Bool
  pub retrying_to_queued : ℕ
  pub expired_to_retrying : ℕ
  pub expired_to_terminal : ℕ
  pub published : ℕ
  pub active_lease_skipped : ℕ

abbrev pub no_stats : Stats
no_stats = record {
  leader = false;
  retrying_to_queued = 0;
  expired_to_retrying = 0;
  expired_to_terminal = 0;
  published = 0;
  active_lease_skipped = 0;
}

-- One transaction's surroundings: what other sessions did before it, PostgreSQL's clock in it, and
-- whether the candidate's advisory lock is free.
pub record Visit : Type 0 where
  pub between : Database → Database
  pub now : ℕ
  pub acquired : Bool

unfoldable pub is_retrying : JobState → Bool
is_retrying retrying = true
is_retrying _ = false

abbrev pub select : (JobRow → Bool) → List JobRow → List JobRow
select p [] = []
select p (r ∷ rs) = if p r then r ∷ select p rs else select p rs

insert_by : (JobRow → ℕ) → JobRow → List JobRow → List JobRow
insert_by at r [] = r ∷ []
insert_by at r (s ∷ ss) =
    if ltb (at r) (at s) || (eqb (at r) (at s) && le_text r.id s.id)
    then r ∷ s ∷ ss
    else s ∷ insert_by at r ss

-- `ORDER BY at, id`
unfoldable pub order_by : (JobRow → ℕ) → List JobRow → List JobRow
unfolding insert_by le_text
order_by at [] = []
order_by at (r ∷ rs) = insert_by at r (order_by at rs)

-- `lease_expires_at IS NOT NULL AND lease_expires_at < now`
unfoldable pub lease_expired : ℕ → Option ℕ → Bool
lease_expired now none = false
lease_expired now (some t) = ltb t now

unfoldable pub is_expired : ℕ → JobRow → Bool
is_expired now r = is_running r.state && lease_expired now r.lease_expires_at

abbrev pub lease_time : JobRow → ℕ
lease_time r = elim r.lease_expires_at [ none ↦ 0 | some t ↦ t ]

abbrev pub ids : List JobRow → List String
ids = map (λ r. r.id)

unfoldable pub expired_candidates : ℕ → Database → List String
expired_candidates now db = ids (order_by lease_time (select (is_expired now) db.jobs))

unfoldable pub requeued : ℕ → JobRow → JobRow
requeued now r = record r {
  state = queued;
  heartbeat_at = none;
  lease_expires_at = none;
  version = r.version + 1;
  updated_at = now;
}

unfoldable pub touched : ℕ → JobRow → JobRow
touched now r = record r { updated_at = now }

module _ (lib : Platform) where
  -- The transaction on one candidate whose lock was acquired. The row is read again: it counts only
  -- if it is still running on an expired lease.
  unfoldable pub recover_row : ℕ → Stats → Database → Option JobRow → Stats × Database
  recover_row now stats db none = (stats, db)
  recover_row now stats db (some r) =
      if is_expired now r
      then if leb r.max_attempts r.attempt
        then (
          record stats { expired_to_terminal = stats.expired_to_terminal + 1 },
          transition lib now r (failed now "LEASE_EXPIRED" "worker lease expired")
              "JOB_FAILED_TERMINAL" "failed-terminal" (some "LEASE_EXPIRED") none db,
        )
        else (
          record stats { expired_to_retrying = stats.expired_to_retrying + 1 },
          transition lib now r
              (delayed now (retry_delay lib r.attempt (some r.id)) "LEASE_EXPIRED"
                "worker lease expired")
              "JOB_RETRY_SCHEDULED" "retrying" (some "LEASE_EXPIRED") none db,
        )
      else (stats, db)

  -- One round of the loop over the candidates.
  unfoldable pub recover_one : Visit → String → Stats → Database → Stats × Database
  recover_one v id stats db =
      let db' = v.between db in
      if v.acquired
      then recover_row v.now stats db' (find job_id id db'.jobs)
      else (record stats { active_lease_skipped = stats.active_lease_skipped + 1 }, db')

  -- The n-th visit belongs to the n-th candidate.
  unfoldable pub recover_all : (ℕ → Visit) → ℕ → List String → Stats → Database → Stats × Database
  recover_all visits n [] stats db = (stats, db)
  recover_all visits n (id ∷ rest) stats db =
      let (stats', db') = recover_one (visits n) id stats db in
      recover_all visits (n + 1) rest stats' db'

  -- `_recover_expired`
  unfoldable pub recover_expired : ℕ → (ℕ → Visit) → Stats → Database → Stats × Database
  recover_expired now visits stats db = recover_all visits 0 (expired_candidates now db) stats db

-- A message to the broker: a job's id and its token.
abbrev pub Message : Type 0
Message = String × String

-- `state='retrying' AND available_at<=now`, and no other session has locked the row (SKIP LOCKED).
unfoldable pub is_due : ℕ → (String → Bool) → JobRow → Bool
is_due now locked r = is_retrying r.state && (leb r.available_at now && not (locked r.id))

-- `UPDATE … SET state='queued' WHERE id=$1 AND state='retrying' RETURNING id, dispatch_token`
unfoldable pub requeue_row : ℕ → Database → Option JobRow → List Message × Database
requeue_row now db none = ([], db)
requeue_row now db (some r) =
    if is_retrying r.state
    then (
      (r.id, r.dispatch_token) ∷ [],
      record db { jobs = update job_id r.id (requeued now) db.jobs },
    )
    else ([], db)

-- The update of each selected row in turn, and what the updates returned.
unfoldable pub requeue_all : ℕ → List String → Database → List Message × Database
unfolding requeue_row
requeue_all now [] db = ([], db)
requeue_all now (id ∷ rest) db =
    let (m, db') = requeue_row now db (find job_id id db.jobs) in
    let (more, db'') = requeue_all now rest db' in (m ++ more, db'')

abbrev pub messages : List JobRow → List Message
messages = map (λ r. (r.id, r.dispatch_token))

-- The transaction that returns due retries to the queue, and the messages to publish after it.
unfoldable pub promote_due : ℕ → (String → Bool) → Database → List Message × Database
promote_due now locked db =
    requeue_all now (ids (order_by (λ r. r.available_at) (select (is_due now locked) db.jobs))) db

-- The broker takes the n-th message, or raises.
abbrev pub Broker : Type 0
Broker = ℕ → Bool

-- Publishing in order, up to the first that raises; `false` says that one did.
unfoldable pub publish_all :
    Broker → List Message → List Message → Stats → Bool × List Message × Stats
publish_all broker [] sent stats = (true, sent, stats)
publish_all broker (m ∷ ms) sent stats =
    let rest =
      publish_all broker ms (sent ++ m ∷ []) (record stats { published = stats.published + 1 }) in
    if broker stats.published then rest else (false, sent, stats)

-- `max(15, configured)`
unfoldable pub redispatch_age : ℕ → ℕ
redispatch_age configured = max 15 configured

-- Queued, available, and not updated for the age.
unfoldable pub is_stale : ℕ → ℕ → JobRow → Bool
is_stale now age r =
    is_queued r.state && (leb r.available_at now && leb (r.updated_at + age * second) now)

-- `UPDATE jobs SET updated_at=… WHERE id=$1 AND dispatch_token=$2 AND state='queued'`
unfoldable pub touch_row : ℕ → String → Database → Option JobRow → Database
touch_row now token db none = db
touch_row now token db (some r) =
    if r.dispatch_token == token && is_queued r.state
    then record db { jobs = update job_id r.id (touched now) db.jobs }
    else db

unfoldable pub touch : ℕ → Message → Database → Database
touch now (id, token) db = touch_row now token db (find job_id id db.jobs)

-- Publishing old queued work: each message, then the touch that holds back the next delivery.
unfoldable pub redispatch_all :
    Broker
    → (ℕ → Visit)
    → ℕ
    → List Message
    → List Message
    → Stats
    → Database
    → Bool × List Message × Stats × Database
redispatch_all broker visits n [] sent stats db = (true, sent, stats, db)
redispatch_all broker visits n (m ∷ ms) sent stats db =
    let v = visits n in
    let rest =
      redispatch_all broker visits (n + 1) ms (sent ++ m ∷ [])
        (record stats { published = stats.published + 1 }) (touch v.now m (v.between db)) in
    if broker stats.published then rest else (false, sent, stats, db)

-- The surroundings of one call of `reconcile_once`.
pub record Env : Type 0 where
  pub leader_lock_free : Bool
  pub candidates_at : ℕ
  pub recovery : ℕ → Visit
  pub promotion : Visit
  pub locked : String → Bool
  pub broker : Broker
  pub selection : Visit
  pub touches : ℕ → Visit
  pub configured_age : ℕ

-- What a call leaves: whether it returned its statistics or raised, the messages sent, the tables.
pub record Outcome : Type 0 where
  pub returned : Bool
  pub sent : List Message
  pub stats : Stats
  pub db : Database

-- The end of `reconcile_once`: the stale work, after the due retries were published.
unfoldable pub redispatch : Env → List Message → Stats → Database → Outcome
redispatch env sent stats db =
    let db₁ = env.selection.between db in
    let now = env.selection.now in
    let stale =
      order_by (λ r. r.available_at)
        (select (is_stale now (redispatch_age env.configured_age)) db₁.jobs) in
    let (returned, sent', stats', db₂) =
      redispatch_all env.broker env.touches 0 (messages stale) sent stats db₁ in
    record { returned = returned; sent = sent'; stats = stats'; db = db₂ }

-- `reconcile_once` after the promotion has committed: the due retries, then the stale work.
unfoldable pub publish_and_redispatch : Env → List Message → Stats → Database → Outcome
publish_and_redispatch env due stats db =
    let (returned, sent, stats') = publish_all env.broker due [] stats in
    if returned
    then redispatch env sent stats' db
    else record { returned = false; sent = sent; stats = stats'; db = db }

module _ (lib : Platform) where
  -- `reconcile_once`
  unfoldable pub reconcile_once : Env → Database → Outcome
  reconcile_once env db =
      let (stats₁, db₁) =
        recover_expired lib env.candidates_at env.recovery (record no_stats { leader = true }) db in
      let (due, db₂) = promote_due env.promotion.now env.locked (env.promotion.between db₁) in
      if env.leader_lock_free
      then publish_and_redispatch env due (record stats₁ { retrying_to_queued = length due }) db₂
      else record { returned = true; sent = []; stats = no_stats; db = db }
