-- ===== src/Jobs/Store/Fresh.antt =====
-- `enqueue` on an idempotency key that no row has, and a second call after it.
use honor.Common.{◌≡◌, refl, List, none, some, ok, eq_refl}
use honor.Common.Table.{find, insert, find-insert}
use honor.Common.Platform.{Platform}
use honor.Jobs.{JobRow, Database, job_id, job_key}
use honor.Jobs.Spec.{JobSpec}
use honor.Jobs.Store.{
  Request, durable, insert_job, insert_event, enqueue_event, new_row, canonical, canonical_optional,
  committed, enqueue_rows, enqueue,
}
use honor.Jobs.Store.Replay.{
  SameJob, IsAccepted, job_id_of, token_of, enqueue_checked_lem, enqueue-replay,
}

module _ (lib : Platform) where
  open lib use {parse_uuid}

  -- No row clashes with the one that `enqueue` would insert.
  pub record IsFresh (spec : JobSpec) (jobs : List JobRow) : Type 0 where
    pub key_free : find job_key spec.idempotency_key jobs ≡ none
    pub id_free : find job_id (job_id_of lib spec) jobs ≡ none
    pub token_free : find (λ x. x.dispatch_token) (token_of lib spec) jobs ≡ none

  -- A spec whose UUIDs are written in the canonical form.
  pub record IsCanonical (spec : JobSpec) : Type 0 where
    pub entity : canonical lib spec.domain_entity_id ≡ spec.domain_entity_id
    pub correlation : canonical lib spec.correlation_id ≡ spec.correlation_id
    pub run : canonical_optional lib spec.run_id ≡ spec.run_id

  abbrev pub row_of : Request → JobSpec → JobRow
  row_of q spec = new_row lib spec (job_id_of lib spec) (token_of lib spec) q.now

  abbrev pub after : Request → JobSpec → Database → Database
  after q spec db = record {
    jobs = insert (row_of q spec) db.jobs;
    events = insert_event (enqueue_event lib q spec (job_id_of lib spec)) db.events;
  }

  -- An accepted request whose idempotency key, id and dispatch token no row has leaves the tables
  -- `after`, and returns the view of `row_of`.
  pub enqueue-fresh :
      (q : Request) (spec : JobSpec) (db : Database)
      → IsAccepted lib q spec
      → IsFresh spec db.jobs
      → enqueue lib q spec db ≡ (ok (durable (row_of q spec)), after q spec db)
  unfolding enqueue committed enqueue_rows insert_job new_row
  enqueue-fresh q spec db a f =
      rw (enqueue_checked_lem lib q spec db a, f.key_free, f.id_free, f.token_free) refl

  pub find-inserted :
      (q : Request) (spec : JobSpec) (jobs : List JobRow)
      → find job_key spec.idempotency_key jobs ≡ none
      → find job_key spec.idempotency_key (insert (row_of q spec) jobs) ≡ some (row_of q spec)
  unfolding new_row
  find-inserted q spec jobs free =
      rw (find-insert job_key spec.idempotency_key (row_of q spec) jobs, free, eq_refl)

  new_row-SameJob :
      (q : Request) (spec : JobSpec)
      → IsCanonical spec
      → SameJob spec (job_id_of lib spec) (token_of lib spec) (row_of q spec)
  unfolding new_row
  new_row-SameJob q spec c = record {
    same_id = refl;
    same_token = refl;
    same_type = refl;
    same_entity_type = refl;
    same_entity = c.entity;
    same_stage = refl;
    same_correlation = c.correlation;
    same_run = c.run;
    same_attempts = refl;
    same_timeout = refl;
  }

  -- After an accepted request for a fresh job whose UUIDs are in canonical form, another accepted
  -- request for the same job, at any time and for any event, returns the same job and changes
  -- nothing.
  pub enqueue_twice :
      (q q' : Request) (spec : JobSpec) (db : Database)
      → IsAccepted lib q spec
      → IsAccepted lib q' spec
      → IsCanonical spec
      → IsFresh spec db.jobs
      → enqueue lib q' spec (enqueue lib q spec db).1 ≡ enqueue lib q spec db
  enqueue_twice q q' spec db a a' c f = rw (enqueue-fresh q spec db a f) (
      enqueue-replay lib q' spec (after q spec db) a' (row_of q spec)
        (find-inserted q spec db.jobs f.key_free) (new_row-SameJob q spec c))
