-- ===== src/Jobs/Store/Identity.antt =====
-- Which jobs the deterministic ids and the comparison of texts tell apart.
use text.Mathlib.TextLemmas.{append_assoc, append-nil as text_append-nil}
use honor.Common.{
  String, ◌≡◌, ◌≢◌, refl, ap, List, [], ◌∷◌, none, some, err, eq_iff, eq_refl, arith,
}
use honor.Common.Text.{concat, sort}
use honor.Common.Table.{find, insert, find-insert}
use honor.Common.Platform.{Platform}
use honor.Jobs.{JobRow, Database, job_id, job_key}
use honor.Jobs.Spec.{JobSpec, key_reused, unique_violation, deterministic_job_id}
use honor.Jobs.Store.{
  Request, failing, replay_checks, insert_job, new_row, canonical, committed, enqueue_rows, enqueue,
}
use honor.Jobs.Store.Replay.{IsAccepted, job_id_of, token_of, enqueue_checked_lem, enqueue-reused}
use honor.Jobs.Store.Fresh.{IsFresh, row_of, after, enqueue-fresh, find-inserted}

module _ (lib : Platform) where
  open lib use {uuid5}

  -- A job type and a key run together in the name that is hashed: a colon may belong to either.
  pub deterministic_job_id_collision :
      (t u k : String)
      → deterministic_job_id lib (concat (t ∷ ":" ∷ u ∷ [])) k
        ≡ deterministic_job_id lib t (concat (u ∷ ":" ∷ k ∷ []))
  unfolding deterministic_job_id concat
  deterministic_job_id_collision t u k =
      ap (uuid5 "b19f5c48-1e3c-4c73-9a59-5dc847ae9d8d") (simp (append_assoc, text_append-nil))

  -- A key that is new, with an id that another row has, raises and stores nothing.
  pub enqueue_id_taken :
      (q : Request) (spec : JobSpec) (db : Database) (r : JobRow)
      → IsAccepted lib q spec
      → find job_key spec.idempotency_key db.jobs ≡ none
      → find job_id (job_id_of lib spec) db.jobs ≡ some r
      → enqueue lib q spec db ≡ (err unique_violation, db)
  unfolding enqueue committed enqueue_rows insert_job new_row
  enqueue_id_taken q spec db r a free taken =
      rw (enqueue_checked_lem lib q spec db a, free, taken) refl

  key_still_free :
      (q : Request) (spec spec' : JobSpec) (jobs : List JobRow)
      → find job_key spec'.idempotency_key jobs ≡ none
      → spec.idempotency_key ≢ spec'.idempotency_key
      → find job_key spec'.idempotency_key (insert (row_of lib q spec) jobs) ≡ none
  unfolding new_row
  key_still_free q spec spec' jobs free differ =
      rw (find-insert job_key spec'.idempotency_key (row_of lib q spec) jobs, free)
        (ground (arith, eq_iff spec.idempotency_key spec'.idempotency_key))

  id_now_taken :
      (q : Request) (spec spec' : JobSpec) (jobs : List JobRow)
      → find job_id (job_id_of lib spec) jobs ≡ none
      → job_id_of lib spec' ≡ job_id_of lib spec
      → find job_id (job_id_of lib spec') (insert (row_of lib q spec) jobs)
        ≡ some (row_of lib q spec)
  unfolding new_row
  id_now_taken q spec spec' jobs free same =
      rw (same, find-insert job_id (job_id_of lib spec) (row_of lib q spec) jobs, free, eq_refl)

  same_id :
      (spec spec' : JobSpec) (t u k : String)
      → spec.job_type ≡ concat (t ∷ ":" ∷ u ∷ [])
      → spec.idempotency_key ≡ k
      → spec'.job_type ≡ t
      → spec'.idempotency_key ≡ concat (u ∷ ":" ∷ k ∷ [])
      → job_id_of lib spec' ≡ job_id_of lib spec
  same_id spec spec' t u k et ek et' ek' =
      cc (deterministic_job_id_collision t u k, et, ek, et', ek')

  -- Of two accepted jobs with different free keys, where the first has type "t:u" and key k and
  -- the second type t and key "u:k", the second raises a violation of the unique id once the
  -- first is stored.
  pub enqueue_collision :
      (q q' : Request) (spec spec' : JobSpec) (db : Database) (t u k : String)
      → IsAccepted lib q spec
      → IsAccepted lib q' spec'
      → IsFresh lib spec db.jobs
      → find job_key spec'.idempotency_key db.jobs ≡ none
      → spec.job_type ≡ concat (t ∷ ":" ∷ u ∷ [])
      → spec.idempotency_key ≡ k
      → spec'.job_type ≡ t
      → spec'.idempotency_key ≡ concat (u ∷ ":" ∷ k ∷ [])
      → spec.idempotency_key ≢ spec'.idempotency_key
      → let db' = (enqueue lib q spec db).1 in
        enqueue lib q' spec' db' ≡ (err unique_violation, db')
  enqueue_collision q q' spec spec' db t u k a a' f free et ek et' ek' differ =
      rw (enqueue-fresh lib q spec db a f) (
        enqueue_id_taken q' spec' (after lib q spec db) (row_of lib q spec) a'
          (key_still_free q spec spec' db.jobs free differ)
          (id_now_taken q spec spec' db.jobs f.id_free (same_id spec spec' t u k et ek et' ek')))

  -- An accepted request for a fresh job whose entity id is not in canonical form is stored, and
  -- the second accepted request for the same job raises that the key was reused.
  pub enqueue_twice_noncanonical :
      (q q' : Request) (spec : JobSpec) (db : Database)
      → IsAccepted lib q spec
      → IsAccepted lib q' spec
      → IsFresh lib spec db.jobs
      → canonical lib spec.domain_entity_id ≢ spec.domain_entity_id
      → (names : List String) × (enqueue lib q' spec (enqueue lib q spec db).1
          ≡ (err (key_reused names), after lib q spec db))
  enqueue_twice_noncanonical q q' spec db a a' f other = (
    sort
        (failing (replay_checks spec (job_id_of lib spec) (token_of lib spec) (row_of lib q spec))),
    rw (enqueue-fresh lib q spec db a f) (
        enqueue-reused lib q' spec (after lib q spec db) a' (row_of lib q spec)
          (find-inserted lib q spec db.jobs f.key_free)
          (λ s. other (unfold new_row in s.same_entity))),
  )
