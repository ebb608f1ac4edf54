-- ===== src/Worker/System/Rows.antt =====
-- One row under the updates of the worker and the reconciler: what a sound row is, and what an
-- update may change.
use Prim.Native.String.{count}
use honor.Common.Text.{codes}
use honor.Worker.Details.Words.{has_url}
use honor.Common.{
  Option, none, some, false, ℕ, ◌+◌, ◌≤◌, ◌<◌, String, ◌≡◌, refl, true, is_some, arith,
  if◌then◌else◌,
}
use honor.Jobs.{JobRow, queued, running, retrying, failed_terminal, succeeded}
use honor.Jobs.Graph.{◌⟶◌, claim, succeed, retry, block, give_up, requeue}
use honor.Worker.Transitions.{is_running, claimed, renewed, completed, blocked, delayed, failed}
use honor.Worker.Reconciler.{requeued, touched}

-- What may be stored of a failure's text.
abbrev pub IsHidden : Option String → Type 0
IsHidden none = Unit
IsHidden (some detail) = (count detail ≤ 500) × (has_url (codes detail) ≡ false)

-- A running job has a lease and no other has; attempts stay within the limit, with one to spare
-- while the job waits for another run; a job has ended exactly when its end is recorded; the detail of
-- a failure is short and has no URL of a database in it.
pub record IsSound (r : JobRow) : Type 0 where
  pub leased : is_some r.lease_expires_at ≡ is_running r.state
  pub within : r.attempt ≤ r.max_attempts
  pub spare_queued : r.state ≡ queued → r.attempt < r.max_attempts
  pub spare_retrying : r.state ≡ retrying → r.attempt < r.max_attempts
  pub begun : r.state ≡ running → 1 ≤ r.attempt
  pub ended : r.state ≡ succeeded → is_some r.finished_at ≡ true
  pub ended_failed : r.state ≡ failed_terminal → is_some r.finished_at ≡ true
  pub versioned : 1 ≤ r.version
  pub hidden : IsHidden r.failure_detail_redacted

-- What never changes in a row.
abbrev pub SameIdentity : JobRow → JobRow → Type 0
SameIdentity r s =
    (s.id ≡ r.id)
    × (s.idempotency_key ≡ r.idempotency_key)
    × (s.dispatch_token ≡ r.dispatch_token)
    × (s.max_attempts ≡ r.max_attempts)
    × (s.timeout_seconds ≡ r.timeout_seconds)

-- A change of one row: along an edge of the graph, with the version counted up and the attempt counted
-- exactly by a claim; or within a state, with version and attempt as they were.
pub data RowStep (r s : JobRow) : Type 0 where
  move :
      SameIdentity r s
      → r.state ⟶ s.state
      → s.version ≡ r.version + 1
      → s.attempt ≡ (if is_running s.state then r.attempt + 1 else r.attempt)
      → RowStep r s
  stay :
      SameIdentity r s
      → s.state ≡ r.state
      → s.version ≡ r.version
      → s.attempt ≡ r.attempt
      → RowStep r s

pub RowStep-refl : (r : JobRow) → RowStep r r
RowStep-refl r = stay (refl, refl, refl, refl, refl) refl refl refl

module _ (now : ℕ) (r : JobRow) where
  pub claimed-IsSound : r.state ≡ queued → IsSound r → IsSound (claimed now r)
  unfolding claimed is_running
  claimed-IsSound e h = ground arith

  pub renewed-IsSound : r.state ≡ running → IsSound r → IsSound (renewed now r)
  unfolding renewed is_running
  renewed-IsSound e h = ground arith

  pub completed-IsSound : r.state ≡ running → IsSound r → IsSound (completed now r)
  unfolding completed is_running
  completed-IsSound e h = ground arith

  pub blocked-IsSound :
      (a c d : String)
      → IsHidden (some d)
      → r.state ≡ running
      → IsSound r
      → IsSound (blocked now a c d r)
  unfolding blocked is_running
  blocked-IsSound a c d hides e h = ground arith

  pub delayed-IsSound :
      (n : ℕ) (c d : String)
      → IsHidden (some d)
      → r.attempt < r.max_attempts
      → r.state ≡ running
      → IsSound r
      → IsSound (delayed now n c d r)
  unfolding delayed is_running
  delayed-IsSound n c d hides room e h = ground arith

  pub failed-IsSound :
      (c d : String)
      → IsHidden (some d)
      → r.state ≡ running
      → IsSound r
      → IsSound (failed now c d r)
  unfolding failed is_running
  failed-IsSound c d hides e h = ground arith

  pub requeued-IsSound : r.state ≡ retrying → IsSound r → IsSound (requeued now r)
  unfolding requeued is_running
  requeued-IsSound e h = ground arith

  pub touched-IsSound : IsSound r → IsSound (touched now r)
  unfolding touched
  touched-IsSound h = ground arith

  pub claimed-RowStep : r.state ≡ queued → RowStep r (claimed now r)
  unfolding claimed is_running
  claimed-RowStep e = move (refl, refl, refl, refl, refl) (rw e claim) refl refl

  pub renewed-RowStep : RowStep r (renewed now r)
  unfolding renewed
  renewed-RowStep = stay (refl, refl, refl, refl, refl) refl refl refl

  pub completed-RowStep : r.state ≡ running → RowStep r (completed now r)
  unfolding completed is_running
  completed-RowStep e = move (refl, refl, refl, refl, refl) (rw e succeed) refl refl

  pub blocked-RowStep : (a c d : String) → r.state ≡ running → RowStep r (blocked now a c d r)
  unfolding blocked is_running
  blocked-RowStep a c d e = move (refl, refl, refl, refl, refl) (rw e block) refl refl

  pub delayed-RowStep : (n : ℕ) (c d : String) → r.state ≡ running → RowStep r (delayed now n c d r)
  unfolding delayed is_running
  delayed-RowStep n c d e = move (refl, refl, refl, refl, refl) (rw e retry) refl refl

  pub failed-RowStep : (c d : String) → r.state ≡ running → RowStep r (failed now c d r)
  unfolding failed is_running
  failed-RowStep c d e = move (refl, refl, refl, refl, refl) (rw e give_up) refl refl

  pub requeued-RowStep : r.state ≡ retrying → RowStep r (requeued now r)
  unfolding requeued is_running
  requeued-RowStep e = move (refl, refl, refl, refl, refl) (rw e requeue) refl refl

  pub touched-RowStep : RowStep r (touched now r)
  unfolding touched
  touched-RowStep = stay (refl, refl, refl, refl, refl) refl refl refl
