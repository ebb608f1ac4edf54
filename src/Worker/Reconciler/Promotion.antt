-- ===== src/Worker/Reconciler/Promotion.antt =====
-- The transaction that returns due retries to the queue: which rows change, to what, and which
-- messages are published for them.
use honor.Common.{
  ℕ, ◌+◌, ◌≤◌, String, ◌≡◌, ◌≢◌, ◌⊎◌, ◌↔◌, inl, inr, refl, sym, ◌∙◌, Bool, true, false, [], ◌∷◌,
  none, some, arith, Bool-cases, if◌then◌else◌,
}
use honor.Common.Table.{find}
use honor.Jobs.{JobRow, JobState, Database, job_id, retrying, queued}
use honor.Worker.Reconciler.{is_retrying, select, order_by, ids, requeued, is_due, promote_due}
use honor.Worker.Reconciler.Selection.{has, HasDistinctIds, has-order_by, has-select}
use honor.Worker.Reconciler.Requeue.{
  promoted, requeue_all-find, tokens_for, waiting_tokens, requeue_all-tokens,
}

true-ne-false : ◌≢◌ {A = Bool} true false
true-ne-false h = cc

module _ (now : ℕ) (locked : String → Bool) where
  -- A retry whose time has come and whose row no other session holds.
  abbrev pub IsDue : JobRow → Type 0
  IsDue r = (r.state ≡ retrying) × (r.available_at ≤ now) × (locked r.id ≡ false)

  -- The row is queued again without its lease; all else is as it was.
  abbrev pub IsQueuedAgain : JobRow → JobRow → Type 0
  IsQueuedAgain r r' = r' ≡ record r {
    state = queued;
    heartbeat_at = none;
    lease_expires_at = none;
    version = r.version + 1;
    updated_at = now;
  }

  retrying_eq : (s : JobState) → is_retrying s ≡ true → s ≡ retrying
  unfolding is_retrying
  retrying_eq retrying h = refl
  retrying_eq s h = cc

  is_retrying_iff : (s : JobState) → (is_retrying s ≡ true) ↔ (s ≡ retrying)
  unfolding is_retrying
  is_retrying_iff s = (retrying_eq s, λ h. rw h refl)

  is_due_iff : (r : JobRow) → (is_due now locked r ≡ true) ↔ IsDue r
  unfolding is_due
  is_due_iff r = (
    λ h. ((is_retrying_iff r.state).0 (ground (arith, h)), ground (arith, h), ground (arith, h)),
    λ (s, t, u). rw ((is_retrying_iff r.state).1 s, u) (ground (arith, t)),
  )

  -- If the ids of the rows are distinct, then in the reconciler's transaction for due retries a
  -- stored row that is retrying, whose time has come and that no other session has locked, is
  -- queued again without its lease and with the next version, all else as it was, and exactly one
  -- message with its token is left to publish; any other row stays as it is, and no message is
  -- for it.
  pub promote_due-requeued :
      (db : Database) (k : String) (r : JobRow)
      → HasDistinctIds db.jobs
      → find job_id k db.jobs ≡ some r
      → (r' : JobRow) × (find job_id k (promote_due now locked db).1.jobs ≡ some r')
        × ((IsDue r
              × IsQueuedAgain r r'
              × (tokens_for k (promote_due now locked db).0 ≡ r.dispatch_token ∷ []))
            ⊎ ((¬ IsDue r) × (r' ≡ r) × (tokens_for k (promote_due now locked db).0 ≡ [])))
  unfolding promote_due
  promote_due-requeued db k r distinct found =
      let passed : has k (ids (order_by (λ q. q.available_at) (select (is_due now locked) db.jobs)))
          ≡ is_due now locked r =
        has-order_by k (λ q. q.available_at) (select (is_due now locked) db.jobs)
        ∙ has-select k (is_due now locked) db.jobs r distinct found in
      let at_k : find job_id k (promote_due now locked db).1.jobs
          ≡ (if is_due now locked r then some (promoted now r) else some r) =
        requeue_all-find now k _ db ∙ rw passed (rw found refl) in
      let sent : tokens_for k (promote_due now locked db).0
          ≡ (if is_due now locked r then waiting_tokens (some r) else []) =
        requeue_all-tokens now k _ db ∙ rw passed (rw found refl) in
      elim (Bool-cases (is_due now locked r)) [
        | inl due ↦
            let is : IsDue r = (is_due_iff r).0 due in
            let waits = (is_retrying_iff r.state).1 is.0 in
            (
              requeued now r,
              at_k ∙ rw (due, waits) refl,
              inl (
                is,
                unfold requeued in refl,
                sent ∙ rw due (unfold waiting_tokens in rw waits refl),
              ),
            )
        | inr not_due ↦ (
          r,
          at_k ∙ rw not_due refl,
          inr (
            λ is. true-ne-false (sym ((is_due_iff r).1 is) ∙ not_due),
            refl,
            sent ∙ rw not_due refl,
          ),
        )
      ]
