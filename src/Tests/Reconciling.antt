-- ===== src/Tests/Reconciling.antt =====
-- The reconciler at one expired lease.
use honor.Common.{◌≡◌, ◌⊎◌, refl, String, Bool, true, false, [], ◌∷◌, some, length}
use honor.Common.Table.{find}
use honor.Jobs.{JobRow, job_id, retrying}
use honor.Worker.Reconciler.{no_stats, Visit, Env, recover_one, promote_due, reconcile_once}
use honor.Worker.Reconciler.Lease.{Changed, recover_one-Recovered}
use honor.Worker.Reconciler.Promotion.{IsDue, IsQueuedAgain, promote_due-requeued}
use honor.Worker.Reconciler.Publishing.{reconcile_once-published}
use honor.Worker.Reconciler.Requeue.{tokens_for}
use honor.Worker.Reconciler.Selection.{HasDistinctIds}
use honor.Tests.Samples.{plain, waiting, leased, stored}

abbrev visit : Visit
visit = record { between = λ db. db; now = 200; acquired = true }

recover_one-Recovered_example :
    ((recover_one plain visit "j-1" no_stats (stored leased)).1 ≡ stored leased)
    ⊎ ((true ≡ true)
        × Changed plain 200
            (stored leased)
            (find job_id "j-1" (stored leased).jobs)
            (recover_one plain visit "j-1" no_stats (stored leased)).1)
recover_one-Recovered_example = recover_one-Recovered plain visit "j-1" no_stats (stored leased)

abbrev env : Env
env = record {
  leader_lock_free = true;
  candidates_at = 200;
  recovery = λ n. visit;
  promotion = visit;
  locked = λ id. false;
  broker = λ n. true;
  selection = visit;
  touches = λ n. visit;
  configured_age = 30;
}

reconcile_once-published_example :
    (reconcile_once plain env (stored waiting)).stats.published
    ≡ length (reconcile_once plain env (stored waiting)).sent
reconcile_once-published_example = reconcile_once-published plain env (stored waiting)

-- A job whose next attempt is due.
abbrev due : JobRow
due = record waiting { state = retrying }

abbrev unlocked : String → Bool
unlocked id = false

due_found : find job_id "j-1" (stored due).jobs ≡ some due
unfolding find
due_found = refl

due_alone : HasDistinctIds (stored due).jobs
unfolding find
due_alone = (refl, tt)

promote_due-requeued_example :
    (r' : JobRow) × (find job_id "j-1" (promote_due 500 unlocked (stored due)).1.jobs ≡ some r')
    × ((IsDue 500 unlocked due
          × IsQueuedAgain 500 unlocked due r'
          × (tokens_for "j-1" (promote_due 500 unlocked (stored due)).0 ≡ "t-1" ∷ []))
        ⊎ ((¬ IsDue 500 unlocked due)
            × (r' ≡ due)
            × (tokens_for "j-1" (promote_due 500 unlocked (stored due)).0 ≡ [])))
promote_due-requeued_example =
    promote_due-requeued 500 unlocked (stored due) "j-1" due due_alone due_found
