-- ===== src/Worker/System/Tables.antt =====
-- The tables under one transaction: every row is there as before or changed by a row step, and no
-- event is lost.
use honor.Common.{
  ℕ, String, ◌≡◌, inl, inr, refl, sym, ◌∙◌, subst, List, Option, some, is_some, All, Bool-cases,
  eq_iff, ◌==◌,
}
use honor.Common.Table.{find, find-update, find-insert, update, insert, All-find, All-update}
use honor.Common.Platform.{Platform}
use honor.Jobs.{JobRow, EventRow, Database, job_id, event_key}
use honor.Jobs.Store.{insert_event}
use honor.Worker.Transitions.{transition, job_event_row}
use honor.Worker.System.Rows.{IsSound, RowStep, RowStep-refl}

-- Every row that was there is found again, as it was or one step further.
abbrev pub JobsEvolve : List JobRow → List JobRow → Type 0
JobsEvolve jobs jobs' =
    (j : String) (r : JobRow)
    → find job_id j jobs ≡ some r
    → (s : JobRow) × (find job_id j jobs' ≡ some s) × RowStep r s

-- Events are only ever added.
abbrev pub EventsKept : List EventRow → List EventRow → Type 0
EventsKept events events' =
    (k : String) (e : EventRow)
    → find event_key k events ≡ some e
    → find event_key k events' ≡ some e

pub record Evolves (db db' : Database) : Type 0 where
  pub jobs_evolve : JobsEvolve db.jobs db'.jobs
  pub events_kept : EventsKept db.events db'.events

pub record IsSoundDatabase (db : Database) : Type 0 where
  pub rows : All IsSound db.jobs

pub Evolves-refl : (db : Database) → Evolves db db
Evolves-refl db = record { jobs_evolve = λ j r e. (r, e, RowStep-refl r); events_kept = λ k e h. h }

pub JobsEvolve-update :
    (id : String) (f : JobRow → JobRow) (jobs : List JobRow)
    → ((r : JobRow) → (f r).id ≡ r.id)
    → ((r : JobRow) → find job_id id jobs ≡ some r → RowStep r (f r))
    → JobsEvolve jobs (update job_id id f jobs)
JobsEvolve-update id f jobs same step j r e = elim (Bool-cases (id == j)) [
  | inl hit ↦ (
    f r,
    rw (find-update job_id id j f same jobs, hit, e) refl,
    step r (rw ((eq_iff id j).0 hit) e),
  )
  | inr miss ↦ (r, rw (find-update job_id id j f same jobs, miss) e, RowStep-refl r)
]

pub EventsKept-insert_event :
    (e : EventRow) (events : List EventRow) → EventsKept events (insert_event e events)
unfolding insert_event
EventsKept-insert_event e events k old h =
    elim (Bool-cases (is_some (find event_key e.idempotency_key events))) [
      | inl there ↦ rw there h
      | inr new ↦ rw (new, find-insert event_key k e events, h)
    ]

pub JobsEvolve-insert : (r : JobRow) (jobs : List JobRow) → JobsEvolve jobs (insert r jobs)
JobsEvolve-insert r jobs j old h = (old, rw (find-insert job_id j r jobs, h), RowStep-refl old)

-- An update of a row that was found: the shape of every transition, with and without an event.
module _ (jobs : List JobRow) (r : JobRow) (f : JobRow → JobRow)
    (found : find job_id r.id jobs ≡ some r) where
  the_row : (x : JobRow) → find job_id r.id jobs ≡ some x → r ≡ x
  the_row x e = cc (sym found ∙ e)

  update-JobsEvolve :
      ((x : JobRow) → (f x).id ≡ x.id)
      → RowStep r (f r)
      → JobsEvolve jobs (update job_id r.id f jobs)
  update-JobsEvolve same step =
      JobsEvolve-update r.id f jobs same
        (λ x e. subst (λ (y : JobRow). RowStep y (f y)) (the_row x e) step)

  update-All :
      (IsSound r → IsSound (f r)) → All IsSound jobs → All IsSound (update job_id r.id f jobs)
  update-All keep h = All-update job_id IsSound r.id f jobs h (λ x e.
      subst (λ (y : JobRow). IsSound (f y)) (the_row x e)
        (keep (All-find job_id IsSound r.id jobs h found)))

-- A transaction that keeps what must be kept.
abbrev pub Keeps : Database → Database → Type 0
Keeps db db' = Evolves db db' × (IsSoundDatabase db → IsSoundDatabase db')

pub Keeps-refl : (db : Database) → Keeps db db
Keeps-refl db = (Evolves-refl db, λ h. h)

module _ (db : Database) (r : JobRow) (f : JobRow → JobRow)
    (found : find job_id r.id db.jobs ≡ some r) (same : (x : JobRow) → (f x).id ≡ x.id)
    (step : RowStep r (f r)) (keep : IsSound r → IsSound (f r)) where
  pub update-Keeps : Keeps db (record db { jobs = update job_id r.id f db.jobs })
  update-Keeps = (
    record {
      jobs_evolve = update-JobsEvolve db.jobs r f found same step;
      events_kept = λ k e h. h;
    },
    λ h. record { rows = update-All db.jobs r f found keep h.rows },
  )

  pub transition-Keeps :
      (lib : Platform) (now : ℕ) (name state : String) (reason evidence : Option String)
      → Keeps db (transition lib now r f name state reason evidence db)
  unfolding transition
  transition-Keeps lib now name state reason evidence = (
    record {
      jobs_evolve = update-JobsEvolve db.jobs r f found same step;
      events_kept =
          EventsKept-insert_event (job_event_row lib now (f r) name state reason evidence)
            db.events;
    },
    λ h. record { rows = update-All db.jobs r f found keep h.rows },
  )
