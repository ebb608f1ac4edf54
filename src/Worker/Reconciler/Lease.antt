-- ===== src/Worker/Reconciler/Lease.antt =====
-- The recovery of expired leases: which candidate is changed, to what, and what the statistics count.
use honor.Common.{
  ℕ, ◌+◌, ◌≤◌, ◌<◌, String, ◌≡◌, ◌⊎◌, inl, inr, refl, sym, ◌∙◌, subst, true, List, [], ◌∷◌, Option,
  none, some, arith, leb, length, Bool-cases,
}
use text.Mathlib.TextPositions.{eq_refl}
use honor.Common.Table.{find, find-key, find-update, update}
use honor.Common.Platform.{Platform}
use honor.Jobs.{JobRow, JobState, Database, job_id, running, retrying, failed_terminal}
use honor.Worker.Retry.{retry_delay}
use honor.Worker.Transitions.{is_running, delayed, failed, transition}
use honor.Worker.Reconciler.{
  Stats, Visit, lease_expired, is_expired, recover_row, recover_one, recover_all, recover_expired,
  expired_candidates,
}

-- The candidates that a run has dealt with.
abbrev pub handled : Stats → ℕ
handled s = s.expired_to_retrying + s.expired_to_terminal + s.active_lease_skipped

running_eq : (s : JobState) → is_running s ≡ true → s ≡ running
unfolding is_running
running_eq running h = refl
running_eq s h = cc

lease_expired-some :
    (now : ℕ) (o : Option ℕ) → lease_expired now o ≡ true → (t : ℕ) × (o ≡ some t) × (t < now)
unfolding lease_expired
lease_expired-some now none h = cc
lease_expired-some now (some t) h = (t, refl, ground (arith, h))

is_expired_sound :
    (now : ℕ) (r : JobRow)
    → is_expired now r ≡ true
    → (r.state ≡ running) × ((t : ℕ) × (r.lease_expires_at ≡ some t) × (t < now))
unfolding is_expired
is_expired_sound now r h = (
  ground (arith, running_eq r.state),
  lease_expired-some now r.lease_expires_at (ground (arith, h)),
)

module _ (lib : Platform) where
  abbrev Counted : Stats → Stats → Type 0
  Counted s t = (handled s ≤ handled t) × (handled t ≤ handled s + 1)

  recover_row-Counted :
      (now : ℕ) (stats : Stats) (db : Database) (o : Option JobRow)
      → Counted stats (recover_row lib now stats db o).0
  unfolding recover_row
  recover_row-Counted now stats db none = (omega arith, omega arith)
  recover_row-Counted now stats db (some r) = elim (Bool-cases (is_expired now r)) [
    | inr miss ↦ rw miss (omega arith, omega arith)
    | inl hit ↦ elim (Bool-cases (leb r.max_attempts r.attempt)) [
      | inl last ↦ rw (hit, last) (omega arith, omega arith)
      | inr more ↦ rw (hit, more) (omega arith, omega arith)
    ]
  ]

  recover_one-Counted :
      (v : Visit) (id : String) (stats : Stats) (db : Database)
      → Counted stats (recover_one lib v id stats db).0
  unfolding recover_one
  recover_one-Counted v id stats db = elim (Bool-cases v.acquired) [
    | inl hit ↦ rw hit (recover_row-Counted v.now stats (v.between db) _)
    | inr miss ↦ rw miss (omega arith, omega arith)
  ]

  recover_all-Counted :
      (visits : ℕ → Visit) (n : ℕ) (ids : List String) (stats : Stats) (db : Database)
      → (handled stats ≤ handled (recover_all lib visits n ids stats db).0)
        × (handled (recover_all lib visits n ids stats db).0 ≤ handled stats + length ids)
  unfolding recover_all
  recover_all-Counted visits n [] stats db = (omega arith, omega arith)
  recover_all-Counted visits n (id ∷ rest) stats db =
      let next = recover_one lib (visits n) id stats db in
      let (a, b) = recover_one-Counted (visits n) id stats db in
      let (c, d) = recover_all-Counted visits (n + 1) rest next.0 next.1 in
      (omega arith, omega arith)

  -- The counts of retried, ended and skipped candidates together never fall during the recovery
  -- of expired leases, and grow by at most the number of candidates.
  pub recover_expired-handled :
      (now : ℕ) (visits : ℕ → Visit) (stats : Stats) (db : Database)
      → (handled stats ≤ handled (recover_expired lib now visits stats db).0)
        × (handled (recover_expired lib now visits stats db).0
            ≤ handled stats + length (expired_candidates now db))
  unfolding recover_expired
  recover_expired-handled now visits stats db =
      recover_all-Counted visits 0 (expired_candidates now db) stats db

  -- What recovery makes of a row: the end, if no attempt is left, and else a wait for the next.
  abbrev pub Recovered : JobRow → JobRow → Type 0
  Recovered r s =
      (s.lease_expires_at ≡ none)
      × (s.failure_code ≡ some "LEASE_EXPIRED")
      × (((s.state ≡ retrying) × (r.attempt < r.max_attempts))
          ⊎ ((s.state ≡ failed_terminal) × (r.max_attempts ≤ r.attempt)))

  abbrev pub Changed : ℕ → Database → Option JobRow → Database → Type 0
  Changed now db o db' =
      (r : JobRow) × (o ≡ some r)
      × (r.state ≡ running)
      × ((t : ℕ) × (r.lease_expires_at ≡ some t) × (t < now))
      × ((s : JobRow) × (find job_id r.id db'.jobs ≡ some s) × Recovered r s)

  found_after :
      (r : JobRow) (f : JobRow → JobRow) (jobs : List JobRow)
      → ((x : JobRow) → (f x).id ≡ x.id)
      → find job_id r.id jobs ≡ some r
      → find job_id r.id (update job_id r.id f jobs) ≡ some (f r)
  found_after r f jobs same e = find-update job_id r.id r.id f same jobs ∙ rw (eq_refl r.id, e) refl

  recover_row-Changed :
      (now : ℕ) (stats : Stats) (db : Database) (o : Option JobRow)
      → ((r : JobRow) → o ≡ some r → find job_id r.id db.jobs ≡ some r)
      → ((recover_row lib now stats db o).1 ≡ db)
        ⊎ Changed now db o (recover_row lib now stats db o).1
  unfolding recover_row transition failed delayed
  recover_row-Changed now stats db none at = inl refl
  recover_row-Changed now stats db (some r) at = elim (Bool-cases (is_expired now r)) [
    | inr miss ↦ rw miss (inl refl)
    | inl hit ↦
        let (e, lease) = is_expired_sound now r hit in
        elim (Bool-cases (leb r.max_attempts r.attempt)) [
          | inl last ↦
              rw (hit, last)
                (inr (
                  r,
                  refl,
                  e,
                  lease,
                  (
                    _,
                    found_after r (failed now "LEASE_EXPIRED" "worker lease expired") db.jobs
                        (λ x. refl) (at r refl),
                    (refl, refl, inr (refl, ground (arith, last))),
                  ),
                ))
          | inr more ↦
              rw (hit, more)
                (inr (
                  r,
                  refl,
                  e,
                  lease,
                  (
                    _,
                    found_after r
                        (delayed now (retry_delay lib r.attempt (some r.id)) "LEASE_EXPIRED"
                          "worker lease expired")
                        db.jobs (λ x. refl) (at r refl),
                    (refl, refl, inl (refl, ground (arith, more))),
                  ),
                ))
        ]
  ]

  -- A visit of the reconciler to a candidate leaves the tables as it found them, or it had the
  -- job's lock, the row was running on a lease that had expired, and the row is now without a
  -- lease and with the code LEASE_EXPIRED, retrying if an attempt was left and failed-terminal if
  -- none was.
  pub recover_one-Recovered :
      (v : Visit) (id : String) (stats : Stats) (db : Database)
      → ((recover_one lib v id stats db).1 ≡ v.between db)
        ⊎ ((v.acquired ≡ true)
            × Changed v.now
                (v.between db)
                (find job_id id (v.between db).jobs)
                (recover_one lib v id stats db).1)
  unfolding recover_one
  recover_one-Recovered v id stats db = elim (Bool-cases v.acquired) [
    | inr miss ↦ rw miss (inl refl)
    | inl hit ↦
        let jobs = (v.between db).jobs in
        rw hit
          (elim (recover_row-Changed v.now stats (v.between db) (find job_id id jobs) (λ r e.
            subst (λ k. find job_id k jobs ≡ some r) (sym (find-key job_id id jobs r e)) e)) [
              | inl same ↦ inl same
              | inr change ↦ inr (refl, change)
            ])
  ]
