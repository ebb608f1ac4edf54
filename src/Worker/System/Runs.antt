-- ===== src/Worker/System/Runs.antt =====
-- The runs of one job over any history: every claim counts as an attempt, so they are bounded.
use honor.Common.{
  ℕ, ◌+◌, ◌≤◌, String, ◌≡◌, inl, inr, refl, sym, ap, ◌∙◌, subst, Option, none, some, arith, ok,
  ◌==◌, eq_iff, if◌then◌else◌, Bool-cases, >>=-eq-ok, ok-injective,
}
use honor.Common.Table.{find, find-key, find-update, update, All-find}
use text.Mathlib.TextPositions.{eq_refl}
use honor.Common.Platform.{Platform}
use honor.Jobs.{JobRow, Database, job_id}
use honor.Jobs.Spec.{check_uuid}
use honor.Jobs.Store.{canonical}
use honor.Worker.Transitions
use honor.Worker.Transitions.{claimed, claim_row, is_claimable}
use honor.Worker.System.Rows.{IsSound}
use honor.Worker.System.Tables.{IsSoundDatabase}
use honor.Worker.System.History.{
  Step, enqueues, claims, History, begin, later, Step-Keeps, History-IsSoundDatabase,
  History-RowPath,
}
use honor.Worker.System.Lifetime.{attempt-le_of_step, RowPath-Grows}

unfoldable pub runs_of : String → Option JobRow → ℕ
runs_of j none = 0
runs_of j (some c) = if c.id == j then 1 else 0

attempt_of : Option JobRow → ℕ
attempt_of none = 0
attempt_of (some r) = r.attempt

same_attempt : {o : Option JobRow} {r s : JobRow} → o ≡ some r → o ≡ some s → r.attempt ≡ s.attempt
unfolding attempt_of
same_attempt {o} {r} {s} p q = ap attempt_of (sym p ∙ q)

-- A claim that returned a row: the row was found queued, and is stored as it was returned.
abbrev ClaimStored : Database → Option JobRow → Database → Type 0
ClaimStored db o db' =
    (c : JobRow)
    → o ≡ some c
    → (r : JobRow) × (find job_id c.id db.jobs ≡ some r)
      × (find job_id c.id db'.jobs ≡ some c)
      × (c.attempt ≡ r.attempt + 1)

claimed-stored :
    (now : ℕ) (db : Database) (r c : JobRow)
    → find job_id r.id db.jobs ≡ some r
    → claimed now r ≡ c
    → (q : JobRow) × (find job_id c.id db.jobs ≡ some q)
      × (find job_id c.id (update job_id r.id (claimed now) db.jobs) ≡ some c)
      × (c.attempt ≡ q.attempt + 1)
claimed-stored now db r c found e =
    subst
      (λ c.
        (q : JobRow) × (find job_id c.id db.jobs ≡ some q)
        × (find job_id c.id (update job_id r.id (claimed now) db.jobs) ≡ some c)
        × (c.attempt ≡ q.attempt + 1))
      e
      (unfold claimed in
        (
          r,
          found,
          (find-update job_id r.id r.id (claimed now) (λ x. refl) db.jobs
              ∙ rw (eq_refl r.id, found) refl),
          refl,
        ))

claim_row-ClaimStored :
    (token : String) (client_now now : ℕ) (db : Database) (o : Option JobRow)
    → ((r : JobRow) → o ≡ some r → find job_id r.id db.jobs ≡ some r)
    → ClaimStored db (claim_row token client_now now db o).0 (claim_row token client_now now db o).1
unfolding claim_row
claim_row-ClaimStored token client_now now db none at = λ c h. cc
claim_row-ClaimStored token client_now now db (some r) at = λ c.
    elim (Bool-cases (is_claimable token client_now r)) [
      | inl free ↦ rw free (λ h. claimed-stored now db r c (at r refl) (cc))
      | inr other ↦ rw other (λ h. cc)
    ]

module _ (lib : Platform) where
  claim-ClaimStored :
      (owner id token : String) (client_now now : ℕ) (db : Database) (o : Option JobRow)
      (db' : Database)
      → Transitions.claim lib owner id token client_now now db ≡ ok (o, db')
      → ClaimStored db o db'
  unfolding Transitions.claim
  claim-ClaimStored owner id token client_now now db o db' h =
      let (_, _, h₁) = >>=-eq-ok (check_uuid lib id) _ h in
      let (_, _, h₂) = >>=-eq-ok (check_uuid lib token) _ h₁ in
      let (_, _, h₃) = >>=-eq-ok (check_uuid lib owner) _ h₂ in
      subst (λ (q : Option JobRow × Database). ClaimStored db q.0 q.1) (ok-injective h₃)
        (claim_row-ClaimStored token client_now now db _ (λ r e.
          subst (λ k. find job_id k db.jobs ≡ some r)
            (sym (find-key job_id (canonical lib id) db.jobs r e)) e))

  -- The row that a step claimed, if it is a claim that got one.
  abbrev pub claimed_by : {db db' : Database} → Step lib db db' → Option JobRow
  claimed_by (claims _ _ _ _ _ o _ _) = o
  claimed_by (enqueues _ _) = none
  claimed_by _ = none

  -- How often a job was claimed along a history.
  unfoldable pub runs : String → {db db' : Database} → History lib db db' → ℕ
  runs j begin = 0
  runs j (later past st) = runs j past + runs_of j (claimed_by st)

  -- What one step does to a job's attempts: at least the claim that it is.
  abbrev Counts : Database → Database → Option JobRow → Type 0
  Counts db db' o =
      (j : String) (r s : JobRow)
      → find job_id j db.jobs ≡ some r
      → find job_id j db'.jobs ≡ some s
      → runs_of j o + r.attempt ≤ s.attempt

  other-Counts : {db db' : Database} → Step lib db db' → Counts db db' none
  unfolding runs_of
  other-Counts st j r s found found' =
      let (t, there, step) = (Step-Keeps lib st).0.jobs_evolve j r found in
      let e = same_attempt there found' in
      let le : r.attempt ≤ t.attempt = attempt-le_of_step r t step in omega arith

  claim-Counts :
      (db db' : Database) (o : Option JobRow)
      → ClaimStored db o db'
      → Counts db db' none
      → Counts db db' o
  unfolding runs_of
  claim-Counts db db' none stored k = k
  claim-Counts db db' (some c) stored k = λ j r s found found'.
      let (q, at, at', e) = stored c refl in
      elim (Bool-cases (c.id == j)) [
        | inl hit ↦
            let same = (eq_iff c.id j).0 hit in
            let e₁ : q.attempt ≡ r.attempt =
              same_attempt at (subst (λ k. find job_id k db.jobs ≡ some r) (sym same) found) in
            let e₂ : c.attempt ≡ s.attempt =
              same_attempt at' (subst (λ k. find job_id k db'.jobs ≡ some s) (sym same) found') in
            rw hit (omega arith)
        | inr miss ↦ rw miss (k j r s found found')
      ]

  Step-Counts : {db db' : Database} (st : Step lib db db') → Counts db db' (claimed_by st)
  Step-Counts {db} (claims owner id token client_now now o db' h) =
      claim-Counts db db' o (claim-ClaimStored owner id token client_now now db o db' h)
        (other-Counts (claims owner id token client_now now o db' h))
  Step-Counts {db} (enqueues q spec) = other-Counts (enqueues q spec)
  Step-Counts {db} st = other-Counts st

  runs-attempt :
      {db db' : Database} (h : History lib db db')
      → (j : String) (r s : JobRow) → find job_id j db.jobs ≡ some r
      → find job_id j db'.jobs ≡ some s
      → runs j h + r.attempt ≤ s.attempt
  unfolding runs
  runs-attempt begin j r s found found' =
      let e : r.attempt ≡ s.attempt = same_attempt found found' in omega arith
  runs-attempt (later {mid} past st) j r s found found' =
      let (q, there, _) = History-RowPath lib past j r found in
      let before : runs j past + r.attempt ≤ q.attempt = runs-attempt past j r q found there in
      let now : runs_of j (claimed_by st) + q.attempt ≤ s.attempt =
        Step-Counts st j q s there found' in
      omega arith

  -- Over any sequence of transactions that starts from sound tables, the number of successful
  -- claims of a stored job, with the attempts that it had before, is at most its max_attempts.
  pub runs-max_attempts :
      {db db' : Database} (h : History lib db db')
      → (j : String) (r : JobRow) → IsSoundDatabase db
      → find job_id j db.jobs ≡ some r
      → runs j h + r.attempt ≤ r.max_attempts
  runs-max_attempts {db} {db'} h j r sound found =
      let (s, there, path) = History-RowPath lib h j r found in
      let (_, m, _, _, _) = RowPath-Grows r s path in
      let within : s.attempt ≤ s.max_attempts =
        (All-find job_id IsSound j db'.jobs (History-IsSoundDatabase lib h sound).rows
          there).within in
      let counted : runs j h + r.attempt ≤ s.attempt = runs-attempt h j r s found there in
      omega arith
